-- ===== src/Life/Phases.antt =====
-- src/core/connection.cpp: what holds of a connection between its events; `conn_read` and `conn_close`.
use evcp.Base.{
  ℕ, ◌≡◌, refl, sym, ap, ◌∙◌, inl, inr, Option, none, some, Bool, true, false, Option-cases, arith,
  subst,
}
use evcp.Connection.Read
use evcp.Connection.Read.{
  Reading, Got, ReadEnd, again_later, processes, finishes, closes, spins, dangles, conn_read,
}
use evcp.Life.Blocks.{null, live, Blocks, IsOpen, Released, close_blocks-Released}
use evcp.Life.Conn.{
  Conn, Event, on_input, on_output, at_once, idle, Handler, conn_close, Outcome, goes_on, ended,
  hangs, overruns, faults, Tls, started, u_long, conn_init, first_conn, reads, processes_request,
  finishes_request, sends_file, responds, command,
}
use evcp.Life.Conn
use evcp.Life.Events.{World, line_parsed, line_blocks, head_blocks, read_ends, read_event}
use evcp.Connection.Read.Ends.{Settled}
use evcp.Life.Unread.{Unread, conn_read-Unread, line_parsed-once}

-- The handlers that come behind `sp_process_request`
abbrev pub Later : Handler → Type 0
Later reads = ⊥
Later processes_request = ⊥
Later _ = Unit

-- Nothing is made of a request yet whose line is not complete.
abbrev pub Unmade : Option ℕ → Blocks → Type 0
Unmade old b = old ≡ none → (b.list ≡ null) × (b.get_vars ≡ null)

-- What holds while an event is waited for
abbrev pub Phase : Event → Conn → Type 0
Phase (on_input reads) c =
    Unmade c.reading.request.request_end c.blocks
    × ((c.blocks.post_vars ≡ null) × ((c.blocks.cookies ≡ null) × (c.blocks.fsendpath ≡ null)))
Phase (at_once processes_request) c = (c.blocks.fsendpath ≡ null)
Phase (at_once finishes_request) c = Unit
Phase _ c = Later c.handler

-- A connection that goes on has its blocks, and one that is closed has freed them.
abbrev pub IsSound : Outcome → Type 0
IsSound (goes_on c) = IsOpen c.blocks × Phase c.event c
IsSound (ended b fs out) = Released b
IsSound hangs = Unit
IsSound overruns = Unit
IsSound faults = ⊥

-- `conn_close` on a connection that is open
pub conn_close-ends :
    (c : Conn)
    → IsOpen c.blocks
    → (b : Blocks) × ((conn_close c ≡ ended b (Conn.close_file c.fd c.files) c.out) × Released b)
unfolding conn_close
conn_close-ends c o =
    let (b, e, r) = close_blocks-Released c.blocks o in
    (
      b,
      (
        ap
            (λ (x : Option Blocks). elim x as (λ _. Outcome) [
              | none ↦ faults
              | some b' ↦ ended b' (Conn.close_file c.fd c.files) c.out
            ])
            e,
        r,
      ),
    )

pub conn_close-IsSound : (c : Conn) → IsOpen c.blocks → IsSound (conn_close c)
conn_close-IsSound c o = let (b, (e, r)) = conn_close-ends c o in subst IsSound (sym e) r

-- The blocks that a request line leaves alone
abbrev Beside : Blocks → Blocks → Type 0
Beside b b' =
    (b'.post_vars ≡ b.post_vars) × ((b'.cookies ≡ b.cookies) × (b'.fsendpath ≡ b.fsendpath))

line_blocks-IsOpen :
    (made : Bool) (r : Reading) (b : Blocks)
    → IsOpen b
    → (made ≡ true → (b.list ≡ null) × (b.get_vars ≡ null))
    → (b' : Blocks) × ((line_blocks made r b ≡ some b')
        × (IsOpen b'
            × (Beside b b' × (made ≡ false → (b'.list ≡ b.list) × (b'.get_vars ≡ b.get_vars)))))
unfolding line_blocks
line_blocks-IsOpen false r b o h = (b, (refl, (o, ((refl, (refl, refl)), λ e. (refl, refl)))))
line_blocks-IsOpen true r b o h = elim (Option-cases r.get_vars) [
  | inl n ↦ (
    record b { list = live },
    (ground (arith, h refl), (ground arith, ((refl, (refl, refl)), λ e. cc))),
  )
  | inr (m, k) ↦ (
    record b { list = live; get_vars = live },
    (ground (arith, h refl), (ground arith, ((refl, (refl, refl)), λ e. cc))),
  )
]

head_blocks-IsOpen :
    (r : Reading) (b : Blocks)
    → IsOpen b
    → b.post_vars ≡ null
    → b.cookies ≡ null
    → (b' : Blocks) × ((head_blocks r b ≡ some b') × (IsOpen b' × (b'.fsendpath ≡ b.fsendpath)))
unfolding head_blocks
head_blocks-IsOpen r b o p c = elim (Option-cases r.post) [
  | inl n ↦ (record b { cookies = live }, (ground arith, (ground arith, refl)))
  | inr (m, k) ↦
      (record b { cookies = live; post_vars = live }, (ground arith, (ground arith, refl)))
]

-- A connection whose request is being read
abbrev pub Receives : Conn → Type 0
Receives c = IsOpen c.blocks × (Phase (on_input reads) c × (c.event ≡ on_input reads))

read_ends-IsSound :
    (made : Bool) (e : ReadEnd) (c : Conn)
    → Receives c
    → (made ≡ true → c.reading.request.request_end ≡ none)
    → Unread made c.reading.request.request_end e
    → Settled e
    → IsSound (read_ends made e c)
unfolding read_ends
read_ends-IsSound made (again_later r) c (o, ((unmade, (p, (k, f))), ev)) once unread settled =
    let (b, (e, (o', ((p', (k', f')), same)))) =
      line_blocks-IsOpen made r c.blocks o (λ m. unmade (once m)) in
    let unmade' : Unmade r.request.request_end b = λ n.
      let (m, old) = unread n in
      let (l, g) = same m in let (l', g') = unmade old in (l ∙ l', g ∙ g') in
    rw (e, ev) (o', (unmade', (p' ∙ p, (k' ∙ k, f' ∙ f))))
read_ends-IsSound made (processes r) c (o, ((unmade, (p, (k, f))), ev)) once unread settled =
    let (b, (e, (o', ((p', (k', f')), same)))) =
      line_blocks-IsOpen made r c.blocks o (λ m. unmade (once m)) in
    let (b2, (e2, (o2, f2))) = head_blocks-IsOpen r b o' (p' ∙ p) (k' ∙ k) in
    rw (e, e2) (o2, f2 ∙ f' ∙ f)
read_ends-IsSound made (finishes r) c (o, ((unmade, _), ev)) once unread settled =
    let (b, (e, (o', _))) = line_blocks-IsOpen made r c.blocks o (λ m. unmade (once m)) in
    rw e (o', tt)
read_ends-IsSound made closes c (o, _) once unread settled = conn_close-IsSound c o
read_ends-IsSound made Read.overruns c h once unread settled = tt
read_ends-IsSound made spins c h once unread settled = tt
read_ends-IsSound made dangles c h once unread settled = settled

pub read_event-IsSound :
    (w : World) (got : Got) (c : Conn)
    → Receives c
    → Settled (conn_read w.regrow w.rounds got c.reading)
    → IsSound (read_event w got c)
unfolding read_event
read_event-IsSound w got c h settled =
    read_ends-IsSound (line_parsed w.regrow got c.reading)
      (conn_read w.regrow w.rounds got c.reading) (record c { fd = c.sock }) h
      (line_parsed-once w.regrow got c.reading) (conn_read-Unread w.regrow w.rounds got c.reading)
      settled
