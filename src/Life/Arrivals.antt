-- ===== src/Life/Arrivals.antt =====
-- src/core/connection.cpp: the events in which the bytes of a request come.
use evcp.Base.{sym, ℕ, ◌≡◌, refl, ap, ◌∙◌, [], ◌∷◌, List, Option, some, Bytes, arith, subst}
use evcp.Connection.Read.{Reading, ReadEnd, again_later, processes, bytes, conn_read}
use evcp.Connection.Read.Ends.{Settled}
use evcp.Connection.Read.Pieces.{conn_reads, first_waits}
use evcp.Life.Blocks.{◌>>=◌, Blocks, null, IsOpen}
use evcp.Life.Conn.{Conn, goes_on, first_conn, next, processes_request}
use evcp.Life.Events.{
  World, Input, received, with_reading, read_event, dispatch, run, read_ends, line_parsed,
  line_blocks, head_blocks,
}
use evcp.Life.Phases.{IsSound, Receives, read_event-IsSound}
use evcp.Life.Steps.{run-goes_on, keeps_going}

-- A connection that reads its request
abbrev pub reading_conn : ℕ → Option ℕ → Reading → Blocks → Conn
reading_conn sock fd r b =
    record (with_reading r (record (first_conn null (some sock)) { fd = fd })) { blocks = b }

-- A connection whose request is read, and waits to be processed
abbrev pub to_process : ℕ → Reading → Blocks → Conn
to_process sock r b = next processes_request (reading_conn sock (some sock) r b)

-- The bytes come in pieces, before what comes then.
abbrev pub arrivals : List Bytes → List Input → List Input
arrivals [] is = is
arrivals (b ∷ bs) is = received (bytes b) ∷ arrivals bs is

pub first-Receives : (sock : ℕ) → Receives (first_conn null (some sock))
first-Receives sock = (ground arith, (((λ n. (refl, refl)), (refl, (refl, refl))), refl))

module _ (w : World) (sock : ℕ) (fd : Option ℕ) (text : Bytes) (r : Reading) (b : Blocks)
    (receives : Receives (reading_conn sock fd r b)) where
  read_ends_as :
      (e : ReadEnd)
      → Settled e
      → conn_read w.regrow w.rounds (bytes text) r ≡ e
      → (read_event w (bytes text) (reading_conn sock fd r b)
          ≡ read_ends (line_parsed w.regrow (bytes text) r) e (reading_conn sock (some sock) r b))
        × IsSound
            (read_ends (line_parsed w.regrow (bytes text) r) e (reading_conn sock (some sock) r b))
  unfolding read_event
  read_ends_as e settled k =
      let same =
        ap
          (λ (x : ReadEnd).
            read_ends (line_parsed w.regrow (bytes text) r) x (reading_conn sock (some sock) r b))
          k in
      (
        same,
        subst IsSound same (
            read_event-IsSound w (bytes text) (reading_conn sock fd r b) receives
              (subst Settled (sym k) settled)),
      )

  -- A piece that leaves the connection waiting
  wait_step :
      (r' : Reading)
      → conn_read w.regrow w.rounds (bytes text) r ≡ again_later r'
      → (b' : Blocks) × ((read_event w (bytes text) (reading_conn sock fd r b)
            ≡ goes_on (reading_conn sock (some sock) r' b'))
          × Receives (reading_conn sock (some sock) r' b'))
  unfolding read_ends
  wait_step r' k =
      let (same, sound) = read_ends_as (again_later r') tt k in
      let (b', (goes, (o, p))) =
        keeps_going (line_blocks (line_parsed w.regrow (bytes text) r) r' b) _ sound in
      (b', (same ∙ goes, (o, (p, refl))))

  -- The last piece
  pub read_step :
      (r' : Reading)
      → conn_read w.regrow w.rounds (bytes text) r ≡ processes r'
      → (b' : Blocks) × ((read_event w (bytes text) (reading_conn sock fd r b)
            ≡ goes_on (to_process sock r' b'))
          × (IsOpen b' × (b'.fsendpath ≡ null)))
  unfolding read_ends
  read_step r' k =
      let (same, sound) = read_ends_as (processes r') tt k in
      let (b', (goes, (o, n))) =
        keeps_going (line_blocks (line_parsed w.regrow (bytes text) r) r' b >>= head_blocks r') _
          sound in
      (b', (same ∙ goes, (o, n)))

-- All the pieces but the last one
pub run-arrivals :
    (w : World) (sock : ℕ) (is : List Input) (pieces : List Bytes) (fd : Option ℕ) (r c : Reading)
    (b : Blocks)
    → Receives (reading_conn sock fd r b)
    → conn_reads w.regrow w.rounds pieces r ≡ again_later c
    → (fd' : Option ℕ) × ((b' : Blocks) × ((run w (arrivals pieces is) (reading_conn sock fd r b)
            ≡ run w is (reading_conn sock fd' c b'))
          × Receives (reading_conn sock fd' c b')))
unfolding dispatch
run-arrivals w sock is [] fd r c b h e =
    let same : r ≡ c = cc in
    (
      fd,
      (
        b,
        (
          ap (λ x. run w is (reading_conn sock fd x b)) same,
          subst (λ x. Receives (reading_conn sock fd x b)) same h,
        ),
      ),
    )
run-arrivals w sock is (text ∷ more) fd r c b h e =
    let (r', (first, rest)) =
      first_waits w.regrow w.rounds more c (conn_read w.regrow w.rounds (bytes text) r) e in
    let (b', (goes, h')) = wait_step w sock fd text r b h r' first in
    let (fd'', (b'', (run', h''))) = run-arrivals w sock is more (some sock) r' c b' h' rest in
    (
      fd'',
      (
        b'',
        (
          run-goes_on w (received (bytes text)) (arrivals more is) (reading_conn sock fd r b) _ goes
              ∙ run',
          h'',
        ),
      ),
    )
