-- ===== src/Life/Sound.antt =====
-- src/core/connection.cpp: no event uses memory that has been freed, and `conn_close` leaves none.
use evcp.Base.{
  ℕ, ◌≡◌, ◌≢◌, refl, inl, inr, [], ◌∷◌, ◌++◌, List, Option, some, false, Bytes, Bool-cases, arith,
  subst, ltb,
}
use evcp.Connection.Process.{is_command, Asked, Answer, System, process_request}
use evcp.Connection.Process
use evcp.Connection.Read.{moved}
use evcp.Life.Unread.{conn_read-Settled}
use evcp.Console.State.{finish_request, same_handler}
use evcp.Response.{Response, compile_resp}
use evcp.Response.Send
use evcp.Response.Send.{respond, send_file, Source, SendEnd, FileEnd}
use evcp.Life.Blocks.{Pointer, null, freed, IsOpen}
use evcp.Life.Conn.{
  Conn, Event, on_input, on_output, at_once, idle, Handler, conn_close, Outcome, goes_on, ended,
  hangs, overruns, faults, Tls, started, u_long, conn_init, first_conn, reads, processes_request,
  finishes_request, sends_file, responds, command,
}
use evcp.Life.Conn
use evcp.Life.Events.{
  World, Input, received, moment, written, file_read, answered, path_after, path_pointer,
  process_event, file_event, respond_event, dispatch, run, next_handler, asked,
}
use evcp.Life.Phases.{Later, Phase, IsSound, conn_close-IsSound, read_event-IsSound}

path_pointer-ne-freed : (sys : System) (q : Asked) (a : Answer) → path_pointer sys q a ≢ freed
unfolding path_pointer
path_pointer-ne-freed sys q a = ground arith

path_after-ne-freed :
    (sys : System) (q : Asked) (a : Answer) (p : Pointer)
    → p ≡ null
    → (p' : Pointer) × ((path_after sys q a p ≡ some p') × (p' ≢ freed))
unfolding path_after
path_after-ne-freed sys q a p e = elim (Bool-cases (is_command q.uri)) [
  | inl y ↦ (p, (rw y refl, λ f. cc))
  | inr n ↦ (path_pointer sys q a, (rw (n, e) refl, path_pointer-ne-freed sys q a))
]

next_handler-Phase :
    (h : Process.Handler) (c : Conn)
    → c.handler ≡ next_handler h
    → Phase (at_once (next_handler h)) c
next_handler-Phase Process.sp_finish_request c e = tt
next_handler-Phase Process.sp_responce_senfile c e = rw e tt
next_handler-Phase Process.returned c e = rw e tt

pub process_event-IsSound :
    (w : World) (c : Conn)
    → IsOpen c.blocks
    → c.blocks.fsendpath ≡ null
    → IsSound (process_event w c)
unfolding process_event
process_event-IsSound w c o n =
    let q = asked c.reading in
    let a = process_request w.system q c.answer.h_out in
    let (p, (e, h)) = path_after-ne-freed w.system q a c.blocks.fsendpath n in
    rw e (ground (arith, h), next_handler-Phase a.handler _ refl)

file_event-IsSound :
    (w : World) (ss : List (Option ℕ)) (c : Conn)
    → IsOpen c.blocks
    → Later c.handler
    → IsSound (file_event w ss c)
unfolding file_event
file_event-IsSound w ss c o l = ended_in (send_file ss c.source (compile_resp w.realloc c.answer))
  where
    ended_in :
        (x : FileEnd × Source × Response)
        → IsSound (elim x.0 [
          | Send.drains ↦
              goes_on (record c { source = x.1; answer = x.2; event = on_output responds })
          | Send.read_error ↦ conn_close (record c { source = x.1; answer = x.2 })
          | Send.reading ↦ hangs
        ])
    ended_in (Send.drains, f, r) = (o, l)
    ended_in (Send.read_error, f, r) = conn_close-IsSound (record c { source = f; answer = r }) o
    ended_in (Send.reading, f, r) = tt

Later-Phase : (h : Handler) (c : Conn) → Later h → c.handler ≡ h → Phase (at_once h) c
Later-Phase reads c l e = absurd l
Later-Phase processes_request c l e = absurd l
Later-Phase finishes_request c l e = tt
Later-Phase sends_file c l e = rw e tt
Later-Phase responds c l e = rw e tt
Later-Phase command c l e = rw e tt

respond_event-IsSound :
    (ws : List ℕ) (c : Conn) → IsOpen c.blocks → Later c.handler → IsSound (respond_event ws c)
unfolding respond_event
respond_event-IsSound ws c o l = ended_in (respond ws c.answer)
  where
    ended_in :
        (x : SendEnd × Response × Bytes)
        → IsSound (elim x.0 [
          | Send.closed ↦ conn_close (record c { answer = x.1; out = c.out ++ x.2 })
          | Send.refills ↦
              goes_on (Conn.next c.handler (record c { answer = x.1; out = c.out ++ x.2 }))
          | Send.failed ↦ conn_close (record c { answer = x.1; out = c.out ++ x.2 })
          | Send.blocks ↦ hangs
        ])
    ended_in (Send.closed, r, out) =
        conn_close-IsSound (record c { answer = r; out = c.out ++ out }) o
    ended_in (Send.refills, r, out) = (o, Later-Phase c.handler _ l refl)
    ended_in (Send.failed, r, out) =
        conn_close-IsSound (record c { answer = r; out = c.out ++ out }) o
    ended_in (Send.blocks, r, out) = tt

-- One event keeps a connection sound.
dispatch-IsSound :
    (w : World) (e : Event) (i : Input) (c : Conn)
    → ((n : ℕ) → w.regrow n ≢ moved)
    → c.event ≡ e
    → IsOpen c.blocks
    → Phase e c
    → IsSound (dispatch w e i c)
unfolding dispatch
dispatch-IsSound w (on_input reads) (received got) c h e o p =
    read_event-IsSound w got c (o, (p, e)) (conn_read-Settled w.regrow w.rounds got c.reading h)
dispatch-IsSound w (at_once processes_request) moment c h e o p = process_event-IsSound w c o p
dispatch-IsSound w (at_once finishes_request) moment c h e o p =
    unfold Conn.finish_request in (o, tt)
dispatch-IsSound w (at_once sends_file) (file_read ss) c h e o p = file_event-IsSound w ss c o p
dispatch-IsSound w (on_output responds) (written ws) c h e o p = respond_event-IsSound ws c o p
dispatch-IsSound w (at_once responds) (written ws) c h e o p = respond_event-IsSound ws c o p
dispatch-IsSound w (at_once command) (answered finish_request r) c h e o p = (o, tt)
dispatch-IsSound w (at_once command) (answered same_handler r) c h e o p = (o, p)
dispatch-IsSound w _ i c h e o p = rw e (o, p)

run-Sound :
    (w : World) (is : List Input) (c : Conn)
    → ((n : ℕ) → w.regrow n ≢ moved)
    → IsOpen c.blocks
    → Phase c.event c
    → IsSound (run w is c)
unfolding run
run-Sound w [] c stays o p = (o, p)
run-Sound w (i ∷ is) c stays o p =
    goes (dispatch w c.event i c) (dispatch-IsSound w c.event i c stays refl o p)
      (λ c' o' p'. run-Sound w is c' stays o' p')
  where
    goes :
        (x : Outcome)
        → IsSound x
        → ((c' : Conn) → IsOpen c'.blocks → Phase c'.event c' → IsSound (run w is c'))
        → IsSound (elim x [
          | goes_on c' ↦ run w is c'
          | ended b fs out ↦ ended b fs out
          | hangs ↦ hangs
          | overruns ↦ overruns
          | faults ↦ faults
        ])
    goes (goes_on c') h k = k c' h.0 h.1
    goes (ended b fs out) h k = h
    goes hangs h k = tt
    goes overruns h k = tt
    goes faults h k = h

-- As long as `realloc` does not move the buffer of the request to another place: from the moment that
-- `conn_init` has taken up a connection without TLS no event, whatever comes and in whatever order, uses
-- memory that has been freed or loses a block, and when the connection is closed none of its blocks
-- is left.
pub run-IsSound :
    (w : World) (is : List Input) (tls : Tls) (s : Option ℕ) (c : Conn)
    → ((n : ℕ) → w.regrow n ≢ moved)
    → conn_init false tls s ≡ started c
    → IsSound (run w is c)
unfolding conn_init
run-IsSound w is tls s c stays e = elim (Bool-cases (ltb (u_long s) 1)) [
  | inl y ↦ absurd (let f = rw y at e in cc)
  | inr n ↦
      let f : started (first_conn null s) ≡ started c = rw n at e in
      let same : first_conn null s ≡ c = cc in
      subst (λ x. IsSound (run w is x)) same
        (run-Sound w is (first_conn null s) stays (ground arith)
          ((λ n. (refl, refl)), (refl, (refl, refl))))
]
