-- ===== src/Life/Steps.antt =====
-- src/core/connection.cpp: the four events of a request for a file, one after the other.
use evcp.Base.{
  ℕ, suc, ◌≡◌, ◌≢◌, ◌<◌, refl, ap, ◌∙◌, [], ◌∷◌, ◌++◌, List, Option, none, some, false, Bytes,
  length, take, arith, subst, append-nil,
}
use evcp.Connection.Process.{Answer, Stat, process_request}
use evcp.Connection.Read.{Reading}
use evcp.Response.{Response}
use evcp.Response.Send
use evcp.Response.Send.{Source, FileEnd, SendEnd, drains, closed, send_file, take_in, respond}
use evcp.Response.Send.Delivery.{take_all, respond-pieces}
use evcp.Life.Blocks.{Blocks, null, IsOpen, Released}
use evcp.Life.Conn.{
  Conn, Outcome, goes_on, ended, hangs, overruns, faults, next, conn_close, close_file,
}
use evcp.Life.Events.{
  World, Input, keep_going, dispatch, run, asked, processed, process_event, path_after,
  respond_event,
}
use evcp.Life.Phases.{IsSound, conn_close-ends}
use evcp.Life.Sound.{process_event-IsSound}
use evcp.Life.Asks.{file_answer, Asks, process_request-sends}

pub run-goes_on :
    (w : World) (i : Input) (is : List Input) (c c' : Conn)
    → dispatch w c.event i c ≡ goes_on c'
    → run w (i ∷ is) c ≡ run w is c'
unfolding run
run-goes_on w i is c c' e =
    ap
      (λ (x : Outcome). elim x as (λ _. Outcome) [
        | goes_on d ↦ run w is d
        | ended b fs out ↦ ended b fs out
        | hangs ↦ hangs
        | overruns ↦ overruns
        | faults ↦ faults
      ])
      e

pub run-ended :
    (w : World) (i : Input) (is : List Input) (c : Conn) (b : Blocks) (fs : List ℕ) (out : Bytes)
    → dispatch w c.event i c ≡ ended b fs out
    → run w (i ∷ is) c ≡ ended b fs out
unfolding run
run-ended w i is c b fs out e =
    ap
      (λ (x : Outcome). elim x as (λ _. Outcome) [
        | goes_on d ↦ run w is d
        | ended b' fs' out' ↦ ended b' fs' out'
        | hangs ↦ hangs
        | overruns ↦ overruns
        | faults ↦ faults
      ])
      e

pub keeps_going :
    {A : Type 0} (o : Option A) (k : A → Conn)
    → IsSound (keep_going o k)
    → (a : A) × ((keep_going o k ≡ goes_on (k a)) × IsSound (goes_on (k a)))
keeps_going none k h = absurd h
keeps_going (some a) k h = (a, (refl, h))

-- A connection that waits for `sp_responce_senfile`
abbrev pub to_send : World → Stat → ℕ → Reading → Conn → Blocks → Conn
to_send w st fd r c b = let q = asked r in processed w q (file_answer w.system q st (suc fd)) b c

pub process_step :
    (w : World) (st : Stat) (fd : ℕ) (c : Conn)
    → Asks w.system (asked c.reading) st fd
    → c.answer.h_out ≡ []
    → IsOpen c.blocks
    → c.blocks.fsendpath ≡ null
    → (b : Blocks) × ((process_event w c ≡ goes_on (to_send w st fd c.reading c b)) × IsOpen b)
unfolding process_event
process_step w st fd c h none_yet o n =
    let q = asked c.reading in
    let answer =
      ap (process_request w.system q) none_yet ∙ process_request-sends w.system q st fd h in
    let after : Answer → Outcome = λ a.
      keep_going (path_after w.system q a c.blocks.fsendpath)
        (λ p. processed w q a (record c.blocks { fsendpath = p }) c) in
    let same = ap after answer in
    let a = file_answer w.system q st (suc fd) in
    let (p, (goes, (open_, _))) =
      keeps_going (path_after w.system q a c.blocks.fsendpath)
        (λ p. processed w q a (record c.blocks { fsendpath = p }) c)
        (subst IsSound same (process_event-IsSound w c o n)) in
    (record c.blocks { fsendpath = p }, (same ∙ goes, open_))

-- One `write` takes all, and the connection is closed.
write_whole :
    (c : Conn)
    → IsOpen c.blocks
    → c.answer.sent ≡ 0
    → 0 < length c.answer.buf
    → c.answer.needrefill ≡ false
    → (b : Blocks) × ((respond_event (length c.answer.buf ∷ []) c
          ≡ ended b (close_file c.fd c.files) (c.out ++ c.answer.buf))
        × Released b)
unfolding respond_event
write_whole c o s n e =
    let buf = c.answer.buf in
    let (how, out) = respond-pieces (length buf ∷ []) c.answer s (n, omega arith, omega arith) e in
    ended_in (respond (length buf ∷ []) c.answer) how
      (out ∙ append-nil (take (length buf) buf) ∙ take_all buf)
  where
    ended_in :
        (x : SendEnd × Response × Bytes)
        → x.0 ≡ closed
        → x.2 ≡ c.answer.buf
        → (b : Blocks) × ((elim x.0 [
          | closed ↦ conn_close (record c { answer = x.1; out = c.out ++ x.2 })
          | Send.refills ↦ goes_on (next c.handler (record c { answer = x.1; out = c.out ++ x.2 }))
          | Send.failed ↦ conn_close (record c { answer = x.1; out = c.out ++ x.2 })
          | Send.blocks ↦ hangs
        ]
              ≡ ended b (close_file c.fd c.files) (c.out ++ c.answer.buf))
            × Released b)
    ended_in (closed, r, out) how same =
        let (b, (goes, left)) = conn_close-ends (record c { answer = r; out = c.out ++ out }) o in
        (b, (goes ∙ ap (λ (x : Bytes). ended b (close_file c.fd c.files) (c.out ++ x)) same, left))
    ended_in (Send.refills, r, out) how same = absurd (cc)
    ended_in (Send.failed, r, out) how same = absurd (cc)
    ended_in (Send.blocks, r, out) how same = absurd (cc)

pub write_step :
    (c : Conn) (text : Bytes)
    → c.answer.buf ≡ text
    → IsOpen c.blocks
    → c.answer.sent ≡ 0
    → 0 < length text
    → c.answer.needrefill ≡ false
    → (b : Blocks) × ((respond_event (length text ∷ []) c
          ≡ ended b (close_file c.fd c.files) (c.out ++ text))
        × Released b)
write_step c text same o s n e =
    subst
      (λ (t : Bytes).
        (b : Blocks) × ((respond_event (length t ∷ []) c
            ≡ ended b (close_file c.fd c.files) (c.out ++ t))
          × Released b))
      same (write_whole c o s (rw same n) e)

pub socket_closed : (s f : ℕ) → s ≢ f → close_file (some s) (f ∷ s ∷ []) ≡ f ∷ []
socket_closed s f h = ground arith
