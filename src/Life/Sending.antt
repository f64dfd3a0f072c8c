-- ===== src/Life/Sending.antt =====
-- src/core/connection.cpp: one turn of `sp_responce_senfile`, and one of `conn_respond`.
use evcp.Base.{
  ℕ, ◌+◌, ◌≡◌, ◌<◌, refl, sym, ap, ◌∙◌, inl, inr, [], ◌∷◌, ◌++◌, List, Option, none, some, Bool,
  true, false, Bytes, length, ltb, ◌-◌, arith, Bool-cases, ◌==◌, take, subst,
}
use evcp.Response.{Response, compile_resp}
use evcp.Response.Send
use evcp.Response.Send.{
  Source, FileEnd, SendEnd, drains, send_file, fill_loop, take_in, put_in, respond, respond_loop,
}
use evcp.Response.Layout.{compile_resp_once}
use evcp.Response.Send.Delivery.{take_all}
use evcp.Life.Conn.{
  Conn, Outcome, goes_on, hangs, on_output, at_once, responds, sends_file, conn_close, next,
}
use evcp.Life.Events.{World, file_event, respond_event}

-- A connection that sends a file
abbrev pub sending : Conn → Source → Response → Bytes → Conn
sending c f r out = record c {
  source = f;
  answer = r;
  out = out;
  handler = sends_file;
  event = at_once sends_file;
}

-- What the loop leaves alone
abbrev Same : Response → Response → Type 0
Same r q = (q.sent ≡ r.sent) × (q.h_sent ≡ r.h_sent)

fill_loop-Same : (ss : List (Option ℕ)) (f : Source) (r : Response) → Same r (fill_loop ss f r).2
unfolding fill_loop
fill_loop-Same [] f r = (refl, refl)
fill_loop-Same (none ∷ ss) f r = (refl, refl)
fill_loop-Same (some s ∷ ss) f r =
    let rest : (b : Bool)
        → Same r (fill_loop ss (take_in f s) (record (put_in f r s) { needrefill = b })).2 =
      λ b. fill_loop-Same ss (take_in f s) (record (put_in f r s) { needrefill = b }) in
    elim (Bool-cases (f.fread + s == f.fsize)) [
      | inl all ↦ rw all (refl, refl)
      | inr more ↦ rw more (elim (Bool-cases (r.size == length (r.buf ++ take s f.left))) [
        | inl full ↦ rw full (refl, refl)
        | inr room ↦ rw room (rest r.needrefill)
      ])
    ]

pub filled :
    (ss : List (Option ℕ)) (f f' : Source) (r r' : Response)
    → send_file ss f r ≡ (drains, f', r')
    → Same r r'
unfolding send_file
filled ss f f' r r' e =
    subst (λ (x : FileEnd × Source × Response). Same r x.2) e
      (fill_loop-Same ss f (record r { needrefill = true }))

-- The buffer is filled.
pub fill_step :
    (w : World) (ss : List (Option ℕ)) (c : Conn) (f f' : Source) (r r' : Response) (out : Bytes)
    → r.h_sent ≡ true
    → send_file ss f r ≡ (drains, f', r')
    → file_event w ss (sending c f r out)
      ≡ goes_on (record (sending c f' r' out) { event = on_output responds })
unfolding file_event compile_resp
fill_step w ss c f f' r r' out h e =
    let compiled : compile_resp w.realloc r ≡ r = ground arith in
    ap after (ap (send_file ss f) compiled ∙ e)
  where
    after : FileEnd × Source × Response → Outcome
    after x = elim x.0 [
      | drains ↦ goes_on (record (sending c x.1 x.2 out) { event = on_output responds })
      | Send.read_error ↦ conn_close (sending c x.1 x.2 out)
      | Send.reading ↦ hangs
    ]

-- One `write` takes all.
respond_full :
    (r : Response)
    → r.sent ≡ 0
    → 0 < length r.buf
    → r.needrefill ≡ true
    → respond (length r.buf ∷ []) r ≡ (Send.refills, record r { buf = []; sent = 0 }, r.buf)
unfolding respond respond_loop
respond_full r s n e =
    let some_left : (length r.buf == r.sent) ≡ false = ground arith in
    let some_taken : ltb (length r.buf) 1 ≡ false = ground arith in
    let none_left : (length r.buf == r.sent + length r.buf) ≡ true = ground arith in
    let all : length r.buf - r.sent ≡ length r.buf = omega arith in
    let text : Send.written r (length r.buf) ≡ r.buf =
      ap (λ k. take (length r.buf) (take k r.buf)) all
      ∙ ap (take (length r.buf)) (take_all r.buf)
      ∙ take_all r.buf in
    rw (some_left, some_taken, none_left, e, text) refl

pub drain_step :
    (c : Conn) (f : Source) (r : Response) (out : Bytes)
    → r.sent ≡ 0
    → 0 < length r.buf
    → r.needrefill ≡ true
    → respond_event (length r.buf ∷ []) (record (sending c f r out) { event = on_output responds })
      ≡ goes_on (sending c f (record r { buf = []; sent = 0 }) (out ++ r.buf))
unfolding respond_event
drain_step c f r out s n e = ap after (respond_full r s n e)
  where
    after : SendEnd × Response × Bytes → Outcome
    after x =
        let c' = record (sending c f x.1 (out ++ x.2)) { event = on_output responds } in
        elim x.0 [
          | Send.closed ↦ conn_close c'
          | Send.refills ↦ goes_on (next sends_file c')
          | Send.failed ↦ conn_close c'
          | Send.blocks ↦ hangs
        ]

pub head_made :
    (w : World) (ss : List (Option ℕ)) (f : Source) (r : Response) (c : Conn) (out : Bytes)
    → file_event w ss (sending c f r out)
      ≡ file_event w ss (sending c f (compile_resp w.realloc r) out)
unfolding file_event
head_made w ss f r c out =
    ap (λ (q : Response). after (send_file ss f q)) (sym (compile_resp_once w.realloc r))
  where
    after : FileEnd × Source × Response → Outcome
    after x = elim x.0 [
      | drains ↦ goes_on (record (sending c x.1 x.2 out) { event = on_output responds })
      | Send.read_error ↦ conn_close (sending c x.1 x.2 out)
      | Send.reading ↦ hangs
    ]
