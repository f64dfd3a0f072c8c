-- ===== src/Life/Streams.antt =====
-- src/core/connection.cpp: `sp_responce_senfile` and `conn_respond` in turn, until a file is sent.
use evcp.Base.{
  ℕ, ◌+◌, ◌≡◌, ◌<◌, ◌≤◌, refl, sym, ap, ◌∙◌, inl, inr, [], ◌∷◌, ◌++◌, List, Option, true, false,
  Bytes, length, arith, append-nil, append_assoc, subst,
}
use evcp.Response.{Response, compile_resp}
use evcp.Response.Send.{Source, FileEnd, drains, send_file}
use evcp.Response.Send.Delivery.{ReadsWithin, Carries, Drained, send_file-Carries}
use evcp.Life.Blocks.{Blocks, IsOpen, Released}
use evcp.Life.Conn.{
  Conn, Outcome, goes_on, ended, hangs, overruns, faults, on_output, responds, close_file,
}
use evcp.Life.Events.{World, Input, file_read, written, dispatch, run}
use evcp.Life.Steps.{run-goes_on, run-ended, write_step}
use evcp.Life.Sending.{sending, filled, fill_step, drain_step, head_made}

-- What comes while a file is sent behind the head: the buffer is filled from the file, by as many calls of
-- `read` as it takes, and one `write` takes all of it; and so on until the file is read to its end.
pub data Streams : List Input → Source → Response → Type 0 where
  last_part :
      (ss : List (Option ℕ)) (f f' : Source) (r r' : Response)
      → ReadsWithin ss f r
      → send_file ss f r ≡ (drains, f', r')
      → r'.needrefill ≡ false
      → 0 < length r'.buf
      → Streams (file_read ss ∷ written (length r'.buf ∷ []) ∷ []) f r
  next_part :
      (is : List Input) (ss : List (Option ℕ)) (f f' : Source) (r r' : Response)
      → ReadsWithin ss f r
      → send_file ss f r ≡ (drains, f', r')
      → r'.needrefill ≡ true
      → 0 < length r'.buf
      → Streams is f' (record r' { buf = []; sent = 0 })
      → Streams (file_read ss ∷ written (length r'.buf ∷ []) ∷ is) f r

-- What a filled buffer and the rest of the file hold
filled-Carries :
    (ss : List (Option ℕ)) (f f' : Source) (r r' : Response)
    → ReadsWithin ss f r
    → send_file ss f r ≡ (drains, f', r')
    → f.fread + length f.left ≡ f.fsize
    → length r.buf ≤ r.size
    → Carries r.buf f.left f' r' × Drained ss drains f' r'
filled-Carries ss f f' r r' h e size fits =
    subst
      (λ (x : FileEnd × Source × Response). Carries r.buf f.left x.1 x.2 × Drained ss x.0 x.1 x.2) e
      (send_file-Carries r.buf f.left ss f r h (refl, size, fits))

no_bytes : (xs : Bytes) → length xs ≡ 0 → xs ≡ []
no_bytes [] e = refl
no_bytes (x ∷ xs) e = absurd (omega arith)

all_read :
    (f : Source) (r : Response)
    → f.fread + length f.left ≡ f.fsize
    → Drained [] drains f r
    → r.needrefill ≡ false
    → f.left ≡ []
all_read f r size (inl (e, n)) k = no_bytes f.left (omega arith)
all_read f r size (inr (e, n)) k = absurd (cc)

-- However the file is read and sent piece by piece, the socket gets what the buffer holds and all of the file
-- that is left, once and in its order, and the connection is closed with none of its blocks left.
pub run-Streams :
    (w : World) (is : List Input) (f : Source) (r : Response) (c : Conn) (out : Bytes)
    → Streams is f r
    → IsOpen c.blocks
    → r.h_sent ≡ true
    → r.sent ≡ 0
    → f.fread + length f.left ≡ f.fsize
    → length r.buf ≤ r.size
    → (b : Blocks) × ((run w is (sending c f r out)
          ≡ ended b (close_file c.fd c.files) (out ++ (r.buf ++ f.left)))
        × Released b)
unfolding dispatch
run-Streams w _ _ _ c out (last_part ss f f' r r' h e n k) o head z size fits =
    let (sent, h_sent) = filled ss f f' r r' e in
    let ((text, size', fits'), drained) = filled-Carries ss f f' r r' h e size fits in
    let all : r'.buf ≡ r.buf ++ f.left =
      sym (append-nil r'.buf)
      ∙ ap (λ x. r'.buf ++ x) (sym (all_read f' r' size' drained n))
      ∙ text in
    let c' = record (sending c f' r' out) { event = on_output responds } in
    let (b, (goes, left)) = write_step c' r'.buf refl o (sent ∙ z) k n in
    (
      b,
      (
        run-goes_on w (file_read ss) _ (sending c f r out) c'
              (fill_step w ss c f f' r r' out head e)
            ∙ run-ended w (written (length r'.buf ∷ [])) [] c' b (close_file c.fd c.files)
                (out ++ r'.buf) goes
            ∙ ap (λ (x : Bytes). ended b (close_file c.fd c.files) (out ++ x)) all,
        left,
      ),
    )
run-Streams w _ _ _ c out (next_part is ss f f' r r' h e n k more) o head z size fits =
    let (sent, h_sent) = filled ss f f' r r' e in
    let ((text, size', fits'), drained) = filled-Carries ss f f' r r' h e size fits in
    let emptied = record r' { buf = []; sent = 0 } in
    let c' = record (sending c f' r' out) { event = on_output responds } in
    let c'' = sending c f' emptied (out ++ r'.buf) in
    let (b, (goes, left)) =
      run-Streams w is f' emptied c (out ++ r'.buf) more o (h_sent ∙ head) refl size'
        (omega arith) in
    (
      b,
      (
        run-goes_on w (file_read ss) _ (sending c f r out) c'
              (fill_step w ss c f f' r r' out head e)
            ∙ run-goes_on w (written (length r'.buf ∷ [])) is c' c''
                (drain_step c f' r' out (sent ∙ z) k n)
            ∙ goes
            ∙ ap (ended b (close_file c.fd c.files))
                (append_assoc out r'.buf f'.left ∙ ap (λ (x : Bytes). out ++ x) text),
        left,
      ),
    )

run-alike :
    (w : World) (i : Input) (is : List Input) (c d : Conn)
    → dispatch w c.event i c ≡ dispatch w d.event i d
    → run w (i ∷ is) c ≡ run w (i ∷ is) d
unfolding run
run-alike w i is c d e =
    ap
      (λ (x : Outcome). elim x as (λ _. Outcome) [
        | goes_on c' ↦ run w is c'
        | ended b fs out ↦ ended b fs out
        | hangs ↦ hangs
        | overruns ↦ overruns
        | faults ↦ faults
      ])
      e

-- The head is made in the first of the events.
pub run-head :
    (w : World) (is : List Input) (f : Source) (q r : Response) (c : Conn) (out : Bytes)
    → Streams is f q
    → run w is (sending c f r out) ≡ run w is (sending c f (compile_resp w.realloc r) out)
unfolding dispatch
run-head w _ _ _ r c out (last_part ss f f' q q' h e n k) =
    run-alike w (file_read ss) _ (sending c f r out) (sending c f (compile_resp w.realloc r) out)
      (head_made w ss f r c out)
run-head w _ _ _ r c out (next_part is ss f f' q q' h e n k more) =
    run-alike w (file_read ss) _ (sending c f r out) (sending c f (compile_resp w.realloc r) out)
      (head_made w ss f r c out)
