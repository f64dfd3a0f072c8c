-- ===== src/Request/Line/Resume.antt =====
-- A request line that arrives in parts: the parser stops with `NGX_AGAIN` at the end of the buffer,
-- and goes on when `conn_read` has appended more.
use evcp.Base.{
  ℕ, ◌+◌, ◌≤◌, ◌≡◌, refl, ◌⊎◌, inl, inr, [], ◌∷◌, ◌++◌, Bytes, length, drop, drop-append,
  drop-append_length, length-drop, arith, ◌*◌, ◌==◌, ◌&&◌, not, Bool-cases,
}
use evcp.Request.Http
use evcp.Request.Method.{method_of-append}
use evcp.Request.Line.{step_line, line_done, after_step, line_loop, parse_request_line}
use evcp.Request.{
  ParseError, Code, ok, again, header_done, error, LineState, start, method, Request, Outcome, go,
  done, finished, fail,
}

-- `r` with another `pos` and another `state`.
abbrev pub moved : ℕ → LineState → Request → Request
moved a t r = record r { pos = a; line_state = t }

abbrev map_outcome : {S : Type 0} → (Request → Request) → Outcome S → Outcome S
map_outcome f (go s r) = go s (f r)
map_outcome f (done r) = done (f r)
map_outcome f (finished r) = finished (f r)
map_outcome f (fail e r) = fail e (f r)

-- A step neither reads nor writes the two fields.
step_line-moved :
    (buf : Bytes) (s : LineState) (r : Request) (p ch a : ℕ) (t : LineState)
    → step_line buf s (moved a t r) p ch ≡ map_outcome (moved a t) (step_line buf s r p ch)
unfolding step_line
step_line-moved buf start r p ch a t = ground arith
step_line-moved buf _ r p ch a t = ground arith

-- Nor does it look behind the character it is at.
step_line-append :
    (buf more : Bytes) (s : LineState) (r : Request) (p ch : ℕ)
    → p ≤ length buf
    → step_line (buf ++ more) s r p ch ≡ step_line buf s r p ch
unfolding step_line
step_line-append buf more method r p ch h =
    rw (method_of-append buf more r.request_start r.method p h)
step_line-append buf more _ r p ch h = refl

-- The two results are the same, but for `pos` and `state` after an error: these keep what they
-- were when the call that met the error began.
abbrev pub Agrees : Code × Request → Code × Request → Type 0
Agrees x y =
    (x ≡ y)
    ⊎ ((e : ParseError) × (a : ℕ) × (t : LineState) × (x.0 ≡ error e) × (y ≡ (x.0, moved a t x.1)))

-- What `first`, the result on a part of the input, says of `whole`, the result on all of it.
-- `second` is the result of going on from there.
abbrev pub Resumes : ℕ → (Request → Code × Request) → Code × Request → Code × Request → Type 0
Resumes size second (again, r) whole = (r.pos ≡ size) × Agrees (second r) whole
Resumes size second first whole = first ≡ whole

Resumes-change :
    (size : ℕ) (f g : Request → Code × Request) (first whole : Code × Request)
    → ((r : Request) → r.pos ≡ size → f r ≡ g r)
    → Resumes size f first whole
    → Resumes size g first whole
Resumes-change size f g (again, r) whole h (e, a) = (e, rw (h r e) at a)
Resumes-change size f g (ok, r) whole h e = e
Resumes-change size f g (header_done, r) whole h e = e
Resumes-change size f g (error _, r) whole h e = e

after_step-moved :
    (o : Outcome LineState) (p a : ℕ) (t : LineState) (rest : LineState → Request → Code × Request)
    → ((s : LineState) (r : Request) → Agrees (rest s r) (rest s (moved a t r)))
    → Agrees (after_step o p rest) (after_step (map_outcome (moved a t) o) p rest)
unfolding line_done
after_step-moved (go s r) p a t rest h = h s r
after_step-moved (done r) p a t rest h = inl (ground arith)
after_step-moved (finished r) p a t rest h = inl (ground arith)
after_step-moved (fail e r) p a t rest h = inr (e, a, t, refl, refl)

line_done-Resumes :
    (size : ℕ) (second : Request → Code × Request) (r : Request) (p : ℕ)
    → Resumes size second (line_done r p) (line_done r p)
unfolding line_done
line_done-Resumes size second r p =
    elim (Bool-cases (r.http_major * 1000 + r.http_minor == 9 && not (r.method == Http.get))) [
      | inl e ↦ rw e refl
      | inr e ↦ rw e refl
    ]

after_step-Resumes :
    (size : ℕ) (second : Request → Code × Request) (o : Outcome LineState) (p : ℕ)
    (f g : LineState → Request → Code × Request)
    → ((s : LineState) (r : Request) → Resumes size second (f s r) (g s r))
    → Resumes size second (after_step o p f) (after_step o p g)
after_step-Resumes size second (go s r) p f g h = h s r
after_step-Resumes size second (done r) p f g h = line_done-Resumes size second r p
after_step-Resumes size second (finished r) p f g h = line_done-Resumes size second r p
after_step-Resumes size second (fail e r) p f g h = refl

module _ (buf : Bytes) where
  line_loop-moved :
      (rest : Bytes) (s : LineState) (r : Request) (p a : ℕ) (t : LineState)
      → Agrees (line_loop buf s r p rest) (line_loop buf s (moved a t r) p rest)
  unfolding line_loop
  line_loop-moved [] s r p a t = inl refl
  line_loop-moved (ch ∷ rest) s r p a t = rw (step_line-moved buf s r p ch a t) (
      after_step-moved (step_line buf s r p ch) p a t (λ s' r'. line_loop buf s' r' (p + 1) rest)
        (λ s' r'. line_loop-moved rest s' r' (p + 1) a t))

module _ (buf more : Bytes) where
  abbrev second : Request → Code × Request
  second r = line_loop (buf ++ more) r.line_state r r.pos more

  line_loop-Resumes :
      (rest : Bytes) (s : LineState) (r : Request) (p : ℕ)
      → p + length rest ≡ length buf
      → Resumes
          (length buf)
          second
          (line_loop buf s r p rest)
          (line_loop (buf ++ more) s r p (rest ++ more))
  unfolding line_loop
  line_loop-Resumes [] s r p h =
      (omega arith, line_loop-moved (buf ++ more) more s (moved p s r) p r.pos r.line_state)
  line_loop-Resumes (ch ∷ rest) s r p h = rw (step_line-append buf more s r p ch (omega arith)) (
      after_step-Resumes (length buf) second (step_line buf s r p ch) p _ _
        (λ s' r'. line_loop-Resumes rest s' r' (p + 1) (omega arith)))

-- If a call on the bytes that have come stops with `NGX_AGAIN`, then the call that goes on when
-- `more` has come gives what one call on all the bytes gives: the same code and the same request,
-- but that after an error `pos` and `state` are those that the failing call began with. If the
-- first call is done, or fails, then more bytes change nothing of it.
pub parse_request_line-Resumes :
    (buf more : Bytes) (r : Request)
    → r.pos ≤ length buf
    → Resumes
        (length buf)
        (parse_request_line (buf ++ more))
        (parse_request_line buf r)
        (parse_request_line (buf ++ more) r)
unfolding parse_request_line
parse_request_line-Resumes buf more r h =
    Resumes-change (length buf) (second buf more) (parse_request_line (buf ++ more)) _ _
      (λ r' e. rw (e, drop-append_length buf more))
      (rw (drop-append r.pos buf more h) (
        line_loop-Resumes buf more (drop r.pos buf) r.line_state r r.pos
          (omega (arith, length-drop r.pos buf))))
