-- ===== src/Request/Header/Resume.antt =====
-- A header line that arrives in parts: the parser stops with `NGX_AGAIN` at the end of the buffer,
-- and goes on when `conn_read` has appended more.
use evcp.Base.{
  ℕ, ◌+◌, ◌≤◌, ◌≡◌, refl, ◌⊎◌, inl, inr, [], ◌∷◌, ◌++◌, Bool, Bytes, length, drop, drop-append,
  drop-append_length, length-drop, arith, codes,
}
use evcp.Request.Method.{str_cmp-append}
use evcp.Request.Header.{step_header, after_step, header_loop, parse_header_line, Local}
use evcp.Request.{
  ParseError, Code, ok, again, header_done, error, HeaderState, start, name, Request, Outcome, go,
  done, finished, fail,
}

-- `r` with other values of the fields that a call begins with.
abbrev pub resumed : ℕ → HeaderState → ℕ → Request → Request
resumed a t j r = record r { pos = a; header_state = t; lowcase_index = j }

abbrev map_outcome : {S : Type 0} → (Request → Request) → Outcome S → Outcome S
map_outcome f (go s r) = go s (f r)
map_outcome f (done r) = done (f r)
map_outcome f (finished r) = finished (f r)
map_outcome f (fail e r) = fail e (f r)

-- A step neither reads nor writes these fields.
step_header-resumed :
    (buf : Bytes) (under : Bool) (s : HeaderState) (i : ℕ) (r : Request) (p ch a : ℕ)
    (t : HeaderState) (j : ℕ)
    → step_header buf under s i (resumed a t j r) p ch
      ≡ map_outcome (resumed a t j) (step_header buf under s i r p ch)
unfolding step_header
step_header-resumed buf under start i r p ch a t j = ground arith
step_header-resumed buf under _ i r p ch a t j = ground arith

-- Nor does it look behind the character it is at.
step_header-append :
    (buf more : Bytes) (under : Bool) (s : HeaderState) (i : ℕ) (r : Request) (p ch : ℕ)
    → p ≤ length buf
    → step_header (buf ++ more) under s i r p ch ≡ step_header buf under s i r p ch
unfolding step_header
step_header-append buf more under name i r p ch h =
    ground (arith, str_cmp-append buf more r.header_name_start (codes "HTTP"))
step_header-append buf more under _ i r p ch h = refl

-- The two results are the same, but for `lowcase_index` after the last header line, and for the
-- fields that a call begins with after an error: these keep what they were.
abbrev pub Agrees : Code × Request → Code × Request → Type 0
Agrees x y =
    (x ≡ y)
    ⊎ ((j : ℕ) × (x.0 ≡ header_done) × (y ≡ (x.0, record (x.1) { lowcase_index = j })))
    ⊎ ((e : ParseError) × (a : ℕ) × (t : HeaderState) × (j : ℕ) × (x.0 ≡ error e)
        × (y ≡ (x.0, resumed a t j x.1)))

-- What `first`, the result on a part of the input, says of `whole`, the result on all of it.
-- `second` is the result of going on from there.
abbrev pub Resumes : ℕ → (Request → Code × Request) → Code × Request → Code × Request → Type 0
Resumes size second (again, r) whole = (r.pos ≡ size) × Agrees (second r) whole
Resumes size second first whole = first ≡ whole

Resumes-change :
    (size : ℕ) (f g : Request → Code × Request) (first whole : Code × Request)
    → ((r : Request) → r.pos ≡ size → f r ≡ g r)
    → Resumes size f first whole
    → Resumes size g first whole
Resumes-change size f g (again, r) whole h (e, a) = (e, rw (h r e) at a)
Resumes-change size f g (ok, r) whole h e = e
Resumes-change size f g (header_done, r) whole h e = e
Resumes-change size f g (error _, r) whole h e = e

after_step-resumed :
    (o : Outcome Local) (i p a : ℕ) (t : HeaderState) (j : ℕ)
    (rest : HeaderState → ℕ → Request → Code × Request)
    → ((s : HeaderState) (k : ℕ) (r : Request) → Agrees (rest s k r) (rest s k (resumed a t j r)))
    → Agrees (after_step o i p rest) (after_step (map_outcome (resumed a t j) o) i p rest)
after_step-resumed (go (s, k) r) i p a t j rest h = h s k r
after_step-resumed (done r) i p a t j rest h = inl refl
after_step-resumed (finished r) i p a t j rest h = inr (inl (j, refl, refl))
after_step-resumed (fail e r) i p a t j rest h = inr (inr (e, a, t, j, refl, refl))

after_step-Resumes :
    (size : ℕ) (second : Request → Code × Request) (o : Outcome Local) (i p : ℕ)
    (f g : HeaderState → ℕ → Request → Code × Request)
    → ((s : HeaderState) (k : ℕ) (r : Request) → Resumes size second (f s k r) (g s k r))
    → Resumes size second (after_step o i p f) (after_step o i p g)
after_step-Resumes size second (go (s, k) r) i p f g h = h s k r
after_step-Resumes size second (done r) i p f g h = refl
after_step-Resumes size second (finished r) i p f g h = refl
after_step-Resumes size second (fail e r) i p f g h = refl

module _ (buf : Bytes) (under : Bool) where
  header_loop-resumed :
      (rest : Bytes) (s : HeaderState) (i : ℕ) (r : Request) (p a : ℕ) (t : HeaderState) (j : ℕ)
      → Agrees
          (header_loop buf under s i r p rest)
          (header_loop buf under s i (resumed a t j r) p rest)
  unfolding header_loop
  header_loop-resumed [] s i r p a t j = inl refl
  header_loop-resumed (ch ∷ rest) s i r p a t j =
      rw (step_header-resumed buf under s i r p ch a t j) (
        after_step-resumed (step_header buf under s i r p ch) i p a t j _
          (λ s' i' r'. header_loop-resumed rest s' i' r' (p + 1) a t j))

module _ (buf more : Bytes) (under : Bool) where
  abbrev second : Request → Code × Request
  second r = header_loop (buf ++ more) under r.header_state r.lowcase_index r r.pos more

  header_loop-Resumes :
      (rest : Bytes) (s : HeaderState) (i : ℕ) (r : Request) (p : ℕ)
      → p + length rest ≡ length buf
      → Resumes
          (length buf)
          second
          (header_loop buf under s i r p rest)
          (header_loop (buf ++ more) under s i r p (rest ++ more))
  unfolding header_loop
  header_loop-Resumes [] s i r p h = (
    omega arith,
    header_loop-resumed (buf ++ more) under more s i (resumed p s i r) p r.pos r.header_state
        r.lowcase_index,
  )
  header_loop-Resumes (ch ∷ rest) s i r p h =
      rw (step_header-append buf more under s i r p ch (omega arith)) (
        after_step-Resumes (length buf) second (step_header buf under s i r p ch) i p _ _
          (λ s' i' r'. header_loop-Resumes rest s' i' r' (p + 1) (omega arith)))

-- If a call on the bytes that have come stops with `NGX_AGAIN`, then the call that goes on when
-- `more` has come gives what one call on all the bytes gives: the same code and the same request,
-- but for `lowcase_index` after the last header line and for the fields that a failing call began
-- with. If the first call is done, or fails, then more bytes change nothing of it.
pub parse_header_line-Resumes :
    (buf more : Bytes) (under : Bool) (r : Request)
    → r.pos ≤ length buf
    → Resumes
        (length buf)
        (parse_header_line (buf ++ more) under)
        (parse_header_line buf under r)
        (parse_header_line (buf ++ more) under r)
unfolding parse_header_line
parse_header_line-Resumes buf more under r h =
    Resumes-change (length buf) (second buf more under) (parse_header_line (buf ++ more) under) _ _
      (λ r' e. rw (e, drop-append_length buf more))
      (rw (drop-append r.pos buf more h) (
        header_loop-Resumes buf more under (drop r.pos buf) r.header_state r.lowcase_index r r.pos
          (omega (arith, length-drop r.pos buf))))
