-- ===== src/Request/Header/Invalid.antt =====
-- What `sp_parse_header_line` does when it is called again after it has refused a header line.
use evcp.Base.{ℕ, ◌+◌, ◌≡◌, refl, sym, ◌∙◌, ap, [], ◌∷◌, Bool, Bytes, drop, arith}
use evcp.Request.Header.{step_header, after_step, header_loop, parse_header_line, Local}
use evcp.Request.{
  ParseError, Code, ok, again, header_done, error, HeaderState, start, Request, Outcome, go, done,
  finished, fail,
}

-- The only pointer that the parser reads is the start of the name it is in.
abbrev Alike : HeaderState → Request → Request → Type 0
Alike start r r' = Unit
Alike _ r r' = r.header_name_start ≡ r'.header_name_start

abbrev AlikeAfter : Outcome Local → Outcome Local → Type 0
AlikeAfter (go (s, i) r) (go (s', i') r') = (s ≡ s') × Alike s r r'
AlikeAfter (done r) (done r') = Unit
AlikeAfter (finished r) (finished r') = Unit
AlikeAfter (fail e r) (fail e' r') = e ≡ e'
AlikeAfter _ _ = ⊥

step_header-Alike :
    (buf : Bytes) (under : Bool) (s : HeaderState) (i i' : ℕ) (r r' : Request) (p ch : ℕ)
    → Alike s r r'
    → AlikeAfter (step_header buf under s i r p ch) (step_header buf under s i' r' p ch)
unfolding step_header
step_header-Alike buf under start i i' r r' p ch h = ground arith
step_header-Alike buf under _ i i' r r' p ch h = ground arith

-- A refused line leaves `pos` and `state` as they were.
abbrev Keeps : Request → Outcome Local → Type 0
Keeps r (go _ q) = (q.pos ≡ r.pos) × (q.header_state ≡ r.header_state)
Keeps r (done q) = Unit
Keeps r (finished q) = Unit
Keeps r (fail _ q) = (q.pos ≡ r.pos) × (q.header_state ≡ r.header_state)

step_header-Keeps :
    (buf : Bytes) (under : Bool) (s : HeaderState) (i : ℕ) (r : Request) (p ch : ℕ)
    → Keeps r (step_header buf under s i r p ch)
unfolding step_header
step_header-Keeps buf under start i r p ch = ground arith
step_header-Keeps buf under _ i r p ch = ground arith

after_step-Alike :
    (o o' : Outcome Local) (i i' p : ℕ) (f g : HeaderState → ℕ → Request → Code × Request)
    → AlikeAfter o o'
    → ((s : HeaderState) (k k' : ℕ) (r r' : Request) → Alike s r r' → (f s k r).0 ≡ (g s k' r').0)
    → (after_step o i p f).0 ≡ (after_step o' i' p g).0
after_step-Alike (go (s, k) r) (go (s', k') r') i i' p f g (e, v) h = rw (← e) (h s k k' r r' v)
after_step-Alike (done r) (done r') i i' p f g v h = refl
after_step-Alike (finished r) (finished r') i i' p f g v h = refl
after_step-Alike (fail e r) (fail e' r') i i' p f g v h = ap error v
after_step-Alike (go _ _) (done _) i i' p f g v h = absurd v
after_step-Alike (go _ _) (finished _) i i' p f g v h = absurd v
after_step-Alike (go _ _) (fail _ _) i i' p f g v h = absurd v
after_step-Alike (done _) (go _ _) i i' p f g v h = absurd v
after_step-Alike (done _) (finished _) i i' p f g v h = absurd v
after_step-Alike (done _) (fail _ _) i i' p f g v h = absurd v
after_step-Alike (finished _) (go _ _) i i' p f g v h = absurd v
after_step-Alike (finished _) (done _) i i' p f g v h = absurd v
after_step-Alike (finished _) (fail _ _) i i' p f g v h = absurd v
after_step-Alike (fail _ _) (go _ _) i i' p f g v h = absurd v
after_step-Alike (fail _ _) (done _) i i' p f g v h = absurd v
after_step-Alike (fail _ _) (finished _) i i' p f g v h = absurd v

abbrev KeepsError : Request → Code × Request → Type 0
KeepsError r (error _, q) = (q.pos ≡ r.pos) × (q.header_state ≡ r.header_state)
KeepsError r _ = Unit

KeepsError-trans :
    (r q : Request) (x : Code × Request)
    → (q.pos ≡ r.pos) × (q.header_state ≡ r.header_state)
    → KeepsError q x
    → KeepsError r x
KeepsError-trans r q (error _, _) h k = (k.0 ∙ h.0, k.1 ∙ h.1)
KeepsError-trans r q (ok, _) h k = tt
KeepsError-trans r q (again, _) h k = tt
KeepsError-trans r q (header_done, _) h k = tt

after_step-KeepsError :
    (r : Request) (o : Outcome Local) (i p : ℕ) (rest : HeaderState → ℕ → Request → Code × Request)
    → Keeps r o
    → ((s : HeaderState) (k : ℕ) (q : Request) → KeepsError q (rest s k q))
    → KeepsError r (after_step o i p rest)
after_step-KeepsError r (go (s, k) q) i p rest v h = KeepsError-trans r q (rest s k q) v (h s k q)
after_step-KeepsError r (done q) i p rest v h = tt
after_step-KeepsError r (finished q) i p rest v h = tt
after_step-KeepsError r (fail e q) i p rest v h = v

module _ (buf : Bytes) (under : Bool) where
  header_loop-Alike :
      (rest : Bytes) (s : HeaderState) (i i' : ℕ) (r r' : Request) (p : ℕ)
      → Alike s r r'
      → (header_loop buf under s i r p rest).0 ≡ (header_loop buf under s i' r' p rest).0
  unfolding header_loop
  header_loop-Alike [] s i i' r r' p h = refl
  header_loop-Alike (ch ∷ rest) s i i' r r' p h =
      after_step-Alike (step_header buf under s i r p ch) (step_header buf under s i' r' p ch) i i'
        p _ _ (step_header-Alike buf under s i i' r r' p ch h)
        (λ s' k k' q q' v. header_loop-Alike rest s' k k' q q' (p + 1) v)

  header_loop-KeepsError :
      (rest : Bytes) (s : HeaderState) (i : ℕ) (r : Request) (p : ℕ)
      → KeepsError r (header_loop buf under s i r p rest)
  unfolding header_loop
  header_loop-KeepsError [] s i r p = tt
  header_loop-KeepsError (ch ∷ rest) s i r p =
      after_step-KeepsError r (step_header buf under s i r p ch) i p _
        (step_header-Keeps buf under s i r p ch)
        (λ s' k q. header_loop-KeepsError rest s' k q (p + 1))

  same_code :
      (s s' : HeaderState) (i i' : ℕ) (r r' : Request) (p p' : ℕ)
      → s ≡ start
      → s' ≡ start
      → p ≡ p'
      → (header_loop buf under s i r p (drop p buf)).0
        ≡ (header_loop buf under s' i' r' p' (drop p' buf)).0
  same_code s s' i i' r r' p p' e e' h =
      rw (e, e', h) (header_loop-Alike (drop p' buf) start i i' r r' p' tt)

  -- A refused header line is refused again: a call at the start of a line that reports an error
  -- leaves `pos` and `state` as they were, and the next call on the same bytes reports it again.
  pub parse_header_line_again :
      (r q : Request) (e : ParseError)
      → r.header_state ≡ start
      → parse_header_line buf under r ≡ (error e, q)
      → (q.pos ≡ r.pos) × (q.header_state ≡ start) × ((parse_header_line buf under q).0 ≡ error e)
  unfolding parse_header_line
  parse_header_line_again r q e h k = (
    kept.0,
    kept.1 ∙ h,
    sym (
          same_code r.header_state q.header_state r.lowcase_index q.lowcase_index r q r.pos q.pos h
            (kept.1 ∙ h) (sym kept.0))
        ∙ ap (λ x. x.0) k,
  )
    where
      kept : KeepsError r (error e, q)
      kept =
          rw k at (header_loop-KeepsError (drop r.pos buf) r.header_state r.lowcase_index r r.pos)
