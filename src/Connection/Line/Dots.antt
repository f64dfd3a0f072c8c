-- ===== src/Connection/Line/Dots.antt =====
-- The scan that refuses a URI with too many dots and slashes in a row.
use evcp.Request.{Request}
use evcp.Connection.Headers.{slice}
use evcp.Base.{
  not, false, ◌&&◌, ℕ, suc, ◌+◌, ◌≤◌, ◌<◌, ◌≡◌, refl, ◌↔◌, ◌⊎◌, inl, inr, [], ◌∷◌, ◌++◌, ◌||◌, Bool,
  true, false, Bytes, ltb, Bool-cases, zero, ◌==◌, arith,
}
use evcp.Connection.Line.{warn_step, dots_loop, refuses_uri}

abbrev pub is_mark : ℕ → Bool
is_mark c = c == b'/' || c == b'.'

-- `n` marks come next in the text, with only "\" between them.
pub data Marks : ℕ → Bytes → Type 0 where
  enough : {n : ℕ} {cs : Bytes} → n ≡ 0 → Marks n cs
  mark : {n : ℕ} (c : ℕ) {cs : Bytes} → is_mark c ≡ true → Marks n cs → Marks (suc n) (c ∷ cs)
  backslash : {n : ℕ} {cs : Bytes} → Marks n cs → Marks n (b'\\' ∷ cs)

-- Three marks come somewhere in the text.
pub data HasMarks : Bytes → Type 0 where
  now : {cs : Bytes} → Marks 3 cs → HasMarks cs
  later : (c : ℕ) {cs : Bytes} → HasMarks cs → HasMarks (c ∷ cs)

-- A character is a mark, a "\" or another one.
kind : (c : ℕ) → (is_mark c ≡ true) ⊎ (c ≡ b'\\') ⊎ ((is_mark c ≡ false) × ((c == b'\\') ≡ false))
kind c = ground arith

after_mark :
    (c : ℕ) (cs : Bytes) (n : ℕ)
    → is_mark c ≡ true
    → (0 < n → Marks n cs ⊎ HasMarks cs)
    → Marks (suc n) (c ∷ cs) ⊎ HasMarks (c ∷ cs)
after_mark c cs zero m h = inl (mark c m (enough refl))
after_mark c cs (suc n) m h = elim (h (omega arith)) [
  | inl ms ↦ inl (mark c m ms)
  | inr hs ↦ inr (later c hs)
]

loop-Marks :
    (cs : Bytes) (w n : ℕ) → w + n ≡ 3 → 0 < n → dots_loop w cs ≡ true → Marks n cs ⊎ HasMarks cs
unfolding dots_loop warn_step
loop-Marks [] w n h k e = cc
loop-Marks (c ∷ cs) w zero h k e = elim k [ ]
loop-Marks (c ∷ cs) w (suc n) h k e = elim (kind c) [
  | inl m ↦ after_mark c cs n m (λ pos. loop-Marks cs (w + 1) n (omega arith) pos (ground arith))
  | inr (inl b) ↦ elim (loop-Marks cs w (suc n) h k (ground arith)) [
    | inl ms ↦ inl (rw b (backslash ms))
    | inr hs ↦ inr (later c hs)
  ]
  | inr (inr o) ↦ elim (loop-Marks cs 0 3 refl (omega arith) (ground arith)) [
    | inl ms ↦ inr (later c (now ms))
    | inr hs ↦ inr (later c hs)
  ]
]

Marks-loop : {cs : Bytes} {n : ℕ} (w : ℕ) → Marks n cs → 3 ≤ w + n → w < 3 → dots_loop w cs ≡ true
unfolding dots_loop warn_step
Marks-loop w (enough e) h k = absurd (omega arith)
Marks-loop w (mark c m ms) h k = elim (Bool-cases (ltb 2 (w + 1))) [
  | inl stop ↦ ground arith
  | inr on ↦ ground (arith, Marks-loop (w + 1) ms)
]
Marks-loop w (backslash ms) h k = ground (arith, Marks-loop w ms)

HasMarks-loop : {cs : Bytes} (w : ℕ) → HasMarks cs → w < 3 → dots_loop w cs ≡ true
unfolding dots_loop warn_step
HasMarks-loop w (now ms) k = Marks-loop w ms (omega arith) k
HasMarks-loop w (later c hs) k =
    ground (arith, HasMarks-loop (w + 1) hs, HasMarks-loop w hs, HasMarks-loop 0 hs)

-- The scan refuses exactly the texts in which three of the characters "/" and "." follow one
-- another with nothing but "\" between them.
pub dots_loop_iff : (cs : Bytes) → (dots_loop 0 cs ≡ true) ↔ HasMarks cs
dots_loop_iff cs = (
  λ e. from_either (loop-Marks cs 0 3 refl (omega arith) e),
  λ h. HasMarks-loop 0 h (omega arith),
)
  where
    from_either : Marks 3 cs ⊎ HasMarks cs → HasMarks cs
    from_either (inl ms) = now ms
    from_either (inr hs) = hs

dots_loop_parent : (front back : Bytes) → dots_loop 0 (front ++ b'/' ∷ b'.' ∷ b'.' ∷ back) ≡ true
dots_loop_parent front back = (dots_loop_iff (front ++ b'/' ∷ b'.' ∷ b'.' ∷ back)).1 (inside front)
  where
    inside : (xs : Bytes) → HasMarks (xs ++ b'/' ∷ b'.' ∷ b'.' ∷ back)
    inside [] = now (mark b'/' refl (mark b'.' refl (mark b'.' refl (enough refl))))
    inside (x ∷ xs) = later x (inside xs)

and-true : (a b : Bool) → b ≡ true → (a && b) ≡ a
and-true true b e = e
and-true false b e = refl

-- A URI that has a step up to the parent directory behind a slash, wherever it stands, is refused if
-- the parser has marked it as complex, and is let through if it has not.
refuses_uri-parent :
    (buf : Bytes) (r : Request) (front back : Bytes)
    → slice buf r.uri_start r.uri_end ≡ front ++ b'/' ∷ b'.' ∷ b'.' ∷ back
    → refuses_uri buf r ≡ not (r.complex_uri == 0)
unfolding refuses_uri
refuses_uri-parent buf r front back e =
    and-true (not (r.complex_uri == 0)) (dots_loop 0 (slice buf r.uri_start r.uri_end))
      (rw e (dots_loop_parent front back))
