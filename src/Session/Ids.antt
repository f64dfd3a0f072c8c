-- ===== src/Session/Ids.antt =====
-- The text of a session's id, and what is read back from it.
use evcp.Base.{
  ℕ, zero, suc, ◌+◌, ◌-◌, ◌*◌, ◌/◌, ◌%◌, ◌^◌, ◌<◌, ◌≤◌, ◌≡◌, refl, sym, ◌∙◌, ap, [], ◌∷◌, ◌++◌,
  Option, none, some, Bytes, length, ltb, ◌==◌, arith, append_assoc, length-append, Bool-cases, inl,
  inr, if◌then◌else◌, beq, false,
}
use native.Mathlib.Nat.{pow-suc}
use evcp.Session.{nibble, sid_loop, decode_sid, hex_text, hex_digit, sid_of, pair_value}

nibble-hex_digit : (d : ℕ) → d < 16 → nibble (hex_digit d) ≡ some d
unfolding nibble hex_digit
nibble-hex_digit d h = ground arith

pair_value-hex_digit :
    (a b : ℕ) → a < 16 → b < 16 → pair_value (hex_digit a) (hex_digit b) ≡ some (a * 16 + b)
pair_value-hex_digit a b h k = ground (arith, nibble-hex_digit a h, nibble-hex_digit b k)

abbrev go_on : ℕ → ℕ → Bytes → Option ℕ → Option ℕ
go_on cpos lsid rest o = elim o [
  | none ↦ none
  | some i ↦ sid_loop (cpos - 1) (lsid + i * 256 ^ (cpos - 1)) rest
]

sid_loop-pair :
    (cpos lsid x y : ℕ) (rest : Bytes)
    → sid_loop cpos lsid (x ∷ y ∷ rest) ≡ go_on cpos lsid rest (pair_value x y)
unfolding sid_loop
sid_loop-pair cpos lsid x y rest = refl

pow_step : (c : ℕ) → 256 ^ suc c ≡ 256 * 256 ^ c
pow_step c = pow-suc 256 c ∙ omega arith

shift_step : (c lsid i : ℕ) → lsid * 256 + i * 256 ^ suc c ≡ (lsid + i * 256 ^ c) * 256
shift_step c lsid i = rw (pow_step c) (omega arith)

go_on-append :
    (c lsid r a b : ℕ) (xs : Bytes) (o : Option ℕ)
    → ((i : ℕ)
        → sid_loop c (lsid + i * 256 ^ c) xs ≡ some r
        → sid_loop (suc c) ((lsid + i * 256 ^ c) * 256) (xs ++ hex_digit a ∷ hex_digit b ∷ [])
          ≡ some (r * 256 + a * 16 + b))
    → go_on (suc c) lsid xs o ≡ some r
    → go_on (suc (suc c)) (lsid * 256) (xs ++ hex_digit a ∷ hex_digit b ∷ []) o
      ≡ some (r * 256 + a * 16 + b)
go_on-append c lsid r a b xs none h e = cc
go_on-append c lsid r a b xs (some i) h e =
    let p : suc c - 1 ≡ c = omega arith in
    let q : suc (suc c) - 1 ≡ suc c = omega arith in rw (q, shift_step c lsid i) (h i (rw p at e))

-- Two digits more at the end of a text that is read.
sid_loop-append :
    (xs : Bytes) (c lsid r a b : ℕ)
    → length xs ≡ c + c
    → sid_loop c lsid xs ≡ some r
    → a < 16
    → b < 16
    → sid_loop (suc c) (lsid * 256) (xs ++ hex_digit a ∷ hex_digit b ∷ [])
      ≡ some (r * 256 + a * 16 + b)
sid_loop-append [] zero lsid r a b l e h k =
    sid_loop-pair 1 (lsid * 256) (hex_digit a) (hex_digit b) []
    ∙ ap (go_on 1 (lsid * 256) []) (pair_value-hex_digit a b h k)
    ∙ base (lsid * 256 + (a * 16 + b) * 256 ^ 0) (unfold sid_loop in ground arith)
  where
    base : (n : ℕ) → n ≡ r * 256 + a * 16 + b → sid_loop 0 n [] ≡ some (r * 256 + a * 16 + b)
    base n q = unfold sid_loop in ap some q
sid_loop-append [] (suc c) lsid r a b l e h k = absurd (omega arith)
sid_loop-append (x ∷ []) c lsid r a b l e h k = absurd (omega arith)
sid_loop-append (x ∷ y ∷ xs) zero lsid r a b l e h k = absurd (omega arith)
sid_loop-append (x ∷ y ∷ xs) (suc c) lsid r a b l e h k =
    sid_loop-pair (suc (suc c)) (lsid * 256) x y (xs ++ hex_digit a ∷ hex_digit b ∷ [])
    ∙ go_on-append c lsid r a b xs (pair_value x y)
        (λ i q. sid_loop-append xs c (lsid + i * 256 ^ c) r a b (omega arith) q h k)
        (sym (sid_loop-pair (suc c) lsid x y xs) ∙ e)

-- Of an even number of digits, all of them are read back.
abbrev IsReadBack : ℕ → ℕ → Type 0
IsReadBack w n =
    length (hex_text w n) % 2 ≡ 0 → sid_loop (length (hex_text w n) / 2) 0 (hex_text w n) ≡ some n

hex_text-one : (w n : ℕ) → n < 16 → hex_text (suc w) n ≡ hex_digit n ∷ []
unfolding hex_text
hex_text-one w n h = ground arith

hex_text-two :
    (w n : ℕ)
    → 15 < n
    → n < 256
    → hex_text (suc (suc w)) n ≡ hex_digit (n / 16) ∷ hex_digit (n % 16) ∷ []
hex_text-two w n h k = unfold hex_text in ground (arith, hex_text-one w (n / 16) (omega arith))

hex_text-more :
    (w n : ℕ)
    → 255 < n
    → hex_text (suc (suc w)) n
      ≡ hex_text w (n / 16 / 16) ++ hex_digit (n / 16 % 16) ∷ hex_digit (n % 16) ∷ []
unfolding hex_text
hex_text-more w n h = ground (
  arith,
  append_assoc (hex_text w (n / 16 / 16)) (hex_digit (n / 16 % 16) ∷ []) (hex_digit (n % 16) ∷ []),
)

IsReadBack-more : (w n : ℕ) → 255 < n → IsReadBack w (n / 16 / 16) → IsReadBack (suc (suc w)) n
IsReadBack-more w n h ih even = rw (hex_text-more w n h) (
    ap (λ (k : ℕ). sid_loop k 0 (xs ++ ys)) {x = length (xs ++ ys) / 2} {y = suc (length xs / 2)}
      (omega (arith, len))
    ∙ sid_loop-append xs (length xs / 2) 0 (n / 16 / 16) (n / 16 % 16) (n % 16)
        (omega (arith, len, shorter)) (ih (omega (arith, len, shorter))) (omega arith) (omega arith)
    ∙ ap some (whole n))
  where
    xs : Bytes
    xs = hex_text w (n / 16 / 16)

    ys : Bytes
    ys = hex_digit (n / 16 % 16) ∷ hex_digit (n % 16) ∷ []

    len : length (xs ++ ys) ≡ length xs + 2
    len = length-append xs ys

    shorter : length (xs ++ ys) % 2 ≡ 0
    shorter = rw (hex_text-more w n h) at even

    whole : (k : ℕ) → k / 16 / 16 * 256 + k / 16 % 16 * 16 + k % 16 ≡ k
    whole k = omega arith

sid_loop_two :
    (n : ℕ) → n < 256 → sid_loop 1 0 (hex_digit (n / 16) ∷ hex_digit (n % 16) ∷ []) ≡ some n
sid_loop_two n h =
    sid_loop-pair 1 0 (hex_digit (n / 16)) (hex_digit (n % 16)) []
    ∙ ap (go_on 1 0 []) (pair_value-hex_digit (n / 16) (n % 16) (omega arith) (omega arith))
    ∙ unfold sid_loop in ap (λ (k : ℕ). some k) (omega arith)

IsReadBack-layer : (w n : ℕ) → (255 < n → IsReadBack w (n / 16 / 16)) → IsReadBack (suc (suc w)) n
IsReadBack-layer w n ih even = elim (Bool-cases (ltb n 16)) [
  | inl one ↦
      let odd : length (hex_text (suc (suc w)) n) ≡ 1 =
        ap length (hex_text-one (suc w) n (ground arith)) in
      absurd (omega arith)
  | inr more ↦ elim (Bool-cases (ltb n 256)) [
    | inl two ↦ rw (hex_text-two w n (ground arith) (ground arith)) (sid_loop_two n (ground arith))
    | inr large ↦ IsReadBack-more w n (ground arith) (ih (ground arith)) even
  ]
]

length-hex_text : (w n : ℕ) → length (hex_text w n) ≤ w
unfolding hex_text
length-hex_text zero n = omega arith
length-hex_text (suc w) n = ground (
  arith,
  length-hex_text w (n / 16),
  length-append (hex_text w (n / 16)) (hex_digit (n % 16) ∷ []),
)

hex_text_read : (n : ℕ) → n < 2 ^ 32 → IsReadBack 8 n
hex_text_read n h = IsReadBack-layer 6 n (λ _. IsReadBack-layer 4 (n / 16 / 16) (λ _.
    IsReadBack-layer 2 (n / 16 / 16 / 16 / 16)
      (λ _. IsReadBack-layer 0 (n / 16 / 16 / 16 / 16 / 16 / 16) (λ big. absurd (omega arith)))))

decode_sid-read :
    (xs : Bytes) (v : ℕ)
    → length xs ≤ 8
    → (length xs % 2 ≡ 0 → sid_loop (length xs / 2) 0 xs ≡ some v)
    → decode_sid xs ≡ (if length xs % 2 == 0 then some v else none)
unfolding decode_sid
decode_sid-read xs v h k = ground arith

sid_of-hex_text : (id : ℕ) → id < 2 ^ 32 → sid_of id ≡ hex_text 8 id
unfolding sid_of
sid_of-hex_text id h = ap (hex_text 8) (omega arith)

-- An id of 32 bits is read back from its own text exactly if that text has an even number of
-- digits; from a text with an odd number nothing is read.
pub decode_sid-sid_of :
    (id : ℕ)
    → id < 2 ^ 32
    → decode_sid (sid_of id) ≡ (if length (sid_of id) % 2 == 0 then some id else none)
decode_sid-sid_of id h =
    rw (sid_of-hex_text id h)
      (decode_sid-read (hex_text 8 id) id (length-hex_text 8 id) (hex_text_read id h))

-- The text of an id is not empty.
beq-longer : (xs : Bytes) → 0 < length xs → beq xs [] ≡ false
unfolding beq
beq-longer [] h = absurd (omega arith)
beq-longer (x ∷ xs) h = refl

length-hex_text-suc : (w n : ℕ) → 0 < length (hex_text (suc w) n)
unfolding hex_text
length-hex_text-suc w n =
    ground (arith, length-append (hex_text w (n / 16)) (hex_digit (n % 16) ∷ []))

pub sid_of_nonempty : (id : ℕ) → beq (sid_of id) [] ≡ false
unfolding sid_of
sid_of_nonempty id = beq-longer (hex_text 8 (id % 2 ^ 32)) (length-hex_text-suc 7 (id % 2 ^ 32))
