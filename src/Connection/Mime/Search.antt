-- ===== src/Connection/Mime/Search.antt =====
-- The search for a file's type.
use evcp.Base.{
  ℕ, zero, suc, [], ◌∷◌, Option, none, some, Bool, true, false, not, Bytes, ◌==◌, if◌then◌else◌,
  length, get_or, codes, ap, ◌≡◌, refl, ◌⊎◌, arith, beq, beq_iff, Bool-cases, inl, inr, ◌<◌, sym,
}
use evcp.Base.Maps.{StrMap, lookup}
use evcp.Connection.Mime.{strncmp, types_map, find_type, getmime}

strncmp-suc :
    (l : ℕ) (a b : Bytes)
    → strncmp (suc l) a b ≡ (if get_or a l 0 == get_or b l 0 then strncmp l a b else true)
unfolding strncmp
strncmp-suc l a b = refl

strncmp_last :
    (l : ℕ) (a b : Bytes)
    → strncmp (suc l) a b ≡ false
    → (get_or a l 0 ≡ get_or b l 0) × (strncmp l a b ≡ false)
strncmp_last l a b e = ground (arith, strncmp-suc l a b)

strncmp_agrees :
    (l : ℕ) (a b : Bytes) → strncmp l a b ≡ false → (i : ℕ) → i < l → get_or a i 0 ≡ get_or b i 0
strncmp_agrees zero a b e i h = absurd (omega arith)
strncmp_agrees (suc l) a b e i h =
    let (last, before) = strncmp_last l a b e in
    elim (lt_or_last i l h) [ inl q ↦ strncmp_agrees l a b before i q | inr q ↦ rw q last ]
  where
    lt_or_last : (i l : ℕ) → i < suc l → (i < l) ⊎ (i ≡ l)
    lt_or_last i l h = omega arith

strncmp_refl : (l : ℕ) (a : Bytes) → strncmp l a a ≡ false
unfolding strncmp
strncmp_refl zero a = refl
strncmp_refl (suc l) a = ground (arith, strncmp_refl l a)

same_bytes :
    (a b : Bytes)
    → length a ≡ length b
    → ((i : ℕ) → i < length a → get_or a i 0 ≡ get_or b i 0)
    → a ≡ b
same_bytes [] [] l h = refl
same_bytes [] (y ∷ b) l h = absurd (omega arith)
same_bytes (x ∷ a) [] l h = absurd (omega arith)
same_bytes (x ∷ a) (y ∷ b) l h =
    let p : x ≡ y = h 0 (omega arith) in
    let q : a ≡ b = same_bytes a b (omega arith) (λ i k. h (suc i) (omega arith)) in rw (p, q) refl

-- The two tests of the loop are the equality of the strings.
same_iff :
    (k x : Bytes)
    → (if not (length k == length x) then false else not (strncmp (length x) x k)) ≡ beq k x
same_iff k x = elim (Bool-cases (length k == length x)) [
  | inl l ↦ elim (Bool-cases (strncmp (length x) x k)) [
    | inl d ↦
        rw (l, d)
          (elim (Bool-cases (beq k x)) [
            | inl y ↦ (let q = differs_not k x y in ground arith)
            | inr n ↦ sym n
          ])
    | inr d ↦
        let e : x ≡ k = same_bytes x k (ground arith) (strncmp_agrees (length x) x k d) in
        rw (l, d) (ground (arith, beq_iff k x))
  ]
  | inr l ↦ rw l (elim (Bool-cases (beq k x)) [
    | inl y ↦ absurd (
        let e : k ≡ x = ground (arith, beq_iff k x) in
        let p : length k ≡ length x = ap length e in ground arith)
    | inr n ↦ sym n
  ])
]
  where
    differs_not : (k x : Bytes) → beq k x ≡ true → strncmp (length x) x k ≡ false
    differs_not k x y =
        let e : k ≡ x = ground (arith, beq_iff k x) in rw e (strncmp_refl (length x) x)

abbrev pub or_html : Option Bytes → Bytes
or_html none = codes "text/html"
or_html (some t) = t

pick :
    (l d b : Bool) (t rest : Bytes) (o : Option Bytes)
    → (if not l then false else not d) ≡ b
    → rest ≡ or_html o
    → (if not l then rest else if not d then t else rest) ≡ or_html (if b then some t else o)
pick true false b t rest o e h = rw (sym e) refl
pick true true b t rest o e h = rw (sym e) h
pick false d b t rest o e h = rw (sym e) h

find_type-lookup : (x : Bytes) (m : StrMap) → find_type x m ≡ or_html (lookup x m)
unfolding find_type lookup
find_type-lookup x [] = refl
find_type-lookup x ((k, t) ∷ m) =
    pick (length k == length x) (strncmp (length x) x k) (beq k x) t (find_type x m) (lookup x m)
      (same_iff k x) (find_type-lookup x m)

-- Its loop over the whole map finds for an extension what the map has for it, and `text/html` where
-- the map has nothing or the URI has no extension.
getmime-lookup : (x : Bytes) → getmime (some x) ≡ or_html (lookup x types_map)
unfolding getmime
getmime-lookup x = find_type-lookup x types_map
