-- ===== src/Base/Maps.antt =====
-- `std::map<std::string, V>`: an association list kept in the order of its keys, so that a walk
-- over it meets the keys in the order of the map's iterator.
use mathlib.Core.Path.{◌≡◌, refl, ◌∙◌}
use mathlib.Core.Bool.{Bool, true, false}
use mathlib.Core.List.{List, [], ◌∷◌}
use mathlib.Core.Option.{Option, none, some}
use mathlib.Core.Logic.{inl, inr}
use native.Mathlib.Omega.{arith}
use evcp.Base.Tests.{ltb, ◌==◌, if◌then◌else◌, Bool-cases}
use evcp.Base.Lists.{Bytes, beq, beq_iff}

-- `operator<` on `std::string`
unfoldable pub bytes_lt : Bytes → Bytes → Bool
bytes_lt xs [] = false
bytes_lt [] (y ∷ ys) = true
bytes_lt (x ∷ xs) (y ∷ ys) =
    let rest = bytes_lt xs ys in if ltb x y then true else if x == y then rest else false

module _ {ℓ} {V : Type ℓ} where
  unfoldable pub lookup : Bytes → List (Bytes × V) → Option V
  unfolding beq
  lookup k [] = none
  lookup k ((j, v) ∷ m) = if beq j k then some v else lookup k m

  -- `m[k] = v`
  unfoldable pub insert : Bytes → V → List (Bytes × V) → List (Bytes × V)
  unfolding beq bytes_lt
  insert k v [] = (k, v) ∷ []
  insert k v ((j, w) ∷ m) =
      let rest = insert k v m in
      if beq j k then (k, v) ∷ m else if bytes_lt k j then (k, v) ∷ (j, w) ∷ m else (j, w) ∷ rest

  pub lookup-insert :
      (k j : Bytes) (v : V) (m : List (Bytes × V))
      → lookup j (insert k v m) ≡ (if beq k j then some v else lookup j m)
  unfolding lookup insert
  lookup-insert k j v [] = refl
  lookup-insert k j v ((i, w) ∷ m) =
      ground (arith, beq_iff k j, beq_iff i k, beq_iff i j, lookup-insert k j v m)

abbrev pub StrMap : Type 0
StrMap = List (Bytes × Bytes)

-- `m[k]` as a value: the empty string on a missing key. (`operator[]` also inserts that string,
-- which no later read of the map can tell from a missing key.)
unfoldable pub at : Bytes → StrMap → Bytes
unfolding lookup
at k m = elim (lookup k m) [ none ↦ [] | some v ↦ v ]

value_or_nothing :
    (o p : Option Bytes)
    → o ≡ p
    → elim o [ none ↦ [] | some v ↦ v ] ≡ elim p as (λ _. Bytes) [ none ↦ [] | some v ↦ v ]
value_or_nothing o p e = rw e refl

pub at-insert : (i j v : Bytes) (m : StrMap) → at j (insert i v m) ≡ (if beq i j then v else at j m)
unfolding at
at-insert i j v m =
    value_or_nothing (lookup j (insert i v m)) (if beq i j then some v else lookup j m)
      (lookup-insert i j v m)
    ∙ elim (Bool-cases (beq i j)) [ inl y ↦ rw y refl | inr y ↦ rw y refl ]
