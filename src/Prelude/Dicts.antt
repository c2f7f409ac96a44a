-- ===== src/Prelude/Dicts.antt =====
-- Go's `map[string]V` as an association list. A `range` over the map meets the entries in the
-- list's order; Go leaves that order open, so a theorem over every list covers every order.
use Prim.Native.String.{String}
use mathlib.Core.Path.{◌≡◌, refl, subst}
use mathlib.Core.List.{List, [], ◌∷◌}
use mathlib.Core.Option.{Option, none, some}
use native.Mathlib.Omega.{arith}
use text.Mathlib.Text.{◌==◌}
use text.Mathlib.TextEquality.{eq_iff}
use mathlib.Core.Logic.{inl, inr}
use curveadm.Prelude.Tests.{Bool-cases, if◌then◌else◌}

abbrev pub Dict {ℓ} : Type ℓ → Type ℓ
Dict V = List (String × V)

module _ {ℓ} {V : Type ℓ} where
  -- m[k], with `ok`
  unfoldable pub lookup : String → Dict V → Option V
  lookup k [] = none
  lookup k ((j, v) ∷ m) = if j == k then some v else lookup k m

  -- m[k] = v
  unfoldable pub insert : String → V → Dict V → Dict V
  insert k v [] = (k, v) ∷ []
  insert k v ((j, w) ∷ m) = if j == k then (j, v) ∷ m else (j, w) ∷ insert k v m

  -- delete(m, k)
  unfoldable pub erase : String → Dict V → Dict V
  erase k [] = []
  erase k ((j, v) ∷ m) = let rest = erase k m in if j == k then rest else (j, v) ∷ rest

  pub lookup-insert :
      (written read : String) (v : V) (m : Dict V)
      → lookup read (insert written v m) ≡ (if written == read then some v else lookup read m)
  unfolding insert lookup
  lookup-insert written read v [] = refl
  lookup-insert written read v ((i, w) ∷ m) =
      let rest = lookup-insert written read v m in
      elim (Bool-cases (i == written)) [
        | inl e ↦ ground (arith, e, eq_iff i written, eq_iff written read)
        | inr e ↦ ground (arith, e, rest, eq_iff i read, eq_iff written read, eq_iff i written)
      ]

  pub lookup-erase :
      (k j : String) (m : Dict V) → lookup j (erase k m) ≡ (if k == j then none else lookup j m)
  unfolding lookup erase
  lookup-erase k j [] = ground arith
  lookup-erase k j ((i, v) ∷ m) =
      ground (arith, lookup-erase k j m, eq_iff i k, eq_iff i j, eq_iff k j)

-- No key occurs twice, as in a Go map.
abbrev pub IsMap {ℓ} : {V : Type ℓ} → Dict V → Type ℓ
IsMap [] = Unit
IsMap ((k, v) ∷ m) = (lookup k m ≡ none) × IsMap m

pub insert-IsMap {ℓ} :
    {V : Type ℓ} (k : String) (v : V) (m : Dict V) → IsMap m → IsMap (insert k v m)
unfolding insert lookup
insert-IsMap k v [] h = (refl, tt)
insert-IsMap k v ((j, w) ∷ m) h = elim (Bool-cases (j == k)) [
  | inl e ↦ rw (e) h
  | inr e ↦ rw (e) (
    rw (lookup-insert k j v m) (ground (arith, e, h.0, eq_iff k j, eq_iff j k)),
    insert-IsMap k v m h.1,
  )
]

-- A property of every value of a map
module _ {ℓ κ} {V : Type ℓ} (P : V → Type κ) where
  abbrev pub WhenSome : Option V → Type κ
  WhenSome none = Unit
  WhenSome (some v) = P v

  abbrev pub Values : Dict V → Type κ
  Values [] = Unit
  Values ((k, v) ∷ m) = P v × Values m

  pub Values-insert : (k : String) (v : V) (m : Dict V) → P v → Values m → Values (insert k v m)
  unfolding insert
  Values-insert k v [] p h = (p, tt)
  Values-insert k v ((j, w) ∷ m) p h = elim (Bool-cases (j == k)) [
    | inl e ↦ rw (e) (p, h.1)
    | inr e ↦ rw (e) (h.0, Values-insert k v m p h.1)
  ]

  pub Values-lookup : (k : String) (m : Dict V) {v : V} → Values m → lookup k m ≡ some v → P v
  unfolding lookup
  Values-lookup k [] h e = cc
  Values-lookup k ((j, w) ∷ m) h e = elim (Bool-cases (j == k)) [
    | inl f ↦ subst WhenSome (rw f at e) h.0
    | inr f ↦ Values-lookup k m h.1 (rw f at e)
  ]

pub ruleset dict_laws = (lookup-insert, lookup-erase)
