-- ===== src/Storage/Distinct.antt =====
-- Rows with distinct keys, and what keeps the keys distinct.
use curveadm.Prelude.{
  suc, ◌≡◌, refl, ap, arith, Bool, false, not, Bool-cases, List, [], ◌∷◌, ◌++◌, map, keep, length,
  All, All-append, inl, inr, if◌then◌else◌,
}
use curveadm.Storage.Tables.{update_where, delete_where, holds}

-- `eq` says which keys count as the same.
module _ {A K : Type 0} (eq : K → K → Bool) (key : A → K) where
  abbrev pub Distinct : List A → Type 0
  Distinct [] = Unit
  Distinct (x ∷ xs) = All (λ y. eq (key x) (key y) ≡ false) xs × Distinct xs

pub All-keep :
    {A : Type 0} (P : A → Type 0) (test : A → Bool) (xs : List A) → All P xs → All P (keep test xs)
unfolding keep
All-keep P test [] h = tt
All-keep P test (x ∷ xs) (p, h) = elim (Bool-cases (test x)) [
  | inl e ↦ rw (e) (p, All-keep P test xs h)
  | inr e ↦ rw (e) (All-keep P test xs h)
]

pub map-All :
    {A : Type 0} (P Q : A → Type 0) (f : A → A) (step : (x : A) → P x → Q (f x)) (xs : List A)
    → All P xs
    → All Q (map f xs)
map-All P Q f step [] h = tt
map-All P Q f step (x ∷ xs) (p, h) = (step x p, map-All P Q f step xs h)

pub holds-All :
    {A : Type 0} (test : A → Bool) (xs : List A)
    → holds test xs ≡ false
    → All (λ y. test y ≡ false) xs
unfolding holds
holds-All test [] h = tt
holds-All test (x ∷ xs) h = elim (Bool-cases (test x)) [
  | inl e ↦ ground (arith, e, h)
  | inr e ↦ (e, holds-All test xs (rw e at h))
]

module _ {A K : Type 0} (eq : K → K → Bool) (key : A → K) where
  pub Distinct-delete :
      (test : A → Bool) (xs : List A) → Distinct eq key xs → Distinct eq key (delete_where test xs)
  unfolding delete_where keep
  Distinct-delete test [] h = tt
  Distinct-delete test (x ∷ xs) (p, h) = elim (Bool-cases (test x)) [
    | inl e ↦ rw (e) (Distinct-delete test xs h)
    | inr e ↦ rw (e) (
      All-keep (λ y. eq (key x) (key y) ≡ false) (λ r. not (test r)) xs p,
      Distinct-delete test xs h,
    )
  ]

  pub Distinct-append :
      (xs : List A) (x : A)
      → Distinct eq key xs
      → All (λ y. eq (key y) (key x) ≡ false) xs
      → Distinct eq key (xs ++ x ∷ [])
  Distinct-append [] x h n = (tt, tt)
  Distinct-append (y ∷ ys) x (p, h) (m, n) =
      (All-append (λ z. eq (key y) (key z) ≡ false) ys (x ∷ []) p (m, tt), Distinct-append ys x h n)

  -- A change of the rows that makes no two keys the same
  pub Distinct-map :
      {L : Type 0} (eq' : L → L → Bool) (key' : A → L) (f : A → A)
      (apart : (x y : A) → eq (key x) (key y) ≡ false → eq' (key' (f x)) (key' (f y)) ≡ false)
      (xs : List A)
      → Distinct eq key xs
      → Distinct eq' key' (map f xs)
  Distinct-map eq' key' f apart [] h = tt
  Distinct-map eq' key' f apart (x ∷ xs) (p, h) = (
    map-All (λ y. eq (key x) (key y) ≡ false) (λ y. eq' (key' (f x)) (key' y) ≡ false) f (apart x)
        xs p,
    Distinct-map eq' key' f apart xs h,
  )

  -- An update that leaves the keys alone
  pub Distinct-update :
      (test : A → Bool) (f : A → A) (same : (x : A) → key (f x) ≡ key x) (xs : List A)
      → Distinct eq key xs
      → Distinct eq key (update_where test f xs)
  unfolding update_where
  Distinct-update test f same xs h =
      Distinct-map eq key (λ r. if test r then f r else r) (λ x y e. rw (updated x, updated y) e) xs
        h
    where
      updated : (x : A) → key (if test x then f x else x) ≡ key x
      updated x = elim (Bool-cases (test x)) [ inl e ↦ rw (e) (same x) | inr e ↦ rw (e) refl ]

pub length-update :
    {A : Type 0} (test : A → Bool) (f : A → A) (xs : List A)
    → length (update_where test f xs) ≡ length xs
unfolding update_where
length-update test f [] = refl
length-update test f (x ∷ xs) = ap suc (length-update test f xs)
