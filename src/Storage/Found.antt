-- ===== src/Storage/Found.antt =====
-- The first row with a key, under the changes of a table.
use mathlib.Core.Option
use curveadm.Prelude.{
  ◌≡◌, refl, arith, String, ◌==◌, eq_iff, Bool, true, false, Bool-cases, Option, none, some, List,
  [], ◌∷◌, ◌++◌, map, keep, inl, inr, if◌then◌else◌,
}
use curveadm.Storage.Tables.{delete_where, holds}

abbrev pub is_some : {V : Type 0} → Option V → Bool
is_some none = false
is_some (some v) = true

-- What a table says of a key
module _ {A V : Type 0} (key : A → String) (value : A → V) where
  unfoldable pub found : List A → String → Option V
  found [] k = none
  found (r ∷ rs) k = if key r == k then some (value r) else found rs k

  pub holds-found : (n : String) (rs : List A) → holds (λ r. key r == n) rs ≡ is_some (found rs n)
  unfolding found holds
  holds-found n [] = refl
  holds-found n (r ∷ rs) = elim (Bool-cases (key r == n)) [
    | inl e ↦ rw (e) refl
    | inr e ↦ rw (e) (holds-found n rs)
  ]

  pub found-append :
      (x : A) (rs : List A) (k : String)
      → holds (λ r. key r == key x) rs ≡ false
      → found (rs ++ x ∷ []) k ≡ (if key x == k then some (value x) else found rs k)
  unfolding found holds
  found-append x [] k h = refl
  found-append x (r ∷ rs) k h = elim (Bool-cases (key r == key x)) [
    | inl e ↦ ground (arith, e, h)
    | inr e ↦
        let rest = found-append x rs k (rw e at h) in
        rw (rest) ground (arith, e, eq_iff (key r) k, eq_iff (key x) k, eq_iff (key r) (key x))
  ]

  pub found-delete :
      (n : String) (rs : List A) (k : String)
      → found (delete_where (λ r. key r == n) rs) k ≡ (if n == k then none else found rs k)
  unfolding found delete_where keep
  found-delete n [] k = ground arith
  found-delete n (r ∷ rs) k = elim (Bool-cases (key r == n)) [
    | inl e ↦
        rw (e) ground
          (arith, found-delete n rs k, e, eq_iff (key r) n, eq_iff (key r) k, eq_iff n k)
    | inr e ↦
        rw (e, found-delete n rs k) ground
          (arith, e, eq_iff (key r) n, eq_iff (key r) k, eq_iff n k)
  ]

  -- A change of every row that leaves the keys alone
  pub found-map :
      (f : A → A) (g : String → V → V) (rs : List A)
      → ((r : A) → key (f r) ≡ key r)
      → ((r : A) → value (f r) ≡ g (key r) (value r))
      → (k : String) → found (map f rs) k ≡ Option.map (g k) (found rs k)
  unfolding found
  found-map f g [] same said k = refl
  found-map f g (r ∷ rs) same said k = elim (Bool-cases (key r == k)) [
    | inl e ↦ rw (same r, e, said r, (eq_iff (key r) k).0 e) refl
    | inr e ↦ rw (same r, e) (found-map f g rs same said k)
  ]
