-- ===== src/Prelude/Results.antt =====
-- What a Go call with an `error` result gives. Besides a value and an error a call may panic, and a
-- recursion on fuel may exhaust it; a theorem says when it does not.
use mathlib.Core.Path.{◌≡◌, refl, ap}
use mathlib.Core.Bool.{Bool, true, false}

pub data Result {ℓ κ} (E : Type κ) (A : Type ℓ) : Type (ℓ ⊔ κ) where
  ok : A → Result E A
  err : E → Result E A
  panic : Result E A
  exhausted : Result E A

infixl 5 ◌>>=◌ ◌>>◌
abbrev pub ◌>>=◌ {ℓ κ ι} :
    {E : Type ι} {A : Type ℓ} {B : Type κ} → Result E A → (A → Result E B) → Result E B
ok a >>= f = f a
err e >>= f = err e
panic >>= f = panic
exhausted >>= f = exhausted

abbrev pub ◌>>◌ {ℓ ι} : {E : Type ι} {B : Type ℓ} → Result E (Unit {0}) → Result E B → Result E B
m >> k = m >>= λ _. k

abbrev pub guard {ι} : {E : Type ι} → Bool → E → Result E (Unit {0})
guard true e = ok tt
guard false e = err e

-- errno.X.E(err): the error of a callee under a code of the caller.
abbrev pub wrap {ℓ ι κ} : {E : Type ι} {F : Type κ} {A : Type ℓ} → F → Result E A → Result F A
wrap f (ok a) = ok a
wrap f (err e) = err f
wrap f panic = panic
wrap f exhausted = exhausted

pub bind-eq-ok {ℓ κ ι} :
    {E : Type ι} {A : Type ℓ} {B : Type κ} (m : Result E A) (f : A → Result E B) {b : B}
    → (m >>= f) ≡ ok b
    → (a : A) × (m ≡ ok a) × (f a ≡ ok b)
bind-eq-ok (ok a) f h = (a, refl, h)
bind-eq-ok (err e) f h = cc
bind-eq-ok panic f h = cc
bind-eq-ok exhausted f h = cc

-- The two parts of what a call with a state gives.
module _ {ℓ κ} {A : Type ℓ} {B : Type κ} {r : A × B} {a : A} {b : B} (h : r ≡ (a, b)) where
  pub left_of : r.0 ≡ a
  left_of = ap (λ (x : A × B). x.0) h

  pub right_of : r.1 ≡ b
  right_of = ap (λ (x : A × B). x.1) h

-- A property of what a call returns, when it does.
abbrev pub WhenOk {ℓ κ ι} : {E : Type ι} {A : Type ℓ} → (A → Type κ) → Result E A → Type κ
WhenOk P (ok a) = P a
WhenOk P _ = Unit

-- How a call ends: with a value that has a property, or with an error; where it panics or runs out
-- of fuel, `N` holds. So with ⊥ for `N` it does not panic.
abbrev pub Ends {ℓ ι} : {E : Type ι} {A : Type ℓ} → Type 0 → (A → Type 0) → Result E A → Type 0
Ends N P (ok a) = P a
Ends N P (err e) = Unit
Ends N P _ = N

module _ {ℓ ι} {E : Type ι} {A : Type ℓ} (N : Type 0) where
  pub bind-Ends {κ} :
      {B : Type κ} (P : A → Type 0) (Q : B → Type 0) (m : Result E A) (f : A → Result E B)
      → Ends N P m
      → ((a : A) → P a → Ends N Q (f a))
      → Ends N Q (m >>= f)
  bind-Ends P Q (ok a) f h g = g a h
  bind-Ends P Q (err e) f h g = tt
  bind-Ends P Q panic f h g = h
  bind-Ends P Q exhausted f h g = h

  pub bind-Ends-eq {κ} :
      {B : Type κ} (P : A → Type 0) (Q : B → Type 0) (m : Result E A) (f : A → Result E B)
      → Ends N P m
      → ((a : A) → m ≡ ok a → P a → Ends N Q (f a))
      → Ends N Q (m >>= f)
  bind-Ends-eq P Q (ok a) f h g = g a refl h
  bind-Ends-eq P Q (err e) f h g = tt
  bind-Ends-eq P Q panic f h g = h
  bind-Ends-eq P Q exhausted f h g = h

  -- Behind a guard its test holds.
  pub guard-Ends :
      (Q : A → Type 0) (b : Bool) (e : E) (m : Result E A)
      → (b ≡ true → Ends N Q m)
      → Ends N Q (guard b e >> m)
  guard-Ends Q true e m h = h refl
  guard-Ends Q false e m h = tt

  pub Ends-map :
      (P Q : A → Type 0) (m : Result E A) → Ends N P m → ((a : A) → P a → Q a) → Ends N Q m
  Ends-map P Q (ok a) h f = f a h
  Ends-map P Q (err e) h f = tt
  Ends-map P Q panic h f = h
  Ends-map P Q exhausted h f = h
