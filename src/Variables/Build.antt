-- ===== src/Variables/Build.antt =====
-- `Build` over the whole table, and tables whose references run in circles.
use curveadm.Prelude.{
  ℕ, zero, suc, ◌<◌, String, ◌≡◌, refl, sym, ◌∙◌, subst, true, false, List, [], ◌∷◌, some, inl, inr,
  ◌⊎◌, All, Dict, lookup, insert, lookup-insert, eq_iff, eq_refl, ok, err, exhausted, Bool-cases,
  text-cases, Option-cases, ◌==◌, if◌then◌else◌,
}
use curveadm.Variables.Scan.{scan, refs}
use curveadm.Variables.Meaning.{Means, Means-back, settled}
use curveadm.Variables.Soundness.{IsSettled, Defined, IsRanked, resolve-total, resolve_refs-Total}
use curveadm.Variables.{
  Variable, Variables, duplicate, resolve_refs, resolve, names, register, build,
}

-- Each key is the name of its variable: `Register` puts a variable under its own name.
abbrev pub IsKeyed : Dict Variable → Type 0
IsKeyed = All (λ e. e.1.name ≡ e.0)

insert-IsKeyed : (v : Variable) (m : Dict Variable) → IsKeyed m → IsKeyed (insert v.name v m)
unfolding insert
insert-IsKeyed v [] h = (refl, tt)
insert-IsKeyed v ((j, w) ∷ m) (p, h) = elim (text-cases j v.name) [
  | inl e ↦ rw ((eq_iff j v.name).1 e) (sym e, h)
  | inr e ↦ rw e (p, insert-IsKeyed v m h)
]

-- In a table keyed by the names of its variables, registering a variable is refused with an error
-- when its name is defined; otherwise it gives a table, keyed in the same way, that has the
-- variable under its name and every other entry as before.
pub register_lem :
    (v : Variable) (vars : Variables)
    → IsKeyed vars.m
    → (Defined vars.m v.name × (register v vars ≡ err (duplicate v.name)))
      ⊎ ((w : Variables) × (register v vars ≡ ok w)
          × IsKeyed w.m
          × ((j : String) → lookup j w.m ≡ (if v.name == j then some v else lookup j vars.m)))
unfolding register
register_lem v vars h = elim (Option-cases (lookup v.name vars.m)) [
  | inl e ↦ inr (
    record vars { m = insert v.name v vars.m },
    rw (e, register),
    insert-IsKeyed v vars.m h,
    λ j. lookup-insert v.name j v vars.m,
  )
  | inr (w, e) ↦ inl ((w, e), rw (e, register))
]

lookup-names :
    (P : String → Type 0) (m : Dict Variable) (n : String) {v : Variable}
    → IsKeyed m
    → All P (names m)
    → lookup n m ≡ some v
    → P n
unfolding names lookup
lookup-names P [] n k a e = cc
lookup-names P ((j, w) ∷ m) n (q, k) (p, a) e = elim (text-cases j n) [
  | inl s ↦ subst P (q ∙ s) p
  | inr s ↦ lookup-names P m n k a (rw s at e)
]

Defined-cons :
    (m : Dict Variable) (j : String) (w : Variable) (k : String)
    → Defined m k
    → Defined ((j, w) ∷ m) k
unfolding lookup
Defined-cons m j w k (v, e) = elim (Bool-cases (j == k)) [ inl s ↦ (w, rw s) | inr s ↦ (v, rw s e) ]

All-Defined-cons :
    (m : Dict Variable) (j : String) (w : Variable) (ks : List String)
    → All (Defined m) ks
    → All (Defined ((j, w) ∷ m)) ks
All-Defined-cons m j w [] h = tt
All-Defined-cons m j w (k ∷ ks) (d, h) = (Defined-cons m j w k d, All-Defined-cons m j w ks h)

names-Defined : (m : Dict Variable) → IsKeyed m → All (Defined m) (names m)
unfolding names lookup
names-Defined [] h = tt
names-Defined ((j, w) ∷ m) (q, h) =
    ((w, rw q (rw eq_refl)), All-Defined-cons m j w (names m) (names-Defined m h))

-- Every variable of `m` is resolved in `m'`, at what it means in `m`.
pub record IsBuilt (m m' : Dict Variable) : Type 0 where
  pub at :
      (n : String)
      → Defined m n
      → (v : Variable) × (lookup n m' ≡ some v) × (v.resolved ≡ true) × Means m n v.value

All-below :
    (rank : String → ℕ) (f : ℕ) (m : Dict Variable) (ks : List String)
    → ((n : String) → rank n < f)
    → All (Defined m) ks
    → All (λ k. (rank k < f) × Defined m k) ks
All-below rank f m [] h d = tt
All-below rank f m (k ∷ ks) h (p, d) = ((h k, p), All-below rank f m ks h d)

-- `Build` succeeds on a table that is keyed by the names of its variables and whose unresolved
-- variables refer to defined variables of a lower rank only, when the stack is deeper than every
-- rank: in whatever order the variables are met, afterwards each is resolved, to what it meant
-- before, its references replaced by what they mean.
pub build-IsBuilt :
    (rank : String → ℕ) (f : ℕ) (vars : Variables)
    → IsKeyed vars.m
    → IsRanked rank vars.m
    → ((n : String) → rank n < f)
    → (w : Variables) × (build f vars ≡ ok w) × (w.compiled ≡ true) × IsBuilt vars.m w.m
unfolding build
build-IsBuilt rank f vars k h p =
    let (m', e, s) =
      resolve_refs-Total rank f (resolve f) (λ n m q. resolve-total rank f n m q) (names vars.m)
        vars.m h (All-below rank f vars.m (names vars.m) p (names-Defined vars.m k)) in
    (
      record { m = m'; compiled = true },
      rw e,
      refl,
      record {
        at = λ n (v, d).
            let t = lookup-names (IsSettled m') vars.m n k s.settles d in
            (t.entry, t.found, t.is_resolved, Means-back s.evolves (settled t.found t.is_resolved));
      },
    )

-- Names whose variables are unresolved and whose first references lead on in a circle.
pub record IsCircular (C : String → Type 0) (m : Dict Variable) : Type 0 where
  pub at :
      (n : String)
      → C n
      → (v : Variable) × (k : String) × (ks : List String) × (lookup n m ≡ some v)
        × (v.resolved ≡ false)
        × (refs (scan v.value) ≡ k ∷ ks)
        × C k

-- Where a set of names is such that each of them has an unresolved variable whose first reference
-- is in the set again, resolving a name of the set exhausts the stack, however deep the stack is.
pub resolve-circular :
    (C : String → Type 0) (m : Dict Variable)
    → IsCircular C m
    → (f : ℕ) (n : String) → C n
    → resolve f n m ≡ exhausted
unfolding resolve resolve_refs
resolve-circular C m h zero n c = refl
resolve-circular C m h (suc f) n c =
    let (v, k, ks, e, u, r, c') = h.at n c in
    rw e (rw u (rw r (rw (resolve-circular C m h f k c'))))
