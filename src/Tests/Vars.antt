-- ===== src/Tests/Vars.antt =====
-- Variables at concrete inputs.
use curveadm.Prelude.{
  ℕ, ◌<◌, String, ◌≡◌, ◌⊎◌, refl, subst, inl, inr, arith, ◌==◌, Bool, true, false, Option, none,
  some, [], ◌∷◌, ◌++◌, Dict, lookup, All, ok, err, exhausted, if◌then◌else◌, text-cases,
}
use curveadm.Variables.{Variables, Variable, duplicate, get, register, resolve, build, rendering}
use curveadm.Variables.Scan.{ref, refs, scan, scan_from, scan_step, flush, is_special}
use curveadm.Variables.Scan.Template.{write, IsPart, IsName, is_name}
use curveadm.Variables.Rendering.{fill, rendering-write}
use curveadm.Variables.Scan.Source.{source}
use curveadm.Variables.Scan.Found.{scan-with_reference}
use curveadm.Variables.Soundness.{Defined}
use curveadm.Variables.Build.{
  IsKeyed, IsBuilt, IsCircular, build-IsBuilt, register_lem, resolve-circular,
}

abbrev var : String → String → Bool → Variable
var n t done = record { name = n; description = ""; value = t; resolved = done }

abbrev two : Variables
two = record { m = ("a", var "a" "x${b}y" false) ∷ ("b", var "b" "1" false) ∷ []; compiled = false }

abbrev rank : String → ℕ
rank n = if n == "a" then 1 else 0

rank_below : (n : String) → rank n < 2
rank_below n = ground arith

abbrev Lower : String → Option Variable → Type 0
Lower n none = Unit
Lower n (some v) = All (λ k. (rank k < rank n) × Defined two.m k) (refs (scan v.value))

two-Lower : (n : String) → Lower n (lookup n two.m)
unfolding lookup scan refs scan_from scan_step flush is_special
two-Lower n = elim (text-cases "a" n) [
  | inl a ↦ subst (λ n. Lower n (lookup n two.m)) a ((omega arith, (var "b" "1" false, refl)), tt)
  | inr a ↦ elim (text-cases "b" n) [
    | inl b ↦ subst (λ n. Lower n (lookup n two.m)) b tt
    | inr b ↦ rw (a, b) tt
  ]
]

build-IsBuilt_example :
    (w : Variables) × (build 2 two ≡ ok w) × (w.compiled ≡ true) × IsBuilt two.m w.m
build-IsBuilt_example =
    build-IsBuilt rank 2 two (refl, (refl, tt)) (λ n v e u. subst (Lower n) e (two-Lower n))
      rank_below

abbrev built : Variables
built = record { m = ("a", var "a" "1" true) ∷ []; compiled = true }

abbrev values : String → String
values n = "1"

rendering-write_example :
    rendering built (write (("x=", "a") ∷ ("", "a") ∷ []) "!")
    ≡ ok (fill values (("x=", "a") ∷ ("", "a") ∷ []) "!")
unfolding get lookup IsPart is_name is_special
rendering-write_example =
    rendering-write built values (("x=", "a") ∷ ("", "a") ∷ []) "!" refl
      (
        (refl, record { clean = refl; some_character = refl }),
        ((refl, record { clean = refl; some_character = refl }), tt),
      )
      refl (refl, (refl, tt))

b-IsName : IsName "b"
unfolding is_name is_special
b-IsName = record { clean = refl; some_character = refl }

scan-with_reference_example :
    (scan "x${$${b}y$${" ≡ scan "x${$" ++ ref "b" ∷ scan "y$${")
    × (source (scan "x${$${b}y$${") ≡ "x${$${b}y$${")
    × All IsName (refs (scan "x${$${b}y$${"))
scan-with_reference_example = scan-with_reference "x${$" "b" "y$${" b-IsName

register_lem_example :
    (Defined built.m "a" × (register (var "a" "2" false) built ≡ err (duplicate "a")))
    ⊎ ((w : Variables) × (register (var "a" "2" false) built ≡ ok w)
        × IsKeyed w.m
        × ((j : String)
            → lookup j w.m ≡ (if "a" == j then some (var "a" "2" false) else lookup j built.m)))
register_lem_example = register_lem (var "a" "2" false) built (refl, tt)

abbrev circle : Dict Variable
circle = ("a", var "a" "${b}" false) ∷ ("b", var "b" "${a}" false) ∷ []

abbrev OnCircle : String → Type 0
OnCircle n = (n ≡ "a") ⊎ (n ≡ "b")

circle-IsCircular : IsCircular OnCircle circle
unfolding lookup scan refs scan_from scan_step flush is_special
circle-IsCircular = record {
  at = λ n c. elim c [
    | inl e ↦ (var "a" "${b}" false, "b", [], rw (e) refl, refl, refl, inr refl)
    | inr e ↦ (var "b" "${a}" false, "a", [], rw (e) refl, refl, refl, inl refl)
  ];
}

resolve-circular_example : resolve 100 "a" circle ≡ exhausted
resolve-circular_example = resolve-circular OnCircle circle circle-IsCircular 100 "a" (inl refl)
