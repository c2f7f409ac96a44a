-- ===== src/Tasks/Counts.antt =====
-- What the monitor reports of the results of a bar.
use curveadm.Prelude.{
  ℕ, suc, ◌+◌, ◌<◌, ◌≡◌, refl, ◌↔◌, inl, inr, arith, Bool, true, false, Bool-cases, Option, none,
  some, List, [], ◌∷◌, length, nat_eq, All, if◌then◌else◌,
}
use curveadm.Task.{Error, skip_task, task_done, failure}
use curveadm.Tasks.{
  Monitor, Sum, Status, ok, skip, error, is_error, count, sum_from, sum, status_of, get,
}

-- The number of results that pass a test
abbrev pub number_of : (Option Error → Bool) → List (Option Error) → ℕ
number_of test [] = 0
number_of test (e ∷ es) = if test e then suc (number_of test es) else number_of test es

abbrev pub is_success : Option Error → Bool
is_success none = true
is_success (some _) = false

abbrev pub is_skip : Option Error → Bool
is_skip (some skip_task) = true
is_skip _ = false

-- The three counters count the successes, the skips and the errors.
record Counts (s t : Sum) (es : List (Option Error)) : Type 0 where
  successes : t.nsucc ≡ s.nsucc + number_of is_success es
  skips : t.nskip ≡ s.nskip + number_of is_skip es
  errors : t.nerr ≡ s.nerr + number_of is_error es

sum_from-Counts : (s : Sum) (es : List (Option Error)) → Counts s (sum_from s es) es
unfolding sum_from count
sum_from-Counts s [] = record { successes = omega arith; skips = omega arith; errors = omega arith }
sum_from-Counts s (none ∷ es) =
    let c = sum_from-Counts (count none s) es in
    record { successes = omega (arith, c.successes); skips = c.skips; errors = c.errors }
sum_from-Counts s (some skip_task ∷ es) =
    let c = sum_from-Counts (count (some skip_task) s) es in
    record { successes = c.successes; skips = omega (arith, c.skips); errors = c.errors }
sum_from-Counts s (some task_done ∷ es) =
    let c = sum_from-Counts (count (some task_done) s) es in
    record { successes = c.successes; skips = c.skips; errors = omega (arith, c.errors) }
sum_from-Counts s (some (failure x) ∷ es) =
    let c = sum_from-Counts (count (some (failure x)) s) es in
    record { successes = c.successes; skips = c.skips; errors = omega (arith, c.errors) }

numbers-add :
    (es : List (Option Error))
    → number_of is_success es + number_of is_skip es + number_of is_error es ≡ length es
numbers-add [] = refl
numbers-add (none ∷ es) = omega (arith, numbers-add es)
numbers-add (some skip_task ∷ es) = omega (arith, numbers-add es)
numbers-add (some task_done ∷ es) = omega (arith, numbers-add es)
numbers-add (some (failure x) ∷ es) = omega (arith, numbers-add es)

number_of-zero :
    (test : Option Error → Bool) (es : List (Option Error))
    → (number_of test es ≡ 0) ↔ All (λ e. test e ≡ false) es
number_of-zero test [] = (λ _. tt, λ _. refl)
number_of-zero test (e ∷ es) = elim (Bool-cases (test e)) [
  | inl h ↦ (λ z. cc (rw h at z), λ a. cc (h, a.0))
  | inr h ↦ (
    λ z. (h, (number_of-zero test es).0 (rw h at z)),
    λ a. rw (h) ((number_of-zero test es).1 a.1),
  )
]

-- A bar shows an error when a task of it failed, a skip when all were skipped (or there are none), and
-- else success.
pub data IsStatus (es : List (Option Error)) : Status → Type 0 where
  failed : (number_of is_error es ≡ 0 → ⊥) → IsStatus es error
  skipped : All (λ e. is_error e ≡ false) es → All (λ e. is_success e ≡ false) es → IsStatus es skip
  succeeded : All (λ e. is_error e ≡ false) es → 0 < number_of is_success es → IsStatus es ok

-- The counters of a bar add up to its number of results, and its status is as they say.
pub sum-length :
    (bid : ℕ) (m : Monitor)
    → (sum bid m).nsucc + (sum bid m).nskip + (sum bid m).nerr ≡ length (m.result bid)
unfolding sum
sum-length bid m =
    let c = sum_from-Counts (record { nsucc = 0; nskip = 0; nerr = 0 }) (m.result bid) in
    omega (arith, c.successes, c.skips, c.errors, numbers-add (m.result bid))

status_of-IsStatus :
    (es : List (Option Error)) (s : Sum)
    → Counts (record { nsucc = 0; nskip = 0; nerr = 0 }) s es
    → IsStatus es (status_of s)
unfolding status_of
status_of-IsStatus es s c = elim (Bool-cases (nat_eq s.nerr 0)) [
  | inr e ↦ rw (e) (failed (λ z. ground (arith, e, c.errors, z)))
  | inl e ↦
      let none_failed : All (λ x. is_error x ≡ false) es =
        (number_of-zero is_error es).0 (ground (arith, e, c.errors)) in
      elim (Bool-cases (nat_eq s.nskip (s.nsucc + s.nskip + s.nerr))) [
        | inl f ↦
            rw (e, f)
              (skipped none_failed
                ((number_of-zero is_success es).0 (ground (arith, e, f, c.successes, c.errors))))
        | inr f ↦ rw (e, f) (succeeded none_failed (ground (arith, e, f, c.successes, c.errors)))
      ]
]

-- The status of a bar is an error when the number of its results that are errors is not 0. It is
-- a skip only when no result is an error and none a success, and a success only when no result is
-- an error and one at least is a success.
pub get-IsStatus : (bid : ℕ) (m : Monitor) → IsStatus (m.result bid) (get bid m)
unfolding get sum
get-IsStatus bid m = status_of-IsStatus (m.result bid) _ (sum_from-Counts _ (m.result bid))
