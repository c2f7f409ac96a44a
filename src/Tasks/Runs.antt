-- ===== src/Tasks/Runs.antt =====
-- What holds in every run of the tasks, and that a run ends.
use curveadm.Prelude.{
  ℕ, suc, ◌+◌, ◌*◌, ◌≤◌, ◌<◌, ◌≡◌, refl, sym, ◌∙◌, ap, subst, ◌⊎◌, inl, inr, arith, Bool, true,
  false, Bool-cases, Option, none, List, [], ◌∷◌, ◌++◌, List-cases, length, length-append, nat_eq,
  All, All-append, if◌then◌else◌,
}
use curveadm.Task.{Error}
use curveadm.Tasks.{
  Monitor, Tasks, Step, launch, finish, release, Run, here, next, IsDone, start, set, is_error,
  new_monitor, init_options,
}

-- How many of the tasks pass a test
abbrev pub number : {T : Type 0} → (T → Bool) → List T → ℕ
number test [] = 0
number test (t ∷ ts) = if test t then suc (number test ts) else number test ts

number-append :
    {T : Type 0} (test : T → Bool) (xs : List T) (t : T) (ys : List T)
    → number test (xs ++ t ∷ ys)
      ≡ (if test t then suc (number test (xs ++ ys)) else number test (xs ++ ys))
number-append test [] t ys = refl
number-append test (x ∷ xs) t ys = ground (arith, number-append test xs t ys)

abbrev pub tasks_of : {T : Type 0} → (T → Bool) → Tasks T → ℕ
tasks_of test s =
    number test s.pending + number test s.running + number test s.ended + number test s.done

-- The steps that are left
abbrev pub work : {T : Type 0} → Tasks T → ℕ
work s = 3 * length s.pending + 2 * length s.running + length s.ended

-- What a task counts for in the list that it is taken from
number-taken :
    {T : Type 0} (test : T → Bool) {l : List T} (xs : List T) (t : T) (ys : List T)
    → l ≡ xs ++ t ∷ ys
    → number test l ≡ (if test t then suc (number test (xs ++ ys)) else number test (xs ++ ys))
number-taken test xs t ys same = ap (number test) same ∙ number-append test xs t ys

length-taken :
    {T : Type 0} {l : List T} (xs : List T) (t : T) (ys : List T)
    → l ≡ xs ++ t ∷ ys
    → length l ≡ suc (length (xs ++ ys))
length-taken xs t ys same =
    omega (arith, ap length same, length-append xs (t ∷ ys), length-append xs ys)

-- At most `limit` tasks hold a slot, no task is lost or run twice, every bar has one result for each
-- of its tasks that has ended, and the monitor has an error if one of them failed.
pub record Holds {T : Type 0} (limit : ℕ) (bar : T → ℕ) (ts : List T) (s : Tasks T) : Type 0 where
  pub bounded : length s.running + length s.ended ≤ limit
  pub conserved : (test : T → Bool) → tasks_of test s ≡ number test ts
  pub results :
      (b : ℕ)
      → length (s.monitor.result b)
        ≡ number (λ t. nat_eq (bar t) b) s.ended + number (λ t. nat_eq (bar t) b) s.done
  pub no_error : s.monitor.err ≡ none → (b : ℕ) → All (λ e. is_error e ≡ false) (s.monitor.result b)

set-length :
    (bid : ℕ) (e : Option Error) (m : Monitor) (b : ℕ)
    → length ((set bid e m).result b)
      ≡ (if nat_eq bid b then suc (length (m.result b)) else length (m.result b))
unfolding set
set-length bid e m b = ground (arith, length-append (m.result b) (e ∷ []))

set_error : (bid : ℕ) (e : Option Error) (m : Monitor) → is_error e ≡ true → (set bid e m).err ≡ e
unfolding set
set_error bid e m h = rw h

set-no_error :
    (bid : ℕ) (e : Option Error) (m : Monitor)
    → (m.err ≡ none → (b : ℕ) → All (λ e. is_error e ≡ false) (m.result b))
    → (set bid e m).err ≡ none
    → (b : ℕ) → All (λ e. is_error e ≡ false) ((set bid e m).result b)
unfolding set
set-no_error bid e m h z b = elim (Bool-cases (is_error e)) [
  | inl f ↦
      let g : is_error none ≡ true =
        subst (λ x. is_error x ≡ true) (sym (set_error bid e m f) ∙ z) f in
      cc g
  | inr f ↦ elim (Bool-cases (nat_eq b bid)) [
    | inl g ↦ rw (g) (All-append _ (m.result b) (e ∷ []) (h (rw f at z) b) (f, tt))
    | inr g ↦ rw (g) (h (rw f at z) b)
  ]
]

module _ {T : Type 0} (limit : ℕ) (bar : T → ℕ) (outcome : T → Option Error → Type 0) where
  step-Holds :
      (ts : List T) {s t : Tasks T}
      → Step limit bar outcome s t
      → Holds limit bar ts s
      → Holds limit bar ts t
  step-Holds ts (launch t rest same free) h = record {
    bounded = omega (arith, free);
    conserved = λ test. ground (arith, h.conserved test, ap (number test) same);
    results = h.results;
    no_error = h.no_error;
  }
  step-Holds ts {s = s} (finish xs ys t e same o) h = record {
    bounded = omega (arith, h.bounded, length-taken xs t ys same);
    conserved = λ test. ground (arith, h.conserved test, number-taken test xs t ys same);
    results = λ b. ground (arith, h.results b, set-length (bar t) e s.monitor b);
    no_error = set-no_error _ e _ h.no_error;
  }
  step-Holds ts (release xs ys t same) h = record {
    bounded = omega (arith, h.bounded, length-taken xs t ys same);
    conserved = λ test. ground (arith, h.conserved test, number-taken test xs t ys same);
    results = λ b. ground (arith, h.results b, number-taken (λ x. nat_eq (bar x) b) xs t ys same);
    no_error = h.no_error;
  }

  start-Holds : (ts : List T) → Holds limit bar ts (start ts)
  unfolding start new_monitor
  start-Holds ts = record {
    bounded = omega arith;
    conserved = λ test. omega arith;
    results = λ b. refl;
    no_error = λ _ b. tt;
  }

  -- In every state that a run of the tasks reaches, in any interleaving of its steps, at most
  -- `limit` tasks hold a slot, the tasks that pass a test are as many as in the list given, the
  -- monitor has one result under each bar for each task of that bar that has ended, and if it has
  -- no error, no result is one.
  pub run-Holds :
      (ts : List T) {s : Tasks T} → Run limit bar outcome (start ts) s → Holds limit bar ts s
  run-Holds ts here = start-Holds ts
  run-Holds ts (next r step) = step-Holds ts step (run-Holds ts r)

  abbrev pub steps : {s t : Tasks T} → Run limit bar outcome s t → ℕ
  steps here = 0
  steps (next r step) = suc (steps r)

  step-work : {s t : Tasks T} → Step limit bar outcome s t → suc (work t) ≡ work s
  step-work (launch t rest same free) = omega (arith, ap length same)
  step-work (finish xs ys t e same o) = omega (arith, length-taken xs t ys same)
  step-work (release xs ys t same) = omega (arith, length-taken xs t ys same)

  run-work : {s t : Tasks T} (r : Run limit bar outcome s t) → steps r + work t ≡ work s
  run-work here = omega arith
  run-work (next r step) = omega (arith, run-work r, step-work step)

  may_step :
      0 < limit
      → ((t : T) → (e : Option Error) × outcome t e)
      → (s : Tasks T) → IsDone s ⊎ ((t : Tasks T) × Step limit bar outcome s t)
  may_step positive may_end s = elim (List-cases s.running) [
    | inr (t, ts, same) ↦ let (e, o) = may_end t in inr (_, finish [] ts t e same o)
    | inl same ↦ elim (List-cases s.ended) [
      | inr (t, ts, same') ↦ inr (_, release [] ts t same')
      | inl same' ↦ elim (List-cases s.pending) [
        | inr (t, ts, same'') ↦
            inr (_, launch t ts same'' (omega (arith, positive, ap length same, ap length same')))
        | inl same'' ↦ inl (record { no_pending = same''; no_running = same; no_ended = same' })
      ]
    ]
  ]

module _ {T : Type 0} (concurrency : ℕ) (bar : T → ℕ) (outcome : T → Option Error → Type 0) where
  init_options-positive : 0 < init_options concurrency
  unfolding init_options
  init_options-positive = ground arith

  -- When every task may end in some way, and whatever the option for the concurrency is, the
  -- steps of a run and the steps that are left after it are three for each task, and a state that
  -- a run reaches has a next step unless all tasks are done. So no run deadlocks, and none goes
  -- on forever.
  pub run-ends :
      (ts : List T) {s : Tasks T}
      → ((t : T) → (e : Option Error) × outcome t e)
      → (r : Run (init_options concurrency) bar outcome (start ts) s)
      → (steps _ bar outcome r + work s ≡ 3 * length ts)
        × (IsDone s ⊎ ((t : Tasks T) × Step (init_options concurrency) bar outcome s t))
  unfolding start
  run-ends ts {s} may_end r = (
    omega (arith, run-work _ bar outcome r),
    may_step _ bar outcome init_options-positive may_end s,
  )

  -- Whatever the option for the concurrency is, when a run has reached a state where all tasks
  -- are done, the tasks that are done are those that were given, for every test the same number
  -- of them passes it, and the monitor has as many results under each bar as there are tasks of
  -- that bar.
  pub run-IsDone :
      (ts : List T) {s : Tasks T}
      → Run (init_options concurrency) bar outcome (start ts) s
      → IsDone s
      → ((test : T → Bool) → number test s.done ≡ number test ts)
        × ((b : ℕ) → length (s.monitor.result b) ≡ number (λ t. nat_eq (bar t) b) ts)
  run-IsDone ts {s} r d =
      let h = run-Holds _ bar outcome ts r in
      let all : (test : T → Bool) → number test s.done ≡ number test ts = λ test. omega (
        arith,
        h.conserved test,
        ap (number test) d.no_pending,
        ap (number test) d.no_running,
        ap (number test) d.no_ended,
      ) in
      (
        all,
        λ b. omega (
          arith,
          h.results b,
          all (λ t. nat_eq (bar t) b),
          ap (number (λ t. nat_eq (bar t) b)) d.no_ended,
        ),
      )
