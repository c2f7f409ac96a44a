-- ===== src/Tasks.antt =====
-- internal/tasks: tasks run at the same time, `limit` of them at most, and a monitor collects how
-- they end. A run is a sequence of steps of the main loop and of the workers, in any order.
pub mod Runs
pub mod Counts
use curveadm.Prelude.{
  ℕ, zero, suc, ◌+◌, ◌<◌, ◌≡◌, Bool, true, false, Option, none, some, List, [], ◌∷◌, ◌++◌, length,
  nat_eq, if◌then◌else◌,
}
use curveadm.Task.{Error, skip_task, task_done, failure}

-- The results by the id of the progress bar, and the last error that is no skip.
pub record Monitor : Type 0 where
  pub err : Option Error
  pub result : ℕ → List (Option Error)

unfoldable pub new_monitor : Monitor
new_monitor = record { err = none; result = λ _. [] }

-- err != nil && err != task.ERR_SKIP_TASK
abbrev pub is_error : Option Error → Bool
is_error none = false
is_error (some skip_task) = false
is_error (some _) = true

unfoldable pub set : ℕ → Option Error → Monitor → Monitor
set bid e m = record {
  err = if is_error e then e else m.err;
  result = λ b. if nat_eq b bid then m.result b ++ e ∷ [] else m.result b;
}

pub record Sum : Type 0 where
  pub nsucc : ℕ
  pub nskip : ℕ
  pub nerr : ℕ

unfoldable pub count : Option Error → Sum → Sum
count none s = record s { nsucc = s.nsucc + 1 }
count (some skip_task) s = record s { nskip = s.nskip + 1 }
count (some _) s = record s { nerr = s.nerr + 1 }

unfoldable pub sum_from : Sum → List (Option Error) → Sum
unfolding count
sum_from s [] = s
sum_from s (e ∷ es) = sum_from (count e s) es

unfoldable pub sum : ℕ → Monitor → Sum
unfolding sum_from
sum bid m = sum_from (record { nsucc = 0; nskip = 0; nerr = 0 }) (m.result bid)

pub data Status : Type 0 where
  ok skip error : Status

unfoldable pub status_of : Sum → Status
status_of s =
    if nat_eq s.nerr 0
    then (if nat_eq s.nskip (s.nsucc + s.nskip + s.nerr) then skip else ok)
    else error

unfoldable pub get : ℕ → Monitor → Status
unfolding sum status_of
get bid m = status_of (sum bid m)

-- The loop of `setMainBarStatus` over the bars of the tasks, then what it does with their number of
-- successes.
unfoldable pub main_status : List ℕ → ℕ → ℕ → Monitor → Monitor
unfolding set get
main_status [] id nsucc m = set id (if nat_eq nsucc 0 then some skip_task else none) m
main_status (b ∷ bs) id nsucc m = elim (get b m) [
  | error ↦ set id m.err m
  | ok ↦ main_status bs id (nsucc + 1) m
  | skip ↦ main_status bs id nsucc m
]

unfoldable pub init_options : ℕ → ℕ
init_options concurrency = if nat_eq concurrency 0 then 10 else concurrency

-- The tasks that are not started, those that run, those that have ended and still hold their
-- slot, and those that are done; and the monitor.
pub record Tasks (T : Type 0) : Type 0 where
  pub pending : List T
  pub running : List T
  pub ended : List T
  pub done : List T
  pub monitor : Monitor

module _ {T : Type 0} where
  unfoldable pub start : List T → Tasks T
  unfolding new_monitor
  start ts = record { pending = ts; running = []; ended = []; done = []; monitor = new_monitor }

  -- `bar` is the progress bar of a task, `outcome` how it may end.
  pub data Step (limit : ℕ) (bar : T → ℕ) (outcome : T → Option Error → Type 0)
      : Tasks T → Tasks T → Type 0 where
    launch :
        {s : Tasks T} (t : T) (ts : List T)
        → s.pending ≡ t ∷ ts
        → length s.running + length s.ended < limit
        → Step limit bar outcome s (record s { pending = ts; running = t ∷ s.running })
    finish :
        {s : Tasks T} (xs ys : List T) (t : T) (e : Option Error)
        → s.running ≡ xs ++ t ∷ ys
        → outcome t e
        → Step limit bar outcome s (record s {
          running = xs ++ ys;
          ended = t ∷ s.ended;
          monitor = set (bar t) e s.monitor;
        })
    release :
        {s : Tasks T} (xs ys : List T) (t : T)
        → s.ended ≡ xs ++ t ∷ ys
        → Step limit bar outcome s (record s { ended = xs ++ ys; done = t ∷ s.done })

  pub data Run (limit : ℕ) (bar : T → ℕ) (outcome : T → Option Error → Type 0) (s : Tasks T)
      : Tasks T → Type 0 where
    here : Run limit bar outcome s s
    next :
        {t u : Tasks T}
        → Run limit bar outcome s t
        → Step limit bar outcome t u
        → Run limit bar outcome s u

  -- `ts.wg.Wait()` returns.
  pub record IsDone (s : Tasks T) : Type 0 where
    pub no_pending : s.pending ≡ []
    pub no_running : s.running ≡ []
    pub no_ended : s.ended ≡ []
