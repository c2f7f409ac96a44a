-- ===== src/Tests/Tasking.antt =====
-- Tasks, task steps and playbooks at concrete inputs.
use curveadm.Prelude.{
  ℕ, ◌+◌, ◌*◌, ◌≡◌, ◌⊎◌, refl, Bool, String, contains, IsNew, Option, none, some, List, [], ◌∷◌,
  length, nat_eq, map, arith, if◌then◌else◌,
}
use curveadm.Errno.{ssh_connect_failed}
use curveadm.Task.{Error, failure, Task, execute}
use curveadm.Task.Execution.{Executed, Stops, execute-Executed}
use curveadm.Tasks.{
  Monitor, new_monitor, Tasks, Step, launch, finish, release, Run, here, next, IsDone, start,
  init_options, set, sum, get,
}
use curveadm.Tasks.Counts.{IsStatus, sum-length, get-IsStatus}
use curveadm.Tasks.Runs.{number, work, Holds, steps, run-Holds, run-ends, run-IsDone}
use curveadm.Playbook.{PlaybookStep, Playbook, run, once_per_host}
use curveadm.Playbook.Running.{play, hosts, run-Stops, once_per_host-hosts}
use curveadm.Tests.{three_chunkservers, chunkserver}

-- A step that counts, and one that fails
abbrev counts : ℕ → Option Error × ℕ
counts n = (none, n + 1)

abbrev fails : ℕ → Option Error × ℕ
fails n = (some (failure ssh_connect_failed), n + 10)

abbrev task : Task ℕ
task = record { steps = counts ∷ fails ∷ counts ∷ []; post_steps = counts ∷ []; ssh = none }

execute-Executed_example : Executed task 0 (execute task 0)
execute-Executed_example = execute-Executed task 0

abbrev step : PlaybookStep ℕ
step = record { create = counts; execute = fails }

abbrev playbook : Playbook ℕ
playbook = record { steps = step ∷ step ∷ []; post_steps = step ∷ [] }

run-Stops_example :
    (t : ℕ) × (e : Option Error) × Stops (map play playbook.steps) 0 (run playbook 0).0 t
    × Stops (map play playbook.post_steps) t e (run playbook 0).1
run-Stops_example = run-Stops playbook 0

once_per_host-hosts_example :
    IsNew [] (hosts (once_per_host [] (chunkserver "h1" "c0" ∷ three_chunkservers)))
    × ((h : String)
        → contains (hosts (once_per_host [] (chunkserver "h1" "c0" ∷ three_chunkservers))) h
          ≡ contains (hosts (chunkserver "h1" "c0" ∷ three_chunkservers)) h)
once_per_host-hosts_example = once_per_host-hosts (chunkserver "h1" "c0" ∷ three_chunkservers)

abbrev bar : ℕ → ℕ
bar t = 7

-- A task numbered 0 succeeds, any other fails.
abbrev Outcome : ℕ → Option Error → Type 0
Outcome t e = e ≡ (if nat_eq t 0 then none else some (failure ssh_connect_failed))

abbrev state : List ℕ → List ℕ → List ℕ → List ℕ → Monitor → Tasks ℕ
state p r e d m = record { pending = p; running = r; ended = e; done = d; monitor = m }

abbrev failed_first : Monitor
failed_first = set 7 (some (failure ssh_connect_failed)) new_monitor

abbrev both : Monitor
both = set 7 none failed_first

-- Two tasks on two slots: the one that starts later ends first.
ends : Run 10 bar Outcome (start (0 ∷ 1 ∷ [])) (state [] [] [] (0 ∷ 1 ∷ []) both)
unfolding start
ends =
    next
      (next
        (next
          (next
            (next (next here (launch 0 (1 ∷ []) refl (omega arith)))
              (launch 1 [] refl (omega arith)))
            (finish [] (0 ∷ []) 1 (some (failure ssh_connect_failed)) refl refl))
          (finish [] [] 0 none refl refl))
        (release (0 ∷ []) [] 1 refl))
      (release [] [] 0 refl)

run-Holds_example : Holds 10 bar (0 ∷ 1 ∷ []) (state [] [] [] (0 ∷ 1 ∷ []) both)
run-Holds_example = run-Holds 10 bar Outcome (0 ∷ 1 ∷ []) ends

ends_of : Run (init_options 0) bar Outcome (start (0 ∷ 1 ∷ [])) (state [] [] [] (0 ∷ 1 ∷ []) both)
unfolding init_options
ends_of = ends

run-ends_example :
    (steps (init_options 0) bar Outcome ends_of + work (state [] [] [] (0 ∷ 1 ∷ []) both) ≡ 3 * 2)
    × (IsDone (state [] [] [] (0 ∷ 1 ∷ []) both)
        ⊎ ((t : Tasks ℕ) × Step (init_options 0) bar Outcome (state [] [] [] (0 ∷ 1 ∷ []) both) t))
run-ends_example = run-ends 0 bar Outcome (0 ∷ 1 ∷ []) (λ t. (_, refl)) ends_of

run-IsDone_example :
    ((test : ℕ → Bool) → number test (0 ∷ 1 ∷ []) ≡ number test (0 ∷ 1 ∷ []))
    × ((b : ℕ) → length (both.result b) ≡ number (λ t. nat_eq (bar t) b) (0 ∷ 1 ∷ []))
run-IsDone_example =
    run-IsDone 0 bar Outcome (0 ∷ 1 ∷ []) ends_of
      (record { no_pending = refl; no_running = refl; no_ended = refl })

sum-length_example :
    (sum 7 both).nsucc + (sum 7 both).nskip + (sum 7 both).nerr ≡ length (both.result 7)
sum-length_example = sum-length 7 both

get-IsStatus_example : IsStatus (both.result 7) (get 7 both)
get-IsStatus_example = get-IsStatus 7 both
