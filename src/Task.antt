-- ===== src/Task.antt =====
-- internal/task/task/task.go: a task runs its steps on a host. A step is a function of the state of
-- the host and of what the steps share, `S`, which it changes also when it fails.
pub mod Execution
use curveadm.Prelude.{Bool, true, false, Option, none, some, List, [], ◌∷◌, ◌++◌, if◌then◌else◌}
use curveadm.Errno.{Code, ssh_connect_failed}

-- `ERR_SKIP_TASK`, `ERR_TASK_DONE`, or any other error
pub data Error : Type 0 where
  skip_task task_done : Error
  failure : Code → Error

abbrev pub Step : Type 0 → Type 0
Step S = S → Option Error × S

-- A task on a host has the call that connects to it.
pub record Task (S : Type 0) : Type 0 where
  pub steps : List (Step S)
  pub post_steps : List (Step S)
  pub ssh : Option (S → Bool × S)

module _ {S : Type 0} where
  unfoldable pub new_task : Option (S → Bool × S) → Task S
  new_task ssh = record { steps = []; post_steps = []; ssh = ssh }

  unfoldable pub add_step : Step S → Task S → Task S
  add_step s t = record t { steps = t.steps ++ s ∷ [] }

  unfoldable pub add_post_step : Step S → Task S → Task S
  add_post_step s t = record t { post_steps = t.post_steps ++ s ∷ [] }

  -- The post steps run until one fails; the error is dropped.
  unfoldable pub execute_post : List (Step S) → S → S
  execute_post [] s = s
  execute_post (p ∷ ps) s = let (e, s') = p s in elim e [ none ↦ execute_post ps s' | some _ ↦ s' ]

  -- The steps run until one fails; `task_done` ends the task without an error.
  unfoldable pub execute_steps : List (Step S) → S → Option Error × S
  execute_steps [] s = (none, s)
  execute_steps (p ∷ ps) s =
      let (e, s') = p s in
      elim e [
        | none ↦ execute_steps ps s'
        | some task_done ↦ (none, s')
        | some skip_task ↦ (some skip_task, s')
        | some (failure c) ↦ (some (failure c), s')
      ]

  abbrev pub connected : Option (S → Bool × S) → S → Bool × S
  connected none s = (true, s)
  connected (some connect) s = connect s

  -- `Execute`: the deferred post steps run after the steps, however these end.
  unfoldable pub execute : Task S → S → Option Error × S
  unfolding execute_steps execute_post
  execute t s =
      let (up, s') = connected t.ssh s in
      if up
      then (let (e, s'') = execute_steps t.steps s' in (e, execute_post t.post_steps s''))
      else (some (failure ssh_connect_failed), s')
