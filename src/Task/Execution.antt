-- ===== src/Task/Execution.antt =====
-- How far the steps of a task run, and that its post steps always do.
use curveadm.Prelude.{
  ◌≡◌, refl, ap, left_of, right_of, ◌⊎◌, inl, inr, Bool, true, false, Option, none, some, List, [],
  ◌∷◌, ◌++◌,
}
use curveadm.Errno.{ssh_connect_failed}
use curveadm.Task.{
  Error, skip_task, task_done, failure, Step, Task, connected, execute_steps, execute_post, execute,
}

-- `ran` is what has succeeded, from one state to the other.
pub data Succeed {S : Type 0} : List (Step S) → S → S → Type 0 where
  nothing : {s : S} → Succeed [] s s
  more :
      {p : Step S} {ps : List (Step S)} {s t u : S}
      → p s ≡ (none, t)
      → Succeed ps t u
      → Succeed (p ∷ ps) s u

-- All steps succeed, or those behind the first that fails are not run; `e` is the error it fails with.
pub data Stops {S : Type 0} (steps : List (Step S)) (s : S) : Option Error → S → Type 0 where
  completed : {t : S} → Succeed steps s t → Stops steps s none t
  stopped :
      (ran rest : List (Step S)) (p : Step S) (e : Error) {t u : S}
      → steps ≡ ran ++ p ∷ rest
      → Succeed ran s t
      → p t ≡ (some e, u)
      → Stops steps s (some e) u

pub Stops-more :
    {S : Type 0} (p : Step S) (ps : List (Step S)) {s t u : S} {e : Option Error}
    → p s ≡ (none, t)
    → Stops ps t e u
    → Stops (p ∷ ps) s e u
Stops-more p ps h (completed c) = completed (more h c)
Stops-more p ps h (stopped ran rest q e same c f) =
    stopped (p ∷ ran) rest q e (ap (λ l. p ∷ l) same) (more h c) f

-- `task_done` is reported as no error.
unfoldable pub reported : Option Error → Option Error
reported none = none
reported (some task_done) = none
reported (some skip_task) = some skip_task
reported (some (failure c)) = some (failure c)

pub data Executed {S : Type 0} (task : Task S) (s : S) : Option Error × S → Type 0 where
  unreachable :
      {t : S}
      → connected task.ssh s ≡ (false, t)
      → Executed task s (some (failure ssh_connect_failed), t)
  executed :
      {t u v : S} {e e' : Option Error}
      → connected task.ssh s ≡ (true, t)
      → Stops task.steps t e u
      → Stops task.post_steps u e' v
      → Executed task s (reported e, v)

module _ {S : Type 0} where
  pub call-cases :
      (r : Option Error × S)
      → ((t : S) × (r ≡ (none, t))) ⊎ ((e : Error) × (t : S) × (r ≡ (some e, t)))
  call-cases (none, t) = inl (t, refl)
  call-cases (some e, t) = inr (e, t, refl)

  execute_steps-failed :
      (p : Step S) (ps : List (Step S)) (e : Error) {s t : S}
      → p s ≡ (some e, t)
      → execute_steps (p ∷ ps) s ≡ (reported (some e), t)
  unfolding execute_steps reported
  execute_steps-failed p ps skip_task h = rw (left_of h, right_of h) refl
  execute_steps-failed p ps task_done h = rw (left_of h, right_of h) refl
  execute_steps-failed p ps (failure c) h = rw (left_of h, right_of h) refl

  execute_steps-Stops :
      (steps : List (Step S)) (s : S)
      → (e : Option Error) × (t : S) × Stops steps s e t × (execute_steps steps s ≡ (reported e, t))
  unfolding execute_steps reported
  execute_steps-Stops [] s = (none, s, completed nothing, refl)
  execute_steps-Stops (p ∷ ps) s = elim (call-cases (p s)) [
    | inl (t, h) ↦
        let (e, u, c, same) = execute_steps-Stops ps t in
        (e, u, Stops-more p ps h c, rw (left_of h, right_of h) same)
    | inr (e, t, h) ↦ (some e, t, stopped [] ps p e refl nothing h, execute_steps-failed p ps e h)
  ]

  execute_post-Stops :
      (steps : List (Step S)) (s : S) → (e : Option Error) × Stops steps s e (execute_post steps s)
  unfolding execute_post
  execute_post-Stops [] s = (none, completed nothing)
  execute_post-Stops (p ∷ ps) s = elim (call-cases (p s)) [
    | inl (t, h) ↦
        let (e, c) = execute_post-Stops ps t in
        (e, rw (left_of h, right_of h) (Stops-more p ps h c))
    | inr (e, t, h) ↦ (some e, rw (left_of h, right_of h) (stopped [] ps p e refl nothing h))
  ]

  connected-cases : (r : Bool × S) → ((t : S) × (r ≡ (false, t))) ⊎ ((t : S) × (r ≡ (true, t)))
  connected-cases (false, t) = inl (t, refl)
  connected-cases (true, t) = inr (t, refl)

  -- A task whose host cannot be reached runs no step and no post step and gives the error of the
  -- connection. Any other task runs its steps in order up to the first that fails, then its post
  -- steps, from the state that the steps left, up to the first of them that fails; its error is
  -- that of the steps, where `ERR_TASK_DONE` counts as none.
  pub execute-Executed : (task : Task S) (s : S) → Executed task s (execute task s)
  unfolding execute
  execute-Executed task s = elim (connected-cases (connected task.ssh s)) [
    | inl (t, h) ↦ rw (left_of h, right_of h) (unreachable h)
    | inr (t, h) ↦
        let (e, u, c, same) = execute_steps-Stops task.steps t in
        let (e', c') = execute_post-Stops task.post_steps u in
        rw (left_of h, right_of h, same) (executed h c c')
  ]
