-- ===== src/Playbook.antt =====
-- internal/playbook: a playbook runs the tasks of its steps, step by step. What a step does (its
-- tasks are created, then executed) is a function of the state `S`.
pub mod Running
use curveadm.Prelude.{
  String, Bool, true, false, not, ◌||◌, Option, none, some, List, [], ◌∷◌, ◌++◌, contains, ok, err,
  panic, exhausted, if◌then◌else◌,
}
use curveadm.Task.{Error}
use curveadm.Topology.DeployConfig.{DeployConfig}

-- `create` is `createTasks`, `execute` the execution of what it made.
pub record PlaybookStep (S : Type 0) : Type 0 where
  pub create : S → Option Error × S
  pub execute : S → Option Error × S

pub record Playbook (S : Type 0) : Type 0 where
  pub steps : List (PlaybookStep S)
  pub post_steps : List (PlaybookStep S)

module _ {S : Type 0} where
  unfoldable pub new_playbook : Playbook S
  new_playbook = record { steps = []; post_steps = [] }

  unfoldable pub add_step : PlaybookStep S → Playbook S → Playbook S
  add_step s p = record p { steps = p.steps ++ s ∷ [] }

  unfoldable pub add_post_step : PlaybookStep S → Playbook S → Playbook S
  add_post_step s p = record p { post_steps = p.post_steps ++ s ∷ [] }

  unfoldable pub run_steps : List (PlaybookStep S) → S → Option Error × S
  run_steps [] s = (none, s)
  run_steps (p ∷ ps) s =
      let (e, s') = p.create s in
      elim e [
        | some e ↦ (some e, s')
        | none ↦
            let (e', s'') = p.execute s' in
            elim e' [ some e ↦ (some e, s'') | none ↦ run_steps ps s'' ]
      ]

  -- The deferred post steps run after the steps, however these end; their error is dropped.
  unfoldable pub run : Playbook S → S → Option Error × S
  unfolding run_steps
  run p s =
      let (e, s') = run_steps p.steps s in
      elim p.post_steps [
        | [] ↦ (e, s')
        | _ ∷ _ ↦ let (e', s'') = run_steps p.post_steps s' in (e, s'')
      ]

-- The services of a step that needs one task for each host: the first on each.
unfoldable pub once_per_host : List String → List DeployConfig → List DeployConfig
once_per_host once [] = []
once_per_host once (dc ∷ dcs) =
    if contains once dc.host
    then once_per_host once dcs
    else dc ∷ once_per_host (dc.host ∷ once) dcs
