-- ===== src/Playbook/Running.antt =====
-- How far a playbook runs, and the services of a step that needs one task for each host.
use curveadm.Prelude.{
  String, ◌≡◌, refl, ◌⊎◌, inl, inr, Bool-cases, Option, none, some, List, [], ◌∷◌, List-cases, map,
  eq_iff, arith, ◌||◌, contains, IsNew, left_of, right_of,
}
use curveadm.Task.{Error}
use curveadm.Task.Execution.{Stops, completed, stopped, nothing, Stops-more, call-cases}
use curveadm.Topology.DeployConfig.{DeployConfig}
use curveadm.Playbook.{PlaybookStep, Playbook, run_steps, run, once_per_host}

abbrev after : {S : Type 0} → (S → Option Error × S) → Option Error × S → Option Error × S
after execute (none, s) = execute s
after execute (some e, s) = (some e, s)

-- A step as one call: it is not executed when its tasks cannot be created.
abbrev pub play : {S : Type 0} → PlaybookStep S → S → Option Error × S
play p s = after p.execute (p.create s)

module _ {S : Type 0} where
  run_steps-play :
      (p : PlaybookStep S) (ps : List (PlaybookStep S)) (s : S)
      → ((t : S) × (play p s ≡ (none, t)) × (run_steps (p ∷ ps) s ≡ run_steps ps t))
        ⊎ ((e : Error) × (t : S) × (play p s ≡ (some e, t)) × (run_steps (p ∷ ps) s ≡ (some e, t)))
  unfolding run_steps
  run_steps-play p ps s = elim (call-cases (p.create s)) [
    | inr (e, t, h) ↦ inr (e, t, rw (h) refl, rw (left_of h, right_of h) refl)
    | inl (t, h) ↦ elim (call-cases (p.execute t)) [
      | inr (e, u, g) ↦
          let f : p.execute (p.create s).1 ≡ (some e, u) = rw (right_of h) g in
          inr (e, u, rw (h) g, rw (left_of h, left_of f, right_of f) refl)
      | inl (u, g) ↦
          let f : p.execute (p.create s).1 ≡ (none, u) = rw (right_of h) g in
          inl (u, rw (h) g, rw (left_of h, left_of f, right_of f) refl)
    ]
  ]

  run_steps-Stops :
      (ps : List (PlaybookStep S)) (s : S)
      → Stops (map play ps) s (run_steps ps s).0 (run_steps ps s).1
  unfolding run_steps
  run_steps-Stops [] s = completed nothing
  run_steps-Stops (p ∷ ps) s = elim (run_steps-play p ps s) [
    | inl (t, h, g) ↦ rw (g) (Stops-more (play p) (map play ps) h (run_steps-Stops ps t))
    | inr (e, t, h, g) ↦ rw (g) (stopped [] (map play ps) (play p) e refl nothing h)
  ]

  -- The steps of a playbook run in order up to the first that fails, a step failing also when its
  -- tasks cannot be created. Then the post steps run from that state in the same way, whether a
  -- step failed or not. The error is that of the steps.
  pub run-Stops :
      (p : Playbook S) (s : S)
      → (t : S) × (e : Option Error) × Stops (map play p.steps) s (run p s).0 t
        × Stops (map play p.post_steps) t e (run p s).1
  unfolding run
  run-Stops p s = elim (List-cases p.post_steps) [
    | inl h ↦ (
      (run_steps p.steps s).1,
      none,
      rw (h) (run_steps-Stops p.steps s),
      rw (h) (completed nothing),
    )
    | inr (q, qs, h) ↦ (
      (run_steps p.steps s).1,
      (run_steps p.post_steps (run_steps p.steps s).1).0,
      rw (h) (run_steps-Stops p.steps s),
      rw (h) (run_steps-Stops (q ∷ qs) (run_steps p.steps s).1),
    )
  ]

abbrev pub hosts : List DeployConfig → List String
hosts [] = []
hosts (dc ∷ dcs) = dc.host ∷ hosts dcs

once_per_host-IsNew :
    (once : List String) (dcs : List DeployConfig) → IsNew once (hosts (once_per_host once dcs))
unfolding once_per_host
once_per_host-IsNew once [] = tt
once_per_host-IsNew once (dc ∷ dcs) = elim (Bool-cases (contains once dc.host)) [
  | inl h ↦ rw (h) (once_per_host-IsNew once dcs)
  | inr h ↦ rw (h) (h, once_per_host-IsNew (dc.host ∷ once) dcs)
]

once_per_host-covers :
    (once : List String) (dcs : List DeployConfig) (h : String)
    → contains once h || contains (hosts (once_per_host once dcs)) h
      ≡ contains once h || contains (hosts dcs) h
unfolding once_per_host contains
once_per_host-covers once [] h = refl
once_per_host-covers once (dc ∷ dcs) h = elim (Bool-cases (contains once dc.host)) [
  | inl seen ↦ rw (seen) ground (arith, seen, eq_iff dc.host h, once_per_host-covers once dcs h)
  | inr new ↦ rw (new) ground (arith, new, once_per_host-covers (dc.host ∷ once) dcs h)
]

-- Of the services of a step that needs one task for each host, those chosen are on exactly the
-- hosts of the services, and no two of them on one host.
pub once_per_host-hosts :
    (dcs : List DeployConfig)
    → IsNew [] (hosts (once_per_host [] dcs))
      × ((h : String) → contains (hosts (once_per_host [] dcs)) h ≡ contains (hosts dcs) h)
unfolding contains
once_per_host-hosts dcs = (once_per_host-IsNew [] dcs, λ h. once_per_host-covers [] dcs h)
