-- ===== src/Command/Plans.antt =====
-- What the playbooks of `scale-out` and `migrate` hold, and that they can be made.
use curveadm.Prelude.{
  ◌<◌, String, ◌≡◌, refl, sym, ap, ◌∙◌, subst, inl, inr, arith, not, ltb, nat_eq, List, [], ◌∷◌,
  List-cases, map, length, ok,
}
use curveadm.Topology.DeployConfig.{DeployConfig, role_mds, role_etcd}
use curveadm.Topology.Diff.{diff_add, diff_delete, TopologyDiff}
use curveadm.Pool.{MigrateServer, sort_deploy_configs}
use curveadm.Pool.Order.{length-sort_deploy_configs}
use curveadm.Command.Services.{
  StepType, backup_etcd_data, create_physical_pool, create_logical_pool, update_topology,
  stop_service, clean_service, of_type, filter_by_role, first_only,
}
use curveadm.Command.ScaleOut.{
  scale_out_steps, scale_out_configs, scale_out_step, ScaleOutStep, scale_out_plan,
  gen_scale_out_playbook, check_scale_out_topology,
}
use curveadm.Command.Migrate.{
  check_migrate_topology, pair_up, get_migrates, migrate_steps, migrate_configs, migrate_step,
  MigrateStep, migrate_plan, gen_migrate_playbook,
}
use curveadm.Command.Checks.{guard-bind, check_scale_out_topology-IsGrowth}

first_only-returns :
    (dcs : List DeployConfig) → 0 < length dcs → (ds : List DeployConfig) × (first_only dcs ≡ ok ds)
first_only-returns [] h = ground arith
first_only-returns (dc ∷ dcs) h = (dc ∷ [], refl)

module _ (dcs added : List DeployConfig) (mds : 0 < length (filter_by_role dcs role_mds))
    (text : String) where
  scale_out_configs-returns :
      (t : StepType) → (ds : List DeployConfig) × (scale_out_configs t dcs added ≡ ok ds)
  unfolding scale_out_configs
  scale_out_configs-returns backup_etcd_data = (filter_by_role dcs role_etcd, refl)
  scale_out_configs-returns create_physical_pool =
      first_only-returns (filter_by_role dcs role_mds) mds
  scale_out_configs-returns create_logical_pool =
      first_only-returns (filter_by_role dcs role_mds) mds
  scale_out_configs-returns _ = (added, refl)

  scale_out_step-type :
      (t : StepType) (ds : List DeployConfig) → (scale_out_step t ds added text).type ≡ t
  unfolding scale_out_step
  scale_out_step-type create_physical_pool ds = refl
  scale_out_step-type create_logical_pool ds = refl
  scale_out_step-type update_topology ds = refl
  scale_out_step-type _ ds = refl

  scale_out_plan-returns :
      (ts : List StepType)
      → (p : List ScaleOutStep) × (scale_out_plan ts dcs added text ≡ ok p)
        × (map (λ s. s.type) p ≡ ts)
  unfolding scale_out_plan
  scale_out_plan-returns [] = ([], refl, refl)
  scale_out_plan-returns (t ∷ ts) =
      let (ds, e) = scale_out_configs-returns t in
      let (p, f, g) = scale_out_plan-returns ts in
      (scale_out_step t ds added text ∷ p, rw (e, f) refl, rw (scale_out_step-type t ds, g) refl)

  migrate_configs-returns :
      (deleted : List DeployConfig) (t : StepType)
      → (ds : List DeployConfig) × (migrate_configs t dcs added deleted ≡ ok ds)
  unfolding migrate_configs
  migrate_configs-returns deleted stop_service = (deleted, refl)
  migrate_configs-returns deleted clean_service = (deleted, refl)
  migrate_configs-returns deleted backup_etcd_data = (filter_by_role dcs role_etcd, refl)
  migrate_configs-returns deleted create_physical_pool =
      first_only-returns (filter_by_role dcs role_mds) mds
  migrate_configs-returns deleted create_logical_pool =
      first_only-returns (filter_by_role dcs role_mds) mds
  migrate_configs-returns deleted _ = (added, refl)

  migrate_step-type :
      (t : StepType) (ds : List DeployConfig) (ms : List MigrateServer)
      → (migrate_step t ds ms text).type ≡ t
  unfolding migrate_step
  migrate_step-type clean_service ds ms = refl
  migrate_step-type create_physical_pool ds ms = refl
  migrate_step-type create_logical_pool ds ms = refl
  migrate_step-type update_topology ds ms = refl
  migrate_step-type _ ds ms = refl

  migrate_plan-returns :
      (deleted : List DeployConfig) (ms : List MigrateServer) (ts : List StepType)
      → (p : List MigrateStep) × (migrate_plan ts dcs added deleted ms text ≡ ok p)
        × (map (λ s. s.type) p ≡ ts)
  unfolding migrate_plan
  migrate_plan-returns deleted ms [] = ([], refl, refl)
  migrate_plan-returns deleted ms (t ∷ ts) =
      let (ds, e) = migrate_configs-returns deleted t in
      let (p, f, g) = migrate_plan-returns deleted ms ts in
      (migrate_step t ds ms text ∷ p, rw (e, f) refl, rw (migrate_step-type t ds ms, g) refl)

pair_up-returns :
    (added deleted : List DeployConfig)
    → length added ≡ length deleted
    → (ms : List MigrateServer) × (pair_up added deleted ≡ ok ms)
      × (map (λ m. m.to) ms ≡ added)
      × (map (λ m. m.from) ms ≡ deleted)
unfolding pair_up
pair_up-returns [] [] h = ([], refl, refl, refl)
pair_up-returns [] (d ∷ deleted) h = ground arith
pair_up-returns (a ∷ added) [] h = ground arith
pair_up-returns (a ∷ added) (d ∷ deleted) h =
    let same : length added ≡ length deleted = omega (arith, h) in
    let (ms, e, f, g) = pair_up-returns added deleted same in
    (record { from = d; to = a } ∷ ms, rw (e) refl, ap (λ l. a ∷ l) f, ap (λ l. d ∷ l) g)

-- When the check of a topology to scale out accepts the differences, and some service of the
-- cluster is an mds, the playbook is made without a panic, and the types of its steps are those
-- for the role of the first added service.
pub gen_scale_out_playbook-returns :
    (diffs : List TopologyDiff) (dcs : List DeployConfig) (text : String)
    → check_scale_out_topology diffs ≡ ok tt
    → 0 < length (filter_by_role dcs role_mds)
    → (dc : DeployConfig) × (rest : List DeployConfig) × (p : List ScaleOutStep) × (of_type diff_add
          diffs
        ≡ dc ∷ rest)
      × (gen_scale_out_playbook diffs dcs text ≡ ok p)
      × (map (λ s. s.type) p ≡ scale_out_steps dc.role)
unfolding gen_scale_out_playbook
gen_scale_out_playbook-returns diffs dcs text h mds =
    let w = (check_scale_out_topology-IsGrowth diffs).0 h in
    let (p, e, f) =
      scale_out_plan-returns dcs (of_type diff_add diffs) mds text (scale_out_steps w.dc.role) in
    (w.dc, w.rest, p, w.adds, rw (w.adds) (rw (← w.adds) e), f)

equal_numbers :
    (diffs : List TopologyDiff)
    → check_migrate_topology diffs ≡ ok tt
    → (length (of_type diff_add diffs) ≡ length (of_type diff_delete diffs))
      × (0 < length (of_type diff_add diffs))
unfolding check_migrate_topology
equal_numbers diffs h =
    let (a, h1) =
      guard-bind (not (ltb (length (of_type diff_delete diffs)) (length (of_type diff_add diffs))))
        _ _ h in
    let (b, h2) =
      guard-bind (not (ltb (length (of_type diff_add diffs)) (length (of_type diff_delete diffs))))
        _ _ h1 in
    let (c, h3) = guard-bind (not (nat_eq (length (of_type diff_add diffs)) 0)) _ _ h2 in
    (ground arith, ground arith)

get_migrates-returns :
    (diffs : List TopologyDiff)
    → check_migrate_topology diffs ≡ ok tt
    → (m : MigrateServer) × (ms : List MigrateServer) × (get_migrates diffs ≡ ok (m ∷ ms))
      × (map (λ m. m.to) (m ∷ ms) ≡ sort_deploy_configs (of_type diff_add diffs))
      × (map (λ m. m.from) (m ∷ ms) ≡ sort_deploy_configs (of_type diff_delete diffs))
unfolding get_migrates
get_migrates-returns diffs h =
    let (same, positive) = equal_numbers diffs h in
    let added = sort_deploy_configs (of_type diff_add diffs) in
    let deleted = sort_deploy_configs (of_type diff_delete diffs) in
    let (ms, e, f, g) = pair_up-returns added deleted (
      omega (
        arith,
        same,
        length-sort_deploy_configs (of_type diff_add diffs),
        length-sort_deploy_configs (of_type diff_delete diffs),
      )) in
    elim (List-cases ms) [
      | inl z ↦
          let none_added : length added ≡ 0 = ap length (sym f ∙ ap (map (λ m. m.to)) z) in
          ground (arith, none_added, positive, length-sort_deploy_configs (of_type diff_add diffs))
      | inr (m, ms', c) ↦ (
        m,
        ms',
        e ∙ ap ok c,
        subst (λ l. map (λ m. m.to) l ≡ added) c f,
        subst (λ l. map (λ m. m.from) l ≡ deleted) c g,
      )
    ]

-- When the check of a topology to migrate accepts the differences, and some service of the
-- cluster is an mds, the playbook of the migration is made without a panic. The migrations pair
-- the added services with the deleted ones, both sorted and each of them once, and the types of
-- the steps are those for the role of the first deleted service.
pub gen_migrate_playbook-returns :
    (diffs : List TopologyDiff) (dcs : List DeployConfig) (text : String)
    → check_migrate_topology diffs ≡ ok tt
    → 0 < length (filter_by_role dcs role_mds)
    → (m : MigrateServer) × (ms : List MigrateServer) × (p : List MigrateStep) × (map
          (λ m. m.to)
          (m ∷ ms)
        ≡ sort_deploy_configs (of_type diff_add diffs))
      × (map (λ m. m.from) (m ∷ ms) ≡ sort_deploy_configs (of_type diff_delete diffs))
      × (gen_migrate_playbook diffs dcs text ≡ ok p)
      × (map (λ s. s.type) p ≡ migrate_steps (m.from).role)
unfolding gen_migrate_playbook
gen_migrate_playbook-returns diffs dcs text h mds =
    let (m, ms, e, f, g) = get_migrates-returns diffs h in
    let (p, q, t) =
      migrate_plan-returns dcs (of_type diff_add diffs) mds text (of_type diff_delete diffs)
        (m ∷ ms) (migrate_steps (m.from).role) in
    (m, ms, p, f, g, rw (e) q, t)
