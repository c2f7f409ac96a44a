-- ===== src/Tests/Commands.antt =====
-- The checks and the playbooks of the commands at concrete inputs.
use curveadm.Prelude.{◌≡◌, ◌↔◌, refl, arith, List, [], ◌∷◌, map, ok}
use curveadm.Topology.DeployConfig.{DeployConfig}
use curveadm.Topology.Diff.{DiffType, diff_add, diff_delete, TopologyDiff}
use curveadm.Pool.{MigrateServer, sort_deploy_configs}
use curveadm.Command.Services.{of_type, filter_by_role}
use curveadm.Command.ScaleOut.{
  ScaleOutStep, scale_out_steps, check_scale_out_topology, gen_scale_out_playbook,
}
use curveadm.Command.Migrate.{
  MigrateStep, migrate_steps, check_migrate_topology, gen_migrate_playbook,
}
use curveadm.Command.Checks.{IsGrowth, check_scale_out_topology-IsGrowth}
use curveadm.Command.Plans.{gen_scale_out_playbook-returns, gen_migrate_playbook-returns}
use curveadm.Tests.{chunkserver, one_mds}

abbrev change : DiffType → DeployConfig → TopologyDiff
change t dc = record { diff_type = t; deploy_config = dc }

abbrev three_new : List TopologyDiff
three_new =
    change diff_add (chunkserver "h1" "c1")
    ∷ change diff_add (chunkserver "h2" "c2")
    ∷ change diff_add (chunkserver "h3" "c3")
    ∷ []

check_scale_out_topology-IsGrowth_example :
    (check_scale_out_topology three_new ≡ ok tt) ↔ IsGrowth three_new
check_scale_out_topology-IsGrowth_example = check_scale_out_topology-IsGrowth three_new

three_new-accepted : check_scale_out_topology three_new ≡ ok tt
unfolding check_scale_out_topology
three_new-accepted = refl

gen_scale_out_playbook-returns_example :
    (dc : DeployConfig) × (rest : List DeployConfig) × (p : List ScaleOutStep) × (of_type diff_add
        three_new
      ≡ dc ∷ rest)
    × (gen_scale_out_playbook three_new one_mds "new" ≡ ok p)
    × (map (λ s. s.type) p ≡ scale_out_steps dc.role)
unfolding filter_by_role
gen_scale_out_playbook-returns_example =
    gen_scale_out_playbook-returns three_new one_mds "new" three_new-accepted (omega arith)

abbrev one_moved : List TopologyDiff
one_moved =
    change diff_delete (chunkserver "h1" "c1") ∷ change diff_add (chunkserver "h4" "c4") ∷ []

one_moved-accepted : check_migrate_topology one_moved ≡ ok tt
unfolding check_migrate_topology
one_moved-accepted = refl

gen_migrate_playbook-returns_example :
    (m : MigrateServer) × (ms : List MigrateServer) × (p : List MigrateStep) × (map
        (λ m. m.to)
        (m ∷ ms)
      ≡ sort_deploy_configs (of_type diff_add one_moved))
    × (map (λ m. m.from) (m ∷ ms) ≡ sort_deploy_configs (of_type diff_delete one_moved))
    × (gen_migrate_playbook one_moved one_mds "new" ≡ ok p)
    × (map (λ s. s.type) p ≡ migrate_steps (m.from).role)
unfolding filter_by_role
gen_migrate_playbook-returns_example =
    gen_migrate_playbook-returns one_moved one_mds "new" one_moved-accepted (omega arith)
