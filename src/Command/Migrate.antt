-- ===== src/Command/Migrate.antt =====
-- cli/command/migrate.go: the check of a topology that moves the services of a host, and the
-- playbook that moves them.
use curveadm.Prelude.{
  String, Bool, true, false, not, ◌&&◌, List, [], ◌∷◌, length, Option, none, some, ◌==◌, ltb,
  nat_eq, ok, panic, ◌>>=◌, ◌>>◌, guard, if◌then◌else◌,
}
use curveadm.Errno.{
  Fallible, add_service_while_migrating_is_denied, delete_service_while_migrating_is_denied,
  no_services_for_migrating, require_same_role_services_for_migrating,
  require_whole_host_services_for_migrating,
}
use curveadm.Topology.DeployConfig.{
  DeployConfig, role_etcd, role_mds, role_chunkserver, role_snapshotclone, role_metaserver,
}
use curveadm.Topology.Diff.{diff_add, diff_delete, TopologyDiff}
use curveadm.Pool.{MigrateServer, sort_deploy_configs}
use curveadm.Command.Services.{
  StepType, backup_etcd_data, pull_image, create_container, sync_config, start_etcd, start_mds,
  start_chunkserver, start_snapshotclone, start_metaserver, stop_service, clean_service,
  create_physical_pool, create_logical_pool, update_topology, of_type, is_same_role, filter_by_role,
  first, first_only,
}
use curveadm.Command.ScaleOut.{PoolType, physical, logical}

-- `!IsSameRole(added) || !IsSameRole(deleted) || added[0].GetRole() != deleted[0].GetRole()`
unfoldable pub one_role : List DeployConfig → List DeployConfig → Fallible Bool
unfolding is_same_role
one_role added deleted = do
  a ← is_same_role added
  d ← is_same_role deleted
  dc ← first added
  dc' ← first deleted
  ok (a && d && dc.role == dc'.role)

-- `checkMigrateTopology`, from the differences on
unfoldable pub check_migrate_topology : List TopologyDiff → Fallible (Unit {0})
unfolding of_type one_role
check_migrate_topology diffs = do
  let added = of_type diff_add diffs
  let deleted = of_type diff_delete diffs
  guard (not (ltb (length deleted) (length added))) add_service_while_migrating_is_denied
  guard (not (ltb (length added) (length deleted))) delete_service_while_migrating_is_denied
  guard (not (nat_eq (length added) 0)) no_services_for_migrating
  same ← one_role added deleted
  guard same require_same_role_services_for_migrating
  dc ← first deleted
  guard (nat_eq (length deleted) dc.replicas) require_whole_host_services_for_migrating

-- `dcs2del[i]` past the end panics.
unfoldable pub pair_up : List DeployConfig → List DeployConfig → Fallible (List MigrateServer)
pair_up [] deleted = ok []
pair_up (a ∷ added) [] = panic
pair_up (a ∷ added) (d ∷ deleted) = do
  rest ← pair_up added deleted
  ok (record { from = d; to = a } ∷ rest)

unfoldable pub get_migrates : List TopologyDiff → Fallible (List MigrateServer)
unfolding pair_up sort_deploy_configs of_type
get_migrates diffs =
    pair_up (sort_deploy_configs (of_type diff_add diffs))
      (sort_deploy_configs (of_type diff_delete diffs))

abbrev moved : StepType → List StepType
moved start =
    stop_service ∷ clean_service ∷ pull_image ∷ create_container ∷ sync_config ∷ start
    ∷ update_topology ∷ []

unfoldable pub migrate_steps : String → List StepType
migrate_steps role =
    if role == role_etcd
    then moved start_etcd
    else if role == role_mds
    then moved start_mds
    else if role == role_snapshotclone
    then moved start_snapshotclone
    else if role == role_chunkserver
    then backup_etcd_data ∷ stop_service ∷ clean_service ∷ pull_image ∷ create_container
      ∷ sync_config ∷ create_physical_pool ∷ start_chunkserver ∷ create_logical_pool ∷ []
    else if role == role_metaserver
    then backup_etcd_data ∷ stop_service ∷ clean_service ∷ pull_image ∷ create_container
      ∷ sync_config ∷ start_metaserver ∷ create_logical_pool ∷ []
    else []

-- A step with its services and its options; `clean_container` stands for the two options of
-- CLEAN_SERVICE, the items to clean (the container) and the cleaning by recycling.
pub record MigrateStep : Type 0 where
  pub type : StepType
  pub configs : List DeployConfig
  pub clean_container : Bool
  pub create_pool_type : Option PoolType
  pub migrate_servers : List MigrateServer
  pub new_topology_data : Option String
  pub silent_sub_bar : Bool

unfoldable pub migrate_configs :
    StepType
    → List DeployConfig
    → List DeployConfig
    → List DeployConfig
    → Fallible (List DeployConfig)
unfolding filter_by_role
migrate_configs stop_service dcs added deleted = ok deleted
migrate_configs clean_service dcs added deleted = ok deleted
migrate_configs backup_etcd_data dcs added deleted = ok (filter_by_role dcs role_etcd)
migrate_configs create_physical_pool dcs added deleted = first_only (filter_by_role dcs role_mds)
migrate_configs create_logical_pool dcs added deleted = first_only (filter_by_role dcs role_mds)
migrate_configs _ dcs added deleted = ok added

abbrev bare : StepType → List DeployConfig → MigrateStep
bare t configs = record {
  type = t;
  configs = configs;
  clean_container = false;
  create_pool_type = none;
  migrate_servers = [];
  new_topology_data = none;
  silent_sub_bar = false;
}

unfoldable pub migrate_step :
    StepType → List DeployConfig → List MigrateServer → String → MigrateStep
migrate_step clean_service configs migrates text = record (bare clean_service configs) {
  clean_container = true;
}
migrate_step create_physical_pool configs migrates text =
    record (bare create_physical_pool configs) {
      create_pool_type = some physical;
      migrate_servers = migrates;
    }
migrate_step create_logical_pool configs migrates text = record (bare create_logical_pool configs) {
  create_pool_type = some logical;
  migrate_servers = migrates;
  new_topology_data = some text;
}
migrate_step update_topology configs migrates text = record (bare update_topology configs) {
  new_topology_data = some text;
  silent_sub_bar = true;
}
migrate_step t configs migrates text = bare t configs

unfoldable pub migrate_plan :
    List StepType
    → List DeployConfig
    → List DeployConfig
    → List DeployConfig
    → List MigrateServer
    → String
    → Fallible (List MigrateStep)
unfolding migrate_configs migrate_step
migrate_plan [] dcs added deleted migrates text = ok []
migrate_plan (t ∷ ts) dcs added deleted migrates text = do
  configs ← migrate_configs t dcs added deleted
  rest ← migrate_plan ts dcs added deleted migrates text
  ok (migrate_step t configs migrates text ∷ rest)

abbrev first_migrate : List MigrateServer → Fallible MigrateServer
first_migrate [] = panic
first_migrate (m ∷ ms) = ok m

-- `genMigratePlaybook`
unfoldable pub gen_migrate_playbook :
    List TopologyDiff → List DeployConfig → String → Fallible (List MigrateStep)
unfolding of_type get_migrates migrate_steps migrate_plan
gen_migrate_playbook diffs dcs text = do
  migrates ← get_migrates diffs
  m ← first_migrate migrates
  migrate_plan (migrate_steps (m.from).role) dcs (of_type diff_add diffs)
      (of_type diff_delete diffs) migrates text
