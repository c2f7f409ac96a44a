-- ===== src/Command/ScaleOut.antt =====
-- cli/command/scale_out.go: the check of a topology that adds services, and the playbook that adds
-- them.
use curveadm.Prelude.{
  ℕ, String, Bool, true, false, not, ◌||◌, List, [], ◌∷◌, Option, none, some, ◌==◌, ltb, ok, ◌>>=◌,
  ◌>>◌, guard, if◌then◌else◌,
}
use curveadm.Errno.{
  Fallible, delete_service_while_scale_out_cluster_is_denied, no_services_for_scale_out_cluster,
  require_same_role_services_for_scale_out_cluster, chunkserver_requires_3_hosts_while_scale_out,
  metaserver_requires_3_hosts_while_scale_out,
}
use curveadm.Topology.DeployConfig.{
  DeployConfig, role_etcd, role_mds, role_chunkserver, role_snapshotclone, role_metaserver,
}
use curveadm.Topology.Diff.{diff_add, diff_delete, TopologyDiff}
use curveadm.Command.Services.{
  StepType, backup_etcd_data, pull_image, create_container, sync_config, start_service,
  create_physical_pool, create_logical_pool, update_topology, of_type, is_same_role, filter_by_role,
  get_host_num, first, first_only,
}

abbrev pub is_empty : List DeployConfig → Bool
is_empty [] = true
is_empty (dc ∷ dcs) = false

unfoldable pub enough_hosts : String → ℕ → Fallible (Unit {0})
enough_hosts role num =
    if role == role_chunkserver
    then guard (not (ltb num 3)) chunkserver_requires_3_hosts_while_scale_out
    else if role == role_metaserver
    then guard (not (ltb num 3)) metaserver_requires_3_hosts_while_scale_out
    else ok tt

-- `checkScaleOutTopology`, from the differences on
unfoldable pub check_scale_out_topology : List TopologyDiff → Fallible (Unit {0})
unfolding of_type is_same_role get_host_num enough_hosts
check_scale_out_topology diffs = do
  guard (is_empty (of_type diff_delete diffs)) delete_service_while_scale_out_cluster_is_denied
  guard (not (is_empty (of_type diff_add diffs))) no_services_for_scale_out_cluster
  same ← is_same_role (of_type diff_add diffs)
  guard same require_same_role_services_for_scale_out_cluster
  dc ← first (of_type diff_add diffs)
  enough_hosts dc.role (get_host_num (of_type diff_add diffs))

unfoldable pub scale_out_steps : String → List StepType
scale_out_steps role =
    if role == role_etcd || role == role_mds || role == role_snapshotclone
    then pull_image ∷ create_container ∷ sync_config ∷ start_service ∷ update_topology ∷ []
    else if role == role_chunkserver
    then backup_etcd_data ∷ pull_image ∷ create_container ∷ sync_config ∷ create_physical_pool
      ∷ start_service ∷ create_logical_pool ∷ []
    else if role == role_metaserver
    then backup_etcd_data ∷ pull_image ∷ create_container ∷ sync_config ∷ start_service
      ∷ create_logical_pool ∷ []
    else []

pub data PoolType : Type 0 where
  physical logical : PoolType

-- A step with its services and its options; `new_topology` is the text of the new topology.
pub record ScaleOutStep : Type 0 where
  pub type : StepType
  pub configs : List DeployConfig
  pub create_pool_type : Option PoolType
  pub scale_out_cluster : List DeployConfig
  pub new_topology_data : Option String
  pub silent_sub_bar : Bool

unfoldable pub scale_out_configs :
    StepType → List DeployConfig → List DeployConfig → Fallible (List DeployConfig)
unfolding filter_by_role
scale_out_configs backup_etcd_data dcs added = ok (filter_by_role dcs role_etcd)
scale_out_configs create_physical_pool dcs added = first_only (filter_by_role dcs role_mds)
scale_out_configs create_logical_pool dcs added = first_only (filter_by_role dcs role_mds)
scale_out_configs _ dcs added = ok added

unfoldable pub scale_out_step :
    StepType → List DeployConfig → List DeployConfig → String → ScaleOutStep
scale_out_step create_physical_pool configs added text = record {
  type = create_physical_pool;
  configs = configs;
  create_pool_type = some physical;
  scale_out_cluster = added;
  new_topology_data = some text;
  silent_sub_bar = false;
}
scale_out_step create_logical_pool configs added text = record {
  type = create_logical_pool;
  configs = configs;
  create_pool_type = some logical;
  scale_out_cluster = added;
  new_topology_data = some text;
  silent_sub_bar = false;
}
scale_out_step update_topology configs added text = record {
  type = update_topology;
  configs = configs;
  create_pool_type = none;
  scale_out_cluster = [];
  new_topology_data = some text;
  silent_sub_bar = true;
}
scale_out_step t configs added text = record {
  type = t;
  configs = configs;
  create_pool_type = none;
  scale_out_cluster = [];
  new_topology_data = none;
  silent_sub_bar = false;
}

unfoldable pub scale_out_plan :
    List StepType → List DeployConfig → List DeployConfig → String → Fallible (List ScaleOutStep)
unfolding scale_out_configs scale_out_step
scale_out_plan [] dcs added text = ok []
scale_out_plan (t ∷ ts) dcs added text = do
  configs ← scale_out_configs t dcs added
  rest ← scale_out_plan ts dcs added text
  ok (scale_out_step t configs added text ∷ rest)

-- `genScaleOutPlaybook`
unfoldable pub gen_scale_out_playbook :
    List TopologyDiff → List DeployConfig → String → Fallible (List ScaleOutStep)
unfolding of_type scale_out_steps scale_out_plan
gen_scale_out_playbook diffs dcs text = do
  dc ← first (of_type diff_add diffs)
  scale_out_plan (scale_out_steps dc.role) dcs (of_type diff_add diffs) text
