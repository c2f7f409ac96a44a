-- ===== src/Command/Services.antt =====
-- What the commands ask of lists of services: `IsSameRole` and `FilterDeployConfigByRole` of
-- cli/cli/cli.go, the `getHostNum` and the grouping of differences of cli/command/scale_out.go; and
-- the steps of playbooks that they use (internal/playbook/factory.go).
use curveadm.Prelude.{
  ℕ, ◌+◌, String, Bool, true, false, List, [], ◌∷◌, keep, contains, ◌==◌, ok, panic, if◌then◌else◌,
}
use curveadm.Errno.{Fallible}
use curveadm.Topology.DeployConfig.{DeployConfig}
use curveadm.Topology.Diff.{DiffType, diff_add, diff_delete, diff_change, TopologyDiff}

pub data StepType : Type 0 where
  backup_etcd_data pull_image create_container sync_config start_service start_etcd : StepType
  start_mds start_chunkserver start_snapshotclone start_metaserver stop_service : StepType
  clean_service create_physical_pool create_logical_pool update_topology : StepType

abbrev same_type : DiffType → DiffType → Bool
same_type diff_add diff_add = true
same_type diff_delete diff_delete = true
same_type diff_change diff_change = true
same_type _ _ = false

-- m[t] of `diffTopology`: the services of one type of difference, in order.
unfoldable pub of_type : DiffType → List TopologyDiff → List DeployConfig
of_type t [] = []
of_type t (d ∷ ds) =
    let rest = of_type t ds in if same_type d.diff_type t then d.deploy_config ∷ rest else rest

unfoldable pub all_role : String → List DeployConfig → Bool
all_role role [] = true
all_role role (dc ∷ dcs) = if dc.role == role then all_role role dcs else false

unfoldable pub is_same_role : List DeployConfig → Fallible Bool
unfolding all_role
is_same_role [] = panic
is_same_role (dc ∷ dcs) = ok (all_role dc.role (dc ∷ dcs))

unfoldable pub filter_by_role : List DeployConfig → String → List DeployConfig
unfolding keep
filter_by_role dcs role = keep (λ dc. dc.role == role) dcs

unfoldable pub host_num_from : List String → ℕ → List DeployConfig → ℕ
unfolding contains
host_num_from exist num [] = num
host_num_from exist num (dc ∷ dcs) =
    if contains exist dc.parent_id
    then host_num_from exist num dcs
    else host_num_from (dc.parent_id ∷ exist) (num + 1) dcs

unfoldable pub get_host_num : List DeployConfig → ℕ
unfolding host_num_from
get_host_num = host_num_from [] 0

-- dcs[0]
abbrev pub first : List DeployConfig → Fallible DeployConfig
first [] = panic
first (dc ∷ dcs) = ok dc

-- dcs[:1]
abbrev pub first_only : List DeployConfig → Fallible (List DeployConfig)
first_only [] = panic
first_only (dc ∷ dcs) = ok (dc ∷ [])
