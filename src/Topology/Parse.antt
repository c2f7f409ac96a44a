-- ===== src/Topology/Parse.antt =====
-- internal/configure/topology/topology.go: the services of a topology. The YAML decoder is the
-- parameter `decode`; `uuid` gives what `uuid.NewString()` returns for the service at an index.
pub mod Replicas
use curveadm.Prelude.{
  ℕ, zero, suc, ◌+◌, String, Bool, true, false, not, List, [], ◌∷◌, ◌++◌, Option, none, some, Dict,
  lookup, ◌==◌, ℤ, pos, negsuc, Result, ok, err, ◌>>=◌, ◌>>◌, guard, wrap, contains, if◌then◌else◌,
}
use curveadm.Errno.{
  Fallible, empty_cluster_topology, parse_topology_failed, unsupport_cluster_kind,
  replicas_requires_positive_integer, duplicate_service_id, resolve_variable_failed,
}
use curveadm.Config.Value.{Value, deep_copy}
use curveadm.Variables.{build}
use curveadm.Topology.DeployConfig.{
  DeployConfig, Context, kind_curvebs, kind_curvefs, role_etcd, role_mds, role_chunkserver,
  role_snapshotclone, role_metaserver,
}
use curveadm.Topology.Convert.{new_deploy_config, resolve_host, build_config}
use curveadm.Topology.BuiltIn.{service_vars, cluster_vars, add_variables}
use curveadm.Topology.Merge.{merge}

-- A map that the document leaves out is nil: the empty one here, as `newIfNil` makes it.
pub record Deploy : Type 0 where
  pub host : String
  pub name : String
  pub replica : ℤ
  pub replicas : ℤ
  pub config : Dict Value

pub record Service : Type 0 where
  pub config : Dict Value
  pub deploy : List Deploy

pub record Topology : Type 0 where
  pub kind : String
  pub global : Dict Value
  pub etcd_services : Service
  pub mds_services : Service
  pub metaserver_services : Service
  pub chunkserver_services : Service
  pub snapshotclone_services : Service

unfoldable pub roles_of : String → Fallible (List String)
roles_of kind =
    if kind == kind_curvebs
    then ok (role_etcd ∷ role_mds ∷ role_chunkserver ∷ role_snapshotclone ∷ [])
    else if kind == kind_curvefs
    then ok (role_etcd ∷ role_mds ∷ role_metaserver ∷ [])
    else err unsupport_cluster_kind

unfoldable pub services_of : Topology → String → Service
services_of t role =
    if role == role_etcd
    then t.etcd_services
    else if role == role_mds
    then t.mds_services
    else if role == role_chunkserver
    then t.chunkserver_services
    else if role == role_snapshotclone
    then t.snapshotclone_services
    else if role == role_metaserver
    then t.metaserver_services
    else record { config = []; deploy = [] }

-- The number of replicas: `replicas`, else the old `replica`, else one.
unfoldable pub replicas_of : ℤ → ℤ → Fallible ℕ
replicas_of (negsuc n) old = err replicas_requires_positive_integer
replicas_of (pos n) (negsuc m) = err replicas_requires_positive_integer
replicas_of (pos (suc n)) (pos m) = ok (suc n)
replicas_of (pos zero) (pos (suc m)) = ok (suc m)
replicas_of (pos zero) (pos zero) = ok 1

-- The services of one deploy: `left` more replicas, from the sequence number `seq`.
unfoldable pub replicate_configs :
    ℕ → ℕ → (ℕ → Fallible DeployConfig) → Fallible (List DeployConfig)
replicate_configs zero seq new = ok []
replicate_configs (suc left) seq new = do
  dc ← new seq
  dcs ← replicate_configs left (suc seq) new
  ok (dc ∷ dcs)

unfoldable pub deploy_configs :
    Option Context → String → String → Dict Value → ℕ → Deploy → Fallible (List DeployConfig)
unfolding replicas_of replicate_configs new_deploy_config merge deep_copy
deploy_configs ctx kind role services_config host_sequence d = do
  config ← merge services_config d.config
  replicas ← replicas_of d.replicas d.replica
  replicate_configs replicas 0 (λ replicas_sequence.
      new_deploy_config ctx kind role d.host d.name replicas host_sequence replicas_sequence
        (deep_copy config))

unfoldable pub role_configs :
    Option Context → String → String → Dict Value → ℕ → List Deploy → Fallible (List DeployConfig)
unfolding deploy_configs
role_configs ctx kind role services_config seq [] = ok []
role_configs ctx kind role services_config seq (d ∷ ds) = do
  dcs ← deploy_configs ctx kind role services_config seq d
  rest ← role_configs ctx kind role services_config (suc seq) ds
  ok (dcs ++ rest)

unfoldable pub all_configs : Option Context → Topology → List String → Fallible (List DeployConfig)
unfolding services_of role_configs merge
all_configs ctx t [] = ok []
all_configs ctx t (role ∷ roles) = do
  let services = services_of t role
  services_config ← merge t.global services.config
  dcs ← role_configs ctx t.kind role services_config 0 services.deploy
  rest ← all_configs ctx t roles
  ok (dcs ++ rest)

-- The loop that resolves the host of each service, gives it its variables and builds it. `done` holds
-- the services before. The map `exist` that the loop tests is never written.
unfoldable pub service_pass :
    ℕ
    → (ℕ → String)
    → List String
    → ℕ
    → List DeployConfig
    → List DeployConfig
    → Fallible (List DeployConfig)
unfolding resolve_host add_variables service_vars build_config
service_pass stack uuid exist idx done [] = ok done
service_pass stack uuid exist idx done (dc ∷ rest) = do
  dc' ← resolve_host stack dc
  dc'' ← add_variables (uuid idx) (done ++ dc' ∷ rest) dc' service_vars
  built ← build_config stack dc''
  guard (not (contains exist built.id)) duplicate_service_id
  service_pass stack uuid exist (suc idx) (done ++ built ∷ []) rest

unfoldable pub cluster_pass :
    ℕ → (ℕ → String) → ℕ → List DeployConfig → List DeployConfig → Fallible (List DeployConfig)
unfolding add_variables cluster_vars
cluster_pass stack uuid idx done [] = ok done
cluster_pass stack uuid idx done (dc ∷ rest) = do
  dc' ← add_variables (uuid idx) (done ++ dc ∷ rest) dc cluster_vars
  vars ← wrap resolve_variable_failed (build stack dc'.variables)
  cluster_pass stack uuid (suc idx) (done ++ record dc' { variables = vars } ∷ []) rest

-- What `ParseTopology` does with a decoded document.
unfoldable pub configs_of :
    ℕ → (ℕ → String) → Option Context → Topology → Fallible (List DeployConfig)
unfolding roles_of all_configs service_pass cluster_pass
configs_of stack uuid ctx t = do
  roles ← roles_of t.kind
  dcs ← all_configs ctx t roles
  built ← service_pass stack uuid [] 0 [] dcs
  cluster_pass stack uuid 0 [] built

abbrev decoded : Option Topology → Fallible Topology
decoded none = err parse_topology_failed
decoded (some t) = ok t

unfoldable pub parse_topology :
    (String → Option Topology)
    → ℕ
    → (ℕ → String)
    → Option Context
    → String
    → Fallible (List DeployConfig)
unfolding configs_of
parse_topology decode stack uuid ctx data_text = do
  guard (not (data_text == "")) empty_cluster_topology
  t ← decoded (decode data_text)
  configs_of stack uuid ctx t
