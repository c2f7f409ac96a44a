-- ===== src/Topology/BuiltIn.antt =====
-- internal/configure/topology/variables.go: the variables that every service has, and those that
-- describe the whole cluster. `uuid` is what `uuid.NewString()` returns for this service.
pub mod Peers
pub mod Registered
use Prim.Native.String.{◌++◌}
use curveadm.Prelude.{
  String, Bool, false, not, ◌||◌, List, [], ◌∷◌, contains, ◌==◌, ℤ, itoa, itoa_ℕ, pad2, join, ok,
  ◌>>=◌, wrap, if◌then◌else◌,
}
use curveadm.Errno.{Fallible, register_variable_failed}
use curveadm.Config.Value.{atoa}
use curveadm.Variables.{Variables, register}
use curveadm.Topology.DeployConfig.{
  DeployConfig, kind_curvebs, kind_curvefs, role_etcd, role_mds, role_chunkserver,
  role_snapshotclone, role_metaserver,
}
use curveadm.Topology.Item.{
  Item, get, config_listen_ip, config_listen_port, config_listen_client_port,
  config_listen_dummy_port, config_listen_proxy_port, config_listen_external_ip,
  config_listen_external_port, config_enable_external_server,
}
use curveadm.Topology.Layout.{
  get_project_layout, get_listen_ip, get_listen_port, get_listen_client_port, get_listen_dummy_port,
  get_listen_proxy_port,
}

-- A built-in variable, with the kinds and the roles that it is limited to. The fields `lookup` and
-- `resolved` of the source are never read.
pub record Var : Type 0 where
  pub name : String
  pub kind : List String
  pub role : List String

abbrev pub for_all : String → Var
for_all n = record { name = n; kind = []; role = [] }

abbrev pub for_roles : String → List String → Var
for_roles n rs = record { name = n; kind = []; role = rs }

abbrev pub for_kind : String → String → Var
for_kind n k = record { name = n; kind = k ∷ []; role = [] }

unfoldable pub service_vars : List Var
service_vars =
    for_all "prefix"
    ∷ for_all "service_id"
    ∷ for_all "service_role"
    ∷ for_all "service_host"
    ∷ for_all "service_host_sequence"
    ∷ for_all "service_replica_sequence"
    ∷ for_all "service_replicas_sequence"
    ∷ for_all "format_replica_sequence"
    ∷ for_all "format_replicas_sequence"
    ∷ for_all "service_addr"
    ∷ for_all "service_port"
    ∷ for_roles "service_client_port" (role_etcd ∷ [])
    ∷ for_roles "service_dummy_port" (role_snapshotclone ∷ role_mds ∷ [])
    ∷ for_roles "service_proxy_port" (role_snapshotclone ∷ [])
    ∷ for_roles "service_external_addr" (role_chunkserver ∷ role_metaserver ∷ [])
    ∷ for_roles "service_external_port" (role_metaserver ∷ [])
    ∷ for_all "log_dir"
    ∷ for_all "data_dir"
    ∷ for_all "random_uuid"
    ∷ []

unfoldable pub cluster_vars : List Var
cluster_vars =
    for_all "cluster_etcd_http_addr"
    ∷ for_all "cluster_etcd_addr"
    ∷ for_all "cluster_mds_addr"
    ∷ for_all "cluster_mds_dummy_addr"
    ∷ for_all "cluster_mds_dummy_port"
    ∷ for_kind "cluster_chunkserver_addr" kind_curvebs
    ∷ for_kind "cluster_snapshotclone_addr" kind_curvebs
    ∷ for_kind "cluster_snapshotclone_proxy_addr" kind_curvebs
    ∷ for_kind "cluster_snapshotclone_dummy_port" kind_curvebs
    ∷ for_kind "cluster_snapshotclone_nginx_upstream" kind_curvebs
    ∷ for_kind "cluster_metaserver_addr" kind_curvefs
    ∷ []

-- `len(limit) != 0 && !utils.Slice2Map(limit)[name]`
unfoldable pub limited : List String → String → Bool
unfolding contains
limited [] name = false
limited (l ∷ ls) name = not (contains (l ∷ ls) name)

unfoldable pub skip : DeployConfig → Var → Bool
unfolding limited
skip dc v = limited v.kind dc.kind || limited v.role dc.role

-- The text of each service of a role, in order.
unfoldable pub each_of_role :
    String → (DeployConfig → Fallible String) → List DeployConfig → Fallible (List String)
each_of_role role f [] = ok []
each_of_role role f (dc ∷ dcs) =
    if dc.role == role
    then (do s ← f dc; rest ← each_of_role role f dcs; ok (s ∷ rest))
    else each_of_role role f dcs

etcd_peer : DeployConfig → Fallible String
etcd_peer dc = do
  host ← get_listen_ip dc
  port ← get_listen_port dc
  ok (
      "etcd"
      ++ (itoa_ℕ dc.host_sequence
          ++ (itoa_ℕ dc.replicas_sequence ++ ("=http://" ++ (host ++ (":" ++ itoa port))))))

unfoldable pub join_etcd_peer : List DeployConfig → Fallible String
unfolding etcd_peer each_of_role
join_etcd_peer dcs = do peers ← each_of_role role_etcd etcd_peer dcs; ok (join "," peers)

pub data SelectPort : Type 0 where
  select_listen_port select_listen_client_port select_listen_dummy_port : SelectPort
  select_listen_proxy_port : SelectPort

abbrev selected : SelectPort → DeployConfig → ℤ → Fallible ℤ
selected select_listen_port dc port = ok port
selected select_listen_client_port dc port = get_listen_client_port dc
selected select_listen_dummy_port dc port = get_listen_dummy_port dc
selected select_listen_proxy_port dc port = get_listen_proxy_port dc

-- The address of a service, at the port that is selected.
unfoldable pub peer : SelectPort → DeployConfig → Fallible String
peer s dc = do
  host ← get_listen_ip dc
  listen ← get_listen_port dc
  port ← selected s dc listen
  ok (host ++ (":" ++ itoa port))

unfoldable pub join_peer : List DeployConfig → String → SelectPort → Fallible String
unfolding peer each_of_role
join_peer dcs role s = do peers ← each_of_role role (peer s) dcs; ok (join "," peers)

dummy_port : DeployConfig → Fallible String
dummy_port dc = do p ← get_listen_dummy_port dc; ok (itoa p)

unfoldable pub join_dummy_port : List DeployConfig → String → Fallible String
unfolding dummy_port each_of_role
join_dummy_port dcs role = do ports ← each_of_role role dummy_port dcs; ok (join "," ports)

upstream : DeployConfig → Fallible String
upstream dc = do
  host ← get_listen_ip dc
  port ← get_listen_port dc
  ok ("server " ++ (host ++ (":" ++ (itoa port ++ ";"))))

unfoldable pub join_nginx_upstream_server : List DeployConfig → Fallible String
unfolding upstream each_of_role
join_nginx_upstream_server dcs = do
  servers ← each_of_role role_snapshotclone upstream dcs
  ok (join " " servers)

abbrev item_text : DeployConfig → Item → Fallible String
item_text dc i = do v ← get dc i; ok (atoa v)

unfoldable pub service_external_port : DeployConfig → Fallible String
service_external_port dc = do
  enabled ← item_text dc config_enable_external_server
  if enabled == "true"
      then item_text dc config_listen_external_port
      else item_text dc config_listen_port

-- The cases of the `switch` on a cluster's variables.
unfoldable pub cluster_value : String → List DeployConfig → Fallible String
unfolding join_etcd_peer join_peer join_dummy_port join_nginx_upstream_server
cluster_value name dcs =
    if name == "cluster_etcd_http_addr"
    then join_etcd_peer dcs
    else if name == "cluster_etcd_addr"
    then join_peer dcs role_etcd select_listen_client_port
    else if name == "cluster_mds_addr"
    then join_peer dcs role_mds select_listen_port
    else if name == "cluster_mds_dummy_addr"
    then join_peer dcs role_mds select_listen_dummy_port
    else if name == "cluster_mds_dummy_port"
    then join_dummy_port dcs role_mds
    else if name == "cluster_chunkserver_addr"
    then join_peer dcs role_chunkserver select_listen_port
    else if name == "cluster_snapshotclone_addr"
    then join_peer dcs role_snapshotclone select_listen_port
    else if name == "cluster_snapshotclone_proxy_addr"
    then join_peer dcs role_snapshotclone select_listen_proxy_port
    else if name == "cluster_snapshotclone_dummy_port"
    then join_dummy_port dcs role_snapshotclone
    else if name == "cluster_snapshotclone_nginx_upstream"
    then join_nginx_upstream_server dcs
    else if name == "cluster_metaserver_addr"
    then join_peer dcs role_metaserver select_listen_port
    else ok ""

-- `getValue`, with the service `dc` at the index
unfoldable pub get_value : String → String → List DeployConfig → DeployConfig → Fallible String
unfolding service_external_port cluster_value
get_value uuid name dcs dc =
    if name == "prefix"
    then (do l ← get_project_layout dc; ok l.service_root_dir)
    else if name == "service_id"
    then ok dc.id
    else if name == "service_role"
    then ok dc.role
    else if name == "service_host"
    then ok dc.hostname
    else if name == "service_host_sequence"
    then ok (itoa_ℕ dc.host_sequence)
    else if name == "service_replica_sequence" || name == "service_replicas_sequence"
    then ok (itoa_ℕ dc.replicas_sequence)
    else if name == "format_replica_sequence" || name == "format_replicas_sequence"
    then ok (pad2 dc.replicas_sequence)
    else if name == "service_addr"
    then item_text dc config_listen_ip
    else if name == "service_port"
    then item_text dc config_listen_port
    else if name == "service_client_port"
    then item_text dc config_listen_client_port
    else if name == "service_dummy_port"
    then item_text dc config_listen_dummy_port
    else if name == "service_proxy_port"
    then item_text dc config_listen_proxy_port
    else if name == "service_external_addr"
    then item_text dc config_listen_external_ip
    else if name == "service_external_port"
    then service_external_port dc
    else if name == "log_dir"
    then (do l ← get_project_layout dc; ok l.service_log_dir)
    else if name == "data_dir"
    then (do l ← get_project_layout dc; ok l.service_data_dir)
    else if name == "random_uuid"
    then ok uuid
    else cluster_value name dcs

-- `addVariables`: what is registered goes to the service at the index.
unfoldable pub register_vars :
    String → List DeployConfig → DeployConfig → List Var → Variables → Fallible Variables
unfolding get_value skip
register_vars uuid dcs dc [] vars = ok vars
register_vars uuid dcs dc (v ∷ vs) vars =
    if skip dc v then register_vars uuid dcs dc vs vars else (do
      value ← get_value uuid v.name dcs dc
      vars' ← wrap register_variable_failed (
          register (record { name = v.name; description = ""; value = value; resolved = false })
            vars)
      register_vars uuid dcs dc vs vars')

unfoldable pub add_variables :
    String → List DeployConfig → DeployConfig → List Var → Fallible DeployConfig
unfolding register_vars
add_variables uuid dcs dc vs = do
  vars ← register_vars uuid dcs dc vs dc.variables
  ok (record dc { variables = vars })
