-- ===== src/Pool.antt =====
-- internal/configure/pool.go: the pools of a cluster, from its services.
pub mod Order
pub mod Zones
pub mod Growth
pub mod Moves
use curveadm.Prelude.{
  ℕ, zero, suc, ◌+◌, ◌%◌, String, Bool, true, false, not, ◌&&◌, ◌||◌, List, [], ◌∷◌, ◌++◌, concat,
  Option, none, some, Dict, lookup, insert, ◌==◌, nat_eq, ltb, text_lt, ℤ, pos, ◌+ℤ◌, int64, div_ℤ,
  is_zero, itoa_ℕ, Result, ok, panic, ◌>>=◌, if◌then◌else◌,
}
use curveadm.Errno.{Fallible}
use curveadm.Topology.DeployConfig.{
  DeployConfig, kind_curvebs, kind_curvefs, role_chunkserver, role_metaserver,
}
use curveadm.Topology.Layout.{
  get_listen_ip, get_listen_port, get_listen_external_ip, get_listen_external_port, get_copysets,
}

pub record MigrateServer : Type 0 where
  pub from : DeployConfig
  pub to : DeployConfig

pub record LogicalPool : Type 0 where
  pub name : String
  pub replicas : ℕ
  pub zones : ℕ
  pub copysets : ℤ
  pub type : ℕ
  pub scatter_width : ℕ
  pub physical_pool : String

pub record Server : Type 0 where
  pub name : String
  pub internal_ip : String
  pub internal_port : ℤ
  pub external_ip : String
  pub external_port : ℤ
  pub zone : String
  pub physical_pool : String
  pub pool : String

pub record CurveClusterTopo : Type 0 where
  pub servers : List Server
  pub logical_pools : List LogicalPool
  pub pools : List LogicalPool
  pub npools : ℕ

-- The zone of the call number `idx` of `nextZone`, from 0 on.
unfoldable pub next_zone : ℕ → ℕ → String
next_zone zones idx = concat ("zone" ∷ itoa_ℕ (idx % zones + 1) ∷ [])

unfoldable pub less : DeployConfig → DeployConfig → Bool
unfolding text_lt
less dc1 dc2 =
    if dc1.role == dc2.role
    then (if nat_eq dc1.host_sequence dc2.host_sequence
        then ltb dc1.replicas_sequence dc2.replicas_sequence
        else ltb dc1.host_sequence dc2.host_sequence)
    else text_lt dc1.role dc2.role

-- sort.Slice, which leaves the order of services open that `less` does not tell apart.
unfoldable pub insert_sorted : DeployConfig → List DeployConfig → List DeployConfig
insert_sorted dc [] = dc ∷ []
insert_sorted dc (d ∷ ds) =
    let rest = insert_sorted dc ds in if less d dc then d ∷ rest else dc ∷ d ∷ ds

unfoldable pub sort_deploy_configs : List DeployConfig → List DeployConfig
unfolding insert_sorted
sort_deploy_configs [] = []
sort_deploy_configs (dc ∷ dcs) = insert_sorted dc (sort_deploy_configs dcs)

unfoldable pub format_name : DeployConfig → String
format_name dc = concat (dc.host ∷ "_" ∷ dc.name ∷ "_" ∷ itoa_ℕ dc.replicas_sequence ∷ [])

-- dcs[0].GetKind()
abbrev pub head_kind : List DeployConfig → Fallible String
head_kind [] = panic
head_kind (dc ∷ dcs) = ok dc.kind

-- The variables of the loop of `createLogicalPool`: the calls of `nextZone` so far, the zone, the
-- sum of the copysets and the servers.
pub record Building : Type 0 where
  pub calls : ℕ
  pub zone : String
  pub copysets : ℤ
  pub servers : List Server

-- A service that stores data, and so becomes a server of the pool.
unfoldable pub is_storage : String → DeployConfig → Bool
is_storage kind dc =
    (dc.role == role_chunkserver && kind == kind_curvebs)
    || (dc.role == role_metaserver && kind == kind_curvefs)

unfoldable pub add_zone : DeployConfig → Building → Building
unfolding next_zone
add_zone dc b =
    if dc.parent_id == dc.id
    then record b { calls = b.calls + 1; zone = next_zone 3 b.calls }
    else b

-- With several replicas on a host both ports are 0.
abbrev pub port_of : DeployConfig → ℤ → ℤ
port_of dc p = if ltb 1 dc.replicas then pos 0 else p

unfoldable pub server_of : String → String → DeployConfig → String → Fallible Server
unfolding format_name
server_of kind pool dc zone = do
  internal_port ← get_listen_port dc
  external_port ← get_listen_external_port dc
  internal_ip ← get_listen_ip dc
  external_ip ← get_listen_external_ip dc
  ok (record {
    name = format_name dc;
    internal_ip = internal_ip;
    internal_port = port_of dc internal_port;
    external_ip = external_ip;
    external_port = port_of dc external_port;
    zone = zone;
    physical_pool = if kind == kind_curvebs then pool else "";
    pool = if kind == kind_curvebs then "" else pool;
  })

unfoldable pub add_server : String → String → DeployConfig → Building → Fallible Building
unfolding add_zone server_of
add_server kind pool dc b = do
  let b' = add_zone dc b
  server ← server_of kind pool dc b'.zone
  copysets ← get_copysets dc
  ok (record b' { copysets = int64 (b'.copysets +ℤ copysets); servers = b'.servers ++ server ∷ [] })

unfoldable pub add_servers : String → String → List DeployConfig → Building → Fallible Building
unfolding is_storage add_server
add_servers kind pool [] b = ok b
add_servers kind pool (dc ∷ dcs) b =
    if is_storage kind dc
    then (do b' ← add_server kind pool dc b; add_servers kind pool dcs b')
    else add_servers kind pool dcs b

abbrev pub at_least_one : ℤ → ℤ
at_least_one n = if is_zero n then pos 1 else n

unfoldable pub logical_pool_of : String → String → ℤ → LogicalPool
logical_pool_of kind pool copysets = record {
  name = pool;
  replicas = 3;
  zones = 3;
  copysets = at_least_one (div_ℤ copysets 3);
  type = 0;
  scatter_width = 0;
  physical_pool = if kind == kind_curvebs then pool else "";
}

-- `createLogicalPool`; the caller's slice is left sorted.
unfoldable pub create_logical_pool :
    List DeployConfig → String → Fallible (LogicalPool × List Server)
unfolding sort_deploy_configs add_servers logical_pool_of
create_logical_pool dcs pool = do
  kind ← head_kind dcs
  b ←
      add_servers kind pool (sort_deploy_configs dcs)
        (record { calls = 0; zone = ""; copysets = pos 0; servers = [] })
  ok (logical_pool_of kind pool b.copysets, b.servers)

unfoldable pub generate_cluster_pool : List DeployConfig → String → Fallible CurveClusterTopo
unfolding create_logical_pool
generate_cluster_pool dcs pool = do
  p ← create_logical_pool dcs pool
  kind ← head_kind (sort_deploy_configs dcs)
  ok (
      if kind == kind_curvebs
      then record { servers = p.1; logical_pools = p.0 ∷ []; pools = []; npools = 1 }
      else record { servers = p.1; logical_pools = []; pools = p.0 ∷ []; npools = 1 })

unfoldable pub scale_out_cluster_pool :
    CurveClusterTopo → List DeployConfig → Fallible CurveClusterTopo
unfolding generate_cluster_pool
scale_out_cluster_pool old dcs = do
  topo ← generate_cluster_pool dcs (concat ("pool" ∷ itoa_ℕ (old.npools + 1) ∷ []))
  kind ← head_kind (sort_deploy_configs dcs)
  let old' =
      if kind == kind_curvebs
      then record old { logical_pools = old.logical_pools ++ topo.logical_pools }
      else record old { pools = old.pools ++ topo.pools }
  ok (record old' { servers = old.servers ++ topo.servers; npools = old.npools + 1 })

-- `m[formatName(migrate.From)] = migrate.To` for each
unfoldable pub targets : List MigrateServer → Dict DeployConfig → Dict DeployConfig
unfolding format_name
targets [] m = m
targets (t ∷ ts) m = targets ts (insert (format_name t.from) t.to m)

unfoldable pub migrate_server : Option DeployConfig → Server → Fallible Server
unfolding format_name
migrate_server none s = ok s
migrate_server (some dc) s = do
  internal_ip ← get_listen_ip dc
  external_ip ← get_listen_external_ip dc
  let moved = record s {
    internal_ip = internal_ip;
    external_ip = external_ip;
    name = format_name dc;
  }
  if not (is_zero s.internal_port) && not (is_zero s.external_port)
      then (do
        internal_port ← get_listen_port dc
        external_port ← get_listen_external_port dc
        ok (record moved { internal_port = internal_port; external_port = external_port }))
      else ok moved

unfoldable pub migrate_servers : Dict DeployConfig → List Server → Fallible (List Server)
unfolding migrate_server
migrate_servers m [] = ok []
migrate_servers m (s ∷ ss) = do
  s' ← migrate_server (lookup s.name m) s
  ss' ← migrate_servers m ss
  ok (s' ∷ ss')

unfoldable pub migrate_cluster_server :
    CurveClusterTopo → List MigrateServer → Fallible CurveClusterTopo
unfolding targets migrate_servers
migrate_cluster_server old migrates = do
  servers ← migrate_servers (targets migrates []) old.servers
  ok (record old { servers = servers })

unfoldable pub generate_default_cluster_pool : List DeployConfig → Fallible CurveClusterTopo
unfolding generate_cluster_pool
generate_default_cluster_pool dcs = generate_cluster_pool dcs "pool1"
