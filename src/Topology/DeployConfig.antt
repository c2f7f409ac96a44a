-- ===== src/Topology/DeployConfig.antt =====
-- internal/configure/topology/dc.go: the configuration of one service, with the names of dc.go and
-- context.go.
use Prim.Native.String.{◌++◌}
use curveadm.Prelude.{
  ℕ, String, Option, none, some, Dict, lookup, insert, itoa_ℕ, ◌==◌, if◌then◌else◌,
}
use curveadm.Config.Value.{Value}
use curveadm.Variables.{Variables}

abbrev pub kind_curvebs : String
kind_curvebs = "curvebs"

abbrev pub kind_curvefs : String
kind_curvefs = "curvefs"

abbrev pub role_etcd : String
role_etcd = "etcd"

abbrev pub role_mds : String
role_mds = "mds"

abbrev pub role_chunkserver : String
role_chunkserver = "chunkserver"

abbrev pub role_snapshotclone : String
role_snapshotclone = "snapshotclone"

abbrev pub role_metaserver : String
role_metaserver = "metaserver"

-- The host names by host.
abbrev pub Context : Type 0
Context = Dict String

unfoldable pub add : String → String → Context → Context
add host hostname ctx = insert host hostname ctx

abbrev or_empty : Option String → String
or_empty none = ""
or_empty (some s) = s

unfoldable pub lookup_host : Context → String → String
lookup_host ctx host = or_empty (lookup host ctx)

-- The counts are Go ints that are never negative here.
pub record DeployConfig : Type 0 where
  pub kind : String
  pub id : String
  pub parent_id : String
  pub role : String
  pub host : String
  pub hostname : String
  pub name : String
  pub replicas : ℕ
  pub host_sequence : ℕ
  pub replicas_sequence : ℕ
  pub config : Dict Value
  pub service_config : Dict String
  pub variables : Variables
  pub ctx : Option Context

unfoldable pub format_id : String → String → String → ℕ → String
format_id role host name replicas_sequence =
    role ++ ("_" ++ (host ++ ("_" ++ (name ++ ("_" ++ itoa_ℕ replicas_sequence)))))

unfoldable pub format_name : String → ℕ → String
format_name name host_sequence = if name == "" then itoa_ℕ host_sequence else name
