-- ===== src/Topology/Item.antt =====
-- internal/configure/topology/dc_item.go and dc_get.go: the known configuration items, their
-- defaults, and the getters of a service's configuration.
use Prim.Native.String.{◌++◌}
use curveadm.Prelude.{
  ℕ, String, Bool, true, false, Option, none, some, List, [], ◌∷◌, lookup, ◌==◌, ℤ, pos, ok, panic,
  ◌>>=◌, if◌then◌else◌,
}
use curveadm.Errno.{Fallible}
use curveadm.Config.Value.{Value, null, text, int, bool}
use curveadm.Topology.DeployConfig.{
  DeployConfig, kind_curvebs, role_etcd, role_mds, role_chunkserver, role_snapshotclone,
  role_metaserver,
}

pub data Require : Type 0 where
  require_any require_int require_string require_bool require_positive_integer : Require
  require_string_slice : Require

-- A default is missing, a value, or a function of the service.
pub data Default : Type 0 where
  no_default : Default
  constant : Value → Default
  computed : (DeployConfig → Fallible Value) → Default

pub record Item : Type 0 where
  pub key : String
  pub require : Require
  pub exclude : Bool
  pub default : Default

abbrev pub default_value : Default → DeployConfig → Fallible Value
default_value no_default dc = ok null
default_value (constant v) dc = ok v
default_value (computed f) dc = f dc

abbrev pub get_or_default : Option Value → Default → DeployConfig → Fallible Value
get_or_default (some v) d dc = ok v
get_or_default none d dc = default_value d dc

unfoldable pub get : DeployConfig → Item → Fallible Value
get dc i = get_or_default (lookup i.key dc.config) i.default dc

-- The type assertions of the getters: nil has the zero value, another type panics.
unfoldable pub as_string : Value → Fallible String
as_string null = ok ""
as_string (text s) = ok s
as_string _ = panic

unfoldable pub as_int : Value → Fallible ℤ
as_int null = ok (pos 0)
as_int (int n) = ok n
as_int _ = panic

unfoldable pub as_bool : Value → Fallible Bool
as_bool null = ok false
as_bool (bool b) = ok b
as_bool _ = panic

unfoldable pub get_string : DeployConfig → Item → Fallible String
unfolding get as_string
get_string dc i = do v ← get dc i; as_string v

unfoldable pub get_int : DeployConfig → Item → Fallible ℤ
unfolding get as_int
get_int dc i = do v ← get dc i; as_int v

unfoldable pub get_bool : DeployConfig → Item → Fallible Bool
unfolding get as_bool
get_bool dc i = do v ← get dc i; as_bool v

-- path.Join of a clean directory and a name
unfoldable pub path_join : String → String → String
path_join d n = if n == "" then d else d ++ ("/" ++ n)

abbrev pub number : ℕ → Value
number n = int (pos n)

abbrev pub config_prefix : Item
config_prefix = record {
  key = "prefix";
  require = require_string;
  exclude = true;
  default = computed λ dc.
      ok (text (path_join (if dc.kind == kind_curvebs then "/curvebs" else "/curvefs") dc.role));
}

abbrev pub config_report_usage : Item
config_report_usage = record {
  key = "report_usage";
  require = require_bool;
  exclude = true;
  default = constant (bool true);
}

abbrev pub config_global_container_image : Item
config_global_container_image = record {
  key = "container_image";
  require = require_string;
  exclude = true;
  default = computed λ dc. ok (
      text (
        if dc.kind == kind_curvebs
        then "opencurvedocker/curvebs:latest"
        else "opencurvedocker/curvefs:latest"));
}

abbrev plain : String → Bool → Item
plain key exclude = record {
  key = key;
  require = require_string;
  exclude = exclude;
  default = no_default;
}

abbrev pub config_log_dir : Item
config_log_dir = plain "log_dir" true

abbrev pub config_data_dir : Item
config_data_dir = plain "data_dir" true

abbrev pub config_core_dir : Item
config_core_dir = plain "core_dir" true

abbrev pub config_listen_ip : Item
config_listen_ip = record {
  key = "listen.ip";
  require = require_string;
  exclude = true;
  default = computed λ dc. ok (text dc.hostname);
}

abbrev port : String → Default → Item
port key d = record { key = key; require = require_positive_integer; exclude = true; default = d }

unfoldable pub listen_port_of : String → Value
listen_port_of role =
    if role == role_etcd
    then number 2380
    else if role == role_mds
    then number 6700
    else if role == role_chunkserver
    then number 8200
    else if role == role_snapshotclone
    then number 5555
    else if role == role_metaserver
    then number 6800
    else null

abbrev pub config_listen_port : Item
config_listen_port = port "listen.port" (computed λ dc. ok (listen_port_of dc.role))

abbrev pub config_listen_client_port : Item
config_listen_client_port = port "listen.client_port" (constant (number 2379))

unfoldable pub dummy_port_of : String → Value
dummy_port_of role =
    if role == role_mds
    then number 7700
    else if role == role_snapshotclone
    then number 8081
    else null

abbrev pub config_listen_dummy_port : Item
config_listen_dummy_port = port "listen.dummy_port" (computed λ dc. ok (dummy_port_of dc.role))

abbrev pub config_listen_proxy_port : Item
config_listen_proxy_port = port "listen.proxy_port" (constant (number 8080))

abbrev pub config_listen_external_ip : Item
config_listen_external_ip = record {
  key = "listen.external_ip";
  require = require_string;
  exclude = true;
  default = computed λ dc. ok (text dc.hostname);
}

unfoldable pub external_port : DeployConfig → Fallible Value
unfolding get_int
external_port dc =
    if dc.role == role_metaserver
    then ok (number 7800)
    else do p ← get_int dc config_listen_port; ok (int p)

abbrev pub config_listen_external_port : Item
config_listen_external_port = port "listen.external_port" (computed external_port)

abbrev flag : String → Bool → Bool → Item
flag key exclude b = record {
  key = key;
  require = require_bool;
  exclude = exclude;
  default = constant (bool b);
}

abbrev pub config_enable_external_server : Item
config_enable_external_server = flag "global.enable_external_server" false false

abbrev pub config_copysets : Item
config_copysets =
    port "copysets"
      (computed λ dc. ok (if dc.role == role_chunkserver then number 100 else number 100))

abbrev pub config_s3_access_key : Item
config_s3_access_key = plain "s3.ak" false

abbrev pub config_s3_secret_key : Item
config_s3_secret_key = plain "s3.sk" false

abbrev pub config_s3_address : Item
config_s3_address = plain "s3.nos_address" false

abbrev pub config_s3_bucket_name : Item
config_s3_bucket_name = plain "s3.snapshot_bucket_name" false

abbrev pub config_enable_rdma : Item
config_enable_rdma = flag "enable_rdma" true false

abbrev pub config_enable_renameat2 : Item
config_enable_renameat2 = flag "fs.enable_renameat2" false true

abbrev pub config_enable_chunkfile_pool : Item
config_enable_chunkfile_pool = flag "chunkfilepool.enable_get_chunk_from_pool" false true

abbrev pub config_variable : Item
config_variable = plain "variable" true

-- The item set, in the order of insertion.
unfoldable pub itemset : List Item
itemset =
    config_prefix ∷ config_report_usage ∷ config_global_container_image ∷ config_log_dir
    ∷ config_data_dir ∷ config_core_dir ∷ config_listen_ip ∷ config_listen_port
    ∷ config_listen_client_port ∷ config_listen_dummy_port ∷ config_listen_proxy_port
    ∷ config_listen_external_ip ∷ config_listen_external_port ∷ config_enable_external_server
    ∷ config_copysets ∷ config_s3_access_key ∷ config_s3_secret_key ∷ config_s3_address
    ∷ config_s3_bucket_name ∷ config_enable_rdma ∷ config_enable_renameat2
    ∷ config_enable_chunkfile_pool ∷ config_variable ∷ []

-- itemset.get(key): the keys are distinct.
unfoldable pub find_item : String → List Item → Option Item
find_item k [] = none
find_item k (i ∷ is) = if i.key == k then some i else find_item k is
