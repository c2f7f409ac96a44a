-- ===== src/Hosts.antt =====
-- internal/configure/hosts: the hosts that a user configures (hosts.go, hc_item.go, hc_get.go). The
-- machine that runs the program, its user and its files, is a parameter, and so is the decoder of
-- YAML: a document is the maps that it holds.
pub mod Address
pub mod Parsed
use Prim.Native.Char.{code}
use Prim.Native.String
use curveadm.Prelude.{
  ℕ, suc, String, ◌==◌, Bool, true, false, not, Option, none, some, List, [], ◌∷◌, ◌++◌, Dict,
  lookup, insert, concat, contains, nat_eq, leb, ℤ, pos, negsuc, ok, err, ◌>>=◌, ◌>>◌, guard,
  if◌then◌else◌,
}
use curveadm.Errno.{
  Fallible, empty_hosts, parse_hosts_failed, unsupport_hosts_configure_item, host_field_missing,
  hostname_field_missing, hostname_requires_valid_ip_address, hosts_ssh_port_exceed_max_port_number,
  private_key_file_require_absolute_path, private_key_file_not_exist,
  private_key_file_require_600_permissions, duplicate_host, configure_value_requires_string_slice,
}
use curveadm.Config.Value.{
  Value, Values, null, int, text, bool, slice, nil, cons, is_nil, all_to_str,
}
use curveadm.Config.ItemSet.{CommItem, find_comm_item, item_build, item_string, item_int, item_bool}
use curveadm.Topology.Item.{require_string, require_bool, require_positive_integer}
use curveadm.Hosts.Address.{is_valid_address}

-- utils.GetCurrentUser, GetCurrentHomeDir, PathExist and GetFilePermissions
pub record Machine : Type 0 where
  pub current_user : String
  pub home_dir : String
  pub path_exist : String → Bool
  pub permissions : String → ℕ

pub record HostConfig : Type 0 where
  pub sequence : ℕ
  pub config : Dict Value
  pub labels : List String
  pub envs : List String

abbrev pub item : String → CommItem
item key = record { key = key; require = require_string; default = null }

abbrev pub config_host : CommItem
config_host = item "host"

abbrev pub config_hostname : CommItem
config_hostname = item "hostname"

abbrev pub config_ssh_hostname : CommItem
config_ssh_hostname = item "ssh_hostname"

abbrev pub config_user : Machine → CommItem
config_user m = record { key = "user"; require = require_string; default = text m.current_user }

abbrev pub config_ssh_port : CommItem
config_ssh_port = record {
  key = "ssh_port";
  require = require_positive_integer;
  default = int (pos 22);
}

abbrev pub config_private_key_file : Machine → CommItem
config_private_key_file m = record {
  key = "private_key_file";
  require = require_string;
  default = text (concat (m.home_dir ∷ "/.ssh/id_rsa" ∷ []));
}

abbrev pub config_forward_agent : CommItem
config_forward_agent = record {
  key = "forward_agent";
  require = require_bool;
  default = bool false;
}

abbrev pub config_become_user : CommItem
config_become_user = item "become_user"

abbrev pub host_itemset : Machine → List CommItem
host_itemset m =
    config_host
    ∷ config_hostname
    ∷ config_ssh_hostname
    ∷ config_user m
    ∷ config_ssh_port
    ∷ config_private_key_file m
    ∷ config_forward_agent
    ∷ config_become_user
    ∷ []

-- `merge` of hosts.go and of disks.go: the child's keys that are missing or nil
unfoldable pub fill_in : Dict Value → Dict Value → Dict Value
fill_in [] child = child
fill_in ((k, v) ∷ parent) child =
    fill_in parent (if is_nil (lookup k child) then insert k v child else child)

unfoldable pub texts_in : Values → Fallible (List String)
unfolding all_to_str
texts_in nil = ok []
texts_in (cons v vs) = elim (all_to_str v) [
  | none ↦ err configure_value_requires_string_slice
  | some s ↦ do ss ← texts_in vs; ok (s ∷ ss)
]

-- convertLables and convertEnvs
unfoldable pub convert_texts : Value → Fallible (List String)
unfolding texts_in
convert_texts (slice vs) = texts_in vs
convert_texts _ = err configure_value_requires_string_slice

-- hc.GetSSHPort() > os.GetMaxPortNum()
abbrev pub is_port : ℤ → Bool
is_port (pos n) = leb n 65535
is_port (negsuc n) = true

abbrev pub is_absolute : String → Bool
is_absolute String.[] = false
is_absolute (String.◌∷◌ c s) = nat_eq (code c) b'/'

abbrev pub new_host_config : ℕ → Dict Value → HostConfig
new_host_config sequence config = record {
  sequence = sequence;
  config = config;
  labels = [];
  envs = [];
}

module _ (m : Machine) where
  -- An entry that is not known is refused.
  unfoldable pub build_known :
      Option CommItem → String → Value → HostConfig → Fallible (Value × HostConfig)
  unfolding item_build
  build_known none key value hc = err unsupport_hosts_configure_item
  build_known (some i) key value hc = do v ← item_build (host_itemset m) key value; ok (v, hc)

  -- What the loop over the configuration makes of one entry
  unfoldable pub build_host_item : String → Value → HostConfig → Fallible (Value × HostConfig)
  unfolding find_comm_item convert_texts build_known
  build_host_item key value hc =
      if key == "labels"
      then (do ss ← convert_texts value; ok (null, record hc { labels = hc.labels ++ ss }))
      else if key == "envs"
      then (do ss ← convert_texts value; ok (null, record hc { envs = hc.envs ++ ss }))
      else build_known (find_comm_item key (host_itemset m)) key value hc

  -- The loop: it writes each entry in its place.
  unfoldable pub build_host_items : Dict Value → HostConfig → Fallible (Dict Value × HostConfig)
  unfolding build_host_item
  build_host_items [] hc = ok ([], hc)
  build_host_items ((k, v) ∷ config) hc = do
    (w, hc') ← build_host_item k v hc
    (config', hc'') ← build_host_items config hc'
    ok ((k, w) ∷ config', hc'')

  abbrev pub get_host : HostConfig → Fallible String
  get_host hc = item_string hc.config config_host

  abbrev pub get_hostname : HostConfig → Fallible String
  get_hostname hc = item_string hc.config config_hostname

  abbrev pub get_ssh_port : HostConfig → Fallible ℤ
  get_ssh_port hc = item_int hc.config config_ssh_port

  abbrev pub get_private_key_file : HostConfig → Fallible String
  get_private_key_file hc = item_string hc.config (config_private_key_file m)

  abbrev pub get_forward_agent : HostConfig → Fallible Bool
  get_forward_agent hc = item_bool hc.config config_forward_agent

  -- PERMISSIONS_600
  abbrev pub check_key_file : Bool → String → Fallible (Unit {0})
  check_key_file true file = ok tt
  check_key_file false file = do
    guard (m.path_exist file) private_key_file_not_exist
    guard (nat_eq (m.permissions file) 384) private_key_file_require_600_permissions
    ok tt

  unfoldable pub check_host : HostConfig → Fallible (Unit {0})
  unfolding item_string item_int item_bool is_valid_address
  check_host hc = do
    file ← get_private_key_file hc
    host ← get_host hc
    guard (not (host == "")) host_field_missing
    hostname ← get_hostname hc
    guard (not (hostname == "")) hostname_field_missing
    guard (is_valid_address hostname) hostname_requires_valid_ip_address
    port ← get_ssh_port hc
    guard (is_port port) hosts_ssh_port_exceed_max_port_number
    guard (is_absolute file) private_key_file_require_absolute_path
    agent ← get_forward_agent hc
    check_key_file agent file

  -- `Build` of a host
  unfoldable pub build_host : HostConfig → Fallible HostConfig
  unfolding build_host_items check_host
  build_host hc = do
    (config, hc') ← build_host_items hc.config hc
    check_host (record hc' { config = config })
    ok (record hc' { config = config })

  -- The loop of `ParseHosts`, with the names that it met
  unfoldable pub parse_from :
      Dict Value → ℕ → List String → List (Dict Value) → Fallible (List HostConfig)
  unfolding build_host fill_in contains
  parse_from global i exist [] = ok []
  parse_from global i exist (host ∷ hosts) = do
    hc ← build_host (new_host_config i (fill_in global host))
    name ← get_host hc
    guard (not (contains exist name)) duplicate_host
    hcs ← parse_from global (suc i) (name ∷ exist) hosts
    ok (hc ∷ hcs)

  -- `decode` is the decoder: the `global` section, and the `hosts`.
  unfoldable pub parse_hosts :
      (String → Option (Dict Value × List (Dict Value))) → String → Fallible (List HostConfig)
  unfolding parse_from
  parse_hosts decode document = if document == "" then err empty_hosts else elim (decode document) [
    | none ↦ err parse_hosts_failed
    | some (global, hosts) ↦ parse_from global 0 [] hosts
  ]
