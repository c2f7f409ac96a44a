-- ===== src/Disks.antt =====
-- internal/configure/disks: the disks that a user configures (disks.go, dc_item.go, dc_get.go), and
-- the URI under which a formatted disk is known. The decoder of YAML is a parameter.
pub mod Uri
pub mod Hosts
pub mod Apart
pub mod Parsed
use curveadm.Prelude.{
  ℕ, zero, suc, String, ◌==◌, Bool, true, false, not, Option, none, some, List, [], ◌∷◌, Dict,
  insert, contains, keep, leb, ℤ, pos, negsuc, is_zero, ok, err, ◌>>=◌, ◌>>◌, guard, if◌then◌else◌,
}
use curveadm.Errno.{
  Fallible, parse_disks_failed, unsupport_disks_configure_item, global_field_missing,
  disk_field_missing, device_field_missing, mount_point_field_missing, format_percent_field_missing,
  duplicate_disk, disk_format_percent_exceed_100, host_field_missing, duplicate_host,
  host_not_found,
}
use curveadm.Config.Value.{Value, null, int, bool, texts}
use curveadm.Config.ItemSet.{
  CommItem, find_comm_item, item_build, item_string, item_int, item_texts,
}
use curveadm.Topology.Item.{
  require_string, require_bool, require_positive_integer, require_string_slice,
}
use curveadm.Hosts.{fill_in}

pub record DiskConfig : Type 0 where
  pub sequence : ℕ
  pub config : Dict Value

abbrev pub config_container_image : CommItem
config_container_image = record {
  key = "container_image";
  require = require_string;
  default = null;
}

abbrev pub config_format_percent : CommItem
config_format_percent = record {
  key = "format_percent";
  require = require_positive_integer;
  default = int (pos 90);
}

abbrev pub config_service_mount_device : CommItem
config_service_mount_device = record {
  key = "service_mount_device";
  require = require_bool;
  default = bool false;
}

abbrev pub config_disk_host : CommItem
config_disk_host = record { key = "host"; require = require_string_slice; default = null }

abbrev pub config_device : CommItem
config_device = record { key = "device"; require = require_string; default = null }

abbrev pub config_mount_point : CommItem
config_mount_point = record { key = "mount"; require = require_string; default = null }

abbrev pub config_host_exclude : CommItem
config_host_exclude = record { key = "exclude"; require = require_string_slice; default = null }

abbrev pub disk_itemset : List CommItem
disk_itemset =
    config_container_image ∷ config_format_percent ∷ config_service_mount_device ∷ config_disk_host
    ∷ config_device ∷ config_mount_point ∷ config_host_exclude ∷ []

abbrev pub get_hosts : DiskConfig → Fallible (List String)
get_hosts dc = item_texts dc.config config_disk_host

abbrev pub get_host_exclude : DiskConfig → Fallible (List String)
get_host_exclude dc = item_texts dc.config config_host_exclude

abbrev pub get_device : DiskConfig → Fallible String
get_device dc = item_string dc.config config_device

abbrev pub get_mount_point : DiskConfig → Fallible String
get_mount_point dc = item_string dc.config config_mount_point

abbrev pub get_format_percent : DiskConfig → Fallible ℤ
get_format_percent dc = item_int dc.config config_format_percent

-- The loop over the configuration: it writes each entry in its place.
abbrev pub build_disk_item : Option CommItem → String → Value → Fallible Value
build_disk_item none key value = err unsupport_disks_configure_item
build_disk_item (some i) key value = item_build disk_itemset key value

unfoldable pub build_disk_items : Dict Value → Fallible (Dict Value)
unfolding find_comm_item item_build
build_disk_items [] = ok []
build_disk_items ((k, v) ∷ config) = do
  w ← build_disk_item (find_comm_item k disk_itemset) k v
  config' ← build_disk_items config
  ok ((k, w) ∷ config')

-- Every host to exclude is one of the hosts.
unfoldable pub are_members : List String → List String → Fallible (Unit {0})
unfolding contains
are_members hosts [] = ok tt
are_members hosts (h ∷ exclude) = do
  guard (contains hosts h) host_not_found
  are_members hosts exclude

-- mergeFinalHost, behind the test of the number of the hosts to exclude
unfoldable pub exclude_hosts : List String → DiskConfig → Fallible DiskConfig
unfolding are_members item_texts keep
exclude_hosts [] dc = ok dc
exclude_hosts (x ∷ exclude) dc = do
  hosts ← get_hosts dc
  are_members hosts (x ∷ exclude)
  ok (record dc {
    config = insert "host" (texts (keep (λ h. not (contains (x ∷ exclude) h)) hosts)) dc.config;
  })

unfoldable pub merge_final_host : DiskConfig → Fallible DiskConfig
unfolding exclude_hosts item_texts
merge_final_host dc = do exclude ← get_host_exclude dc; exclude_hosts exclude dc

unfoldable pub check_dup_host : List String → List String → Fallible (Unit {0})
unfolding contains
check_dup_host exist [] = ok tt
check_dup_host exist (h ∷ hosts) = do
  guard (not (contains exist h)) duplicate_host
  check_dup_host (h ∷ exist) hosts

abbrev pub are_none : List String → Bool
are_none [] = true
are_none (s ∷ ss) = false

-- dc.GetFormatPercent() <= 100
abbrev pub is_percent : ℤ → Bool
is_percent (pos n) = leb n 100
is_percent (negsuc n) = true

unfoldable pub check_disk : DiskConfig → Fallible (Unit {0})
unfolding item_texts item_string item_int check_dup_host is_zero
check_disk dc = do
  hosts ← get_hosts dc
  guard (not (are_none hosts)) host_field_missing
  device ← get_device dc
  guard (not (device == "")) device_field_missing
  mount ← get_mount_point dc
  guard (not (mount == "")) mount_point_field_missing
  percent ← get_format_percent dc
  guard (not (is_zero percent)) format_percent_field_missing
  guard (is_percent percent) disk_format_percent_exceed_100
  check_dup_host [] hosts

-- `Build` of a disk
unfoldable pub build_disk : DiskConfig → Fallible DiskConfig
unfolding build_disk_items merge_final_host check_disk
build_disk dc = do
  config ← build_disk_items dc.config
  dc' ← merge_final_host (record dc { config = config })
  check_disk dc'
  ok dc'

-- The loop of `ParseDisks`; devices and mount points are met in one set.
unfoldable pub parse_disks_from :
    Dict Value → ℕ → List String → List (Dict Value) → Fallible (List DiskConfig)
unfolding build_disk fill_in contains
parse_disks_from global i exist [] = ok []
parse_disks_from global i exist (disk ∷ disks) = do
  dc ← build_disk (record { sequence = i; config = fill_in global disk })
  device ← get_device dc
  guard (not (contains exist device)) duplicate_disk
  mount ← get_mount_point dc
  guard (not (contains exist mount)) duplicate_disk
  dcs ← parse_disks_from global (suc i) (mount ∷ device ∷ exist) disks
  ok (dc ∷ dcs)

-- The `global` and the `disk` section of a document
abbrev pub Document : Type 0
Document = Option (Dict Value) × Option (List (Dict Value))

-- checkDiskRootConfig, and the loop
unfoldable pub parse_root : Document → Fallible (List DiskConfig)
unfolding parse_disks_from
parse_root (none, disks) = err global_field_missing
parse_root (some global, none) = err disk_field_missing
parse_root (some global, some disks) = parse_disks_from global 0 [] disks

unfoldable pub parse_disks : (String → Option Document) → String → Fallible (List DiskConfig)
unfolding parse_root
parse_disks decode document = elim (decode document) [
  | none ↦ err parse_disks_failed
  | some d ↦ parse_root d
]
