-- ===== src/Checker.antt =====
-- internal/task/task/checker: the checks of a topology before it is deployed (topology.go), with the
-- addresses and directories of a service (common.go). Each check returns an error or nothing.
pub mod Addresses
pub mod Duplicates
pub mod Enough
use Prim.Native.String
use text.Mathlib.Text.{starts_with}
use curveadm.Prelude.{
  ℕ, zero, suc, ◌+◌, String, Bool, true, false, not, ◌||◌, ◌&&◌, List, [], ◌∷◌, ◌++◌, length,
  concat, contains, Option, none, some, ◌==◌, ltb, leb, nat_eq, ℤ, itoa, ok, err, ◌>>=◌, ◌>>◌,
  guard, if◌then◌else◌,
}
use curveadm.Errno.{
  Code, Fallible, invalid_s3_access_key, invalid_s3_secret_key, invalid_s3_address,
  invalid_s3_bucket_name, directory_require_absolute_path, data_directory_already_in_use,
  duplicate_listen_address, etcd_requires_3_services, mds_requires_3_services,
  chunkserver_requires_3_services, snapshotclone_requires_3_services,
  metaserver_requires_3_services, etcd_requires_3_hosts, mds_requires_3_hosts,
  chunkserver_requires_3_hosts, snapshotclone_requires_3_hosts, metaserver_requires_3_hosts,
}
use curveadm.Topology.DeployConfig.{
  DeployConfig, kind_curvebs, kind_curvefs, role_etcd, role_mds, role_chunkserver,
  role_snapshotclone, role_metaserver,
}
use curveadm.Topology.Item.{
  get_string, config_s3_access_key, config_s3_secret_key, config_s3_address, config_s3_bucket_name,
}
use curveadm.Topology.Layout.{
  get_listen_ip, get_listen_port, get_listen_client_port, get_listen_dummy_port,
  get_listen_proxy_port, get_listen_external_ip, get_listen_external_port,
  get_enable_external_server, get_log_dir, get_data_dir, get_core_dir,
}
use curveadm.Command.Services.{filter_by_role, get_host_num, first}

pub record Address : Type 0 where
  pub role : String
  pub ip : String
  pub port : ℤ

-- The roles that a service of a role connects to.
unfoldable pub connect : String → List String
connect role =
    if role == role_etcd
    then role_etcd ∷ []
    else if role == role_mds
    then role_mds ∷ role_etcd ∷ []
    else if role == role_chunkserver
    then role_chunkserver ∷ role_mds ∷ []
    else if role == role_snapshotclone
    then role_snapshotclone ∷ []
    else if role == role_metaserver
    then role_metaserver ∷ role_mds ∷ []
    else []

abbrev address :
    String
    → (DeployConfig → Fallible String)
    → (DeployConfig → Fallible ℤ)
    → DeployConfig
    → Fallible Address
address role get_ip get_port dc = do
  ip ← get_ip dc
  p ← get_port dc
  ok (record { role = role; ip = ip; port = p })

abbrev two_addresses : String → (DeployConfig → Fallible ℤ) → DeployConfig → Fallible (List Address)
two_addresses role get_port dc = do
  a ← address role get_listen_ip get_listen_port dc
  b ← address role get_listen_ip get_port dc
  ok (a ∷ b ∷ [])

-- The address of a storage service, and with an external server the one that it is reached at.
abbrev storage_addresses :
    String → (DeployConfig → Fallible String) → DeployConfig → Fallible (List Address)
storage_addresses role get_ip dc = do
  a ← address role get_listen_ip get_listen_port dc
  enabled ← get_enable_external_server dc
  if enabled
      then (do b ← address role get_ip get_listen_external_port dc; ok (a ∷ b ∷ []))
      else ok (a ∷ [])

unfoldable pub get_service_listen_addresses : DeployConfig → Fallible (List Address)
get_service_listen_addresses dc =
    if dc.role == role_etcd
    then two_addresses role_etcd get_listen_client_port dc
    else if dc.role == role_mds
    then two_addresses role_mds get_listen_dummy_port dc
    else if dc.role == role_chunkserver
    then storage_addresses role_chunkserver get_listen_ip dc
    else if dc.role == role_snapshotclone
    then (do
      ab ← two_addresses role_snapshotclone get_listen_dummy_port dc
      c ← address role_snapshotclone get_listen_ip get_listen_proxy_port dc
      ok (ab ++ c ∷ []))
    else if dc.role == role_metaserver
    then storage_addresses role_metaserver get_listen_external_ip dc
    else ok []

unfoldable pub get_service_connect_address :
    DeployConfig → List DeployConfig → Fallible (List Address)
unfolding get_service_listen_addresses connect contains
get_service_connect_address from [] = ok []
get_service_connect_address from (to ∷ dcs) =
    if from.id == to.id || not (contains (connect from.role) to.role)
    then get_service_connect_address from dcs
    else (do
      as' ← get_service_listen_addresses to
      rest ← get_service_connect_address from dcs
      ok (as' ++ rest))

abbrev nonempty : String → List String
nonempty d = if d == "" then [] else d ∷ []

-- The log, data and core directories that are set.
unfoldable pub get_service_directorys : DeployConfig → Fallible (List String)
get_service_directorys dc = do
  log_dir ← get_log_dir dc
  data_dir ← get_data_dir dc
  core_dir ← get_core_dir dc
  ok (nonempty log_dir ++ (nonempty data_dir ++ nonempty core_dir))

unfoldable pub all_absolute : List String → Fallible (Unit {0})
all_absolute [] = ok tt
all_absolute (d ∷ ds) =
    if starts_with "/" d then all_absolute ds else err directory_require_absolute_path

unfoldable pub check_directory_path : DeployConfig → Fallible (Unit {0})
unfolding get_service_directorys all_absolute
check_directory_path dc = do dirs ← get_service_directorys dc; all_absolute dirs

unfoldable pub data_directories_from : List String → List DeployConfig → Fallible (Unit {0})
unfolding contains
data_directories_from used [] = ok tt
data_directories_from used (dc ∷ dcs) = do
  data_dir ← get_data_dir dc
  let key = concat (dc.host ∷ ":" ∷ data_dir ∷ [])
  if data_dir == ""
      then data_directories_from used dcs
      else if contains used key
      then err data_directory_already_in_use
      else data_directories_from (key ∷ used) dcs

unfoldable pub check_data_directory_duplicate : List DeployConfig → Fallible (Unit {0})
unfolding data_directories_from
check_data_directory_duplicate = data_directories_from []

unfoldable pub address_text : Address → String
address_text a = concat (a.ip ∷ ":" ∷ itoa a.port ∷ [])

-- The addresses seen so far, with those of one service.
unfoldable pub use_addresses : List String → List Address → Fallible (List String)
unfolding contains address_text
use_addresses used [] = ok used
use_addresses used (a ∷ as') =
    if contains used (address_text a)
    then err duplicate_listen_address
    else use_addresses (address_text a ∷ used) as'

unfoldable pub addresses_from : List String → List DeployConfig → Fallible (Unit {0})
unfolding use_addresses get_service_listen_addresses
addresses_from used [] = ok tt
addresses_from used (dc ∷ dcs) = do
  as' ← get_service_listen_addresses dc
  used' ← use_addresses used as'
  addresses_from used' dcs

unfoldable pub check_address_duplicate : List DeployConfig → Fallible (Unit {0})
unfolding addresses_from
check_address_duplicate = addresses_from []

-- An S3 item: the template value is refused, and nothing too unless the check is weak.
unfoldable pub check_s3_item : Bool → String → Code → Fallible (Unit {0})
check_s3_item weak value e =
    if value == "<>" then err e else if value == "" && not weak then err e else ok tt

unfoldable pub check_s3_configure : Bool → Bool → DeployConfig → Fallible (Unit {0})
unfolding check_s3_item
check_s3_configure skip_snapshotclone weak dc =
    if skip_snapshotclone
    then ok tt
    else if dc.kind == kind_curvebs
    then (do
      ak ← get_string dc config_s3_access_key
      sk ← get_string dc config_s3_secret_key
      address ← get_string dc config_s3_address
      bucket ← get_string dc config_s3_bucket_name
      check_s3_item weak ak invalid_s3_access_key
      check_s3_item weak sk invalid_s3_secret_key
      check_s3_item weak address invalid_s3_address
      check_s3_item weak bucket invalid_s3_bucket_name)
    else ok tt

-- `skip` of step2CheckServices, at the kind of the first service
unfoldable pub skip : String → Bool → String → Bool
skip kind skip_snapshotclone role =
    if kind == kind_curvefs
    then role == role_chunkserver || role == role_snapshotclone
    else role == role_metaserver || (skip_snapshotclone && role == role_snapshotclone)

-- A number of services or hosts of a role.
unfoldable pub enough : Bool → String → ℕ → Code → Fallible (Unit {0})
enough weak role num e =
    if weak && role == role_snapshotclone
    then guard (nat_eq num 0 || leb 3 num) e
    else guard (not (ltb num 3)) e

unfoldable pub check_roles :
    (List DeployConfig → ℕ)
    → String
    → Bool
    → Bool
    → List DeployConfig
    → List (String × Code)
    → Fallible (Unit {0})
unfolding skip enough filter_by_role
check_roles number kind skip_snapshotclone weak dcs [] = ok tt
check_roles number kind skip_snapshotclone weak dcs ((role, e) ∷ items) =
    if skip kind skip_snapshotclone role
    then check_roles number kind skip_snapshotclone weak dcs items
    else (do
      enough weak role (number (filter_by_role dcs role)) e
      check_roles number kind skip_snapshotclone weak dcs items)

unfoldable pub service_items : List (String × Code)
service_items =
    (role_etcd, etcd_requires_3_services)
    ∷ (role_mds, mds_requires_3_services)
    ∷ (role_chunkserver, chunkserver_requires_3_services)
    ∷ (role_snapshotclone, snapshotclone_requires_3_services)
    ∷ (role_metaserver, metaserver_requires_3_services)
    ∷ []

unfoldable pub host_items : List (String × Code)
host_items =
    (role_etcd, etcd_requires_3_hosts)
    ∷ (role_mds, mds_requires_3_hosts)
    ∷ (role_chunkserver, chunkserver_requires_3_hosts)
    ∷ (role_snapshotclone, snapshotclone_requires_3_hosts)
    ∷ (role_metaserver, metaserver_requires_3_hosts)
    ∷ []

unfoldable pub check_services : Bool → Bool → List DeployConfig → Fallible (Unit {0})
unfolding check_roles service_items host_items get_host_num
check_services skip_snapshotclone weak dcs = do
  dc ← first dcs
  check_roles length dc.kind skip_snapshotclone weak dcs service_items
  check_roles get_host_num dc.kind skip_snapshotclone weak dcs host_items
