-- ===== src/Topology/Layout.antt =====
-- internal/configure/topology/dc_get.go: the getters of a service, and where its files lie.
use Prim.Native.String.{◌++◌}
use curveadm.Prelude.{String, Bool, List, [], ◌∷◌, map, ◌==◌, ℤ, ok, ◌>>=◌, if◌then◌else◌}
use curveadm.Errno.{Fallible}
use curveadm.Topology.DeployConfig.{
  DeployConfig, kind_curvebs, role_etcd, role_mds, role_chunkserver, role_snapshotclone,
  role_metaserver,
}
use curveadm.Topology.Item.{
  get_string, get_int, get_bool, path_join, config_prefix, config_listen_ip, config_listen_port,
  config_listen_client_port, config_listen_dummy_port, config_listen_proxy_port,
  config_listen_external_ip, config_listen_external_port, config_enable_external_server,
  config_copysets, config_data_dir, config_log_dir, config_core_dir,
}

unfoldable pub get_prefix : DeployConfig → Fallible String
get_prefix dc = get_string dc config_prefix

unfoldable pub get_log_dir : DeployConfig → Fallible String
get_log_dir dc = get_string dc config_log_dir

unfoldable pub get_data_dir : DeployConfig → Fallible String
get_data_dir dc = get_string dc config_data_dir

unfoldable pub get_core_dir : DeployConfig → Fallible String
get_core_dir dc = get_string dc config_core_dir

unfoldable pub get_listen_ip : DeployConfig → Fallible String
get_listen_ip dc = get_string dc config_listen_ip

unfoldable pub get_listen_port : DeployConfig → Fallible ℤ
get_listen_port dc = get_int dc config_listen_port

unfoldable pub get_listen_client_port : DeployConfig → Fallible ℤ
get_listen_client_port dc = get_int dc config_listen_client_port

unfoldable pub get_listen_dummy_port : DeployConfig → Fallible ℤ
get_listen_dummy_port dc = get_int dc config_listen_dummy_port

unfoldable pub get_listen_proxy_port : DeployConfig → Fallible ℤ
get_listen_proxy_port dc = get_int dc config_listen_proxy_port

unfoldable pub get_listen_external_ip : DeployConfig → Fallible String
get_listen_external_ip dc = get_string dc config_listen_external_ip

unfoldable pub get_copysets : DeployConfig → Fallible ℤ
get_copysets dc = get_int dc config_copysets

unfoldable pub get_enable_external_server : DeployConfig → Fallible Bool
get_enable_external_server dc = get_bool dc config_enable_external_server

unfoldable pub get_listen_external_port : DeployConfig → Fallible ℤ
unfolding get_enable_external_server get_listen_port
get_listen_external_port dc = do
  enabled ← get_enable_external_server dc
  if enabled then get_int dc config_listen_external_port else get_listen_port dc

pub record ConfFile : Type 0 where
  pub name : String
  pub path : String
  pub source_path : String

pub record Layout : Type 0 where
  pub project_root_dir : String
  pub playground_root_dir : String
  pub service_root_dir : String
  pub service_bin_dir : String
  pub service_conf_dir : String
  pub service_log_dir : String
  pub service_data_dir : String
  pub service_conf_path : String
  pub service_conf_src_path : String
  pub service_conf_files : List ConfFile
  pub tools_root_dir : String
  pub tools_bin_dir : String
  pub tools_data_dir : String
  pub tools_conf_dir : String
  pub tools_conf_path : String
  pub tools_conf_src_path : String
  pub tools_conf_system_path : String
  pub tools_binary_path : String
  pub tools_v2_conf_src_path : String
  pub tools_v2_conf_system_path : String
  pub tools_v2_binary_path : String
  pub format_binary_path : String
  pub chunkfile_pool_root_dir : String
  pub chunkfile_pool_dir : String
  pub chunkfile_pool_meta_path : String
  pub core_system_dir : String

unfoldable pub service_configs : String → List String
service_configs role =
    if role == role_etcd
    then "etcd.conf" ∷ []
    else if role == role_mds
    then "mds.conf" ∷ []
    else if role == role_chunkserver
    then "chunkserver.conf" ∷ "cs_client.conf" ∷ "s3.conf" ∷ []
    else if role == role_snapshotclone
    then "snapshotclone.conf" ∷ "snap_client.conf" ∷ "s3.conf" ∷ "nginx.conf" ∷ []
    else if role == role_metaserver
    then "metaserver.conf" ∷ []
    else []

-- The layout under a service's prefix.
unfoldable pub layout_of : DeployConfig → String → Layout
unfolding service_configs
layout_of dc service_root_dir =
    let bs : Bool = dc.kind == kind_curvebs in
    let root : String = if bs then "/curvebs" else "/curvefs" in
    let conf_src_dir = root ++ "/conf" in
    let service_conf_dir = service_root_dir ++ "/conf" in
    let tools_root_dir = root ++ "/tools" in
    let tools_bin_dir = tools_root_dir ++ "/sbin" in
    let tools_conf_dir = tools_root_dir ++ "/conf" in
    let tools_binary_name : String = if bs then "curvebs-tool" else "curvefs_tool" in
    let tools_v2_root_dir = root ++ "/tools-v2" in
    let tools_v2_bin_dir = tools_v2_root_dir ++ "/sbin" in
    let chunkserver_data_dir = root ++ ("/" ++ (role_chunkserver ++ "/data")) in
    record {
      project_root_dir = root;
      playground_root_dir = path_join root "playground";
      service_root_dir = service_root_dir;
      service_bin_dir = service_root_dir ++ "/sbin";
      service_conf_dir = service_root_dir ++ "/conf";
      service_log_dir = service_root_dir ++ "/logs";
      service_data_dir = service_root_dir ++ "/data";
      service_conf_path = service_conf_dir ++ ("/" ++ (dc.role ++ ".conf"));
      service_conf_src_path = conf_src_dir ++ ("/" ++ (dc.role ++ ".conf"));
      service_conf_files =
          map
            (λ item. record {
              name = item;
              path = service_conf_dir ++ ("/" ++ item);
              source_path = conf_src_dir ++ ("/" ++ item);
            })
            (service_configs dc.role);
      tools_root_dir = tools_root_dir;
      tools_bin_dir = tools_root_dir ++ "/sbin";
      tools_data_dir = tools_root_dir ++ "/data";
      tools_conf_dir = tools_root_dir ++ "/conf";
      tools_conf_path = tools_conf_dir ++ "/tools.conf";
      tools_conf_src_path = conf_src_dir ++ "/tools.conf";
      tools_conf_system_path = if bs then "/etc/curve/tools.conf" else "/etc/curvefs/tools.conf";
      tools_binary_path = tools_bin_dir ++ ("/" ++ tools_binary_name);
      tools_v2_conf_src_path = conf_src_dir ++ "/curve.yaml";
      tools_v2_conf_system_path = "/etc/curve/curve.yaml";
      tools_v2_binary_path = tools_v2_bin_dir ++ "/curve";
      format_binary_path = tools_bin_dir ++ "/curve_format";
      chunkfile_pool_root_dir = chunkserver_data_dir;
      chunkfile_pool_dir = chunkserver_data_dir ++ "/chunkfilepool";
      chunkfile_pool_meta_path = chunkserver_data_dir ++ "/chunkfilepool.meta";
      core_system_dir = "/core";
    }

unfoldable pub get_project_layout : DeployConfig → Fallible Layout
unfolding get_prefix layout_of
get_project_layout dc = do prefix ← get_prefix dc; ok (layout_of dc prefix)
