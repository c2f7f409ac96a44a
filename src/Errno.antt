-- ===== src/Errno.antt =====
-- internal/errno/errno.go: the error codes that the modelled parts return, without the numbers, the
-- descriptions and the clues that are printed with them.
use curveadm.Prelude.{Result}

pub data Code : Type 0 where
  -- database
  database_empty_query_result : Code
  -- configure items
  unsupport_configure_value_type configure_value_requires_bool : Code
  configure_value_requires_integer configure_value_requires_non_empty_string : Code
  configure_value_requires_positive_integer configure_value_requires_string_slice : Code
  configure_value_requires_nonempty_slice : Code
  unsupport_variable_value_type invalid_variable_value : Code
  -- disks
  parse_disks_failed unsupport_disks_configure_item global_field_missing disk_field_missing : Code
  device_field_missing mount_point_field_missing format_percent_field_missing : Code
  invalid_disk_uri duplicate_disk disk_format_percent_exceed_100 host_field_missing duplicate_host :
      Code
  -- hosts
  empty_hosts parse_hosts_failed unsupport_hosts_configure_item hostname_field_missing : Code
  hostname_requires_valid_ip_address hosts_ssh_port_exceed_max_port_number : Code
  private_key_file_require_absolute_path private_key_file_not_exist : Code
  private_key_file_require_600_permissions : Code
  -- topology
  empty_cluster_topology parse_topology_failed register_variable_failed : Code
  resolve_variable_failed rendering_variable_failed create_hash_for_topology_failed : Code
  unsupport_cluster_kind replicas_requires_positive_integer invalid_variable_section : Code
  duplicate_service_id : Code
  delete_service_while_scale_out_cluster_is_denied no_services_for_scale_out_cluster : Code
  require_same_role_services_for_scale_out_cluster : Code
  chunkserver_requires_3_hosts_while_scale_out metaserver_requires_3_hosts_while_scale_out : Code
  add_service_while_migrating_is_denied delete_service_while_migrating_is_denied : Code
  no_services_for_migrating require_same_role_services_for_migrating : Code
  require_whole_host_services_for_migrating : Code
  host_not_found : Code
  -- checks of a topology
  invalid_s3_access_key invalid_s3_secret_key invalid_s3_address invalid_s3_bucket_name : Code
  directory_require_absolute_path data_directory_already_in_use duplicate_listen_address : Code
  etcd_requires_3_services mds_requires_3_services chunkserver_requires_3_services : Code
  snapshotclone_requires_3_services metaserver_requires_3_services : Code
  etcd_requires_3_hosts mds_requires_3_hosts chunkserver_requires_3_hosts : Code
  snapshotclone_requires_3_hosts metaserver_requires_3_hosts : Code
  -- tasks
  ssh_connect_failed : Code

-- What a call of the program gives that may return an error code.
abbrev pub Fallible : Type 0 → Type 0
Fallible A = Result Code A
