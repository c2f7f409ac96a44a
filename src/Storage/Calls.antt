-- ===== src/Storage/Calls.antt =====
-- The calls on the storage that change it, as data, and a sequence of them.
use curveadm.Prelude.{ℕ, String, ℤ, Option, none, some, List, [], ◌∷◌, ◌⊎◌, inl, inr}
use curveadm.Storage.{Sqlite, Failure, World, Call, Read}
use curveadm.Storage.Operations.{
  set_version, set_hosts, set_disks, insert_cluster, delete_cluster, checkout_cluster,
  set_cluster_topology, set_cluster_pool, insert_service, set_contain_id, insert_client,
  delete_client, insert_playground, set_playground_status, delete_playground, insert_audit_log,
  set_audit_log_status,
}
use curveadm.Storage.DiskCalls.{
  set_disk, update_disk_uri, update_disk_size, update_disk_chunkserver_id, delete_disk,
  clean_disk_chunkserver_id,
}

pub data Request : Type 0 where
  to_set_version : (version last_confirm : String) → Request
  to_set_hosts to_set_disks : (data_text : String) → Request
  to_insert_cluster : (name description topology : String) → Request
  to_delete_cluster to_checkout_cluster : (name : String) → Request
  to_set_cluster_topology : (id : ℤ) (topology : String) → Request
  to_set_cluster_pool : (id : ℤ) (topology pool : String) → Request
  to_insert_service : (cluster_id : ℤ) (service_id container_id : String) → Request
  to_set_contain_id : (service_id container_id : String) → Request
  to_insert_client : (id kind host container_id aux_info : String) → Request
  to_delete_client : (id : String) → Request
  to_insert_playground to_set_playground_status : (name text : String) → Request
  to_delete_playground : (name : String) → Request
  to_insert_audit_log : (time work_directory command : String) (status : ℤ) → Request
  to_set_audit_log_status : (id : ℕ) (status error_code : ℤ) → Request

pub data DiskRequest : Type 0 where
  to_set_disk : (host device mount image : String) (percent mount_device : ℤ) → DiskRequest
  to_update_disk_uri to_update_disk_size : (text host device : String) → DiskRequest
  to_update_disk_chunkserver_id : (host mount_point chunkserver : String) → DiskRequest
  to_delete_disk : (host device : String) → DiskRequest
  to_clean_disk_chunkserver_id : (service_id : String) → DiskRequest

abbrev pub failure_of : Failure ⊎ ℕ → Option Failure
failure_of (inl e) = some e
failure_of (inr a) = none

abbrev logged : Read ℕ → Call
logged read w = let (r, w') = read w in (failure_of r, w')

module _ (sqlite : Sqlite) where
  unfoldable pub perform : Request → Call
  perform (to_set_version v c) = set_version sqlite v c
  perform (to_set_hosts t) = set_hosts sqlite t
  perform (to_set_disks t) = set_disks sqlite t
  perform (to_insert_cluster n d t) = insert_cluster sqlite n d t
  perform (to_delete_cluster n) = delete_cluster sqlite n
  perform (to_checkout_cluster n) = checkout_cluster sqlite n
  perform (to_set_cluster_topology i t) = set_cluster_topology sqlite i t
  perform (to_set_cluster_pool i t p) = set_cluster_pool sqlite i t p
  perform (to_insert_service i s c) = insert_service sqlite i s c
  perform (to_set_contain_id s c) = set_contain_id sqlite s c
  perform (to_insert_client i k h c a) = insert_client sqlite i k h c a
  perform (to_delete_client i) = delete_client sqlite i
  perform (to_insert_playground n m) = insert_playground sqlite n m
  perform (to_set_playground_status n s) = set_playground_status sqlite n s
  perform (to_delete_playground n) = delete_playground sqlite n
  perform (to_insert_audit_log t d c s) = logged (insert_audit_log sqlite t d c s)
  perform (to_set_audit_log_status i s c) = set_audit_log_status sqlite i s c

  unfoldable pub perform_disk : DiskRequest → Call
  perform_disk (to_set_disk h d m i p s) = set_disk sqlite h d m i p s
  perform_disk (to_update_disk_uri u h d) = update_disk_uri sqlite u h d
  perform_disk (to_update_disk_size s h d) = update_disk_size sqlite s h d
  perform_disk (to_update_disk_chunkserver_id h m c) = update_disk_chunkserver_id sqlite h m c
  perform_disk (to_delete_disk h d) = delete_disk sqlite h d
  perform_disk (to_clean_disk_chunkserver_id s) = clean_disk_chunkserver_id sqlite s

  abbrev pub perform_any : Request ⊎ DiskRequest → Call
  perform_any (inl r) = perform r
  perform_any (inr r) = perform_disk r

  -- The calls of a program that goes on after an error
  unfoldable pub serve : List (Request ⊎ DiskRequest) → World → World
  serve [] w = w
  serve (r ∷ rs) w = serve rs (perform_any r w).1
