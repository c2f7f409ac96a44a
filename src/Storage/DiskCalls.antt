-- ===== src/Storage/DiskCalls.antt =====
-- internal/storage/storage.go: the methods on single disks.
use curveadm.Prelude.{
  String, ℤ, ◌==◌, none, some, List, [], ◌∷◌, keep, ◌⊎◌, inl, inr, if◌then◌else◌,
}
use curveadm.Errno.{database_empty_query_result}
use curveadm.Storage.{
  Disk, Database, Sqlite, Failure, code, Call, Read, exec_sql, query, ◌>>?◌, by_first,
}
use curveadm.Storage.DiskStatements.{
  by_device, by_mount, sql_insert_disk, sql_set_disk, sql_set_disk_uri, sql_set_disk_size,
  sql_set_disk_chunkserver_id, sql_delete_disk_host, sql_delete_disk_host_device,
}

-- comm.DISK_DEFAULT_NULL_SIZE, and the names for the same text
abbrev pub disk_default_null : String
disk_default_null = "-"

-- The filters of `GetDisk`, with their arguments
pub data Filter : Type 0 where
  filter_all : Filter
  filter_host filter_service : String → Filter
  filter_device filter_mount : String → String → Filter

unfoldable pub select_disk : Filter → Database → List Disk
select_disk filter_all d = d.disk.rows
select_disk (filter_host host) d = keep (λ r. r.host == host) d.disk.rows
select_disk (filter_service id) d = keep (λ r. r.chunkserver_id == id) d.disk.rows
select_disk (filter_device host device) d = keep (by_device host device) d.disk.rows
select_disk (filter_mount host mount_point) d = keep (by_mount host mount_point) d.disk.rows

-- The number of the rows is looked at before the error of the query.
abbrev pub first_disk : (Failure ⊎ List Disk) → Failure ⊎ Disk
first_disk (inr (r ∷ _)) = inr r
first_disk _ = inl (code database_empty_query_result)

module _ (sqlite : Sqlite) where
  unfoldable pub get_disk : Filter → Read (List Disk)
  get_disk f = query sqlite (select_disk f)

  unfoldable pub set_disk : String → String → String → String → ℤ → ℤ → Call
  set_disk host device mount image percent mount_device w =
      get_disk (filter_device host device) w >>? λ records.
      by_first records
        (exec_sql sqlite (
          sql_insert_disk host device disk_default_null disk_default_null mount percent image
            disk_default_null mount_device))
        (λ r. exec_sql sqlite (sql_set_disk mount percent image mount_device r.id))

  unfoldable pub update_disk_uri : String → String → String → Call
  update_disk_uri uri host device = exec_sql sqlite (sql_set_disk_uri uri host device)

  unfoldable pub update_disk_size : String → String → String → Call
  update_disk_size size host device = exec_sql sqlite (sql_set_disk_size size host device)

  unfoldable pub get_disk_by_mount_point : String → String → Read Disk
  get_disk_by_mount_point host mount_point w =
      let (r, w') = get_disk (filter_mount host mount_point) w in (first_disk r, w')

  unfoldable pub update_disk_chunkserver_id : String → String → String → Call
  update_disk_chunkserver_id host mount_point chunkserver w =
      get_disk_by_mount_point host mount_point w >>? λ _.
      exec_sql sqlite (sql_set_disk_chunkserver_id chunkserver host mount_point)

  -- `len(device) > 0`
  unfoldable pub delete_disk : String → String → Call
  delete_disk host device =
      if device == ""
      then exec_sql sqlite (sql_delete_disk_host host)
      else exec_sql sqlite (sql_delete_disk_host_device host device)

  unfoldable pub clean_disks : List Disk → Call
  clean_disks [] w = (none, w)
  clean_disks (r ∷ rs) w =
      let (e, w') = update_disk_chunkserver_id r.host r.mount_point disk_default_null w in
      elim e [ some e ↦ (some e, w') | none ↦ clean_disks rs w' ]

  unfoldable pub clean_disk_chunkserver_id : String → Call
  clean_disk_chunkserver_id service_id w = get_disk (filter_service service_id) w >>? clean_disks
