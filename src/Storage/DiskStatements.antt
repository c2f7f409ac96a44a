-- ===== src/Storage/DiskStatements.antt =====
-- internal/storage/sql.go: the statements on the table of single disks.
use curveadm.Prelude.{String, ℤ, Bool, ◌&&◌, some, ◌==◌, nat_eq, ℕ}
use curveadm.Storage.{Disk, Statement}
use curveadm.Storage.Tables.{update_where, delete_where, insert_row, with_rows}

abbrev pub by_device : String → String → Disk → Bool
by_device host device r = (r.host == host) && (r.device == device)

abbrev pub by_mount : String → String → Disk → Bool
by_mount host mount_point r = (r.host == host) && (r.mount_point == mount_point)

unfoldable pub sql_insert_disk :
    String → String → String → String → String → ℤ → String → String → ℤ → Statement
sql_insert_disk host device size uri mount percent image chunkserver mount_device m d =
    some (record d {
      disk =
          insert_row
            (λ i. record {
              id = i;
              host = host;
              device = device;
              size = size;
              uri = uri;
              mount_point = mount;
              format_percent = percent;
              container_image = image;
              chunkserver_id = chunkserver;
              service_mount_device = mount_device;
              lastmodified_time = m.now;
            })
            d.disk;
    })

unfoldable pub sql_set_disk : String → ℤ → String → ℤ → ℕ → Statement
sql_set_disk mount percent image mount_device id m d = some (record d {
  disk =
      with_rows
        (update_where (λ r. nat_eq r.id id)
          (λ r. record r {
            mount_point = mount;
            format_percent = percent;
            container_image = image;
            service_mount_device = mount_device;
            lastmodified_time = m.now;
          }))
        d.disk;
})

unfoldable pub sql_set_disk_uri : String → String → String → Statement
sql_set_disk_uri uri host device m d = some (record d {
  disk =
      with_rows
        (update_where (by_device host device)
          (λ r. record r { uri = uri; lastmodified_time = m.now }))
        d.disk;
})

unfoldable pub sql_set_disk_size : String → String → String → Statement
sql_set_disk_size size host device m d = some (record d {
  disk =
      with_rows
        (update_where (by_device host device)
          (λ r. record r { size = size; lastmodified_time = m.now }))
        d.disk;
})

unfoldable pub sql_set_disk_chunkserver_id : String → String → String → Statement
sql_set_disk_chunkserver_id chunkserver host mount_point m d = some (record d {
  disk =
      with_rows
        (update_where (by_mount host mount_point)
          (λ r. record r { chunkserver_id = chunkserver; lastmodified_time = m.now }))
        d.disk;
})

unfoldable pub sql_delete_disk_host : String → Statement
sql_delete_disk_host host m d =
    some (record d { disk = with_rows (delete_where (λ r. r.host == host)) d.disk })

unfoldable pub sql_delete_disk_host_device : String → String → Statement
sql_delete_disk_host_device host device m d =
    some (record d { disk = with_rows (delete_where (by_device host device)) d.disk })
