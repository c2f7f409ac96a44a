-- ===== src/Storage/KeptCalls.antt =====
-- Each call of the storage keeps a sound database sound.
use curveadm.Prelude.{
  suc, ◌≡◌, arith, String, ◌==◌, Bool, false, Bool-cases, take, Option-cases, List, [], ◌∷◌,
  List-cases, keep, ◌⊎◌, inl, inr, All, ℤ,
}
use curveadm.Storage.{Disk, Sqlite, World, exec_sql}
use curveadm.Storage.Tables.{insert_row}
use curveadm.Storage.Ends.{first-cases, take-nil, query-cases}
use curveadm.Storage.Sound.{
  IsSound, Keeps, exec_sql-IsSound, exec_sql-Keeps, query-Keeps, with_version, with_hosts,
  with_disks,
}
use curveadm.Storage.Kept.{
  sql_set_version-Preserves, sql_set_hosts-Preserves, sql_set_disks-Preserves,
  sql_insert_audit_log-Preserves, sql_set_audit_log_status-Preserves, sql_delete_cluster-Preserves,
  sql_delete_client-Preserves, sql_delete_playground-Preserves, sql_set_cluster_topology-Preserves,
  sql_set_cluster_pool-Preserves, sql_checkout_cluster-Preserves, sql_set_container_id-Preserves,
  sql_set_playground_status-Preserves, sql_insert_cluster-Preserves, sql_insert_service-Preserves,
  sql_insert_client-Preserves, sql_insert_playground-Preserves,
}
use curveadm.Storage.KeptDisks.{
  sql_set_disk-Preserves, sql_set_disk_uri-Preserves, sql_set_disk_size-Preserves,
  sql_set_disk_chunkserver_id-Preserves, sql_delete_disk_host-Preserves,
  sql_delete_disk_host_device-Preserves, sql_insert_disk-IsSound,
}
use curveadm.Storage.Statements.{
  sql_insert_version, sql_set_version, sql_insert_hosts, sql_set_hosts, sql_insert_disks,
  sql_set_disks, sql_insert_audit_log,
}
use curveadm.Storage.DiskStatements.{by_device, sql_set_disk_chunkserver_id}
use curveadm.Storage.Operations.{
  set_version, get_versions, set_hosts, get_hostses, set_disks, get_disks, insert_cluster,
  delete_cluster, checkout_cluster, set_cluster_topology, set_cluster_pool, insert_service,
  set_contain_id, insert_client, delete_client, insert_playground, set_playground_status,
  delete_playground, insert_audit_log, set_audit_log_status,
}
use curveadm.Storage.DiskCalls.{
  set_disk, get_disk, select_disk, filter_device, filter_service, filter_mount, disk_default_null,
  update_disk_uri, update_disk_size, get_disk_by_mount_point, update_disk_chunkserver_id,
  delete_disk, clean_disks, clean_disk_chunkserver_id,
}
use curveadm.Storage.Calls.{
  Request, to_set_version, to_set_hosts, to_set_disks, to_insert_cluster, to_delete_cluster,
  to_checkout_cluster, to_set_cluster_topology, to_set_cluster_pool, to_insert_service,
  to_set_contain_id, to_insert_client, to_delete_client, to_insert_playground,
  to_set_playground_status, to_delete_playground, to_insert_audit_log, to_set_audit_log_status,
  DiskRequest, to_set_disk, to_update_disk_uri, to_update_disk_size, to_update_disk_chunkserver_id,
  to_delete_disk, to_clean_disk_chunkserver_id, perform, perform_disk, perform_any, serve,
}

module _ (sqlite : Sqlite) where
  set_version-Keeps : (v c : String) → Keeps (set_version sqlite v c)
  unfolding set_version get_versions sql_insert_version insert_row
  set_version-Keeps v c =
      query-Keeps sqlite (λ d. take 1 d.version.rows) _
        λ w h.
          first-cases (λ r. IsSound r.1.database) (take 1 w.database.version.rows) _ _ w
            (λ e.
              exec_sql-IsSound sqlite (sql_insert_version v) w h
                (with_version h _ (rw (take-nil w.database.version.rows e) (omega arith))))
            (λ x xs e.
              exec_sql-Keeps sqlite (sql_set_version v c x.id) (sql_set_version-Preserves v c x.id)
                w h)

  set_hosts-Keeps : (t : String) → Keeps (set_hosts sqlite t)
  unfolding set_hosts get_hostses sql_insert_hosts insert_row
  set_hosts-Keeps t =
      query-Keeps sqlite (λ d. take 1 d.hosts.rows) _
        λ w h.
          first-cases (λ r. IsSound r.1.database) (take 1 w.database.hosts.rows) _ _ w
            (λ e.
              exec_sql-IsSound sqlite (sql_insert_hosts t) w h
                (with_hosts h _ (rw (take-nil w.database.hosts.rows e) (omega arith))))
            (λ x xs e.
              exec_sql-Keeps sqlite (sql_set_hosts t x.id) (sql_set_hosts-Preserves t x.id) w h)

  set_disks-Keeps : (t : String) → Keeps (set_disks sqlite t)
  unfolding set_disks get_disks sql_insert_disks insert_row
  set_disks-Keeps t =
      query-Keeps sqlite (λ d. take 1 d.disks.rows) _
        λ w h.
          first-cases (λ r. IsSound r.1.database) (take 1 w.database.disks.rows) _ _ w
            (λ e.
              exec_sql-IsSound sqlite (sql_insert_disks t) w h
                (with_disks h _ (rw (take-nil w.database.disks.rows e) (omega arith))))
            (λ x xs e.
              exec_sql-Keeps sqlite (sql_set_disks t x.id) (sql_set_disks-Preserves t x.id) w h)

  insert_audit_log-Keeps :
      (t d c : String) (s : ℤ) → Keeps (perform sqlite (to_insert_audit_log t d c s))
  unfolding perform insert_audit_log
  insert_audit_log-Keeps t d c s w h =
      let statement = sql_insert_audit_log t d c s in
      let kept = exec_sql-Keeps sqlite statement (sql_insert_audit_log-Preserves t d c s) w h in
      elim (Option-cases (exec_sql sqlite statement w).0) [
        | inl e ↦ rw (e) kept
        | inr (x, e) ↦ rw (e) kept
      ]

  -- A selection that is empty says of every row that it fails the test.
  none_kept :
      {A : Type 0} (test : A → Bool) (xs : List A)
      → keep test xs ≡ []
      → All (λ x. test x ≡ false) xs
  unfolding keep
  none_kept test [] e = tt
  none_kept test (x ∷ xs) e = elim (Bool-cases (test x)) [
    | inl b ↦ let f : x ∷ keep test xs ≡ [] = (rw b at e) in cc
    | inr b ↦ (b, none_kept test xs (rw b at e))
  ]

  set_disk-Keeps :
      (host device mount image : String) (percent mount_device : ℤ)
      → Keeps (set_disk sqlite host device mount image percent mount_device)
  unfolding set_disk get_disk select_disk
  set_disk-Keeps host device mount image percent mount_device =
      query-Keeps sqlite (select_disk (filter_device host device)) _ λ w h.
        first-cases (λ r. IsSound r.1.database) (keep (by_device host device) w.database.disk.rows)
          _ _ w
          (λ e. exec_sql-IsSound sqlite _ w h (
            sql_insert_disk-IsSound host device disk_default_null disk_default_null mount percent
              image disk_default_null mount_device (sqlite.moment w.statements) w.database
              (none_kept (by_device host device) w.database.disk.rows e) h))
          (λ r rs e.
            exec_sql-Keeps sqlite _ (sql_set_disk-Preserves mount percent image mount_device r.id) w
              h)

  update_disk_chunkserver_id-Keeps :
      (host mount chunkserver : String)
      → Keeps (update_disk_chunkserver_id sqlite host mount chunkserver)
  unfolding update_disk_chunkserver_id get_disk_by_mount_point get_disk select_disk
  update_disk_chunkserver_id-Keeps host mount chunkserver w h =
      let select = select_disk (filter_mount host mount) in
      elim (query-cases sqlite select w) [
        | inl (s, e, f) ↦ rw (f) h
        | inr f ↦ elim (List-cases (select w.database)) [
          | inl e ↦ rw (f, e) h
          | inr (r, rs, e) ↦
              rw (f, e)
                (exec_sql-Keeps sqlite (sql_set_disk_chunkserver_id chunkserver host mount)
                  (sql_set_disk_chunkserver_id-Preserves chunkserver host mount)
                  (record w { statements = suc w.statements }) h)
        ]
      ]

  clean_disks-Keeps : (rs : List Disk) → Keeps (clean_disks sqlite rs)
  unfolding clean_disks
  clean_disks-Keeps [] w h = h
  clean_disks-Keeps (r ∷ rs) w h =
      let call = update_disk_chunkserver_id sqlite r.host r.mount_point disk_default_null w in
      let kept = update_disk_chunkserver_id-Keeps r.host r.mount_point disk_default_null w h in
      elim (Option-cases call.0) [
        | inl e ↦ rw (clean_disks, e) (clean_disks-Keeps rs call.1 kept)
        | inr (x, e) ↦ rw (clean_disks, e) kept
      ]

  delete_disk-Keeps : (host device : String) → Keeps (delete_disk sqlite host device)
  unfolding delete_disk
  delete_disk-Keeps host device w h = elim (Bool-cases (device == "")) [
    | inl e ↦ rw (e) (exec_sql-Keeps sqlite _ (sql_delete_disk_host-Preserves host) w h)
    | inr e ↦
        rw (e) (exec_sql-Keeps sqlite _ (sql_delete_disk_host_device-Preserves host device) w h)
  ]

  pub perform-Keeps : (r : Request) → Keeps (perform sqlite r)
  unfolding perform insert_cluster delete_cluster checkout_cluster set_cluster_topology
      set_cluster_pool insert_service set_contain_id insert_client delete_client insert_playground
      set_playground_status delete_playground set_audit_log_status
  perform-Keeps (to_set_version v c) = set_version-Keeps v c
  perform-Keeps (to_set_hosts t) = set_hosts-Keeps t
  perform-Keeps (to_set_disks t) = set_disks-Keeps t
  perform-Keeps (to_insert_cluster n d t) =
      exec_sql-Keeps sqlite _ (sql_insert_cluster-Preserves n d t)
  perform-Keeps (to_delete_cluster n) = exec_sql-Keeps sqlite _ (sql_delete_cluster-Preserves n)
  perform-Keeps (to_checkout_cluster n) = exec_sql-Keeps sqlite _ (sql_checkout_cluster-Preserves n)
  perform-Keeps (to_set_cluster_topology i t) =
      exec_sql-Keeps sqlite _ (sql_set_cluster_topology-Preserves t i)
  perform-Keeps (to_set_cluster_pool i t p) =
      exec_sql-Keeps sqlite _ (sql_set_cluster_pool-Preserves t p i)
  perform-Keeps (to_insert_service i s c) =
      exec_sql-Keeps sqlite _ (sql_insert_service-Preserves s i c)
  perform-Keeps (to_set_contain_id s c) =
      exec_sql-Keeps sqlite _ (sql_set_container_id-Preserves c s)
  perform-Keeps (to_insert_client i k h c a) =
      exec_sql-Keeps sqlite _ (sql_insert_client-Preserves i k h c a)
  perform-Keeps (to_delete_client i) = exec_sql-Keeps sqlite _ (sql_delete_client-Preserves i)
  perform-Keeps (to_insert_playground n m) =
      exec_sql-Keeps sqlite _ (sql_insert_playground-Preserves n m "")
  perform-Keeps (to_set_playground_status n s) =
      exec_sql-Keeps sqlite _ (sql_set_playground_status-Preserves s n)
  perform-Keeps (to_delete_playground n) =
      exec_sql-Keeps sqlite _ (sql_delete_playground-Preserves n)
  perform-Keeps (to_insert_audit_log t d c s) = insert_audit_log-Keeps t d c s
  perform-Keeps (to_set_audit_log_status i s c) =
      exec_sql-Keeps sqlite _ (sql_set_audit_log_status-Preserves s c i)

  pub perform_disk-Keeps : (r : DiskRequest) → Keeps (perform_disk sqlite r)
  unfolding perform_disk update_disk_uri update_disk_size clean_disk_chunkserver_id get_disk
  perform_disk-Keeps (to_set_disk h d m i p s) = set_disk-Keeps h d m i p s
  perform_disk-Keeps (to_update_disk_uri u h d) =
      exec_sql-Keeps sqlite _ (sql_set_disk_uri-Preserves u h d)
  perform_disk-Keeps (to_update_disk_size s h d) =
      exec_sql-Keeps sqlite _ (sql_set_disk_size-Preserves s h d)
  perform_disk-Keeps (to_update_disk_chunkserver_id h m c) = update_disk_chunkserver_id-Keeps h m c
  perform_disk-Keeps (to_delete_disk h d) = delete_disk-Keeps h d
  perform_disk-Keeps (to_clean_disk_chunkserver_id s) =
      query-Keeps sqlite (select_disk (filter_service s)) (clean_disks sqlite)
        (λ w. clean_disks-Keeps (select_disk (filter_service s) w.database) w)

  perform_any-Keeps : (r : Request ⊎ DiskRequest) → Keeps (perform_any sqlite r)
  perform_any-Keeps (inl r) = perform-Keeps r
  perform_any-Keeps (inr r) = perform_disk-Keeps r

  -- Whatever calls that change the storage follow each other, and whatever statements SQLite
  -- refuses, a sound database stays sound: the names of clusters and of playgrounds and the ids
  -- of services and of clients are distinct, at most one cluster is current, no two rows of disks
  -- are of one device of a host, their ids are distinct, and there is at most one row of the
  -- version, of the hosts and of the disks.
  pub serve-IsSound :
      (rs : List (Request ⊎ DiskRequest)) (w : World)
      → IsSound w.database
      → IsSound (serve sqlite rs w).database
  unfolding serve
  serve-IsSound [] w h = h
  serve-IsSound (r ∷ rs) w h = serve-IsSound rs (perform_any sqlite r w).1 (perform_any-Keeps r w h)
