-- ===== src/Storage/Operations.antt =====
-- internal/storage/storage.go: the methods of `Storage`, but those on single disks. A method that
-- reads first sends two statements, between which nothing else reaches this process's storage.
use curveadm.Prelude.{
  ℕ, String, ℤ, negsuc, false, ◌==◌, Option, none, some, List, [], ◌∷◌, nat_eq, take, keep, ◌⊎◌,
  inl, inr,
}
use curveadm.Storage.{
  Version, Hosts, Disks, Cluster, Service, Client, Playground, AuditLog, Sqlite, Failure, World,
  Call, Read, exec_sql, query, ◌>>?◌, by_first,
}
use curveadm.Storage.Statements.{
  int_eq, sql_insert_version, sql_set_version, sql_insert_hosts, sql_set_hosts, sql_insert_disks,
  sql_set_disks, sql_insert_cluster, sql_delete_cluster, sql_checkout_cluster,
  sql_set_cluster_topology, sql_set_cluster_pool, sql_insert_service, sql_set_container_id,
  sql_insert_client, sql_delete_client, sql_insert_playground, sql_set_playground_status,
  sql_delete_playground, sql_insert_audit_log, sql_set_audit_log_status,
}

abbrev pub no_cluster : Cluster
no_cluster = record {
  id = negsuc 0;
  uuid = "";
  name = "";
  description = "";
  create_time = "";
  topology = "";
  pool = "";
  current = false;
}

abbrev pub only_one : (Failure ⊎ List Cluster) → Failure ⊎ Cluster
only_one (inl e) = inl e
only_one (inr (c ∷ [])) = inr c
only_one (inr _) = inr no_cluster

abbrev pub first_container : (Failure ⊎ List Service) → Failure ⊎ String
first_container (inl e) = inl e
first_container (inr []) = inr ""
first_container (inr (s ∷ _)) = inr s.container_id

abbrev pub first_client : (Failure ⊎ List Client) → Failure ⊎ String
first_client (inl e) = inl e
first_client (inr []) = inr ""
first_client (inr (c ∷ _)) = inr c.container_id

abbrev pub inserted : Option Failure × World → (Failure ⊎ ℕ) × World
inserted (some e, w) = (inl e, w)
inserted (none, w) = (inr w.database.audit.last_id, w)

module _ (sqlite : Sqlite) where
  -- version: the loop over the rows breaks behind the first.
  unfoldable pub get_versions : Read (List Version)
  get_versions = query sqlite (λ d. take 1 d.version.rows)

  unfoldable pub set_version : String → String → Call
  set_version version last_confirm w = get_versions w >>? λ versions.
      by_first versions (exec_sql sqlite (sql_insert_version version))
        (λ v. exec_sql sqlite (sql_set_version version last_confirm v.id))

  -- hosts
  unfoldable pub get_hostses : Read (List Hosts)
  get_hostses = query sqlite (λ d. take 1 d.hosts.rows)

  unfoldable pub set_hosts : String → Call
  set_hosts data_text w = get_hostses w >>? λ hostses.
      by_first hostses (exec_sql sqlite (sql_insert_hosts data_text))
        (λ h. exec_sql sqlite (sql_set_hosts data_text h.id))

  -- disks
  unfoldable pub get_disks : Read (List Disks)
  get_disks = query sqlite (λ d. take 1 d.disks.rows)

  unfoldable pub set_disks : String → Call
  set_disks data_text w = get_disks w >>? λ diskses.
      by_first diskses (exec_sql sqlite (sql_insert_disks data_text))
        (λ h. exec_sql sqlite (sql_set_disks data_text h.id))

  -- cluster
  unfoldable pub insert_cluster : String → String → String → Call
  insert_cluster name description topology =
      exec_sql sqlite (sql_insert_cluster name description topology)

  unfoldable pub delete_cluster : String → Call
  delete_cluster name = exec_sql sqlite (sql_delete_cluster name)

  unfoldable pub get_clusters : String → Read (List Cluster)
  get_clusters name = query sqlite (λ d. keep (λ c. sqlite.like name c.name) d.clusters.rows)

  unfoldable pub checkout_cluster : String → Call
  checkout_cluster name = exec_sql sqlite (sql_checkout_cluster name)

  unfoldable pub get_current_cluster : Read Cluster
  get_current_cluster w =
      let (r, w') = query sqlite (λ d. keep (λ c. c.current) d.clusters.rows) w in (only_one r, w')

  unfoldable pub set_cluster_topology : ℤ → String → Call
  set_cluster_topology id topology = exec_sql sqlite (sql_set_cluster_topology topology id)

  unfoldable pub set_cluster_pool : ℤ → String → String → Call
  set_cluster_pool id topology pool = exec_sql sqlite (sql_set_cluster_pool topology pool id)

  -- service
  unfoldable pub insert_service : ℤ → String → String → Call
  insert_service cluster_id service_id container_id =
      exec_sql sqlite (sql_insert_service service_id cluster_id container_id)

  unfoldable pub get_services : ℤ → Read (List Service)
  get_services cluster_id =
      query sqlite (λ d. keep (λ s. int_eq s.cluster_id cluster_id) d.containers)

  unfoldable pub get_container_id : String → Read String
  get_container_id service_id w =
      let (r, w') = query sqlite (λ d. keep (λ s. s.id == service_id) d.containers) w in
      (first_container r, w')

  unfoldable pub set_contain_id : String → String → Call
  set_contain_id service_id container_id =
      exec_sql sqlite (sql_set_container_id container_id service_id)

  -- client
  unfoldable pub insert_client : String → String → String → String → String → Call
  insert_client id kind host container_id aux_info =
      exec_sql sqlite (sql_insert_client id kind host container_id aux_info)

  unfoldable pub get_client : String → Read (List Client)
  get_client id = query sqlite (λ d. keep (λ c. c.id == id) d.clients)

  unfoldable pub get_client_container_id : String → Read String
  get_client_container_id id w = let (r, w') = get_client id w in (first_client r, w')

  unfoldable pub get_clients : Read (List Client)
  get_clients = query sqlite (λ d. d.clients)

  unfoldable pub delete_client : String → Call
  delete_client id = exec_sql sqlite (sql_delete_client id)

  -- playground
  unfoldable pub insert_playground : String → String → Call
  insert_playground name mount_point = exec_sql sqlite (sql_insert_playground name mount_point "")

  unfoldable pub set_playground_status : String → String → Call
  set_playground_status name status = exec_sql sqlite (sql_set_playground_status status name)

  unfoldable pub delete_playground : String → Call
  delete_playground name = exec_sql sqlite (sql_delete_playground name)

  unfoldable pub get_playgrounds : String → Read (List Playground)
  get_playgrounds name = query sqlite (λ d. keep (λ p. sqlite.like name p.name) d.playgrounds.rows)

  -- audit
  -- The id is `LastInsertId`.
  unfoldable pub insert_audit_log : String → String → String → ℤ → Read ℕ
  insert_audit_log time work_directory command status w =
      inserted (exec_sql sqlite (sql_insert_audit_log time work_directory command status) w)

  unfoldable pub set_audit_log_status : ℕ → ℤ → ℤ → Call
  set_audit_log_status id status error_code =
      exec_sql sqlite (sql_set_audit_log_status status error_code id)

  unfoldable pub get_audit_logs : Read (List AuditLog)
  get_audit_logs = query sqlite (λ d. d.audit.rows)

  unfoldable pub get_audit_log : ℕ → Read (List AuditLog)
  get_audit_log id = query sqlite (λ d. keep (λ a. nat_eq a.id id) d.audit.rows)
