-- ===== src/Storage/Statements.antt =====
-- internal/storage/sql.go: what each statement does to the database.
use curveadm.Prelude.{
  ℕ, String, ℤ, pos, Bool, true, false, none, some, [], ◌∷◌, ◌++◌, ◌==◌, nat_eq, if◌then◌else◌,
}
use curveadm.Storage.{Statement}
use curveadm.Storage.Tables.{update_where, delete_where, holds, insert_row, with_rows}

abbrev pub int_eq : ℤ → ℤ → Bool
int_eq (ℤ.pos a) (ℤ.pos b) = nat_eq a b
int_eq (ℤ.negsuc a) (ℤ.negsuc b) = nat_eq a b
int_eq _ _ = false

-- version
unfoldable pub sql_insert_version : String → Statement
sql_insert_version version m d = some (record d {
  version = insert_row (λ i. record { id = i; version = version; last_confirm = "" }) d.version;
})

unfoldable pub sql_set_version : String → String → ℕ → Statement
sql_set_version version last_confirm id m d = some (record d {
  version =
      with_rows
        (update_where (λ v. nat_eq v.id id)
          (λ v. record v { version = version; last_confirm = last_confirm }))
        d.version;
})

-- hosts
unfoldable pub sql_insert_hosts : String → Statement
sql_insert_hosts data_text m d = some (record d {
  hosts =
      insert_row (λ i. record { id = i; data_text = data_text; lastmodified_time = m.now }) d.hosts;
})

unfoldable pub sql_set_hosts : String → ℕ → Statement
sql_set_hosts data_text id m d = some (record d {
  hosts =
      with_rows
        (update_where (λ h. nat_eq h.id id)
          (λ h. record h { data_text = data_text; lastmodified_time = m.now }))
        d.hosts;
})

-- disks
unfoldable pub sql_insert_disks : String → Statement
sql_insert_disks data_text m d = some (record d {
  disks =
      insert_row (λ i. record { id = i; data_text = data_text; lastmodified_time = m.now }) d.disks;
})

unfoldable pub sql_set_disks : String → ℕ → Statement
sql_set_disks data_text id m d = some (record d {
  disks =
      with_rows
        (update_where (λ h. nat_eq h.id id)
          (λ h. record h { data_text = data_text; lastmodified_time = m.now }))
        d.disks;
})

-- cluster
unfoldable pub sql_insert_cluster : String → String → String → Statement
sql_insert_cluster name description topology m d =
    if holds (λ c. c.name == name) d.clusters.rows
    then none
    else some (record d {
      clusters =
          insert_row
            (λ i. record {
              id = pos i;
              uuid = m.random;
              name = name;
              description = description;
              create_time = m.now;
              topology = topology;
              pool = "";
              current = false;
            })
            d.clusters;
    })

unfoldable pub sql_delete_cluster : String → Statement
sql_delete_cluster name m d =
    some (record d { clusters = with_rows (delete_where (λ c. c.name == name)) d.clusters })

-- Every row of the table, of any name
unfoldable pub sql_checkout_cluster : String → Statement
sql_checkout_cluster name m d = some (record d {
  clusters =
      with_rows (update_where (λ c. true) (λ c. record c { current = c.name == name })) d.clusters;
})

unfoldable pub sql_set_cluster_topology : String → ℤ → Statement
sql_set_cluster_topology topology id m d = some (record d {
  clusters =
      with_rows (update_where (λ c. int_eq c.id id) (λ c. record c { topology = topology }))
        d.clusters;
})

unfoldable pub sql_set_cluster_pool : String → String → ℤ → Statement
sql_set_cluster_pool topology pool id m d = some (record d {
  clusters =
      with_rows
        (update_where (λ c. int_eq c.id id) (λ c. record c { topology = topology; pool = pool }))
        d.clusters;
})

-- service
unfoldable pub sql_insert_service : String → ℤ → String → Statement
sql_insert_service id cluster_id container_id m d =
    if holds (λ s. s.id == id) d.containers
    then none
    else some (record d {
      containers =
          d.containers
          ++ record { id = id; cluster_id = cluster_id; container_id = container_id } ∷ [];
    })

unfoldable pub sql_set_container_id : String → String → Statement
sql_set_container_id container_id id m d = some (record d {
  containers =
      update_where (λ s. s.id == id) (λ s. record s { container_id = container_id }) d.containers;
})

-- client
unfoldable pub sql_insert_client : String → String → String → String → String → Statement
sql_insert_client id kind host container_id aux_info m d =
    if holds (λ c. c.id == id) d.clients
    then none
    else some (record d {
      clients =
          d.clients
          ++ record {
            id = id;
            kind = kind;
            host = host;
            container_id = container_id;
            aux_info = aux_info;
          }
            ∷ [];
    })

unfoldable pub sql_delete_client : String → Statement
sql_delete_client id m d = some (record d { clients = delete_where (λ c. c.id == id) d.clients })

-- playground
unfoldable pub sql_insert_playground : String → String → String → Statement
sql_insert_playground name mount_point status m d =
    if holds (λ p. p.name == name) d.playgrounds.rows
    then none
    else some (record d {
      playgrounds =
          insert_row
            (λ i. record {
              id = i;
              name = name;
              create_time = m.now;
              mount_point = mount_point;
              status = status;
            })
            d.playgrounds;
    })

unfoldable pub sql_set_playground_status : String → String → Statement
sql_set_playground_status status name m d = some (record d {
  playgrounds =
      with_rows (update_where (λ p. p.name == name) (λ p. record p { status = status }))
        d.playgrounds;
})

unfoldable pub sql_delete_playground : String → Statement
sql_delete_playground name m d =
    some (record d { playgrounds = with_rows (delete_where (λ p. p.name == name)) d.playgrounds })

-- audit
unfoldable pub sql_insert_audit_log : String → String → String → ℤ → Statement
sql_insert_audit_log time work_directory command status m d = some (record d {
  audit =
      insert_row
        (λ i. record {
          id = i;
          execute_time = time;
          work_directory = work_directory;
          command = command;
          status = status;
          error_code = pos 0;
        })
        d.audit;
})

unfoldable pub sql_set_audit_log_status : ℤ → ℤ → ℕ → Statement
sql_set_audit_log_status status error_code id m d = some (record d {
  audit =
      with_rows
        (update_where (λ a. nat_eq a.id id)
          (λ a. record a { status = status; error_code = error_code }))
        d.audit;
})
