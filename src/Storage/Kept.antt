-- ===== src/Storage/Kept.antt =====
-- Each statement of sql.go, but those on single disks, keeps a sound database sound.
use curveadm.Prelude.{
  ℕ, ◌≤◌, ◌≡◌, refl, sym, subst, arith, String, ◌==◌, eq_iff, Bool, false, nat_eq, ℤ, Bool-cases,
  List, [], ◌∷◌, inl, inr, All,
}
use curveadm.Storage.{Cluster}
use curveadm.Storage.Tables.{update_where, holds, insert_row}
use curveadm.Storage.Distinct.{
  Distinct-delete, Distinct-append, Distinct-map, Distinct-update, holds-All, length-update,
}
use curveadm.Storage.Sound.{
  text_eq, both, AreClusters, Preserves, with_version, with_hosts, with_disks, with_clusters,
  with_containers, with_clients, with_playgrounds, with_audit,
}
use curveadm.Storage.Statements.{
  int_eq, sql_set_version, sql_set_hosts, sql_set_disks, sql_insert_cluster, sql_delete_cluster,
  sql_checkout_cluster, sql_set_cluster_topology, sql_set_cluster_pool, sql_insert_service,
  sql_set_container_id, sql_insert_client, sql_delete_client, sql_insert_playground,
  sql_set_playground_status, sql_delete_playground, sql_insert_audit_log, sql_set_audit_log_status,
}

pub sql_set_version-Preserves : (v c : String) (id : ℕ) → Preserves (sql_set_version v c id)
unfolding sql_set_version
sql_set_version-Preserves v c id m d h = with_version h _ (
    subst (λ n. n ≤ 1)
      (sym (
        length-update (λ x. nat_eq x.id id) (λ x. record x { version = v; last_confirm = c })
          d.version.rows))
      h.version)

pub sql_set_hosts-Preserves : (t : String) (id : ℕ) → Preserves (sql_set_hosts t id)
unfolding sql_set_hosts
sql_set_hosts-Preserves t id m d h = with_hosts h _ (
    subst (λ n. n ≤ 1)
      (sym (
        length-update (λ x. nat_eq x.id id)
          (λ x. record x { data_text = t; lastmodified_time = m.now }) d.hosts.rows))
      h.hosts)

pub sql_set_disks-Preserves : (t : String) (id : ℕ) → Preserves (sql_set_disks t id)
unfolding sql_set_disks
sql_set_disks-Preserves t id m d h = with_disks h _ (
    subst (λ n. n ≤ 1)
      (sym (
        length-update (λ x. nat_eq x.id id)
          (λ x. record x { data_text = t; lastmodified_time = m.now }) d.disks.rows))
      h.disks)

pub sql_insert_audit_log-Preserves :
    (t w c : String) (s : ℤ) → Preserves (sql_insert_audit_log t w c s)
unfolding sql_insert_audit_log
sql_insert_audit_log-Preserves t w c s m d h = with_audit h _

pub sql_set_audit_log_status-Preserves :
    (s e : ℤ) (id : ℕ) → Preserves (sql_set_audit_log_status s e id)
unfolding sql_set_audit_log_status
sql_set_audit_log_status-Preserves s e id m d h = with_audit h _

pub sql_delete_cluster-Preserves : (name : String) → Preserves (sql_delete_cluster name)
unfolding sql_delete_cluster
sql_delete_cluster-Preserves name m d h = with_clusters h _ (record {
  names =
      Distinct-delete text_eq (λ c. c.name) (λ c. c.name == name) d.clusters.rows h.clusters.names;
  one_current =
      Distinct-delete both (λ c. c.current) (λ c. c.name == name) d.clusters.rows
        h.clusters.one_current;
})

pub sql_delete_client-Preserves : (id : String) → Preserves (sql_delete_client id)
unfolding sql_delete_client
sql_delete_client-Preserves id m d h =
    with_clients h _ (Distinct-delete text_eq (λ c. c.id) (λ c. c.id == id) d.clients h.clients)

pub sql_delete_playground-Preserves : (name : String) → Preserves (sql_delete_playground name)
unfolding sql_delete_playground
sql_delete_playground-Preserves name m d h =
    with_playgrounds h _
      (Distinct-delete text_eq (λ p. p.name) (λ p. p.name == name) d.playgrounds.rows h.playgrounds)

-- An update of the clusters that leaves names and current clusters alone
AreClusters-update :
    (test : Cluster → Bool) (f : Cluster → Cluster)
    → ((c : Cluster) → (f c).name ≡ c.name)
    → ((c : Cluster) → (f c).current ≡ c.current)
    → (rows : List Cluster) → AreClusters rows
    → AreClusters (update_where test f rows)
AreClusters-update test f name current rows h = record {
  names = Distinct-update text_eq (λ c. c.name) test f name rows h.names;
  one_current = Distinct-update both (λ c. c.current) test f current rows h.one_current;
}

pub sql_set_cluster_topology-Preserves :
    (t : String) (id : ℤ) → Preserves (sql_set_cluster_topology t id)
unfolding sql_set_cluster_topology
sql_set_cluster_topology-Preserves t id m d h = with_clusters h _ (
    AreClusters-update (λ c. int_eq c.id id) (λ c. record c { topology = t }) (λ c. refl)
      (λ c. refl) d.clusters.rows h.clusters)

pub sql_set_cluster_pool-Preserves :
    (t p : String) (id : ℤ) → Preserves (sql_set_cluster_pool t p id)
unfolding sql_set_cluster_pool
sql_set_cluster_pool-Preserves t p id m d h = with_clusters h _ (
    AreClusters-update (λ c. int_eq c.id id) (λ c. record c { topology = t; pool = p }) (λ c. refl)
      (λ c. refl) d.clusters.rows h.clusters)

-- Names are distinct, so at most one of them is the one to check out.
apart : (name a b : String) → text_eq a b ≡ false → both (a == name) (b == name) ≡ false
apart name a b h = ground (arith, h, eq_iff a name, eq_iff b name, eq_iff a b)

pub sql_checkout_cluster-Preserves : (name : String) → Preserves (sql_checkout_cluster name)
unfolding sql_checkout_cluster update_where
sql_checkout_cluster-Preserves name m d h = with_clusters h _ (record {
  names =
      Distinct-map text_eq (λ c. c.name) text_eq (λ c. c.name)
        (λ c. record c { current = c.name == name }) (λ x y e. e) d.clusters.rows h.clusters.names;
  one_current =
      Distinct-map text_eq (λ c. c.name) both (λ c. c.current)
        (λ c. record c { current = c.name == name }) (λ x y. apart name x.name y.name)
        d.clusters.rows h.clusters.names;
})

pub sql_set_container_id-Preserves :
    (container id : String) → Preserves (sql_set_container_id container id)
unfolding sql_set_container_id
sql_set_container_id-Preserves container id m d h = with_containers h _ (
    Distinct-update text_eq (λ s. s.id) (λ s. s.id == id)
      (λ s. record s { container_id = container }) (λ s. refl) d.containers h.containers)

pub sql_set_playground_status-Preserves :
    (status name : String) → Preserves (sql_set_playground_status status name)
unfolding sql_set_playground_status
sql_set_playground_status-Preserves status name m d h = with_playgrounds h _ (
    Distinct-update text_eq (λ p. p.name) (λ p. p.name == name) (λ p. record p { status = status })
      (λ p. refl) d.playgrounds.rows h.playgrounds)

-- The new cluster is not current.
never_both : (rows : List Cluster) → All (λ c. both c.current false ≡ false) rows
never_both [] = tt
never_both (c ∷ rows) = (ground arith, never_both rows)

pub sql_insert_cluster-Preserves :
    (name description topology : String) → Preserves (sql_insert_cluster name description topology)
unfolding sql_insert_cluster insert_row
sql_insert_cluster-Preserves name description topology m d h =
    elim (Bool-cases (holds (λ c. c.name == name) d.clusters.rows)) [
      | inl e ↦ rw (e) tt
      | inr e ↦ rw (e) (
          with_clusters h _ (record {
            names =
                Distinct-append text_eq (λ c. c.name) d.clusters.rows _ h.clusters.names
                  (holds-All (λ c. c.name == name) d.clusters.rows e);
            one_current =
                Distinct-append both (λ c. c.current) d.clusters.rows _ h.clusters.one_current
                  (never_both d.clusters.rows);
          }))
    ]

pub sql_insert_service-Preserves :
    (id : String) (cluster : ℤ) (container : String)
    → Preserves (sql_insert_service id cluster container)
unfolding sql_insert_service
sql_insert_service-Preserves id cluster container m d h =
    elim (Bool-cases (holds (λ s. s.id == id) d.containers)) [
      | inl e ↦ rw (e) tt
      | inr e ↦ rw (e) (
          with_containers h _ (
            Distinct-append text_eq (λ s. s.id) d.containers _ h.containers
              (holds-All (λ s. s.id == id) d.containers e)))
    ]

pub sql_insert_client-Preserves :
    (id kind host container aux : String) → Preserves (sql_insert_client id kind host container aux)
unfolding sql_insert_client
sql_insert_client-Preserves id kind host container aux m d h =
    elim (Bool-cases (holds (λ c. c.id == id) d.clients)) [
      | inl e ↦ rw (e) tt
      | inr e ↦ rw (e) (
          with_clients h _ (
            Distinct-append text_eq (λ c. c.id) d.clients _ h.clients
              (holds-All (λ c. c.id == id) d.clients e)))
    ]

pub sql_insert_playground-Preserves :
    (name mount status : String) → Preserves (sql_insert_playground name mount status)
unfolding sql_insert_playground insert_row
sql_insert_playground-Preserves name mount status m d h =
    elim (Bool-cases (holds (λ p. p.name == name) d.playgrounds.rows)) [
      | inl e ↦ rw (e) tt
      | inr e ↦ rw (e) (
          with_playgrounds h _ (
            Distinct-append text_eq (λ p. p.name) d.playgrounds.rows _ h.playgrounds
              (holds-All (λ p. p.name == name) d.playgrounds.rows e)))
    ]
