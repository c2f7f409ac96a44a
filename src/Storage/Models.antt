-- ===== src/Storage/Models.antt =====
-- Each statement of sql.go does to the view what is promised.
use mathlib.Core.Option
use curveadm.Prelude.{
  ℕ, suc, ◌≡◌, refl, sym, ap, ◌∙◌, fun_ext, String, ◌==◌, ℤ, Bool, true, false, Bool-cases, Option,
  some, List, [], ◌∷◌, ◌++◌, inl, inr, if◌then◌else◌,
}
use curveadm.Storage.{Database, Moment, Statement}
use curveadm.Storage.Tables.{update_where, delete_where, holds, insert_row}
use curveadm.Storage.Found.{found, holds-found, found-append, found-delete, found-map}
use curveadm.Storage.Statements.{
  int_eq, sql_insert_cluster, sql_delete_cluster, sql_checkout_cluster, sql_set_cluster_topology,
  sql_set_cluster_pool, sql_insert_service, sql_set_container_id, sql_insert_client,
  sql_delete_client, sql_insert_playground, sql_set_playground_status, sql_delete_playground,
  sql_insert_audit_log, sql_set_audit_log_status,
}
use curveadm.Storage.Calls.{
  to_insert_cluster, to_delete_cluster, to_checkout_cluster, to_set_cluster_topology,
  to_set_cluster_pool, to_insert_service, to_set_contain_id, to_insert_client, to_delete_client,
  to_insert_playground, to_set_playground_status, to_delete_playground, to_insert_audit_log,
  to_set_audit_log_status,
}
use curveadm.Storage.View.{
  View, cluster_entry, client_entry, service_entry, playground_entry, view, put, drop, change,
  specified,
}

abbrev pub Models : Statement → (View → Option View) → Type 0
Models statement spec =
    (m : Moment) (d : Database) → Option.map view (statement m d) ≡ spec (view d)

-- What a table says, after the three kinds of statements
module _ {A V : Type 0} (key : A → String) (value : A → V) where
  found-update :
      (test : A → Bool) (f : A → A) (g : String → V → V) (rows : List A)
      → ((r : A) → key (f r) ≡ key r)
      → ((r : A) → value (if test r then f r else r) ≡ g (key r) (value r))
      → found key value (update_where test f rows) ≡ change g (found key value rows)
  unfolding update_where
  found-update test f g rows same said = fun_ext λ k.
      found-map key value (λ r. if test r then f r else r) g rows
        (λ r. elim (Bool-cases (test r)) [ inl e ↦ rw (e) (same r) | inr e ↦ rw (e) refl ]) said k

  found-without :
      (n : String) (rows : List A)
      → found key value (delete_where (λ r. key r == n) rows) ≡ drop n (found key value rows)
  found-without n rows = fun_ext λ k. found-delete key value n rows k

  found-with :
      (x : A) (rows : List A)
      → holds (λ r. key r == key x) rows ≡ false
      → found key value (rows ++ x ∷ []) ≡ put (key x) (value x) (found key value rows)
  found-with x rows h = fun_ext λ k. found-append key value x rows k h

pub sql_delete_cluster-Models :
    (n : String) → Models (sql_delete_cluster n) (specified (to_delete_cluster n))
unfolding sql_delete_cluster
sql_delete_cluster-Models n m d =
    ap (λ f. some (record (view d) { clusters = f }))
      (found-without (λ c. c.name) cluster_entry n d.clusters.rows)

pub sql_set_cluster_topology-Models :
    (t : String) (i : ℤ)
    → Models (sql_set_cluster_topology t i) (specified (to_set_cluster_topology i t))
unfolding sql_set_cluster_topology
sql_set_cluster_topology-Models t i m d =
    ap (λ f. some (record (view d) { clusters = f }))
      (found-update (λ c. c.name) cluster_entry (λ c. int_eq c.id i)
        (λ c. record c { topology = t }) _ d.clusters.rows (λ c. refl)
        (λ c. elim (Bool-cases (int_eq c.id i)) [ inl e ↦ rw (e) refl | inr e ↦ rw (e) refl ]))

pub sql_set_cluster_pool-Models :
    (t p : String) (i : ℤ)
    → Models (sql_set_cluster_pool t p i) (specified (to_set_cluster_pool i t p))
unfolding sql_set_cluster_pool
sql_set_cluster_pool-Models t p i m d =
    ap (λ f. some (record (view d) { clusters = f }))
      (found-update (λ c. c.name) cluster_entry (λ c. int_eq c.id i)
        (λ c. record c { topology = t; pool = p }) _ d.clusters.rows (λ c. refl)
        (λ c. elim (Bool-cases (int_eq c.id i)) [ inl e ↦ rw (e) refl | inr e ↦ rw (e) refl ]))

pub sql_checkout_cluster-Models :
    (n : String) → Models (sql_checkout_cluster n) (specified (to_checkout_cluster n))
unfolding sql_checkout_cluster
sql_checkout_cluster-Models n m d =
    ap (λ f. some (record (view d) { clusters = f }))
      (found-update (λ c. c.name) cluster_entry (λ c. true)
        (λ c. record c { current = c.name == n }) _ d.clusters.rows (λ c. refl) (λ c. refl))

pub sql_set_container_id-Models :
    (c s : String) → Models (sql_set_container_id c s) (specified (to_set_contain_id s c))
unfolding sql_set_container_id
sql_set_container_id-Models c s m d =
    ap (λ f. some (record (view d) { services = f }))
      (found-update (λ r. r.id) service_entry (λ r. r.id == s) (λ r. record r { container_id = c })
        _ d.containers (λ r. refl)
        (λ r. elim (Bool-cases (r.id == s)) [ inl e ↦ rw (e) refl | inr e ↦ rw (e) refl ]))

pub sql_delete_client-Models :
    (i : String) → Models (sql_delete_client i) (specified (to_delete_client i))
unfolding sql_delete_client
sql_delete_client-Models i m d =
    ap (λ f. some (record (view d) { clients = f }))
      (found-without (λ c. c.id) client_entry i d.clients)

pub sql_set_playground_status-Models :
    (s n : String)
    → Models (sql_set_playground_status s n) (specified (to_set_playground_status n s))
unfolding sql_set_playground_status
sql_set_playground_status-Models s n m d =
    ap (λ f. some (record (view d) { playgrounds = f }))
      (found-update (λ p. p.name) playground_entry (λ p. p.name == n) (λ p. record p { status = s })
        _ d.playgrounds.rows (λ p. refl)
        (λ p. elim (Bool-cases (p.name == n)) [ inl e ↦ rw (e) refl | inr e ↦ rw (e) refl ]))

pub sql_delete_playground-Models :
    (n : String) → Models (sql_delete_playground n) (specified (to_delete_playground n))
unfolding sql_delete_playground
sql_delete_playground-Models n m d =
    ap (λ f. some (record (view d) { playgrounds = f }))
      (found-without (λ p. p.name) playground_entry n d.playgrounds.rows)

pub sql_insert_audit_log-Models :
    (t w c : String) (s : ℤ)
    → Models (sql_insert_audit_log t w c s) (specified (to_insert_audit_log t w c s))
unfolding sql_insert_audit_log
sql_insert_audit_log-Models t w c s m d = refl

pub sql_set_audit_log_status-Models :
    (s c : ℤ) (i : ℕ)
    → Models (sql_set_audit_log_status s c i) (specified (to_set_audit_log_status i s c))
unfolding sql_set_audit_log_status
sql_set_audit_log_status-Models s c i m d = refl

pub sql_insert_cluster-Models :
    (n d t : String) → Models (sql_insert_cluster n d t) (specified (to_insert_cluster n d t))
unfolding sql_insert_cluster insert_row
sql_insert_cluster-Models n s t m d =
    let taken = holds-found (λ c. c.name) cluster_entry n d.clusters.rows in
    elim (Bool-cases (holds (λ c. c.name == n) d.clusters.rows)) [
      | inl e ↦ rw (e, sym taken ∙ e) refl
      | inr e ↦
          rw (e, sym taken ∙ e)
            (ap (λ f. some (record (view d) { made = suc d.clusters.last_id; clusters = f }))
              (found-with (λ c. c.name) cluster_entry _ d.clusters.rows e))
    ]

pub sql_insert_service-Models :
    (s : String) (i : ℤ) (c : String)
    → Models (sql_insert_service s i c) (specified (to_insert_service i s c))
unfolding sql_insert_service
sql_insert_service-Models s i c m d =
    let taken = holds-found (λ r. r.id) service_entry s d.containers in
    elim (Bool-cases (holds (λ r. r.id == s) d.containers)) [
      | inl e ↦ rw (e, sym taken ∙ e) refl
      | inr e ↦
          rw (e, sym taken ∙ e)
            (ap (λ f. some (record (view d) { services = f }))
              (found-with (λ r. r.id) service_entry _ d.containers e))
    ]

pub sql_insert_client-Models :
    (i k h c a : String)
    → Models (sql_insert_client i k h c a) (specified (to_insert_client i k h c a))
unfolding sql_insert_client
sql_insert_client-Models i k h c a m d =
    let taken = holds-found (λ r. r.id) client_entry i d.clients in
    elim (Bool-cases (holds (λ r. r.id == i) d.clients)) [
      | inl e ↦ rw (e, sym taken ∙ e) refl
      | inr e ↦
          rw (e, sym taken ∙ e)
            (ap (λ f. some (record (view d) { clients = f }))
              (found-with (λ r. r.id) client_entry _ d.clients e))
    ]

pub sql_insert_playground-Models :
    (n p : String) → Models (sql_insert_playground n p "") (specified (to_insert_playground n p))
unfolding sql_insert_playground insert_row
sql_insert_playground-Models n p m d =
    let taken = holds-found (λ r. r.name) playground_entry n d.playgrounds.rows in
    elim (Bool-cases (holds (λ r. r.name == n) d.playgrounds.rows)) [
      | inl e ↦ rw (e, sym taken ∙ e) refl
      | inr e ↦
          rw (e, sym taken ∙ e)
            (ap (λ f. some (record (view d) { playgrounds = f }))
              (found-with (λ r. r.name) playground_entry _ d.playgrounds.rows e))
    ]
