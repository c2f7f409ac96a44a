-- ===== src/Storage/Refinement.antt =====
-- The calls of the storage implement what is promised of them.
use mathlib.Core.Option
use curveadm.Prelude.{
  ℕ, suc, ◌≤◌, ◌<◌, ◌≡◌, refl, sym, ap, subst, ◌∙◌, arith, String, ℤ, true, nat_eq, take, Option,
  none, some, List, [], ◌∷◌, inl, inr,
}
use curveadm.Storage.{
  Database, Sqlite, Failure, refused, constraint, World, Statement, exec_sql, query, ◌>>?◌,
  by_first,
}
use curveadm.Storage.Tables.{update_where, insert_row}
use curveadm.Storage.Ends.{exec_sql-cases, query-cases, first-cases, take-nil}
use curveadm.Storage.Statements.{
  sql_insert_version, sql_set_version, sql_insert_hosts, sql_set_hosts, sql_insert_disks,
  sql_set_disks, sql_insert_audit_log,
}
use curveadm.Storage.Operations.{
  set_version, get_versions, set_hosts, get_hostses, set_disks, get_disks, insert_cluster,
  delete_cluster, checkout_cluster, set_cluster_topology, set_cluster_pool, insert_service,
  set_contain_id, insert_client, delete_client, insert_playground, set_playground_status,
  delete_playground, insert_audit_log, inserted, set_audit_log_status,
}
use curveadm.Storage.Calls.{
  Request, to_set_version, to_set_hosts, to_set_disks, to_insert_cluster, to_delete_cluster,
  to_checkout_cluster, to_set_cluster_topology, to_set_cluster_pool, to_insert_service,
  to_set_contain_id, to_insert_client, to_delete_client, to_insert_playground,
  to_set_playground_status, to_delete_playground, to_insert_audit_log, to_set_audit_log_status,
  perform, failure_of,
}
use curveadm.Storage.View.{View, view, specified}
use curveadm.Storage.Models.{
  Models, sql_delete_cluster-Models, sql_set_cluster_topology-Models, sql_set_cluster_pool-Models,
  sql_checkout_cluster-Models, sql_set_container_id-Models, sql_delete_client-Models,
  sql_set_playground_status-Models, sql_delete_playground-Models, sql_insert_audit_log-Models,
  sql_set_audit_log_status-Models, sql_insert_cluster-Models, sql_insert_service-Models,
  sql_insert_client-Models, sql_insert_playground-Models,
}

-- How a call from `w` ends: done as promised; denied, for a name that is taken; or failed, for one
-- of its statements that SQLite refused.
pub data Refines (sqlite : Sqlite) (spec : View → Option View) (w : World)
    (r : Option Failure × World) : Type 0 where
  done : spec (view w.database) ≡ some (view r.1.database) → r.0 ≡ none → Refines sqlite spec w r
  denied :
      spec (view w.database) ≡ none
      → r.0 ≡ some constraint
      → r.1.database ≡ w.database
      → Refines sqlite spec w r
  failed :
      (n : ℕ) (s : String)
      → w.statements ≤ n
      → n < r.1.statements
      → sqlite.refuse n ≡ some s
      → r.0 ≡ some (refused s)
      → r.1.database ≡ w.database
      → Refines sqlite spec w r

nat_eq_refl : (n : ℕ) → nat_eq n n ≡ true
nat_eq_refl n = ground arith

-- The id of a new record is not part of how the call ends.
inserted-logged : (r : Option Failure × World) → r ≡ (failure_of (inserted r).0, (inserted r).1)
inserted-logged (none, w) = refl
inserted-logged (some e, w) = refl

module _ (sqlite : Sqlite) where
  -- A statement after `w`, from the same database
  exec_sql-at :
      (statement : Statement) (spec : View → Option View) (w v : World)
      → w.database ≡ v.database
      → w.statements ≤ v.statements
      → Option.map view (statement (sqlite.moment v.statements) v.database) ≡ spec (view v.database)
      → Refines sqlite spec w (exec_sql sqlite statement v)
  exec_sql-at statement spec w v same later p = elim (exec_sql-cases sqlite statement v) [
    | inl (s, e, f) ↦ rw (f) (failed v.statements s later (omega arith) e refl (sym same))
    | inr (inl (e, g, f)) ↦
        rw (f) (denied (rw (same) (sym p ∙ ap (Option.map view) g)) refl (sym same))
    | inr (inr (d, e, g, f)) ↦ rw (f) (done (rw (same) (sym p ∙ ap (Option.map view) g)) refl)
  ]

  exec_sql-Refines :
      (statement : Statement) (spec : View → Option View)
      → Models statement spec
      → (w : World) → Refines sqlite spec w (exec_sql sqlite statement w)
  exec_sql-Refines statement spec p w =
      exec_sql-at statement spec w w refl (omega arith) (p (sqlite.moment w.statements) w.database)

  -- A call that reads the first row, and inserts one or sets it
  by_first-Refines :
      {A : Type 0} (rows : Database → List A) (insert : Statement) (set : A → Statement)
      (spec : View → Option View) (w : World)
      → (rows w.database ≡ []
          → (m : _) → Option.map view (insert m w.database) ≡ spec (view w.database))
      → ((a : A) (as' : List A)
          → rows w.database ≡ a ∷ as'
          → (m : _) → Option.map view (set a m w.database) ≡ spec (view w.database))
      → Refines sqlite spec w (
          query sqlite (λ d. take 1 (rows d)) w >>? λ read.
          by_first read (exec_sql sqlite insert) (λ a. exec_sql sqlite (set a)))
  by_first-Refines rows insert set spec w f g =
      let v = record w { statements = suc w.statements } in
      elim (query-cases sqlite (λ d. take 1 (rows d)) w) [
        | inl (s, e, q) ↦ rw (q) (failed w.statements s (omega arith) (omega arith) e refl refl)
        | inr q ↦ rw (q) (
            first-cases (Refines sqlite spec w) (take 1 (rows w.database)) _ _ v
              (λ e.
                exec_sql-at insert spec w v refl (omega arith)
                  (f (take-nil (rows w.database) e) (sqlite.moment v.statements)))
              (λ a as' e. exec_sql-at (set a) spec w v refl (omega arith) (
                g a (one (rows w.database) a as' e).0 (one (rows w.database) a as' e).1
                  (sqlite.moment v.statements))))
      ]
    where
      one :
          {A : Type 0} (rows : List A) (a : A) (as' : List A)
          → take 1 rows ≡ a ∷ as'
          → (bs : List A) × (rows ≡ a ∷ bs)
      one [] a as' e = cc
      one (r ∷ rs) a as' e = (rs, cc)

  set_version-Refines :
      (v c : String) (w : World)
      → Refines sqlite (specified (to_set_version v c)) w (set_version sqlite v c w)
  unfolding set_version get_versions sql_insert_version sql_set_version insert_row update_where
  set_version-Refines v c w =
      by_first-Refines (λ d. d.version.rows) (sql_insert_version v) (λ x. sql_set_version v c x.id)
        (specified (to_set_version v c)) w (λ e m. rw (e) refl)
        (λ x xs e m. rw (e, nat_eq_refl x.id) refl)

  set_hosts-Refines :
      (t : String) (w : World)
      → Refines sqlite (specified (to_set_hosts t)) w (set_hosts sqlite t w)
  unfolding set_hosts get_hostses sql_insert_hosts sql_set_hosts insert_row update_where
  set_hosts-Refines t w =
      by_first-Refines (λ d. d.hosts.rows) (sql_insert_hosts t) (λ x. sql_set_hosts t x.id)
        (specified (to_set_hosts t)) w (λ e m. rw (e) refl)
        (λ x xs e m. rw (e, nat_eq_refl x.id) refl)

  set_disks-Refines :
      (t : String) (w : World)
      → Refines sqlite (specified (to_set_disks t)) w (set_disks sqlite t w)
  unfolding set_disks get_disks sql_insert_disks sql_set_disks insert_row update_where
  set_disks-Refines t w =
      by_first-Refines (λ d. d.disks.rows) (sql_insert_disks t) (λ x. sql_set_disks t x.id)
        (specified (to_set_disks t)) w (λ e m. rw (e) refl)
        (λ x xs e m. rw (e, nat_eq_refl x.id) refl)

  insert_audit_log-Refines :
      (t d c : String) (s : ℤ) (w : World)
      → Refines sqlite
          (specified (to_insert_audit_log t d c s))
          w
          (perform sqlite (to_insert_audit_log t d c s) w)
  unfolding perform insert_audit_log
  insert_audit_log-Refines t d c s w =
      subst (Refines sqlite (specified (to_insert_audit_log t d c s)) w)
        (inserted-logged (exec_sql sqlite (sql_insert_audit_log t d c s) w))
        (exec_sql-Refines (sql_insert_audit_log t d c s) _ (sql_insert_audit_log-Models t d c s) w)

  -- Each call that sets the version, the hosts or the disks, inserts, changes or deletes a
  -- cluster, a service, a client or a playground, or logs, refines a function of the view of the
  -- database, which maps names to what is stored under them. It does what the function says and
  -- gives no error; or the function denies it, as a name is taken, and it gives the error of the
  -- constraint; or SQLite refused one of its statements, and it gives that error. In the last two
  -- cases the database is as before.
  pub perform-Refines :
      (r : Request) (w : World) → Refines sqlite (specified r) w (perform sqlite r w)
  unfolding perform insert_cluster delete_cluster checkout_cluster set_cluster_topology
      set_cluster_pool insert_service set_contain_id insert_client delete_client insert_playground
      set_playground_status delete_playground set_audit_log_status
  perform-Refines (to_set_version v c) = set_version-Refines v c
  perform-Refines (to_set_hosts t) = set_hosts-Refines t
  perform-Refines (to_set_disks t) = set_disks-Refines t
  perform-Refines (to_insert_audit_log t d c s) = insert_audit_log-Refines t d c s
  perform-Refines (to_insert_cluster n d t) =
      exec_sql-Refines _ (specified (to_insert_cluster n d t)) (sql_insert_cluster-Models n d t)
  perform-Refines (to_delete_cluster n) =
      exec_sql-Refines _ (specified (to_delete_cluster n)) (sql_delete_cluster-Models n)
  perform-Refines (to_checkout_cluster n) =
      exec_sql-Refines _ (specified (to_checkout_cluster n)) (sql_checkout_cluster-Models n)
  perform-Refines (to_set_cluster_topology i t) =
      exec_sql-Refines _ (specified (to_set_cluster_topology i t))
        (sql_set_cluster_topology-Models t i)
  perform-Refines (to_set_cluster_pool i t p) =
      exec_sql-Refines _ (specified (to_set_cluster_pool i t p)) (sql_set_cluster_pool-Models t p i)
  perform-Refines (to_insert_service i s c) =
      exec_sql-Refines _ (specified (to_insert_service i s c)) (sql_insert_service-Models s i c)
  perform-Refines (to_set_contain_id s c) =
      exec_sql-Refines _ (specified (to_set_contain_id s c)) (sql_set_container_id-Models c s)
  perform-Refines (to_insert_client i k h c a) =
      exec_sql-Refines _ (specified (to_insert_client i k h c a))
        (sql_insert_client-Models i k h c a)
  perform-Refines (to_delete_client i) =
      exec_sql-Refines _ (specified (to_delete_client i)) (sql_delete_client-Models i)
  perform-Refines (to_insert_playground n m) =
      exec_sql-Refines _ (specified (to_insert_playground n m)) (sql_insert_playground-Models n m)
  perform-Refines (to_set_playground_status n s) =
      exec_sql-Refines _ (specified (to_set_playground_status n s))
        (sql_set_playground_status-Models s n)
  perform-Refines (to_delete_playground n) =
      exec_sql-Refines _ (specified (to_delete_playground n)) (sql_delete_playground-Models n)
  perform-Refines (to_set_audit_log_status i s c) =
      exec_sql-Refines _ (specified (to_set_audit_log_status i s c))
        (sql_set_audit_log_status-Models s c i)
