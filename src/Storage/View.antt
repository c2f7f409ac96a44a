-- ===== src/Storage/View.antt =====
-- What the storage promises: maps from names to what is stored under them, without the rows, their
-- order, the times and the random identifiers. A call is a function of the maps; `none` when a name
-- is taken.
use mathlib.Core.Option
use curveadm.Prelude.{
  ℕ, suc, String, ◌==◌, ℤ, pos, Bool, false, Option, none, some, List, [], ◌∷◌, if◌then◌else◌,
}
use curveadm.Storage.{Version, Hosts, Disks, Cluster, Service, Client, Playground, Database}
use curveadm.Storage.Found.{found, is_some}
use curveadm.Storage.Statements.{int_eq}
use curveadm.Storage.Calls.{
  Request, to_set_version, to_set_hosts, to_set_disks, to_insert_cluster, to_delete_cluster,
  to_checkout_cluster, to_set_cluster_topology, to_set_cluster_pool, to_insert_service,
  to_set_contain_id, to_insert_client, to_delete_client, to_insert_playground,
  to_set_playground_status, to_delete_playground, to_insert_audit_log, to_set_audit_log_status,
}

pub record ClusterEntry : Type 0 where
  pub id : ℤ
  pub description : String
  pub topology : String
  pub pool : String
  pub current : Bool

pub record ClientEntry : Type 0 where
  pub kind : String
  pub host : String
  pub container_id : String
  pub aux_info : String

pub record View : Type 0 where
  pub version : Option (String × String)
  pub hosts : Option String
  pub disks : Option String
  pub made : ℕ
  pub clusters : String → Option ClusterEntry
  pub services : String → Option (ℤ × String)
  pub clients : String → Option ClientEntry
  pub playgrounds : String → Option (String × String)

abbrev pub first_of : {A V : Type 0} → (A → V) → List A → Option V
first_of value [] = none
first_of value (r ∷ rs) = some (value r)

abbrev pub cluster_entry : Cluster → ClusterEntry
cluster_entry c = record {
  id = c.id;
  description = c.description;
  topology = c.topology;
  pool = c.pool;
  current = c.current;
}

abbrev pub client_entry : Client → ClientEntry
client_entry c = record {
  kind = c.kind;
  host = c.host;
  container_id = c.container_id;
  aux_info = c.aux_info;
}

abbrev pub service_entry : Service → ℤ × String
service_entry s = (s.cluster_id, s.container_id)

abbrev pub playground_entry : Playground → String × String
playground_entry p = (p.mount_point, p.status)

abbrev pub view : Database → View
view d = record {
  version = first_of (λ (v : Version). (v.version, v.last_confirm)) d.version.rows;
  hosts = first_of (λ (h : Hosts). h.data_text) d.hosts.rows;
  disks = first_of (λ (h : Disks). h.data_text) d.disks.rows;
  made = d.clusters.last_id;
  clusters = found (λ (c : Cluster). c.name) cluster_entry d.clusters.rows;
  services = found (λ (s : Service). s.id) service_entry d.containers;
  clients = found (λ (c : Client). c.id) client_entry d.clients;
  playgrounds = found (λ (p : Playground). p.name) playground_entry d.playgrounds.rows;
}

module _ {V : Type 0} where
  abbrev pub put : String → V → (String → Option V) → String → Option V
  put n v m k = if n == k then some v else m k

  abbrev pub drop : String → (String → Option V) → String → Option V
  drop n m k = if n == k then none else m k

  abbrev pub change : (String → V → V) → (String → Option V) → String → Option V
  change f m k = Option.map (f k) (m k)

-- What each call does to the view. The first version is stored without its confirmation.
abbrev pub specified : Request → View → Option View
specified (to_set_version v c) u =
    some (record u { version = some (v, if is_some u.version then c else "") })
specified (to_set_hosts t) u = some (record u { hosts = some t })
specified (to_set_disks t) u = some (record u { disks = some t })
specified (to_insert_cluster n d t) u =
    if is_some (u.clusters n)
    then none
    else some (record u {
      made = suc u.made;
      clusters =
          put n
            (record {
              id = pos (suc u.made);
              description = d;
              topology = t;
              pool = "";
              current = false;
            })
            u.clusters;
    })
specified (to_delete_cluster n) u = some (record u { clusters = drop n u.clusters })
specified (to_checkout_cluster n) u =
    some (record u { clusters = change (λ k e. record e { current = k == n }) u.clusters })
specified (to_set_cluster_topology i t) u = some (record u {
  clusters = change (λ k e. if int_eq e.id i then record e { topology = t } else e) u.clusters;
})
specified (to_set_cluster_pool i t p) u = some (record u {
  clusters =
      change (λ k e. if int_eq e.id i then record e { topology = t; pool = p } else e) u.clusters;
})
specified (to_insert_service i s c) u =
    if is_some (u.services s) then none else some (record u { services = put s (i, c) u.services })
specified (to_set_contain_id s c) u =
    some (record u { services = change (λ k e. if k == s then (e.0, c) else e) u.services })
specified (to_insert_client i k h c a) u =
    if is_some (u.clients i)
    then none
    else some (record u {
      clients = put i (record { kind = k; host = h; container_id = c; aux_info = a }) u.clients;
    })
specified (to_delete_client i) u = some (record u { clients = drop i u.clients })
specified (to_insert_playground n m) u =
    if is_some (u.playgrounds n)
    then none
    else some (record u { playgrounds = put n (m, "") u.playgrounds })
specified (to_set_playground_status n s) u =
    some (record u { playgrounds = change (λ k e. if k == n then (e.0, s) else e) u.playgrounds })
specified (to_delete_playground n) u = some (record u { playgrounds = drop n u.playgrounds })
specified (to_insert_audit_log t d c s) u = some u
specified (to_set_audit_log_status i s c) u = some u
