-- ===== src/Storage/Sound.antt =====
-- The database stays sound, whatever calls reach it and whatever SQLite refuses.
use curveadm.Prelude.{
  suc, ◌≤◌, subst, String, ◌==◌, Bool, ◌&&◌, nat_eq, WhenSome, List, length, inl, inr, All,
  right_of,
}
use curveadm.Storage.{
  Version, Hosts, Disks, Disk, Cluster, Service, Client, Playground, AuditLog, Table, Database,
  Moment, Sqlite, World, Statement, Call, exec_sql, query, ◌>>?◌,
}
use curveadm.Storage.Ends.{exec_sql-cases, query-cases}
use curveadm.Storage.Distinct.{Distinct}

abbrev pub text_eq : String → String → Bool
text_eq s t = s == t

abbrev pub both : Bool → Bool → Bool
both a b = a && b

abbrev pub pair_eq : String × String → String × String → Bool
pair_eq a b = (a.0 == b.0) && (a.1 == b.1)

abbrev pub device_of : Disk → String × String
device_of r = (r.host, r.device)

-- Names are distinct, and at most one cluster is current.
pub record AreClusters (rows : List Cluster) : Type 0 where
  pub names : Distinct text_eq (λ (c : Cluster). c.name) rows
  pub one_current : Distinct both (λ (c : Cluster). c.current) rows

-- No two rows are of one device of a host, and the ids are distinct and were given.
pub record AreDisks (t : Table Disk) : Type 0 where
  pub devices : Distinct pair_eq device_of t.rows
  pub ids : Distinct nat_eq (λ (r : Disk). r.id) t.rows
  pub given : All (λ (r : Disk). r.id ≤ t.last_id) t.rows

pub record IsSound (d : Database) : Type 0 where
  pub version : length d.version.rows ≤ 1
  pub hosts : length d.hosts.rows ≤ 1
  pub disks : length d.disks.rows ≤ 1
  pub disk : AreDisks d.disk
  pub clusters : AreClusters d.clusters.rows
  pub containers : Distinct text_eq (λ (s : Service). s.id) d.containers
  pub clients : Distinct text_eq (λ (c : Client). c.id) d.clients
  pub playgrounds : Distinct text_eq (λ (p : Playground). p.name) d.playgrounds.rows

-- A sound database with another table that is sound
module _ {d : Database} (h : IsSound d) where
  pub with_version : (t : Table Version) → length t.rows ≤ 1 → IsSound (record d { version = t })
  with_version t k = record {
    version = k;
    hosts = h.hosts;
    disks = h.disks;
    disk = h.disk;
    clusters = h.clusters;
    containers = h.containers;
    clients = h.clients;
    playgrounds = h.playgrounds;
  }

  pub with_hosts : (t : Table Hosts) → length t.rows ≤ 1 → IsSound (record d { hosts = t })
  with_hosts t k = record {
    version = h.version;
    hosts = k;
    disks = h.disks;
    disk = h.disk;
    clusters = h.clusters;
    containers = h.containers;
    clients = h.clients;
    playgrounds = h.playgrounds;
  }

  pub with_disks : (t : Table Disks) → length t.rows ≤ 1 → IsSound (record d { disks = t })
  with_disks t k = record {
    version = h.version;
    hosts = h.hosts;
    disks = k;
    disk = h.disk;
    clusters = h.clusters;
    containers = h.containers;
    clients = h.clients;
    playgrounds = h.playgrounds;
  }

  pub with_disk : (t : Table Disk) → AreDisks t → IsSound (record d { disk = t })
  with_disk t k = record {
    version = h.version;
    hosts = h.hosts;
    disks = h.disks;
    disk = k;
    clusters = h.clusters;
    containers = h.containers;
    clients = h.clients;
    playgrounds = h.playgrounds;
  }

  pub with_clusters : (t : Table Cluster) → AreClusters t.rows → IsSound (record d { clusters = t })
  with_clusters t k = record {
    version = h.version;
    hosts = h.hosts;
    disks = h.disks;
    disk = h.disk;
    clusters = k;
    containers = h.containers;
    clients = h.clients;
    playgrounds = h.playgrounds;
  }

  pub with_containers :
      (t : List Service)
      → Distinct text_eq (λ (s : Service). s.id) t
      → IsSound (record d { containers = t })
  with_containers t k = record {
    version = h.version;
    hosts = h.hosts;
    disks = h.disks;
    disk = h.disk;
    clusters = h.clusters;
    containers = k;
    clients = h.clients;
    playgrounds = h.playgrounds;
  }

  pub with_clients :
      (t : List Client)
      → Distinct text_eq (λ (c : Client). c.id) t
      → IsSound (record d { clients = t })
  with_clients t k = record {
    version = h.version;
    hosts = h.hosts;
    disks = h.disks;
    disk = h.disk;
    clusters = h.clusters;
    containers = h.containers;
    clients = k;
    playgrounds = h.playgrounds;
  }

  pub with_playgrounds :
      (t : Table Playground)
      → Distinct text_eq (λ (p : Playground). p.name) t.rows
      → IsSound (record d { playgrounds = t })
  with_playgrounds t k = record {
    version = h.version;
    hosts = h.hosts;
    disks = h.disks;
    disk = h.disk;
    clusters = h.clusters;
    containers = h.containers;
    clients = h.clients;
    playgrounds = k;
  }

  pub with_audit : (t : Table AuditLog) → IsSound (record d { audit = t })
  with_audit t = record {
    version = h.version;
    hosts = h.hosts;
    disks = h.disks;
    disk = h.disk;
    clusters = h.clusters;
    containers = h.containers;
    clients = h.clients;
    playgrounds = h.playgrounds;
  }

-- What a statement does to the database when SQLite carries it out
abbrev pub Preserves : Statement → Type 0
Preserves statement = (m : Moment) (d : Database) → IsSound d → WhenSome IsSound (statement m d)

abbrev pub Keeps : Call → Type 0
Keeps call = (w : World) → IsSound w.database → IsSound (call w).1.database

module _ (sqlite : Sqlite) where
  pub exec_sql-IsSound :
      (statement : Statement) (w : World)
      → IsSound w.database
      → WhenSome IsSound (statement (sqlite.moment w.statements) w.database)
      → IsSound (exec_sql sqlite statement w).1.database
  exec_sql-IsSound statement w h p = elim (exec_sql-cases sqlite statement w) [
    | inl (s, e, f) ↦ rw (right_of f) h
    | inr (inl (e, g, f)) ↦ rw (right_of f) h
    | inr (inr (d, e, g, f)) ↦ rw (right_of f) (subst (WhenSome IsSound) g p)
  ]

  pub exec_sql-Keeps :
      (statement : Statement) → Preserves statement → Keeps (exec_sql sqlite statement)
  exec_sql-Keeps statement p w h =
      exec_sql-IsSound statement w h (p (sqlite.moment w.statements) w.database h)

  -- A call that reads first goes on with what the database holds.
  pub query-Keeps :
      {A : Type 0} (select : Database → List A) (next : List A → Call)
      → ((w : World) → IsSound w.database → IsSound (next (select w.database) w).1.database)
      → Keeps (λ w. query sqlite select w >>? next)
  query-Keeps select next step w h = elim (query-cases sqlite select w) [
    | inl (s, e, f) ↦ rw (f) h
    | inr f ↦ rw (f) (step (record w { statements = suc w.statements }) h)
  ]
