-- ===== src/Storage/Opening.antt =====
-- internal/storage/storage.go: `init` and `compatible`, which create the tables that a database file
-- lacks and give an old table of clusters its column of pools.
use curveadm.Prelude.{
  ℕ, suc, String, Bool, true, false, Option, none, some, List, [], ◌∷◌, map, ℤ, pos, negsuc, ltb,
  if◌then◌else◌,
}
use curveadm.Storage.{
  Version, Hosts, Disks, Disk, Cluster, Service, Client, Playground, AuditLog, Table, Sqlite,
  Failure, refused,
}

-- A row of the table of clusters without the column
pub record OldCluster : Type 0 where
  pub id : ℤ
  pub uuid : String
  pub name : String
  pub description : String
  pub create_time : String
  pub topology : String
  pub current : Bool

pub data ClustersTable : Type 0 where
  with_pool : Table Cluster → ClustersTable
  without_pool : Table OldCluster → ClustersTable

-- The tables that a file has
pub record File : Type 0 where
  pub version : Option (Table Version)
  pub hosts : Option (Table Hosts)
  pub disks : Option (Table Disks)
  pub disk : Option (Table Disk)
  pub clusters : Option ClustersTable
  pub containers : Option (List Service)
  pub clients : Option (List Client)
  pub playgrounds : Option (Table Playground)
  pub audit : Option (Table AuditLog)

-- CREATE TABLE IF NOT EXISTS
abbrev pub create : {A : Type 0} → A → Option A → Option A
create empty none = some empty
create empty (some t) = some t

abbrev pub no_rows : {A : Type 0} → Table A
no_rows = record { rows = []; last_id = 0 }

-- The statements of `init` in their order; the one for the hosts stands there twice.
unfoldable pub creations : List (File → File)
creations =
    (λ f. record f { version = create no_rows f.version })
    ∷ (λ f. record f { hosts = create no_rows f.hosts })
    ∷ (λ f. record f { hosts = create no_rows f.hosts })
    ∷ (λ f. record f { clusters = create (with_pool no_rows) f.clusters })
    ∷ (λ f. record f { containers = create [] f.containers })
    ∷ (λ f. record f { clients = create [] f.clients })
    ∷ (λ f. record f { playgrounds = create no_rows f.playgrounds })
    ∷ (λ f. record f { audit = create no_rows f.audit })
    ∷ (λ f. record f { disks = create no_rows f.disks })
    ∷ (λ f. record f { disk = create no_rows f.disk })
    ∷ []

-- INSERT_CLUSTERS_FROM_OLD_TABLE
unfoldable pub with_empty_pool : OldCluster → Cluster
with_empty_pool c = record {
  id = c.id;
  uuid = c.uuid;
  name = c.name;
  description = c.description;
  create_time = c.create_time;
  topology = c.topology;
  pool = "";
  current = c.current;
}

-- AUTOINCREMENT counts on from the largest id that was copied.
unfoldable pub largest : List OldCluster → ℕ
largest [] = 0
largest (c ∷ cs) =
    let n = largest cs in elim c.id [ pos i ↦ if ltb n i then i else n | negsuc i ↦ n ]

-- The four statements that rename, create, copy and drop
unfoldable pub upgraded : ClustersTable → ClustersTable
unfolding with_empty_pool largest
upgraded (with_pool t) = with_pool t
upgraded (without_pool t) =
    with_pool (record { rows = map with_empty_pool t.rows; last_id = largest t.rows })

abbrev pub upgraded_clusters : Option ClustersTable → Option ClustersTable
upgraded_clusters none = none
upgraded_clusters (some t) = some (upgraded t)

-- SELECT COUNT(*) of the columns named `pool` is not 0.
abbrev pub has_pool : Option ClustersTable → Bool
has_pool (some (with_pool t)) = true
has_pool _ = false

pub record Opened : Type 0 where
  pub file : File
  pub statements : ℕ

module _ (sqlite : Sqlite) where
  -- A statement that SQLite carries out or refuses
  unfoldable pub attempt : (File → File) → Opened → Option Failure × Opened
  attempt change o = elim (sqlite.refuse o.statements) [
    | some e ↦ (some (refused e), record o { statements = suc o.statements })
    | none ↦ (none, record { file = change o.file; statements = suc o.statements })
  ]

  unfoldable pub create_tables : List (File → File) → Opened → Option Failure × Opened
  unfolding attempt
  create_tables [] o = (none, o)
  create_tables (c ∷ cs) o =
      let (e, o') = attempt c o in elim e [ some e ↦ (some e, o') | none ↦ create_tables cs o' ]

  -- The transaction: an error anywhere leaves the file as it was.
  abbrev pub rolled_back : File → Option Failure × Opened → Option Failure × Opened
  rolled_back before (some e, o) = (some e, record o { file = before })
  rolled_back before (none, o) = (none, o)

  abbrev pub unchanged : File → File
  unchanged f = f

  abbrev pub alter : File → File
  alter f = record f { clusters = upgraded_clusters f.clusters }

  -- BEGIN, the count, the upgrade if it is needed, COMMIT
  unfoldable pub compatible : Opened → Option Failure × Opened
  unfolding create_tables upgraded
  compatible o = rolled_back o.file (elim (has_pool o.file.clusters) [
    | true ↦ create_tables (unchanged ∷ unchanged ∷ unchanged ∷ []) o
    | false ↦ create_tables (unchanged ∷ unchanged ∷ alter ∷ unchanged ∷ []) o
  ])

  unfoldable pub init : Opened → Option Failure × Opened
  unfolding create_tables creations compatible
  init o =
      let (e, o') = create_tables creations o in
      elim e [ some e ↦ (some e, o') | none ↦ compatible o' ]
