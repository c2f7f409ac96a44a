-- ===== src/Storage.antt =====
-- internal/storage/storage.go: the rows of the database's tables, and the two ways in which the
-- program reaches SQLite. SQLite is not part of the repository: whether it refuses a statement, the
-- time, the random identifiers and the order `LIKE` are the parameter `Sqlite`. A table is the list
-- of its rows in the order of their insertion.
pub mod Tables
pub mod Statements
pub mod DiskStatements
pub mod Opening
pub mod Opened
pub mod Operations
pub mod DiskCalls
pub mod Calls
pub mod Distinct
pub mod Ends
pub mod Sound
pub mod Kept
pub mod KeptDisks
pub mod KeptCalls
pub mod Found
pub mod View
pub mod Models
pub mod Refinement
pub mod Current
pub mod Reads
use curveadm.Prelude.{ℕ, suc, String, ℤ, Bool, List, [], ◌∷◌, Option, none, some, ◌⊎◌, inl, inr}
use curveadm.Errno.{Code}

pub record Version : Type 0 where
  pub id : ℕ
  pub version : String
  pub last_confirm : String

pub record Hosts : Type 0 where
  pub id : ℕ
  pub data_text : String
  pub lastmodified_time : String

pub record Disks : Type 0 where
  pub id : ℕ
  pub data_text : String
  pub lastmodified_time : String

pub record Disk : Type 0 where
  pub id : ℕ
  pub host : String
  pub device : String
  pub size : String
  pub uri : String
  pub mount_point : String
  pub format_percent : ℤ
  pub container_image : String
  pub chunkserver_id : String
  pub service_mount_device : ℤ
  pub lastmodified_time : String

pub record Cluster : Type 0 where
  pub id : ℤ
  pub uuid : String
  pub name : String
  pub description : String
  pub create_time : String
  pub topology : String
  pub pool : String
  pub current : Bool

pub record Service : Type 0 where
  pub id : String
  pub cluster_id : ℤ
  pub container_id : String

pub record Client : Type 0 where
  pub id : String
  pub kind : String
  pub host : String
  pub container_id : String
  pub aux_info : String

pub record Playground : Type 0 where
  pub id : ℕ
  pub name : String
  pub create_time : String
  pub mount_point : String
  pub status : String

pub record AuditLog : Type 0 where
  pub id : ℕ
  pub execute_time : String
  pub work_directory : String
  pub command : String
  pub status : ℤ
  pub error_code : ℤ

-- A table with AUTOINCREMENT: its rows, and the largest id that it ever gave.
pub record Table (A : Type 0) : Type 0 where
  pub rows : List A
  pub last_id : ℕ

pub record Database : Type 0 where
  pub version : Table Version
  pub hosts : Table Hosts
  pub disks : Table Disks
  pub disk : Table Disk
  pub clusters : Table Cluster
  pub containers : List Service
  pub clients : List Client
  pub playgrounds : Table Playground
  pub audit : Table AuditLog

-- What SQLite gives a statement: `datetime('now','localtime')` and `hex(randomblob(16))`.
pub record Moment : Type 0 where
  pub now : String
  pub random : String

-- SQLite, for each statement of a run by its number: an error that has nothing to do with the data
-- (a locked file, a full disk), the moment; and whether a name is like a pattern.
pub record Sqlite : Type 0 where
  pub refuse : ℕ → Option String
  pub moment : ℕ → Moment
  pub like : String → String → Bool

pub data Failure : Type 0 where
  refused : String → Failure
  constraint : Failure
  code : Code → Failure

-- The database file, and the statements that SQLite has met
pub record World : Type 0 where
  pub database : Database
  pub statements : ℕ

-- A statement that changes the database; `none` when a UNIQUE or PRIMARY KEY column forbids it.
abbrev pub Statement : Type 0
Statement = Moment → Database → Option Database

-- A call with an `error` result
abbrev pub Call : Type 0
Call = World → Option Failure × World

abbrev pub Read : Type 0 → Type 0
Read A = World → (Failure ⊎ A) × World

module _ (sqlite : Sqlite) where
  unfoldable pub exec_sql : Statement → Call
  exec_sql statement w =
      let met = record w { statements = suc w.statements } in
      elim (sqlite.refuse w.statements) [
        | some e ↦ (some (refused e), met)
        | none ↦ elim (statement (sqlite.moment w.statements) w.database) [
          | none ↦ (some constraint, met)
          | some d ↦ (none, record met { database = d })
        ]
      ]

  unfoldable pub query : {A : Type 0} → (Database → List A) → Read (List A)
  query select w =
      let met = record w { statements = suc w.statements } in
      elim (sqlite.refuse w.statements) [
        | some e ↦ (inl (refused e), met)
        | none ↦ (inr (select w.database), met)
      ]

infixl 5 ◌>>?◌
-- `x, err := read(); if err != nil { return err }`, and the rest of the call
abbrev pub ◌>>?◌ : {A : Type 0} → (Failure ⊎ A) × World → (A → Call) → Option Failure × World
◌>>?◌ (inr a, w) next = next a w
◌>>?◌ (inl e, w) next = (some e, w)

-- `if len(rows) == 0 { ... }`, and else by rows[0]
abbrev pub by_first : {A : Type 0} → List A → Call → (A → Call) → Call
by_first [] insert set = insert
by_first (r ∷ _) insert set = set r
