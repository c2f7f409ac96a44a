-- ===== src/Tests/Storing.antt =====
-- The storage on a database with one cluster.
use curveadm.Prelude.{
  ℕ, zero, suc, ◌≡◌, refl, ◌==◌, keep, arith, String, true, false, pos, Option, none, some, List,
  [], ◌∷◌, ◌⊎◌, inl, inr,
}
use curveadm.Storage.{Database, Cluster, Sqlite, World, Table, exec_sql, query}
use curveadm.Storage.Tables.{update_where}
use curveadm.Storage.Statements.{sql_checkout_cluster}
use curveadm.Storage.Sound.{IsSound}
use curveadm.Storage.KeptCalls.{serve-IsSound}
use curveadm.Storage.View.{specified}
use curveadm.Storage.Refinement.{Refines, perform-Refines}
use curveadm.Storage.Current.{checkout_cluster-get_current_cluster, named, as_current}
use curveadm.Storage.Found.{found}
use curveadm.Storage.Reads.{Reads, each_row, version_entry, query-Reads}
use curveadm.Storage.Operations.{
  get_container_id, get_client_container_id, get_hostses, get_disks, get_versions, checkout_cluster,
  get_current_cluster,
}
use curveadm.Storage.Calls.{
  Request, DiskRequest, to_set_hosts, to_insert_cluster, to_checkout_cluster, to_insert_service,
  to_set_disk, to_clean_disk_chunkserver_id, perform, serve,
}

abbrev nothing : {A : Type 0} → Table A
nothing = record { rows = []; last_id = 0 }

abbrev my_cluster : Cluster
my_cluster = record {
  id = pos 1;
  uuid = "9F";
  name = "my-cluster";
  description = "";
  create_time = "2024-01-01";
  topology = "kind: curvebs";
  pool = "";
  current = false;
}

abbrev database : Database
database = record {
  version = nothing;
  hosts = nothing;
  disks = nothing;
  disk = nothing;
  clusters = record { rows = my_cluster ∷ []; last_id = 1 };
  containers = [];
  clients = [];
  playgrounds = nothing;
  audit = nothing;
}

database-IsSound : IsSound database
database-IsSound = record {
  version = omega arith;
  hosts = omega arith;
  disks = omega arith;
  disk = record { devices = tt; ids = tt; given = tt };
  clusters = record { names = (tt, tt); one_current = (tt, tt) };
  containers = tt;
  clients = tt;
  playgrounds = tt;
}

-- SQLite refuses the third statement.
abbrev at_two : ℕ → Option String
at_two (suc (suc zero)) = some "database is locked"
at_two _ = none

abbrev sqlite : Sqlite
sqlite = record {
  refuse = at_two;
  moment = λ n. record { now = "2024-01-02"; random = "A0" };
  like = λ pattern name. pattern == name;
}

abbrev world : World
world = record { database = database; statements = 0 }

abbrev calls : List (Request ⊎ DiskRequest)
calls =
    inl (to_insert_cluster "my-cluster" "" "")
    ∷ inl (to_checkout_cluster "my-cluster")
    ∷ inl (to_insert_service (pos 1) "c1" "abc")
    ∷ inr (to_set_disk "host1" "/dev/sda" "/data/0" "image" (pos 95) (pos 0))
    ∷ inr (to_clean_disk_chunkserver_id "-")
    ∷ []

serve-IsSound_example : IsSound (serve sqlite calls world).database
serve-IsSound_example = serve-IsSound sqlite calls world database-IsSound

perform-Refines_example :
    Refines sqlite
      (specified (to_set_hosts "host: host1"))
      world
      (perform sqlite (to_set_hosts "host: host1") world)
perform-Refines_example = perform-Refines sqlite (to_set_hosts "host: host1") world

abbrev current_cluster : Cluster
current_cluster = record my_cluster { current = true }

abbrev later : World
later = (checkout_cluster sqlite "my-cluster" world).1

checkout_cluster-get_current_cluster_example :
    current_cluster ≡ as_current (named (my_cluster ∷ []) "my-cluster")
unfolding checkout_cluster get_current_cluster exec_sql sql_checkout_cluster query keep update_where
checkout_cluster-get_current_cluster_example =
    checkout_cluster-get_current_cluster sqlite "my-cluster" world later
      (get_current_cluster sqlite later).1 current_cluster database-IsSound refl refl

query-Reads_example :
    Reads sqlite world (get_container_id sqlite "c1" world) ""
    × Reads sqlite world (get_client_container_id sqlite "c1" world) ""
    × Reads sqlite world (each_row (λ h. h.data_text) (get_hostses sqlite world)) []
    × Reads sqlite world (each_row (λ h. h.data_text) (get_disks sqlite world)) []
    × Reads sqlite world (each_row version_entry (get_versions sqlite world)) []
unfolding found
query-Reads_example = query-Reads sqlite world "c1" "c1"
