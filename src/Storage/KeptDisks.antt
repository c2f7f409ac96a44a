-- ===== src/Storage/KeptDisks.antt =====
-- Each statement on single disks keeps a sound database sound.
use curveadm.Prelude.{
  ℕ, suc, ◌≤◌, ◌≡◌, refl, arith, String, Bool, false, nat_eq, ℤ, Bool-cases, List, [], ◌∷◌, inl,
  inr, All, All-map, All-append, if◌then◌else◌, WhenSome,
}
use curveadm.Storage.{Disk, Table, Database, Moment}
use curveadm.Storage.Tables.{update_where, delete_where, insert_row}
use curveadm.Storage.Distinct.{Distinct-delete, Distinct-append, Distinct-update, All-keep, map-All}
use curveadm.Storage.Sound.{pair_eq, device_of, AreDisks, Preserves, with_disk, IsSound}
use curveadm.Storage.DiskStatements.{
  by_device, sql_insert_disk, sql_set_disk, sql_set_disk_uri, sql_set_disk_size,
  sql_set_disk_chunkserver_id, sql_delete_disk_host, sql_delete_disk_host_device,
}

-- An update that leaves the device and the id of a row alone
record IsUpdate (f : Disk → Disk) : Type 0 where
  device : (r : Disk) → device_of (f r) ≡ device_of r
  same_id : (r : Disk) → (f r).id ≡ r.id

AreDisks-update :
    (test : Disk → Bool) (f : Disk → Disk) (t : Table Disk)
    → IsUpdate f
    → AreDisks t
    → AreDisks (record t { rows = update_where test f t.rows })
unfolding update_where
AreDisks-update test f t u h = record {
  devices = Distinct-update pair_eq device_of test f u.device t.rows h.devices;
  ids = Distinct-update nat_eq (λ r. r.id) test f u.same_id t.rows h.ids;
  given =
      map-All (λ r. r.id ≤ t.last_id) (λ r. r.id ≤ t.last_id) (λ r. if test r then f r else r)
        (λ r b. elim (Bool-cases (test r)) [ inl e ↦ rw (e, u.same_id r) b | inr e ↦ rw (e) b ])
        t.rows h.given;
}

AreDisks-delete :
    (test : Disk → Bool) (t : Table Disk)
    → AreDisks t
    → AreDisks (record t { rows = delete_where test t.rows })
unfolding delete_where
AreDisks-delete test t h = record {
  devices = Distinct-delete pair_eq device_of test t.rows h.devices;
  ids = Distinct-delete nat_eq (λ r. r.id) test t.rows h.ids;
  given = All-keep (λ r. r.id ≤ t.last_id) _ t.rows h.given;
}

-- No row is of the device.
abbrev pub IsFree : String → String → List Disk → Type 0
IsFree host device rows = All (λ r. by_device host device r ≡ false) rows

AreDisks-insert :
    (row : ℕ → Disk) (t : Table Disk)
    → ((i : ℕ) → (row i).id ≡ i)
    → ((i : ℕ) → IsFree (row i).host (row i).device t.rows)
    → AreDisks t
    → AreDisks (insert_row row t)
unfolding insert_row
AreDisks-insert row t id free h = record {
  devices =
      Distinct-append pair_eq device_of t.rows (row (suc t.last_id)) h.devices
        (free (suc t.last_id));
  ids =
      Distinct-append nat_eq (λ r. r.id) t.rows (row (suc t.last_id)) h.ids
        (All-map (λ r. r.id ≤ t.last_id) (λ r. nat_eq r.id (row (suc t.last_id)).id ≡ false)
          (λ r b. rw (id (suc t.last_id)) (ground (arith, b))) t.rows h.given);
  given =
      All-append (λ r. r.id ≤ suc t.last_id) t.rows (row (suc t.last_id) ∷ [])
        (All-map (λ r. r.id ≤ t.last_id) (λ r. r.id ≤ suc t.last_id) (λ r b. omega (arith, b))
          t.rows h.given)
        (rw (id (suc t.last_id)) (omega arith), tt);
}

pub sql_set_disk-Preserves :
    (mount : String) (percent : ℤ) (image : String) (mount_device : ℤ) (id : ℕ)
    → Preserves (sql_set_disk mount percent image mount_device id)
unfolding sql_set_disk
sql_set_disk-Preserves mount percent image mount_device id m d h =
    with_disk h _
      (AreDisks-update _ _ d.disk (record { device = λ r. refl; same_id = λ r. refl }) h.disk)

pub sql_set_disk_uri-Preserves : (u h d : String) → Preserves (sql_set_disk_uri u h d)
unfolding sql_set_disk_uri
sql_set_disk_uri-Preserves uri host device m d h =
    with_disk h _
      (AreDisks-update _ _ d.disk (record { device = λ r. refl; same_id = λ r. refl }) h.disk)

pub sql_set_disk_size-Preserves : (s h d : String) → Preserves (sql_set_disk_size s h d)
unfolding sql_set_disk_size
sql_set_disk_size-Preserves size host device m d h =
    with_disk h _
      (AreDisks-update _ _ d.disk (record { device = λ r. refl; same_id = λ r. refl }) h.disk)

pub sql_set_disk_chunkserver_id-Preserves :
    (c h p : String) → Preserves (sql_set_disk_chunkserver_id c h p)
unfolding sql_set_disk_chunkserver_id
sql_set_disk_chunkserver_id-Preserves chunkserver host mount m d h =
    with_disk h _
      (AreDisks-update _ _ d.disk (record { device = λ r. refl; same_id = λ r. refl }) h.disk)

pub sql_delete_disk_host-Preserves : (host : String) → Preserves (sql_delete_disk_host host)
unfolding sql_delete_disk_host
sql_delete_disk_host-Preserves host m d h = with_disk h _ (AreDisks-delete _ d.disk h.disk)

pub sql_delete_disk_host_device-Preserves :
    (host device : String) → Preserves (sql_delete_disk_host_device host device)
unfolding sql_delete_disk_host_device
sql_delete_disk_host_device-Preserves host device m d h =
    with_disk h _ (AreDisks-delete _ d.disk h.disk)

pub sql_insert_disk-IsSound :
    (host device size uri mount : String) (percent : ℤ) (image chunkserver : String)
    (mount_device : ℤ) (m : Moment) (d : Database)
    → IsFree host device d.disk.rows
    → IsSound d
    → WhenSome IsSound
        (sql_insert_disk host device size uri mount percent image chunkserver mount_device m d)
unfolding sql_insert_disk
sql_insert_disk-IsSound host device size uri mount percent image chunkserver mount_device m d f h =
    with_disk h _ (AreDisks-insert _ d.disk (λ i. refl) (λ i. f) h.disk)
