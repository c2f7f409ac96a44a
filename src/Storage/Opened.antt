-- ===== src/Storage/Opened.antt =====
-- A database that was opened without an error has every table, and its clusters have pools.
use curveadm.Prelude.{
  suc, ◌≡◌, refl, sym, ap, ◌∙◌, String, true, Bool-cases, Option, none, some, Option-cases, List,
  [], ◌∷◌, inl, inr,
}
use curveadm.Storage.{Sqlite, Failure, refused}
use curveadm.Storage.Opening.{
  ClustersTable, with_pool, without_pool, File, create, no_rows, creations, upgraded,
  upgraded_clusters, has_pool, Opened, attempt, create_tables, rolled_back, unchanged, alter,
  compatible, init,
}

-- The file with the tables that it lacks, and with pools
abbrev ready : File → File
ready f = record {
  version = create no_rows f.version;
  hosts = create no_rows f.hosts;
  disks = create no_rows f.disks;
  disk = create no_rows f.disk;
  clusters = upgraded_clusters (create (with_pool no_rows) f.clusters);
  containers = create [] f.containers;
  clients = create [] f.clients;
  playgrounds = create no_rows f.playgrounds;
  audit = create no_rows f.audit;
}

abbrev applied : List (File → File) → File → File
applied [] f = f
applied (c ∷ cs) f = applied cs (c f)

create-twice : {A : Type 0} (a : A) (o : Option A) → create a (create a o) ≡ create a o
create-twice a none = refl
create-twice a (some b) = refl

upgraded_already : (o : Option ClustersTable) → has_pool o ≡ true → upgraded_clusters o ≡ o
unfolding upgraded
upgraded_already none h = refl
upgraded_already (some (with_pool t)) h = refl
upgraded_already (some (without_pool t)) h = cc

module _ (sqlite : Sqlite) where
  accepted :
      (c : File → File) (o : Opened)
      → sqlite.refuse o.statements ≡ none
      → attempt sqlite c o ≡ (none, record { file = c o.file; statements = suc o.statements })
  unfolding attempt
  accepted c o e = rw (attempt, e) refl

  attempt-refused :
      (c : File → File) (o : Opened) (s : String)
      → sqlite.refuse o.statements ≡ some s
      → attempt sqlite c o ≡ (some (refused s), record o { statements = suc o.statements })
  unfolding attempt
  attempt-refused c o s e = rw (attempt, e) refl

  create_tables-done :
      (cs : List (File → File)) (o : Opened)
      → (create_tables sqlite cs o).0 ≡ none
      → (create_tables sqlite cs o).1.file ≡ applied cs o.file
  unfolding create_tables
  create_tables-done [] o h = refl
  create_tables-done (c ∷ cs) o h = elim (Option-cases (sqlite.refuse o.statements)) [
    | inl e ↦
        let f : (attempt sqlite c o).0 ≡ none = ap (λ p. p.0) (accepted c o e) in
        let g = ap (λ p. p.1) (accepted c o e) in
        rw (create_tables, f)
          (create_tables-done cs (attempt sqlite c o).1 (rw (create_tables, f) at h)
            ∙ ap (λ (p : Opened). applied cs p.file) g)
    | inr (s, e) ↦
        let g : some (refused s) ≡ none = rw (create_tables, attempt-refused c o s e) at h in cc
  ]

  rolled_back-done :
      (before : File) (r : Option Failure × Opened)
      → (rolled_back sqlite before r).0 ≡ none
      → (r.0 ≡ none) × ((rolled_back sqlite before r).1 ≡ r.1)
  rolled_back-done before (none, o) h = (refl, refl)
  rolled_back-done before (some e, o) h = cc

  transaction :
      (cs : List (File → File)) (o : Opened)
      → (rolled_back sqlite o.file (create_tables sqlite cs o)).0 ≡ none
      → (rolled_back sqlite o.file (create_tables sqlite cs o)).1.file ≡ applied cs o.file
  transaction cs o h =
      let (e, f) = rolled_back-done o.file (create_tables sqlite cs o) h in
      ap (λ (p : Opened). p.file) f ∙ create_tables-done cs o e

  compatible-done :
      (o : Opened)
      → (compatible sqlite o).0 ≡ none
      → (compatible sqlite o).1.file ≡ alter sqlite o.file
  unfolding compatible
  compatible-done o h = elim (Bool-cases (has_pool o.file.clusters)) [
    | inl e ↦
        rw (compatible, e)
          (transaction (unchanged sqlite ∷ unchanged sqlite ∷ unchanged sqlite ∷ []) o
              (rw (compatible, e) at h)
            ∙ ap (λ c. record o.file { clusters = c }) (sym (upgraded_already o.file.clusters e)))
    | inr e ↦
        rw (compatible, e)
          (transaction (unchanged sqlite ∷ unchanged sqlite ∷ alter sqlite ∷ unchanged sqlite ∷ [])
            o (rw (compatible, e) at h))
  ]

  -- When `init` gives no error, the file has every table, those that it had with their rows; a table
  -- of clusters without pools has its rows with the empty pool.
  pub init-ready : (o : Opened) → (init sqlite o).0 ≡ none → (init sqlite o).1.file ≡ ready o.file
  unfolding init creations
  init-ready o h = elim (Option-cases (create_tables sqlite creations o).0) [
    | inr (e, f) ↦ let g : some e ≡ none = rw (init, f) at h in cc
    | inl f ↦
        rw (init, f)
          (compatible-done (create_tables sqlite creations o).1 (rw (init, f) at h)
            ∙ ap (alter sqlite) (create_tables-done creations o f)
            ∙ ap (λ t. record (ready o.file) { hosts = t }) (create-twice no_rows o.file.hosts))
  ]
