-- ===== src/Storage/Reads.antt =====
-- What the reads of the storage give, against the view.
use curveadm.Prelude.{
  ◌≡◌, refl, ap, ◌∙◌, String, ◌==◌, Bool-cases, Option, none, some, List, [], ◌∷◌, map, take, keep,
  ◌⊎◌, inl, inr, left_of, List-cases,
}
use curveadm.Storage.{Service, Client, Version, Database, Sqlite, Failure, refused, World, query}
use curveadm.Storage.Found.{found}
use curveadm.Storage.Ends.{query-cases}
use curveadm.Storage.Operations.{
  first_container, get_container_id, first_client, get_client, get_client_container_id, get_hostses,
  get_disks, get_versions,
}
use curveadm.Storage.View.{view, first_of, service_entry, client_entry}

-- A read is refused, or gives what the view says.
abbrev pub Reads : {A : Type 0} → Sqlite → World → (Failure ⊎ A) × World → A → Type 0
Reads sqlite w r a =
    ((s : String) × (sqlite.refuse w.statements ≡ some s) × (r.0 ≡ inl (refused s))) ⊎ (r.0 ≡ inr a)

abbrev pub each_row :
    {A V : Type 0} → (A → V) → (Failure ⊎ List A) × World → (Failure ⊎ List V) × World
each_row value (inl e, v) = (inl e, v)
each_row value (inr rows, v) = (inr (map value rows), v)

abbrev pub version_entry : Version → String × String
version_entry v = (v.version, v.last_confirm)

abbrev pub at_most_one : {V : Type 0} → Option V → List V
at_most_one none = []
at_most_one (some v) = v ∷ []

abbrev pub container_of : {V : Type 0} → (V → String) → Option V → String
container_of f none = ""
container_of f (some v) = f v

first_container-found :
    (s : String) (rows : List Service)
    → first_container (inr (keep (λ r. r.id == s) rows))
      ≡ inr (container_of (λ e. e.1) (found (λ r. r.id) service_entry rows s))
unfolding keep found
first_container-found s [] = refl
first_container-found s (r ∷ rows) = elim (Bool-cases (r.id == s)) [
  | inl e ↦ rw (e) refl
  | inr e ↦ rw (e) (first_container-found s rows)
]

first_client-found :
    (s : String) (rows : List Client)
    → first_client (inr (keep (λ r. r.id == s) rows))
      ≡ inr (container_of (λ e. e.container_id) (found (λ r. r.id) client_entry rows s))
unfolding keep found
first_client-found s [] = refl
first_client-found s (r ∷ rows) = elim (Bool-cases (r.id == s)) [
  | inl e ↦ rw (e) refl
  | inr e ↦ rw (e) (first_client-found s rows)
]

module _ (sqlite : Sqlite) (w : World) where
  get_container_id-Reads :
      (s : String)
      → Reads sqlite w
          (get_container_id sqlite s w)
          (container_of (λ e. e.1) ((view w.database).services s))
  unfolding get_container_id
  get_container_id-Reads s = elim (query-cases sqlite (λ d. keep (λ r. r.id == s) d.containers) w) [
    | inl (x, e, f) ↦ inl (x, e, ap first_container (left_of f))
    | inr f ↦ inr (ap first_container (left_of f) ∙ first_container-found s w.database.containers)
  ]

  get_client_container_id-Reads :
      (s : String)
      → Reads sqlite w
          (get_client_container_id sqlite s w)
          (container_of (λ e. e.container_id) ((view w.database).clients s))
  unfolding get_client_container_id get_client
  get_client_container_id-Reads s =
      elim (query-cases sqlite (λ d. keep (λ r. r.id == s) d.clients) w) [
        | inl (x, e, f) ↦ inl (x, e, ap first_client (left_of f))
        | inr f ↦ inr (ap first_client (left_of f) ∙ first_client-found s w.database.clients)
      ]

  first_row-Reads :
      {A V : Type 0} (value : A → V) (rows : Database → List A)
      → Reads sqlite w
          (each_row value (query sqlite (λ d. take 1 (rows d)) w))
          (at_most_one (first_of value (rows w.database)))
  first_row-Reads value rows = elim (query-cases sqlite (λ d. take 1 (rows d)) w) [
    | inl (x, e, f) ↦ inl (x, e, rw (f) refl)
    | inr f ↦ elim (List-cases (rows w.database)) [
      | inl e ↦ inr (rw (f, e) refl)
      | inr (r, rs, e) ↦ inr (rw (f, e) refl)
    ]
  ]

  -- Unless SQLite refuses the read, the container ids of a service and of a client, the texts of
  -- the hosts and of the disks, and the version are read as the view of the database has them; an
  -- id that the view does not have gives the empty container id, and texts that it does not have
  -- give no row.
  pub query-Reads :
      (service client : String)
      → Reads sqlite w
          (get_container_id sqlite service w)
          (container_of (λ e. e.1) ((view w.database).services service))
        × Reads sqlite w
            (get_client_container_id sqlite client w)
            (container_of (λ e. e.container_id) ((view w.database).clients client))
        × Reads sqlite w
            (each_row (λ h. h.data_text) (get_hostses sqlite w))
            (at_most_one (view w.database).hosts)
        × Reads sqlite w
            (each_row (λ h. h.data_text) (get_disks sqlite w))
            (at_most_one (view w.database).disks)
        × Reads sqlite w
            (each_row version_entry (get_versions sqlite w))
            (at_most_one (view w.database).version)
  unfolding get_hostses get_disks get_versions
  query-Reads service client = (
    get_container_id-Reads service,
    get_client_container_id-Reads client,
    first_row-Reads (λ h. h.data_text) (λ d. d.hosts.rows),
    first_row-Reads (λ h. h.data_text) (λ d. d.disks.rows),
    first_row-Reads version_entry (λ d. d.version.rows),
  )
