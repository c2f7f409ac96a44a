-- ===== src/Topology/Diff/Sound.antt =====
-- What a difference of two topologies says of them.
use curveadm.Prelude.{
  ℕ, String, ◌≡◌, refl, sym, ap, ◌∙◌, subst, inl, inr, Bool, true, false, Bool-cases, Option, some,
  Option-cases, List, [], ◌∷◌, All, All-map, All-both, All-append, Dict, lookup, nat_eq, ok,
}
use curveadm.Topology.DeployConfig.{DeployConfig}
use curveadm.Topology.Diff.{
  DiffType, diff_add, diff_delete, diff_change, TopologyDiff, by_id, has, difference, diffs_of,
  same, changes, diff_configs,
}
use curveadm.Topology.Diff.Entries.{
  by_id-IsMap, entries-found, difference-lookup, by_id-Keyed, difference-All,
}

-- A deleted service is in the old topology only, an added one in the new one only; a changed one is in
-- both, and its hash is another one.
abbrev pub Explains :
    (DeployConfig → Option ℕ)
    → Dict DeployConfig
    → Dict DeployConfig
    → DiffType
    → DeployConfig
    → Type 0
Explains hash old new diff_delete dc = (lookup dc.id old ≡ some dc) × (has new dc.id ≡ false)
Explains hash old new diff_add dc = (lookup dc.id new ≡ some dc) × (has old dc.id ≡ false)
Explains hash old new diff_change dc =
    (lookup dc.id new ≡ some dc)
    × (before : DeployConfig) × (lookup dc.id old ≡ some before)
    × (same hash before dc ≡ ok false)

abbrev Found : Dict DeployConfig → String × DeployConfig → Type 0
Found ids e = ((e.1).id ≡ e.0) × (lookup (e.1).id ids ≡ some e.1)

found : (dcs : List DeployConfig) → All (Found (by_id dcs [])) (by_id dcs [])
found dcs =
    let ids = by_id dcs [] in
    All-map _ (Found ids) (λ e (k, l). (k, subst (λ i. lookup i ids ≡ some e.1) (sym k) l)) ids
      (All-both _ _ ids (by_id-Keyed dcs [] tt) (entries-found ids (by_id-IsMap dcs [] tt)))

has-some :
    (k : String) (ids : Dict DeployConfig) {dc : DeployConfig}
    → lookup k ids ≡ some dc
    → has ids k ≡ true
has-some k ids e = rw (has, e) refl

same-total :
    (hash : DeployConfig → Option ℕ) (hashes : (dc : DeployConfig) → (n : ℕ) × (hash dc ≡ some n))
    (dc1 dc2 : DeployConfig)
    → (b : Bool) × (same hash dc1 dc2 ≡ ok b)
unfolding same
same-total hash hashes dc1 dc2 =
    let (n, e) = hashes dc1 in let (m, f) = hashes dc2 in (nat_eq n m, rw (e, f) refl)

abbrev pub Explained :
    (DeployConfig → Option ℕ) → Dict DeployConfig → Dict DeployConfig → List TopologyDiff → Type 0
Explained hash old new = All (λ d. Explains hash old new d.diff_type d.deploy_config)

module _ (hash : DeployConfig → Option ℕ)
    (hashes : (dc : DeployConfig) → (n : ℕ) × (hash dc ≡ some n))
    (old new : Dict DeployConfig) where
  diffs_of-Explained :
      (t : DiffType) (ids : Dict DeployConfig)
      → All (λ e. Explains hash old new t e.1) ids
      → Explained hash old new (diffs_of t ids)
  unfolding diffs_of
  diffs_of-Explained t [] h = tt
  diffs_of-Explained t ((k, dc) ∷ ids) (e, h) = (e, diffs_of-Explained t ids h)

  -- A new service that is not added is an old one.
  in_both :
      (id : String) {dc : DeployConfig}
      → lookup id new ≡ some dc
      → has (difference new old) id ≡ false
      → (before : DeployConfig) × (lookup id old ≡ some before)
  in_both id {dc} l h = elim (Option-cases (lookup id old)) [
    | inr found_old ↦ found_old
    | inl none_old ↦
        let l' : lookup id (difference new old) ≡ some dc =
          difference-lookup new old id ∙ rw (has, none_old) l in
        cc (has-some id (difference new old) l', h)
  ]

  changes-Explained :
      (rest : Dict DeployConfig)
      → All (Found new) rest
      → (ds : List TopologyDiff) × (changes hash old (difference old new) (difference new old) rest
          ≡ ok ds)
        × Explained hash old new ds
  unfolding changes
  changes-Explained [] h = ([], refl, tt)
  changes-Explained ((id, dc) ∷ rest) ((k, l), h) =
      let (ds, e, x) = changes-Explained rest h in
      elim (Bool-cases (has (difference old new) id)) [
        | inl d ↦ (ds, rw (d) e, x)
        | inr d ↦ elim (Bool-cases (has (difference new old) id)) [
          | inl a ↦ (ds, rw (d, a) e, x)
          | inr a ↦
              let (before, b) = in_both id (subst (λ i. lookup i new ≡ some dc) k l) a in
              let (unchanged, s) = same-total hash hashes before dc in
              elim (Bool-cases unchanged) [
                | inl u ↦ (ds, rw (d, a, b, s, u, e) refl, x)
                | inr u ↦ (
                  record { diff_type = diff_change; deploy_config = dc } ∷ ds,
                  rw (d, a, b, s, u, e) refl,
                  ((l, before, rw (k) b, s ∙ ap ok u), x),
                )
              ]
        ]
      ]

-- When every service can be hashed, the comparison of two lists of services returns without a nil
-- dereference, and each difference is one: a deleted service is in the old list and its id not in
-- the new one, an added service the other way round, and a changed service is in the new list,
-- and in the old one with another hash.
pub diff_configs-Explained :
    (hash : DeployConfig → Option ℕ) (old new : List DeployConfig)
    → ((dc : DeployConfig) → (n : ℕ) × (hash dc ≡ some n))
    → (ds : List TopologyDiff) × (diff_configs hash old new ≡ ok ds)
      × Explained hash (by_id old []) (by_id new []) ds
unfolding diff_configs
diff_configs-Explained hash dcs1 dcs2 hashes =
    let old = by_id dcs1 [] in
    let new = by_id dcs2 [] in
    let (ds, e, x) = changes-Explained hash hashes old new new (found dcs2) in
    let deleted =
      All-map _ (λ e. Explains hash old new diff_delete e.1) (λ e ((k, l), n). (l, rw (k) n)) _
        (difference-All (Found old) old new (found dcs1)) in
    let added =
      All-map _ (λ e. Explains hash old new diff_add e.1) (λ e ((k, l), n). (l, rw (k) n)) _
        (difference-All (Found new) new old (found dcs2)) in
    (
      _,
      rw (e) refl,
      All-append _ (diffs_of diff_delete (difference old new)) _
          (diffs_of-Explained hash hashes old new diff_delete _ deleted)
          (All-append _ (diffs_of diff_add (difference new old)) ds
            (diffs_of-Explained hash hashes old new diff_add _ added) x),
    )
