-- ===== src/Topology/Diff/Complete.antt =====
-- That a difference of two topologies reports every service that one of them lacks.
use curveadm.Prelude.{
  Bool, true, false, if◌then◌else◌, ℕ, String, ◌≡◌, sym, ap, ◌∙◌, subst, inl, inr, false,
  Bool-cases, Option, none, some, List, [], ◌∷◌, ◌++◌, append_assoc, Dict, lookup, ok, bind-eq-ok,
  WhenOk, ◌==◌,
}
use curveadm.Topology.DeployConfig.{DeployConfig}
use curveadm.Topology.Diff.{
  DiffType, diff_add, diff_delete, TopologyDiff, by_id, has, difference, diffs_of, changes,
  diff_configs,
}
use curveadm.Topology.Diff.Entries.{difference-lookup}

-- The list has the difference.
abbrev pub Reports : DiffType → DeployConfig → List TopologyDiff → Type 0
Reports t dc ds =
    (before : List TopologyDiff) × (after : List TopologyDiff) × (ds
      ≡ before ++ record { diff_type = t; deploy_config = dc } ∷ after)

abbrev get_or : DeployConfig → Option DeployConfig → DeployConfig
get_or d none = d
get_or d (some dc) = dc

module _ (t : DiffType) (dc : DeployConfig) where
  Reports-left : (xs ys : List TopologyDiff) → Reports t dc xs → Reports t dc (xs ++ ys)
  Reports-left xs ys (b, a, e) = (b, a ++ ys, ap (λ l. l ++ ys) e ∙ append_assoc b _ ys)

  Reports-right : (xs ys : List TopologyDiff) → Reports t dc ys → Reports t dc (xs ++ ys)
  Reports-right xs ys (b, a, e) = (xs ++ b, a, ap (λ l. xs ++ l) e ∙ sym (append_assoc xs b _))

  diffs_of-Reports :
      (ids : Dict DeployConfig) (id : String)
      → lookup id ids ≡ some dc
      → Reports t dc (diffs_of t ids)
  unfolding diffs_of lookup
  diffs_of-Reports [] id h = cc
  diffs_of-Reports ((k, d) ∷ ids) id h = elim (Bool-cases (k == id)) [
    | inl e ↦
        let same : some d ≡ some dc = rw e at h in
        (
          [],
          diffs_of t ids,
          ap (λ o. record { diff_type = t; deploy_config = get_or d o } ∷ diffs_of t ids) same,
        )
    | inr e ↦
        let (b, a, f) = diffs_of-Reports ids id (rw e at h) in
        (
          record { diff_type = t; deploy_config = d } ∷ b,
          a,
          ap (λ l. record { diff_type = t; deploy_config = d } ∷ l) f,
        )
  ]

module _ (hash : DeployConfig → Option ℕ) (old new : List DeployConfig) {ds : List TopologyDiff}
    (id : String) (dc : DeployConfig) where
  diff_configs-Reports_deleted :
      diff_configs hash old new ≡ ok ds
      → lookup id (by_id old []) ≡ some dc
      → has (by_id new []) id ≡ false
      → Reports diff_delete dc ds
  unfolding diff_configs
  diff_configs-Reports_deleted h l n =
      let deleted = difference (by_id old []) (by_id new []) in
      let (changed, _, e) =
        bind-eq-ok
          (changes hash (by_id old []) deleted (difference (by_id new []) (by_id old []))
            (by_id new []))
          _ h in
      subst (WhenOk (Reports diff_delete dc)) e (
        Reports-left diff_delete dc (diffs_of diff_delete deleted) _ (
          diffs_of-Reports diff_delete dc deleted id
            (difference-lookup (by_id old []) (by_id new []) id ∙ rw (n) l)))

  diff_configs-Reports_added :
      diff_configs hash old new ≡ ok ds
      → lookup id (by_id new []) ≡ some dc
      → has (by_id old []) id ≡ false
      → Reports diff_add dc ds
  unfolding diff_configs
  diff_configs-Reports_added h l n =
      let added = difference (by_id new []) (by_id old []) in
      let deleted = difference (by_id old []) (by_id new []) in
      let (changed, _, e) =
        bind-eq-ok (changes hash (by_id old []) deleted added (by_id new [])) _ h in
      subst (WhenOk (Reports diff_add dc)) e (
        Reports-right diff_add dc (diffs_of diff_delete deleted) _ (
          Reports-left diff_add dc (diffs_of diff_add added) changed (
            diffs_of-Reports diff_add dc added id
              (difference-lookup (by_id new []) (by_id old []) id ∙ rw (n) l))))

  -- When the comparison of two lists of services returns differences, a service that the old list
  -- has under an id, the last one with that id, and whose id the new list does not have, is
  -- reported as deleted; and one that the new list has and whose id the old list does not have,
  -- as added.
  pub diff_configs-Reports :
      (deleted : Bool)
      → diff_configs hash old new ≡ ok ds
      → lookup id (by_id (if deleted then old else new) []) ≡ some dc
      → has (by_id (if deleted then new else old) []) id ≡ false
      → Reports (if deleted then diff_delete else diff_add) dc ds
  diff_configs-Reports true = diff_configs-Reports_deleted
  diff_configs-Reports false = diff_configs-Reports_added
