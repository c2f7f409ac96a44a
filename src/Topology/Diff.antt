-- ===== src/Topology/Diff.antt =====
-- internal/configure/topology/diff.go: the services that a new topology deletes, adds and changes.
-- `hash` is hashstructure.Hash.
pub mod Entries
pub mod Sound
pub mod Complete
use curveadm.Prelude.{
  ℕ, String, Bool, true, false, not, Option, none, some, List, [], ◌∷◌, ◌++◌, map, Dict, lookup,
  insert, nat_eq, ok, err, panic, ◌>>=◌, if◌then◌else◌,
}
use curveadm.Errno.{Fallible, create_hash_for_topology_failed}
use curveadm.Topology.DeployConfig.{DeployConfig}

pub data DiffType : Type 0 where
  diff_add diff_delete diff_change : DiffType

pub record TopologyDiff : Type 0 where
  pub diff_type : DiffType
  pub deploy_config : DeployConfig

abbrev hashed : Option ℕ → Fallible ℕ
hashed none = err create_hash_for_topology_failed
hashed (some h) = ok h

-- `ids[dc.GetId()] = dc` for each service
unfoldable pub by_id : List DeployConfig → Dict DeployConfig → Dict DeployConfig
by_id [] ids = ids
by_id (dc ∷ dcs) ids = by_id dcs (insert dc.id dc ids)

abbrev pub has : Dict DeployConfig → String → Bool
has ids k = elim (lookup k ids) [ none ↦ false | some _ ↦ true ]

-- The entries of `ids1` whose key is not in `ids2`
unfoldable pub difference : Dict DeployConfig → Dict DeployConfig → Dict DeployConfig
difference [] ids2 = []
difference ((k, dc) ∷ ids1) ids2 =
    let rest = difference ids1 ids2 in if has ids2 k then rest else (k, dc) ∷ rest

unfoldable pub diffs_of : DiffType → Dict DeployConfig → List TopologyDiff
diffs_of t [] = []
diffs_of t ((k, dc) ∷ ids) = record { diff_type = t; deploy_config = dc } ∷ diffs_of t ids

module _ (hash : DeployConfig → Option ℕ) where
  unfoldable pub same : DeployConfig → DeployConfig → Fallible Bool
  same dc1 dc2 = do h1 ← hashed (hash dc1); h2 ← hashed (hash dc2); ok (nat_eq h1 h2)

  -- `same(ids1[id], dc)`, where a missing entry is a nil dereference
  abbrev same_at : Option DeployConfig → DeployConfig → Fallible Bool
  same_at none dc = panic
  same_at (some dc1) dc = same dc1 dc

  unfoldable pub changes :
      Dict DeployConfig
      → Dict DeployConfig
      → Dict DeployConfig
      → Dict DeployConfig
      → Fallible (List TopologyDiff)
  unfolding same
  changes ids1 deleted added [] = ok []
  changes ids1 deleted added ((id, dc) ∷ ids2) =
      if has deleted id
      then changes ids1 deleted added ids2
      else if has added id
      then changes ids1 deleted added ids2
      else (do
        unchanged ← same_at (lookup id ids1) dc
        rest ← changes ids1 deleted added ids2
        ok (
            if unchanged
            then rest
            else record { diff_type = diff_change; deploy_config = dc } ∷ rest))

  -- `DiffTopology` of two parsed topologies
  unfoldable pub diff_configs : List DeployConfig → List DeployConfig → Fallible (List TopologyDiff)
  unfolding by_id difference diffs_of changes
  diff_configs dcs1 dcs2 = do
    let ids1 = by_id dcs1 []
    let ids2 = by_id dcs2 []
    let deleted = difference ids1 ids2
    let added = difference ids2 ids1
    changed ← changes ids1 deleted added ids2
    ok (diffs_of diff_delete deleted ++ (diffs_of diff_add added ++ changed))

  unfoldable pub diff_topology :
      (String → Fallible (List DeployConfig)) → String → String → Fallible (List TopologyDiff)
  unfolding diff_configs
  diff_topology parse data1 data2 = do
    dcs1 ← parse data1
    dcs2 ← parse data2
    diff_configs dcs1 dcs2
