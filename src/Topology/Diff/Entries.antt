-- ===== src/Topology/Diff/Entries.antt =====
-- The services by id, and the differences of two such maps.
use curveadm.Prelude.{
  String, ◌≡◌, refl, sym, subst, inl, inr, arith, eq_iff, eq_refl, ◌==◌, false, Bool-cases, none,
  some, List, [], ◌∷◌, All, All-map, text-cases, Dict, lookup, insert, insert-IsMap, IsMap,
  if◌then◌else◌,
}
use curveadm.Topology.DeployConfig.{DeployConfig}
use curveadm.Topology.Diff.{by_id, has, difference}

pub by_id-IsMap : (dcs : List DeployConfig) (m : Dict DeployConfig) → IsMap m → IsMap (by_id dcs m)
unfolding by_id
by_id-IsMap [] m h = h
by_id-IsMap (dc ∷ dcs) m h = by_id-IsMap dcs (insert dc.id dc m) (insert-IsMap dc.id dc m h)

-- Every entry of a map is what is found under its key.
pub entries-found : {V : Type 0} (m : Dict V) → IsMap m → All (λ e. lookup e.0 m ≡ some e.1) m
unfolding lookup
entries-found [] h = tt
entries-found ((k, v) ∷ m) h = (
  rw (eq_refl k) refl,
  All-map _ _
      (λ e same. elim (text-cases k e.0) [
        | inl q ↦ cc (subst (λ x. lookup x m ≡ none) q h.0, same)
        | inr q ↦ rw (q) same
      ])
      m (entries-found m h.1),
)

pub difference-lookup :
    (ids1 ids2 : Dict DeployConfig) (k : String)
    → lookup k (difference ids1 ids2) ≡ (if has ids2 k then none else lookup k ids1)
unfolding lookup difference
difference-lookup [] ids2 k = ground arith
difference-lookup ((j, dc) ∷ ids1) ids2 k = elim (Bool-cases (has ids2 j)) [
  | inl e ↦ rw (e) (ground (arith, e, eq_iff j k, difference-lookup ids1 ids2 k))
  | inr e ↦ rw (e) (ground (arith, e, eq_iff j k, difference-lookup ids1 ids2 k))
]

abbrev pub Keyed : Dict DeployConfig → Type 0
Keyed = All (λ (e : String × DeployConfig). (e.1).id ≡ e.0)

insert-Keyed : (dc : DeployConfig) (m : Dict DeployConfig) → Keyed m → Keyed (insert dc.id dc m)
unfolding insert
insert-Keyed dc [] h = (refl, tt)
insert-Keyed dc ((j, d) ∷ m) h = elim (Bool-cases (j == dc.id)) [
  | inl e ↦ rw (e) (sym ((eq_iff j dc.id).0 e), h.1)
  | inr e ↦ rw (e) (h.0, insert-Keyed dc m h.1)
]

pub by_id-Keyed : (dcs : List DeployConfig) (m : Dict DeployConfig) → Keyed m → Keyed (by_id dcs m)
unfolding by_id
by_id-Keyed [] m h = h
by_id-Keyed (dc ∷ dcs) m h = by_id-Keyed dcs (insert dc.id dc m) (insert-Keyed dc m h)

pub difference-All :
    (P : String × DeployConfig → Type 0) (ids1 ids2 : Dict DeployConfig)
    → All P ids1
    → All (λ e. P e × (has ids2 e.0 ≡ false)) (difference ids1 ids2)
unfolding difference
difference-All P [] ids2 h = tt
difference-All P ((k, dc) ∷ ids1) ids2 (p, h) = elim (Bool-cases (has ids2 k)) [
  | inl e ↦ rw (e) (difference-All P ids1 ids2 h)
  | inr e ↦ rw (e) ((p, e), difference-All P ids1 ids2 h)
]
