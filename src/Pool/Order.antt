-- ===== src/Pool/Order.antt =====
-- The order in which the services become servers.
use mathlib.Core.List.{Permᴰ}
use mathlib.Core.List.Permᴰ
use Prim.Native.Char.{code}
use text.Mathlib.TextEquality.{Char-path}
use curveadm.Prelude.{
  suc, ◌<◌, ◌≤◌, String, ◌≡◌, refl, sym, ap, ◌∙◌, ◌⊎◌, inl, inr, arith, eq_iff, eq_refl, true,
  false, Bool-cases, text_lt, List, [], ◌∷◌, length, All, subst, ◌==◌, nat_eq,
}
use curveadm.Topology.DeployConfig.{DeployConfig}
use curveadm.Pool.{less, insert_sorted, sort_deploy_configs}

text_lt-total : (s t : String) → text_lt s t ≡ false → (text_lt t s ≡ true) ⊎ (s ≡ t)
unfolding text_lt
text_lt-total String.[] String.[] h = inr refl
text_lt-total String.[] (String.◌∷◌ d t) h = cc
text_lt-total (String.◌∷◌ c s) String.[] h = inl refl
text_lt-total (String.◌∷◌ c s) (String.◌∷◌ d t) h = elim (Bool-cases (nat_eq (code c) (code d))) [
  | inr e ↦ inl (ground arith)
  | inl e ↦ elim (text_lt-total s t (rw e at h)) [
    | inl l ↦ inl (ground (arith, l))
    | inr q ↦ inr (rw (q, Char-path c d (ground arith)) refl)
  ]
]

text_lt_trans : (s t u : String) → text_lt s t ≡ true → text_lt t u ≡ true → text_lt s u ≡ true
unfolding text_lt
text_lt_trans s String.[] String.[] h k = cc
text_lt_trans String.[] String.[] u h k = cc
text_lt_trans (String.◌∷◌ c s) String.[] u h k = cc
text_lt_trans s (String.◌∷◌ d t) String.[] h k = cc
text_lt_trans String.[] (String.◌∷◌ d t) (String.◌∷◌ e u) h k = refl
text_lt_trans (String.◌∷◌ c s) (String.◌∷◌ d t) (String.◌∷◌ e u) h k =
    ground (arith, text_lt_trans s t u)

-- By role, then by the number of the host, then by that of the replica
abbrev pub IsBefore : DeployConfig → DeployConfig → Type 0
IsBefore a b =
    (text_lt a.role b.role ≡ true)
    ⊎ ((a.role ≡ b.role)
        × ((a.host_sequence < b.host_sequence)
            ⊎ ((a.host_sequence ≡ b.host_sequence) × (a.replicas_sequence ≤ b.replicas_sequence))))

less-IsBefore : (a b : DeployConfig) → less a b ≡ true → IsBefore a b
unfolding less
less-IsBefore a b h = elim (Bool-cases (a.role == b.role)) [
  | inl e ↦ inr ((eq_iff a.role b.role).0 e, ground arith)
  | inr e ↦ inl (rw e at h)
]

not_less-IsBefore : (a b : DeployConfig) → less a b ≡ false → IsBefore b a
unfolding less
not_less-IsBefore a b h = elim (Bool-cases (a.role == b.role)) [
  | inl e ↦ inr (sym ((eq_iff a.role b.role).0 e), ground arith)
  | inr e ↦ elim (text_lt-total a.role b.role (rw e at h)) [
    | inl l ↦ inl l
    | inr q ↦ cc (rw (q, eq_refl b.role) at e)
  ]
]

IsBefore-trans : (a b c : DeployConfig) → IsBefore a b → IsBefore b c → IsBefore a c
IsBefore-trans a b c (inl h) (inl k) = inl (text_lt_trans a.role b.role c.role h k)
IsBefore-trans a b c (inl h) (inr (e, k)) = inl (rw (sym e) h)
IsBefore-trans a b c (inr (e, h)) (inl k) = inl (rw e k)
IsBefore-trans a b c (inr (e, h)) (inr (f, k)) = inr (e ∙ f, ground (arith, h, k))

-- Each service stands before all that follow it.
abbrev pub IsSorted : List DeployConfig → Type 0
IsSorted [] = Unit
IsSorted (a ∷ ds) = All (IsBefore a) ds × IsSorted ds

insert_sorted-Perm :
    (dc : DeployConfig) (ds : List DeployConfig) → Permᴰ (insert_sorted dc ds) (dc ∷ ds)
unfolding insert_sorted
insert_sorted-Perm dc [] = Permᴰ.refl (dc ∷ [])
insert_sorted-Perm dc (d ∷ ds) = elim (Bool-cases (less d dc)) [
  | inl e ↦ rw (e) (Permᴰ.trans (Permᴰ.cons refl (insert_sorted-Perm dc ds)) (Permᴰ.swap refl refl))
  | inr e ↦ rw (e) (Permᴰ.refl (dc ∷ d ∷ ds))
]

pub length-Perm : {xs ys : List DeployConfig} → Permᴰ xs ys → length xs ≡ length ys
length-Perm Permᴰ.nil = refl
length-Perm (Permᴰ.cons e p) = ap suc (length-Perm p)
length-Perm (Permᴰ.swap e f) = refl
length-Perm (Permᴰ.trans p q) = length-Perm p ∙ length-Perm q

pub All-Perm :
    (P : DeployConfig → Type 0) {xs ys : List DeployConfig} → Permᴰ xs ys → All P ys → All P xs
All-Perm P Permᴰ.nil h = tt
All-Perm P (Permᴰ.cons e p) (q, h) = (subst P (sym e) q, All-Perm P p h)
All-Perm P (Permᴰ.swap e f) (q, (r, h)) = (subst P (sym e) r, (subst P (sym f) q, h))
All-Perm P (Permᴰ.trans p q) h = All-Perm P p (All-Perm P q h)

IsBefore-all :
    (a b : DeployConfig) (ds : List DeployConfig)
    → IsBefore a b
    → All (IsBefore b) ds
    → All (IsBefore a) ds
IsBefore-all a b [] h k = tt
IsBefore-all a b (d ∷ ds) h (k, ks) = (IsBefore-trans a b d h k, IsBefore-all a b ds h ks)

insert_sorted-IsSorted :
    (dc : DeployConfig) (ds : List DeployConfig) → IsSorted ds → IsSorted (insert_sorted dc ds)
unfolding insert_sorted
insert_sorted-IsSorted dc [] h = (tt, tt)
insert_sorted-IsSorted dc (d ∷ ds) (h, k) = elim (Bool-cases (less d dc)) [
  | inl e ↦ rw (e) (
    All-Perm (IsBefore d) (insert_sorted-Perm dc ds) (less-IsBefore d dc e, h),
    insert_sorted-IsSorted dc ds k,
  )
  | inr e ↦ let b = not_less-IsBefore d dc e in rw (e) ((b, IsBefore-all dc d ds b h), (h, k))
]

-- Sorting a list of services keeps its services, each as often as it occurs. Each stands before
-- all that follow it: its role is the lesser text, or the roles are the same and the number of
-- its host is smaller, or these are the same too and the number of its replica is not larger.
pub sort_deploy_configs-IsSorted :
    (dcs : List DeployConfig)
    → IsSorted (sort_deploy_configs dcs) × Permᴰ (sort_deploy_configs dcs) dcs
unfolding sort_deploy_configs
sort_deploy_configs-IsSorted [] = (tt, Permᴰ.refl [])
sort_deploy_configs-IsSorted (dc ∷ dcs) =
    let (s, p) = sort_deploy_configs-IsSorted dcs in
    (
      insert_sorted-IsSorted dc (sort_deploy_configs dcs) s,
      Permᴰ.trans (insert_sorted-Perm dc (sort_deploy_configs dcs)) (Permᴰ.cons refl p),
    )

pub length-sort_deploy_configs :
    (dcs : List DeployConfig) → length (sort_deploy_configs dcs) ≡ length dcs
length-sort_deploy_configs dcs = length-Perm (sort_deploy_configs-IsSorted dcs).1

pub sort_deploy_configs-All :
    (P : DeployConfig → Type 0) (dcs : List DeployConfig)
    → All P dcs
    → All P (sort_deploy_configs dcs)
sort_deploy_configs-All P dcs = All-Perm P (sort_deploy_configs-IsSorted dcs).1
