-- ===== src/Command/Checks.antt =====
-- What the checks of `scale-out` and `migrate` accept.
use curveadm.Prelude.{
  ℕ, ◌+◌, ◌≤◌, String, ◌≡◌, refl, ◌⊎◌, ◌↔◌, inl, inr, arith, eq_iff, Bool, true, false, not, ◌||◌,
  ◌==◌, Bool-cases, ltb, List, [], ◌∷◌, List-cases, length, contains, All, ok, guard, ◌>>◌,
  if◌then◌else◌,
}
use curveadm.Errno.{Code, Fallible}
use curveadm.Topology.DeployConfig.{DeployConfig, role_chunkserver, role_metaserver}
use curveadm.Topology.Diff.{diff_add, diff_delete, TopologyDiff}
use curveadm.Command.Services.{of_type, all_role, is_same_role, host_num_from, get_host_num}
use curveadm.Command.ScaleOut.{is_empty, enough_hosts, check_scale_out_topology}

abbrev pub HasRole : String → List DeployConfig → Type 0
HasRole role = All (λ dc. dc.role ≡ role)

all_role-HasRole :
    (role : String) (dcs : List DeployConfig) → (all_role role dcs ≡ true) ↔ HasRole role dcs
unfolding all_role
all_role-HasRole role [] = (λ _. tt, λ _. refl)
all_role-HasRole role (dc ∷ dcs) = elim (Bool-cases (dc.role == role)) [
  | inl e ↦ (
    λ h. ((eq_iff dc.role role).0 e, (all_role-HasRole role dcs).0 (rw e at h)),
    λ a. rw (e) ((all_role-HasRole role dcs).1 a.1),
  )
  | inr e ↦ (λ h. cc (rw e at h), λ a. cc (e, (eq_iff dc.role role).1 a.0))
]

abbrev pub parents : List DeployConfig → List String
parents [] = []
parents (dc ∷ dcs) = dc.parent_id ∷ parents dcs

-- The texts that are not seen before, once each
abbrev pub distinct : List String → List String → List String
distinct seen [] = []
distinct seen (x ∷ xs) = if contains seen x then distinct seen xs else x ∷ distinct (x ∷ seen) xs

host_num_from-distinct :
    (seen : List String) (num : ℕ) (dcs : List DeployConfig)
    → host_num_from seen num dcs ≡ num + length (distinct seen (parents dcs))
unfolding host_num_from
host_num_from-distinct seen num [] = omega arith
host_num_from-distinct seen num (dc ∷ dcs) = elim (Bool-cases (contains seen dc.parent_id)) [
  | inl h ↦ rw (h) (host_num_from-distinct seen num dcs)
  | inr h ↦ rw (h) (omega (arith, host_num_from-distinct (dc.parent_id ∷ seen) (num + 1) dcs))
]

pub get_host_num-distinct :
    (dcs : List DeployConfig) → get_host_num dcs ≡ length (distinct [] (parents dcs))
unfolding get_host_num
get_host_num-distinct dcs = omega (arith, host_num_from-distinct [] 0 dcs)

guard-true : (b : Bool) (e : Code) → guard b e ≡ ok tt → b ≡ true
guard-true true e h = refl
guard-true false e h = cc

is_empty-true : (dcs : List DeployConfig) → is_empty dcs ≡ true → dcs ≡ []
is_empty-true [] h = refl
is_empty-true (dc ∷ dcs) h = cc

-- A topology that only adds services, at least one, all of one role, and chunkservers and metaservers
-- with three distinct parent ids at least.
pub record IsGrowth (diffs : List TopologyDiff) : Type 0 where
  pub keeps : of_type diff_delete diffs ≡ []
  pub dc : DeployConfig
  pub rest : List DeployConfig
  pub adds : of_type diff_add diffs ≡ dc ∷ rest
  pub role : HasRole dc.role (dc ∷ rest)
  pub spread :
      ((dc.role == role_chunkserver || dc.role == role_metaserver) ≡ false)
      ⊎ (3 ≤ length (distinct [] (parents (dc ∷ rest))))

three : (num : ℕ) → 3 ≤ num → ltb num 3 ≡ false
three num h = ground arith

enough : (num : ℕ) (e : Code) → guard (not (ltb num 3)) e ≡ ok tt → 3 ≤ num
enough num e h = let g = guard-true (not (ltb num 3)) e h in ground arith

enough_hosts_iff :
    (role : String) (num : ℕ)
    → (enough_hosts role num ≡ ok tt)
      ↔ (((role == role_chunkserver || role == role_metaserver) ≡ false) ⊎ (3 ≤ num))
unfolding enough_hosts
enough_hosts_iff role num = elim (Bool-cases (role == role_chunkserver)) [
  | inl e ↦
      rw (e) (λ h. inr (enough num _ h), λ g. elim g [ inl f ↦ cc | inr f ↦ rw (three num f) refl ])
  | inr e ↦ elim (Bool-cases (role == role_metaserver)) [
    | inl e' ↦
        rw (e, e')
          (λ h. inr (enough num _ h), λ g. elim g [ inl f ↦ cc | inr f ↦ rw (three num f) refl ])
    | inr e' ↦ rw (e, e') (λ h. inl refl, λ g. refl)
  ]
]

pub guard-bind :
    {A : Type 0} (b : Bool) (e : Code) (k : Fallible A) {a : A}
    → (guard b e >> k) ≡ ok a
    → (b ≡ true) × (k ≡ ok a)
guard-bind true e k h = (refl, h)
guard-bind false e k h = cc

accepted : (diffs : List TopologyDiff) → check_scale_out_topology diffs ≡ ok tt → IsGrowth diffs
unfolding check_scale_out_topology is_same_role get_host_num
accepted diffs h =
    let (none_deleted, h1) = guard-bind (is_empty (of_type diff_delete diffs)) _ _ h in
    elim (List-cases (of_type diff_add diffs)) [
      | inl same ↦ cc (rw same at h1)
      | inr (dc, rest, same) ↦
          let h2 = rw same at h1 in
          let (one, h3) = guard-bind (all_role dc.role (dc ∷ rest)) _ _ h2 in
          record {
            keeps = is_empty-true (of_type diff_delete diffs) none_deleted;
            dc = dc;
            rest = rest;
            adds = same;
            role = (all_role-HasRole dc.role (dc ∷ rest)).0 one;
            spread = (enough_hosts_iff dc.role _).0 (rw (← get_host_num-distinct (dc ∷ rest)) h3);
          }
    ]

complete : (diffs : List TopologyDiff) → IsGrowth diffs → check_scale_out_topology diffs ≡ ok tt
unfolding check_scale_out_topology is_same_role get_host_num
complete diffs w =
    rw (w.keeps, w.adds, (all_role-HasRole w.dc.role (w.dc ∷ w.rest)).1 w.role)
      ((enough_hosts_iff w.dc.role _).1 (rw (get_host_num-distinct (w.dc ∷ w.rest)) w.spread))

-- The check of a topology to scale out accepts exactly the differences that delete no service,
-- add one at least, add services of one role only and, for chunkservers and metaservers, services
-- with at least three distinct parent ids.
pub check_scale_out_topology-IsGrowth :
    (diffs : List TopologyDiff) → (check_scale_out_topology diffs ≡ ok tt) ↔ IsGrowth diffs
check_scale_out_topology-IsGrowth diffs = (accepted diffs, complete diffs)
