-- ===== src/Checker/Enough.antt =====
-- What the check of the numbers of services and hosts accepts.
use curveadm.Prelude.{
  ℕ, ◌≤◌, String, ◌≡◌, refl, sym, subst, fun_ext, ◌⊎◌, ◌↔◌, inl, inr, arith, Bool, true, false, not,
  ◌||◌, ◌&&◌, ◌==◌, Bool-cases, ltb, leb, nat_eq, List, [], ◌∷◌, map, All, length, ok, guard,
  bind-eq-ok,
}
use curveadm.Errno.{Code}
use curveadm.Topology.DeployConfig.{
  DeployConfig, role_etcd, role_mds, role_chunkserver, role_snapshotclone, role_metaserver,
}
use curveadm.Command.Services.{filter_by_role, get_host_num}
use curveadm.Command.Checks.{distinct, parents, get_host_num-distinct}
use curveadm.Checker.{skip, enough, check_roles, service_items, host_items, check_services}

-- Three at least, and under the weak check no snapshotclone at all is right too.
abbrev pub Enough : Bool → String → ℕ → Type 0
Enough weak role num = (3 ≤ num) ⊎ ((weak && role == role_snapshotclone ≡ true) × (num ≡ 0))

guard-true : (b : Bool) (e : Code) → guard b e ≡ ok tt → b ≡ true
guard-true true e h = refl
guard-true false e h = cc

weak_test : (num : ℕ) → (3 ≤ num) ⊎ (num ≡ 0) → nat_eq num 0 || leb 3 num ≡ true
weak_test num h = ground arith

strong_test : (num : ℕ) → 3 ≤ num → ltb num 3 ≡ false
strong_test num h = ground arith

enough_iff :
    (weak : Bool) (role : String) (num : ℕ) (e : Code)
    → (enough weak role num e ≡ ok tt) ↔ Enough weak role num
unfolding enough
enough_iff weak role num e = elim (Bool-cases (weak && role == role_snapshotclone)) [
  | inl b ↦ rw (b) (
    λ h. (let g = guard-true (nat_eq num 0 || leb 3 num) e h in ground arith),
    λ h. rw (weak_test num (elim h [ inl three ↦ inl three | inr (_, z) ↦ inr z ])) refl,
  )
  | inr b ↦ rw (b) (
    λ h. (let g = guard-true (not (ltb num 3)) e h in ground arith),
    λ h. elim h [ inl three ↦ rw (strong_test num three) refl | inr (t, _) ↦ cc ],
  )
]

-- Each role but those that are skipped has enough services or hosts.
abbrev pub EachEnough :
    (List DeployConfig → ℕ) → String → Bool → Bool → List DeployConfig → List String → Type 0
EachEnough number kind skip_snapshotclone weak dcs = All (λ role.
    (skip kind skip_snapshotclone role ≡ true)
    ⊎ Enough weak role (number (filter_by_role dcs role)))

check_roles_iff :
    (number : List DeployConfig → ℕ) (kind : String) (skip_snapshotclone weak : Bool)
    (dcs : List DeployConfig) (items : List (String × Code))
    → (check_roles number kind skip_snapshotclone weak dcs items ≡ ok tt)
      ↔ EachEnough number kind skip_snapshotclone weak dcs (map (λ i. i.0) items)
unfolding check_roles
check_roles_iff number kind ss weak dcs [] = (λ _. tt, λ _. refl)
check_roles_iff number kind ss weak dcs ((role, e) ∷ items) =
    let (there, back) = check_roles_iff number kind ss weak dcs items in
    elim (Bool-cases (skip kind ss role)) [
      | inl b ↦ rw (b) (λ h. (inl refl, there h), λ (_, h). back h)
      | inr b ↦ rw (b) (
        λ h.
            (let (u, f, g) =
                bind-eq-ok (enough weak role (number (filter_by_role dcs role)) e) _ h in
              (inr ((enough_iff weak role (number (filter_by_role dcs role)) e).0 f), there g)),
        λ (s, h). elim s [
          | inl t ↦ cc
          | inr t ↦ rw ((enough_iff weak role (number (filter_by_role dcs role)) e).1 t) (back h)
        ],
      )
    ]

abbrev pub roles : List String
roles = role_etcd ∷ role_mds ∷ role_chunkserver ∷ role_snapshotclone ∷ role_metaserver ∷ []

-- The numbers of the services of each role, and of their hosts
pub record HasEnough (skip_snapshotclone weak : Bool) (kind : String) (dcs : List DeployConfig)
    : Type 0 where
  pub services : EachEnough length kind skip_snapshotclone weak dcs roles
  pub hosts :
      EachEnough (λ ds. length (distinct [] (parents ds))) kind skip_snapshotclone weak dcs roles

by_hosts : get_host_num ≡ (λ ds. length (distinct [] (parents ds)))
by_hosts = fun_ext get_host_num-distinct

-- The check of the numbers accepts a list with a first service exactly when each of the five
-- roles is skipped for the kind of the first service or has at least three services and at least
-- three distinct parent ids among them; under the weak check the snapshotclones may also be none.
pub check_services-HasEnough :
    (skip_snapshotclone weak : Bool) (dc : DeployConfig) (dcs : List DeployConfig)
    → (check_services skip_snapshotclone weak (dc ∷ dcs) ≡ ok tt)
      ↔ HasEnough skip_snapshotclone weak dc.kind (dc ∷ dcs)
unfolding check_services service_items host_items
check_services-HasEnough ss weak dc dcs = (
  λ h.
      (let (u, f, g) =
          bind-eq-ok (check_roles length dc.kind ss weak (dc ∷ dcs) service_items) _ h in
        record {
          services = (check_roles_iff length dc.kind ss weak (dc ∷ dcs) service_items).0 f;
          hosts =
              subst (λ f. EachEnough f dc.kind ss weak (dc ∷ dcs) roles) by_hosts
                ((check_roles_iff get_host_num dc.kind ss weak (dc ∷ dcs) host_items).0 g);
        }),
  λ w. rw ((check_roles_iff length dc.kind ss weak (dc ∷ dcs) service_items).1 w.services) (
      (check_roles_iff get_host_num dc.kind ss weak (dc ∷ dcs) host_items).1
        (subst (λ f. EachEnough f dc.kind ss weak (dc ∷ dcs) roles) (sym by_hosts) w.hosts)),
)
