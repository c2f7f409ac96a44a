-- ===== src/Checker/Duplicates.antt =====
-- What the check of the data directories accepts.
use curveadm.Prelude.{
  String, ◌≡◌, refl, sym, subst, ◌↔◌, inl, inr, Bool-cases, List, [], ◌∷◌, concat, contains, IsNew,
  ◌==◌, ok, ◌>>=◌, bind-eq-ok, WhenOk, if◌then◌else◌,
}
use curveadm.Errno.{Fallible}
use curveadm.Topology.DeployConfig.{DeployConfig}
use curveadm.Topology.Layout.{get_data_dir}
use curveadm.Checker.{data_directories_from, check_data_directory_duplicate}

abbrev key_of : DeployConfig → String → String
key_of dc dir = concat (dc.host ∷ ":" ∷ dir ∷ [])

-- The hosts and data directories of the services that have one
unfoldable pub data_directories : List DeployConfig → Fallible (List String)
data_directories [] = ok []
data_directories (dc ∷ dcs) = do
  dir ← get_data_dir dc
  rest ← data_directories dcs
  ok (if dir == "" then rest else key_of dc dir ∷ rest)

directories-IsNew :
    (used : List String) (dcs : List DeployConfig)
    → data_directories_from used dcs ≡ ok tt
    → (ks : List String) × (data_directories dcs ≡ ok ks) × IsNew used ks
unfolding data_directories_from data_directories
directories-IsNew used [] h = ([], refl, tt)
directories-IsNew used (dc ∷ dcs) h =
    let (dir, e, h1) = bind-eq-ok (get_data_dir dc) _ h in
    elim (Bool-cases (dir == "")) [
      | inl b ↦
          let (ks, f, n) = directories-IsNew used dcs (rw b at h1) in (ks, rw (e, f, b) refl, n)
      | inr b ↦ elim (Bool-cases (contains used (key_of dc dir))) [
        | inl c ↦ cc (rw (b, c) at h1)
        | inr c ↦
            let (ks, f, n) = directories-IsNew (key_of dc dir ∷ used) dcs (rw (b, c) at h1) in
            (key_of dc dir ∷ ks, rw (e, f, b) refl, (c, n))
      ]
    ]

directories-accepts :
    (used : List String) (dcs : List DeployConfig) {ks : List String}
    → data_directories dcs ≡ ok ks
    → IsNew used ks
    → data_directories_from used dcs ≡ ok tt
unfolding data_directories_from data_directories
directories-accepts used [] e h = refl
directories-accepts used (dc ∷ dcs) {ks} e h =
    let (dir, f, e1) = bind-eq-ok (get_data_dir dc) _ e in
    let (rest, g, e2) = bind-eq-ok (data_directories dcs) _ e1 in
    let n = subst (WhenOk (IsNew used)) (sym e2) h in
    elim (Bool-cases (dir == "")) [
      | inl b ↦ rw (f, b) (directories-accepts used dcs g (rw b at n))
      | inr b ↦
          let (c, m) : IsNew used (key_of dc dir ∷ rest) = rw b at n in
          rw (f, b, c) (directories-accepts (key_of dc dir ∷ used) dcs g m)
    ]

-- The check of the data directories accepts exactly the lists of services whose data directories
-- can all be read and where no two services that have one give the same text, the host and the
-- directory with a colon between.
pub check_data_directory_duplicate_iff :
    (dcs : List DeployConfig)
    → (check_data_directory_duplicate dcs ≡ ok tt)
      ↔ ((ks : List String) × (data_directories dcs ≡ ok ks) × IsNew [] ks)
unfolding check_data_directory_duplicate
check_data_directory_duplicate_iff dcs =
    (directories-IsNew [] dcs, λ (ks, e, h). directories-accepts [] dcs e h)
