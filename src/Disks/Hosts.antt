-- ===== src/Disks/Hosts.antt =====
-- What a disk is, and the hosts that are excluded from it.
use curveadm.Prelude.{
  ℕ, ◌≤◌, String, ◌≡◌, refl, sym, subst, arith, ◌==◌, eq_iff, eq_refl, true, false, not, inl, inr,
  Bool-cases, List, [], ◌∷◌, Dict, All, All-map, lookup, insert, Values, Values-insert, pos, ok,
  contains, keep, IsNew,
}
use curveadm.Config.Value.{Value, is_nil}
use curveadm.Config.Items.{AllFit, Fits}
use curveadm.Hosts.{fill_in}
use curveadm.Disks.{
  DiskConfig, disk_itemset, get_hosts, get_host_exclude, get_device, get_mount_point,
  get_format_percent, are_none,
}

-- A disk: it has hosts, which are distinct and none of which is excluded, a device, a mount point,
-- and a share of at most a hundred.
pub record IsDisk (dc : DiskConfig) : Type 0 where
  pub hosts :
      (hs : List String) × (xs : List String) × (get_hosts dc ≡ ok hs)
      × (get_host_exclude dc ≡ ok xs)
      × (are_none hs ≡ false)
      × IsNew [] hs
      × All (λ x. contains hs x ≡ false) xs
  pub device : (s : String) × (get_device dc ≡ ok s) × ((s == "") ≡ false)
  pub mount_point : (s : String) × (get_mount_point dc ≡ ok s) × ((s == "") ≡ false)
  pub percent : (n : ℕ) × (get_format_percent dc ≡ ok (pos n)) × (1 ≤ n) × (n ≤ 100)

-- No device and no mount point is one of `seen` or one of another disk.
abbrev pub AreApart : List String → List DiskConfig → Type 0
AreApart seen [] = Unit
AreApart seen (dc ∷ dcs) =
    (d : String) × (m : String) × (get_device dc ≡ ok d)
    × (get_mount_point dc ≡ ok m)
    × (contains seen d ≡ false)
    × (contains seen m ≡ false)
    × AreApart (m ∷ d ∷ seen) dcs

pub kept_out :
    (xs hs : List String) (x : String)
    → contains xs x ≡ true
    → contains (keep (λ h. not (contains xs h)) hs) x ≡ false
unfolding contains keep
kept_out xs [] x e = refl
kept_out xs (h ∷ hs) x e = elim (Bool-cases (contains xs h)) [
  | inl f ↦ rw (f) (kept_out xs hs x e)
  | inr f ↦ elim (Bool-cases (h == x)) [
    | inl g ↦
        let same : contains xs h ≡ true =
          subst (λ y. contains xs y ≡ true) (sym ((eq_iff h x).0 g)) e in
        cc
    | inr g ↦ rw (f) (rw (g) (kept_out xs hs x e))
  ]
]

pub all_members : (xs : List String) → All (λ x. contains xs x ≡ true) xs
unfolding contains
all_members [] = tt
all_members (x ∷ xs) = (
  rw (eq_refl) refl,
  All-map (λ y. contains xs y ≡ true) (λ y. contains (x ∷ xs) y ≡ true) (λ y e. ground (arith, e))
      xs (all_members xs),
)

pub AllFit-insert :
    (k : String) (v : Value) (config : Dict Value)
    → Fits disk_itemset k v
    → AllFit disk_itemset config
    → AllFit disk_itemset (insert k v config)
unfolding insert
AllFit-insert k v [] p h = (p, tt)
AllFit-insert k v ((j, w) ∷ config) p (q, h) = elim (Bool-cases (j == k)) [
  | inl e ↦ rw (e) (subst (λ i. Fits disk_itemset i v) (sym ((eq_iff j k).0 e)) p, h)
  | inr e ↦ rw (e) (q, AllFit-insert k v config p h)
]

pub fill_in-Values :
    (P : Value → Type 0) (parent child : Dict Value)
    → Values P parent
    → Values P child
    → Values P (fill_in parent child)
unfolding fill_in
fill_in-Values P [] child h g = g
fill_in-Values P ((k, v) ∷ parent) child (p, h) g = elim (Bool-cases (is_nil (lookup k child))) [
  | inl e ↦ rw (e) (fill_in-Values P parent (insert k v child) h (Values-insert P k v child p g))
  | inr e ↦ rw (e) (fill_in-Values P parent child h g)
]
