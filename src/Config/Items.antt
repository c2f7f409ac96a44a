-- ===== src/Config/Items.antt =====
-- What is configured has the types that the items require, so the getters do not panic.
use curveadm.Prelude.{
  ℕ, suc, String, ◌≡◌, refl, subst, ◌==◌, ◌||◌, Option, none, some, List, [], ◌∷◌, Dict, lookup, ℤ,
  pos, Bool-cases, Option-cases, inl, inr, Ends, guard-Ends, All, eq_iff,
}
use curveadm.Errno.{unsupport_configure_value_type}
use curveadm.Config.Value.{Value, all_to_str, atoa}
use curveadm.Topology.Item.{
  require_string, require_bool, require_positive_integer, require_string_slice, as_string, as_int,
  as_bool,
}
use curveadm.Config.ItemSet.{
  CommItem, find_comm_item, is_any_slice, has_text, build_found, item_build, get_item, item_string,
  item_int, item_bool, as_texts, item_texts,
}
use curveadm.Config.Built.{build_as-Ends, IsBuilt, Admits}

-- What an item that was found requires
abbrev pub FitsItem : Option CommItem → Value → Type 0
FitsItem none v = Unit
FitsItem (some i) v = IsBuilt i.require v

abbrev pub AdmitsItem : Type 0 → Option CommItem → Value → Type 0
AdmitsItem N none v = Unit
AdmitsItem N (some i) v = Admits N i.require v

pub find_comm_item-Admits :
    (N : Type 0) (v : Value) (items : List CommItem)
    → All (λ i. Admits N i.require v) items
    → (key : String) → AdmitsItem N (find_comm_item key items) v
unfolding find_comm_item
find_comm_item-Admits N v [] h key = tt
find_comm_item-Admits N v (i ∷ items) (a, h) key = elim (Bool-cases (i.key == key)) [
  | inl e ↦ rw (e) a
  | inr e ↦ rw (e) (find_comm_item-Admits N v items h key)
]

build_found-Ends :
    (N : Type 0) (o : Option CommItem) (value : Value)
    → AdmitsItem N o value
    → Ends N (FitsItem o) (build_found o value)
build_found-Ends N none value a = tt
build_found-Ends N (some i) value a =
    guard-Ends N (IsBuilt i.require) (has_text (all_to_str value) || is_any_slice value)
      unsupport_configure_value_type _ (λ _. build_as-Ends N i.require (atoa value) value a)

-- The value of a known key has the type of the key's item.
abbrev pub Fits : List CommItem → String → Value → Type 0
Fits items key v = FitsItem (find_comm_item key items) v

pub item_build-Ends :
    (N : Type 0) (items : List CommItem) (key : String) (value : Value)
    → AdmitsItem N (find_comm_item key items) value
    → Ends N (Fits items key) (item_build items key value)
unfolding item_build
item_build-Ends N items key value a = build_found-Ends N (find_comm_item key items) value a

-- Every entry of a configuration fits the items.
abbrev pub AllFit : List CommItem → Dict Value → Type 0
AllFit items config = All (λ (e : String × Value). Fits items e.0 e.1) config

pub AllFit-lookup :
    (items : List CommItem) (config : Dict Value) (k : String) {v : Value}
    → AllFit items config
    → lookup k config ≡ some v
    → Fits items k v
unfolding lookup
AllFit-lookup items [] k h e = cc
AllFit-lookup items ((j, w) ∷ config) k {v} (p, h) e = elim (Bool-cases (j == k)) [
  | inl f ↦
      let same : w ≡ v = cc (rw f at e) in
      subst (Fits items k) same (subst (λ x. Fits items x w) ((eq_iff j k).0 f) p)
  | inr f ↦ AllFit-lookup items config k h (rw f at e)
]

-- The value of an item, configured or by default
get_item-lem :
    (items : List CommItem) (config : Dict Value) (i : CommItem) (P : Value → Type 0)
    → AllFit items config
    → find_comm_item i.key items ≡ some i
    → P i.default
    → ((v : Value) → IsBuilt i.require v → P v)
    → P (get_item config i)
unfolding get_item
get_item-lem items config i P h f d g = elim (Option-cases (lookup i.key config)) [
  | inl e ↦ rw (e) d
  | inr (v, e) ↦ rw (e) (g v (subst (λ o. FitsItem o v) f (AllFit-lookup items config i.key h e)))
]

-- The getters of items whose default has the type that they return
module _ (N : Type 0) (items : List CommItem) (config : Dict Value) (h : AllFit items config) where
  pub item_string-Ends :
      (i : CommItem)
      → find_comm_item i.key items ≡ some i
      → i.require ≡ require_string
      → Ends N (λ _. Unit) (as_string i.default)
      → Ends N (λ _. Unit) (item_string config i)
  unfolding item_string as_string
  item_string-Ends i f r d =
      get_item-lem items config i (λ v. Ends N (λ _. Unit) (as_string v)) h f d
        (λ v b. let (s, e, _) = subst (λ q. IsBuilt q v) r b in rw (e) tt)

  pub item_bool-Ends :
      (i : CommItem)
      → find_comm_item i.key items ≡ some i
      → i.require ≡ require_bool
      → Ends N (λ _. Unit) (as_bool i.default)
      → Ends N (λ _. Unit) (item_bool config i)
  unfolding item_bool as_bool
  item_bool-Ends i f r d =
      get_item-lem items config i (λ v. Ends N (λ _. Unit) (as_bool v)) h f d
        (λ v b. let (s, e) = subst (λ q. IsBuilt q v) r b in rw (e) tt)

  pub item_texts-Ends :
      (i : CommItem)
      → find_comm_item i.key items ≡ some i
      → i.require ≡ require_string_slice
      → Ends N (λ _. Unit) (as_texts i.default)
      → Ends N (λ _. Unit) (item_texts config i)
  unfolding item_texts
  item_texts-Ends i f r d =
      get_item-lem items config i (λ v. Ends N (λ _. Unit) (as_texts v)) h f d
        (λ v b. let (s, e) = subst (λ q. IsBuilt q v) r b in rw (e) tt)

  pub item_int-positive :
      (i : CommItem)
      → find_comm_item i.key items ≡ some i
      → i.require ≡ require_positive_integer
      → Ends N (λ (n : ℤ). (m : ℕ) × (n ≡ pos (suc m))) (as_int i.default)
      → Ends N (λ (n : ℤ). (m : ℕ) × (n ≡ pos (suc m))) (item_int config i)
  unfolding item_int as_int
  item_int-positive i f r d =
      get_item-lem items config i (λ v. Ends N (λ (n : ℤ). (m : ℕ) × (n ≡ pos (suc m))) (as_int v))
        h f d (λ v b. let (m, e) = subst (λ q. IsBuilt q v) r b in rw (e) (m, refl))
