-- ===== src/Topology/Convert/Items.antt =====
-- What converting one item changes.
use curveadm.Prelude.{
  ℕ, zero, suc, String, ◌≡◌, refl, sym, ◌∙◌, ap, subst, Bool, false, Option, none, some, ◌⊎◌, inl,
  inr, lookup, lookup-insert, eq_refl, ◌==◌, ℤ, pos, negsuc, ok, err, ◌>>=◌, bind-eq-ok, Bool-cases,
  Option-cases,
}
use curveadm.Errno.{
  Code, unsupport_configure_value_type, configure_value_requires_integer,
  configure_value_requires_bool,
}
use curveadm.Config.Value.{Value, null, text, int, bool, all_to_str, str_to_int, str_to_bool}
use curveadm.Topology.DeployConfig.{DeployConfig}
use curveadm.Topology.Item.{
  Item, Require, require_any, require_int, require_string, require_bool, require_positive_integer,
  require_string_slice, get,
}
use curveadm.Topology.Convert.{or_err, positive, convert_text, stored, convert_value, convert_item}

abbrev pub HasType : Require → Value → Type 0
HasType require_int v = (n : ℤ) × (v ≡ int n)
HasType require_positive_integer v = (n : ℕ) × (v ≡ int (pos (suc n)))
HasType require_bool v = (b : Bool) × (v ≡ bool b)
HasType require_string v = (s : String) × (v ≡ text s) × ((s == "") ≡ false)
HasType _ v = Unit

abbrev or_text : Option Value → String → Value
or_text none s = text s
or_text (some v) s = v

int_case :
    (x : Option ℤ) (s : String) (e : Code) {o : Option Value}
    → (or_err x (err e) >>= λ n. ok (some (int n))) ≡ ok o
    → HasType require_int (or_text o s)
int_case none s e h = cc
int_case (some n) s e {o} h =
    let same : some (int n) ≡ o = cc in (n, ap (λ o. or_text o s) (sym same))

bool_case :
    (x : Option Bool) (s : String) (e : Code) {o : Option Value}
    → (or_err x (err e) >>= λ b. ok (some (bool b))) ≡ ok o
    → HasType require_bool (or_text o s)
bool_case none s e h = cc
bool_case (some b) s e {o} h =
    let same : some (bool b) ≡ o = cc in (b, ap (λ o. or_text o s) (sym same))

positive_case :
    (x : Option ℤ) (s : String) (e : Code) {o : Option Value}
    → (or_err x (err e) >>= λ n. positive n >>= λ m. ok (some (int m))) ≡ ok o
    → HasType require_positive_integer (or_text o s)
positive_case none s e h = cc
positive_case (some (pos zero)) s e h = cc
positive_case (some (negsuc n)) s e h = cc
positive_case (some (pos (suc n))) s e {o} h =
    let same : some (int (pos (suc n))) ≡ o = cc in (n, ap (λ o. or_text o s) (sym same))

or_err-eq-ok : {A : Type 0} (o : Option A) (e : Code) {a : A} → or_err o (err e) ≡ ok a → o ≡ some a
or_err-eq-ok none e h = cc
or_err-eq-ok (some a) e h = cc

-- A text that is converted to what is stored, or kept, has the required type.
convert_text-HasType :
    (r : Require) (s : String) {o : Option Value}
    → convert_text r s ≡ ok o
    → HasType r (or_text o s)
unfolding convert_text
convert_text-HasType require_any s h = tt
convert_text-HasType require_string_slice s h = tt
convert_text-HasType require_int s h = int_case (str_to_int s) s configure_value_requires_integer h
convert_text-HasType require_bool s h = bool_case (str_to_bool s) s configure_value_requires_bool h
convert_text-HasType require_positive_integer s h =
    positive_case (str_to_int s) s configure_value_requires_integer h
convert_text-HasType require_string s {o} h = elim (Bool-cases (s == "")) [
  | inl e ↦ absurd (cc (rw e at h))
  | inr e ↦ let same : none ≡ o = cc (rw e at h) in (s, ap (λ o. or_text o s) (sym same), e)
]

abbrev pub IsText : Value → Type 0
IsText v = (s : String) × (v ≡ text s)

abbrev Converted : Item → Value → DeployConfig → DeployConfig → Type 0
Converted i value dc dc' =
    (s : String) × (o : Option Value) × (all_to_str value ≡ some s)
    × (convert_text i.require s ≡ ok o)
    × (stored i.key o dc ≡ dc')

convert_block :
    (i : Item) (value : Value) (dc : DeployConfig) {dc' : DeployConfig}
    → (or_err (all_to_str value) (err unsupport_configure_value_type) >>= λ s.
        convert_text i.require s >>= λ v. ok (stored i.key v dc))
      ≡ ok dc'
    → Converted i value dc dc'
convert_block i value dc h =
    let (s, e, h') =
      bind-eq-ok (or_err (all_to_str value) (err unsupport_configure_value_type)) _ h in
    let (o, e', h'') = bind-eq-ok (convert_text i.require s) _ h' in
    (s, o, or_err-eq-ok (all_to_str value) unsupport_configure_value_type e, e', cc)

convert_value_lem :
    (i : Item) (value : Value) (dc : DeployConfig) {dc' : DeployConfig}
    → convert_value i value dc ≡ ok dc'
    → ((value ≡ null) × (dc ≡ dc')) ⊎ Converted i value dc dc'
unfolding convert_value
convert_value_lem i null dc h = inl (refl, cc)
convert_value_lem i value dc h = inr (convert_block i value dc h)

-- What converting an item changes.
pub record Stepped (i : Item) (dc dc' : DeployConfig) : Type 0 where
  pub rest : record dc { config = dc'.config } ≡ dc'
  pub others : (k : String) → (i.key == k) ≡ false → lookup k dc'.config ≡ lookup k dc.config
  pub typed : (v : Value) → lookup i.key dc'.config ≡ some v → HasType i.require v

Stepped-kept :
    (i : Item) (dc : DeployConfig)
    → ((v : Value) → lookup i.key dc.config ≡ some v → HasType i.require v)
    → Stepped i dc dc
Stepped-kept i dc h = record { rest = refl; others = λ k e. refl; typed = h }

Stepped-stored :
    (i : Item) (w : Value) (dc : DeployConfig)
    → HasType i.require w
    → Stepped i dc (stored i.key (some w) dc)
Stepped-stored i w dc h = record {
  rest = refl;
  others = λ k e. rw lookup-insert (rw e);
  typed = λ v e.
      let same : w ≡ v = cc (rw (lookup-insert, eq_refl) at e) in subst (HasType i.require) same h;
}

get_cases :
    (i : Item) (dc : DeployConfig) {value : Value}
    → get dc i ≡ ok value
    → (lookup i.key dc.config ≡ none) ⊎ (lookup i.key dc.config ≡ some value)
unfolding get
get_cases i dc {value} h = elim (Option-cases (lookup i.key dc.config)) [
  | inl e ↦ inl e
  | inr (v, e) ↦ let same : v ≡ value = cc (rw (e, get) at h) in inr (e ∙ ap some same)
]

Converted-Stepped :
    (i : Item) (value : Value) (dc : DeployConfig) (s : String) (o : Option Value)
    → (lookup i.key dc.config ≡ none) ⊎ (lookup i.key dc.config ≡ some value)
    → ((v : Value) → lookup i.key dc.config ≡ some v → IsText v)
    → all_to_str value ≡ some s
    → convert_text i.require s ≡ ok o
    → Stepped i dc (stored i.key o dc)
unfolding all_to_str
Converted-Stepped i value dc s (some w) g h e x =
    Stepped-stored i w dc (convert_text-HasType i.require s x)
Converted-Stepped i value dc s none (inl n) h e x = Stepped-kept i dc (λ v l. cc)
Converted-Stepped i value dc s none (inr l) h e x = Stepped-kept i dc (λ v l'.
    let (t, k) = h v l' in
    let is_text : value ≡ text t = cc in
    let same : t ≡ s = cc (rw is_text at e) in
    subst (HasType i.require) (ap text (sym same) ∙ sym k) (convert_text-HasType i.require s x))

pub convert_item-Stepped :
    (i : Item) (dc : DeployConfig) {dc' : DeployConfig}
    → ((v : Value) → lookup i.key dc.config ≡ some v → IsText v)
    → convert_item i dc ≡ ok dc'
    → Stepped i dc dc'
unfolding convert_item
convert_item-Stepped i dc h e =
    let (value, g, c) = bind-eq-ok (get dc i) _ e in
    elim (convert_value_lem i value dc c) [
      | inl (n, same) ↦ subst (Stepped i dc) same (
          Stepped-kept i dc
            (λ v l. let (t, k) = h v l in elim (get_cases i dc g) [ inl z ↦ cc | inr z ↦ cc ]))
      | inr (s, o, x, y, same) ↦
          subst (Stepped i dc) same (Converted-Stepped i value dc s o (get_cases i dc g) h x y)
    ]
