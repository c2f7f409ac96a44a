-- ===== src/Topology/Convert/Typed.antt =====
-- After `convert` every configured item has the type that it requires.
use curveadm.Prelude.{
  ℕ, String, ◌≡◌, refl, sym, ◌∙◌, ap, subst, Bool, true, false, some, List, [], ◌∷◌, inl, inr,
  arith, All, Dict, lookup, eq_iff, ◌==◌, ok, bind-eq-ok, wrap, Bool-cases, if◌then◌else◌,
}
use curveadm.Errno.{rendering_variable_failed, resolve_variable_failed}
use curveadm.Config.Value.{Value, text}
use curveadm.Variables.{Variables, build, rendering}
use curveadm.Topology.DeployConfig.{DeployConfig}
use curveadm.Topology.Item.{Item, itemset}
use curveadm.Topology.Convert.{
  text_of, init_service_config, convert_item, convert_items, convert, render_config,
  render_variables, build_config,
}
use curveadm.Topology.Convert.Items.{HasType, IsText, Stepped, convert_item-Stepped}

-- The items that are left have texts.
abbrev Pending : List Item → DeployConfig → Type 0
Pending is dc = All (λ i. (v : Value) → lookup i.key dc.config ≡ some v → IsText v) is

abbrev Fresh : String → List Item → Type 0
Fresh k = All (λ i. (i.key == k) ≡ false)

abbrev Distinct : List Item → Type 0
Distinct [] = Unit
Distinct (i ∷ is) = All (λ j. (i.key == j.key) ≡ false) is × Distinct is

record Converts (is : List Item) (dc dc' : DeployConfig) : Type 0 where
  rest : record dc { config = dc'.config } ≡ dc'
  others : (k : String) → Fresh k is → lookup k dc'.config ≡ lookup k dc.config
  typed : All (λ i. (v : Value) → lookup i.key dc'.config ≡ some v → HasType i.require v) is

Pending-step :
    (i : Item) (is : List Item) (dc dc' : DeployConfig)
    → Stepped i dc dc'
    → All (λ j. (i.key == j.key) ≡ false) is
    → Pending is dc
    → Pending is dc'
Pending-step i [] dc dc' s d h = tt
Pending-step i (j ∷ is) dc dc' s (d, ds) (p, h) =
    (λ v e. p v (sym (s.others j.key d) ∙ e), Pending-step i is dc dc' s ds h)

Fresh-sym : (i : Item) (is : List Item) → All (λ j. (i.key == j.key) ≡ false) is → Fresh i.key is
Fresh-sym i [] h = tt
Fresh-sym i (j ∷ is) (e, h) =
    (ground (arith, eq_iff i.key j.key, eq_iff j.key i.key), Fresh-sym i is h)

convert_items-Converts :
    (is : List Item) (dc : DeployConfig) {dc' : DeployConfig}
    → Distinct is
    → Pending is dc
    → convert_items is dc ≡ ok dc'
    → Converts is dc dc'
unfolding convert_items
convert_items-Converts [] dc d p h =
    subst (Converts [] dc) (cc) (record { rest = refl; others = λ k f. refl; typed = tt })
convert_items-Converts (i ∷ is) dc {dc'} (d, ds) (p, ps) h =
    let (dc1, e, h') = bind-eq-ok (convert_item i dc) (convert_items is) h in
    let s = convert_item-Stepped i dc p e in
    let c = convert_items-Converts is dc1 ds (Pending-step i is dc dc1 s d ps) h' in
    record {
      rest = ap (λ (x : DeployConfig). record x { config = dc'.config }) s.rest ∙ c.rest;
      others = λ k (f, fs). c.others k fs ∙ s.others k f;
      typed = (λ v l. s.typed v (sym (c.others i.key (Fresh-sym i is d)) ∙ l), c.typed);
    }

abbrev fresh_in : String → List Item → Bool
fresh_in k [] = true
fresh_in k (j ∷ is) = if k == j.key then false else fresh_in k is

abbrev distinct : List Item → Bool
distinct [] = true
distinct (i ∷ is) = if fresh_in i.key is then distinct is else false

fresh_in-All :
    (i : Item) (is : List Item) → fresh_in i.key is ≡ true → All (λ j. (i.key == j.key) ≡ false) is
fresh_in-All i [] h = tt
fresh_in-All i (j ∷ is) h = elim (Bool-cases (i.key == j.key)) [
  | inl e ↦ cc (rw (e, fresh_in) at h)
  | inr e ↦ (e, fresh_in-All i is (rw (e, fresh_in) at h))
]

distinct-Distinct : (is : List Item) → distinct is ≡ true → Distinct is
distinct-Distinct [] h = tt
distinct-Distinct (i ∷ is) h = elim (Bool-cases (fresh_in i.key is)) [
  | inl e ↦ (fresh_in-All i is e, distinct-Distinct is (rw (e, distinct) at h))
  | inr e ↦ cc (rw (e, distinct) at h)
]

itemset-Distinct : Distinct itemset
unfolding itemset
itemset-Distinct = distinct-Distinct itemset refl

abbrev AllTexts : Dict Value → Type 0
AllTexts m = (k : String) (v : Value) → lookup k m ≡ some v → IsText v

render_config-AllTexts :
    (vars : Variables) (m : Dict Value) {m' : Dict Value}
    → render_config vars m ≡ ok m'
    → AllTexts m'
unfolding render_config lookup
render_config-AllTexts vars [] h k v l = cc
render_config-AllTexts vars ((j, w) ∷ m) {m'} h k v l =
    let (s, e, h1) = bind-eq-ok (text_of w) _ h in
    let (r, e1, h2) = bind-eq-ok (wrap rendering_variable_failed (rendering vars s)) _ h1 in
    let (rest, e2, h3) = bind-eq-ok (render_config vars m) _ h2 in
    let same : (j, text r) ∷ rest ≡ m' = cc in
    let l' : lookup k ((j, text r) ∷ rest) ≡ some v =
      subst (λ (x : Dict Value). lookup k x ≡ some v) (sym same) l in
    elim (Bool-cases (j == k)) [
      | inl q ↦ let at_head : text r ≡ v = cc (rw q at l') in (r, sym at_head)
      | inr q ↦ render_config-AllTexts vars m e2 k v (rw q at l')
    ]

Pending-texts : (is : List Item) (dc : DeployConfig) → AllTexts dc.config → Pending is dc
Pending-texts [] dc h = tt
Pending-texts (i ∷ is) dc h = (λ v. h i.key v, Pending-texts is dc h)

-- What `Build` leaves alone, and the types that it gives to the items.
pub record IsConverted (dc dc' : DeployConfig) : Type 0 where
  pub kind : dc'.kind ≡ dc.kind
  pub role : dc'.role ≡ dc.role
  pub hostname : dc'.hostname ≡ dc.hostname
  pub typed :
      All (λ i. (v : Value) → lookup i.key dc'.config ≡ some v → HasType i.require v) itemset

convert-IsConverted :
    (dc : DeployConfig) {dc' : DeployConfig}
    → AllTexts dc.config
    → convert dc ≡ ok dc'
    → IsConverted dc dc'
unfolding convert
convert-IsConverted dc {dc'} t h =
    let (sc, e, h') = bind-eq-ok (init_service_config dc.config dc.service_config) _ h in
    let dc1 : DeployConfig = record dc { service_config = sc } in
    let c = convert_items-Converts itemset dc1 itemset-Distinct (Pending-texts itemset dc1 t) h' in
    record {
      kind = ap (λ (x : DeployConfig). x.kind) (sym c.rest);
      role = ap (λ (x : DeployConfig). x.role) (sym c.rest);
      hostname = ap (λ (x : DeployConfig). x.hostname) (sym c.rest);
      typed = c.typed;
    }

record IsRendered (dc dc' : DeployConfig) : Type 0 where
  kind : dc'.kind ≡ dc.kind
  role : dc'.role ≡ dc.role
  hostname : dc'.hostname ≡ dc.hostname
  texts : AllTexts dc'.config

render_variables-IsRendered :
    (stack : ℕ) (dc : DeployConfig) {dc' : DeployConfig}
    → render_variables stack dc ≡ ok dc'
    → IsRendered dc dc'
unfolding render_variables
render_variables-IsRendered stack dc {dc'} h =
    let (vars, e1, h1) = bind-eq-ok (wrap resolve_variable_failed (build stack dc.variables)) _ h in
    let (name, e2, h2) =
      bind-eq-ok (wrap rendering_variable_failed (rendering vars dc.name)) _ h1 in
    let (id, e3, h3) = bind-eq-ok (wrap rendering_variable_failed (rendering vars dc.id)) _ h2 in
    let (parent_id, e4, h4) =
      bind-eq-ok (wrap rendering_variable_failed (rendering vars dc.parent_id)) _ h3 in
    let (config, e5, h5) = bind-eq-ok (render_config vars dc.config) _ h4 in
    let dc1 : DeployConfig = record dc {
      name = name;
      id = id;
      parent_id = parent_id;
      config = config;
      variables = vars;
    } in
    let same : dc1 ≡ dc' = cc in
    subst (IsRendered dc) same (record {
      kind = refl;
      role = refl;
      hostname = refl;
      texts = render_config-AllTexts vars dc.config e5;
    })

-- When the build of a service returns, the service keeps its kind, role and host name, and each
-- of its configured items has the type that the item requires: a text that is not empty, a
-- boolean, an integer or a positive integer.
pub build_config-IsConverted :
    (stack : ℕ) (dc : DeployConfig) {dc' : DeployConfig}
    → build_config stack dc ≡ ok dc'
    → IsConverted dc dc'
unfolding build_config render_variables
build_config-IsConverted stack dc {dc'} h =
    let (dc1, r, c) = bind-eq-ok (render_variables stack dc) convert h in
    let q = render_variables-IsRendered stack dc r in
    let t = convert-IsConverted dc1 q.texts c in
    record {
      kind = t.kind ∙ q.kind;
      role = t.role ∙ q.role;
      hostname = t.hostname ∙ q.hostname;
      typed = t.typed;
    }
