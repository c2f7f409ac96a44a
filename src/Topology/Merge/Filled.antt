-- ===== src/Topology/Merge/Filled.antt =====
-- What merging does to what is found under a key.
use curveadm.Prelude.{
  String, ◌≡◌, refl, sym, ◌∙◌, subst, true, false, Option, none, some, [], ◌∷◌, ◌⊎◌, inl, inr,
  arith, Dict, IsMap, lookup, insert, lookup-insert, eq_iff, eq_refl, ◌==◌, ok, Bool-cases,
  text-cases, if◌then◌else◌,
}
use curveadm.Errno.{Fallible}
use curveadm.Config.Value.{Value, Fields, null, dict, to_dict, of_dict, to_dict-of_dict, is_nil}
use curveadm.Topology.Merge.{merge_at}

abbrev orelse : Option Value → Option Value → Option Value
orelse none c = c
orelse (some v) c = some v

-- What a key is at a child: its own value, unless that is nil and the parent has one.
abbrev pub inherited : Option Value → Option Value → Option Value
inherited c p = if is_nil c then orelse p c else c

inherited-none : (v : Value) → inherited (some v) none ≡ some v
inherited-none v = ground arith

pub inherited-nil : (c : Option Value) → c ≡ inherited c none
inherited-nil c = ground arith

-- Filling in one entry of the parent.
fill-lookup :
    (k j : String) (v : Value) (parent child : Dict Value)
    → lookup k parent ≡ none
    → inherited
        (lookup j (if is_nil (lookup k child) then insert k v child else child))
        (lookup j parent)
      ≡ inherited (lookup j child) (lookup j ((k, v) ∷ parent))
unfolding lookup
fill-lookup k j v parent child h = elim (Bool-cases (is_nil (lookup k child))) [
  | inl n ↦ rw n (elim (text-cases k j) [
    | inl e ↦
        subst
          (λ j.
            inherited (lookup j (insert k v child)) (lookup j parent)
            ≡ inherited (lookup j child) (lookup j ((k, v) ∷ parent)))
          e (rw (lookup-insert, eq_refl, h, n) (inherited-none v))
    | inr e ↦ rw (lookup-insert, e) refl
  ])
  | inr n ↦ rw n (elim (text-cases k j) [
    | inl e ↦
        subst
          (λ j.
            inherited (lookup j child) (lookup j parent)
            ≡ inherited (lookup j child) (lookup j ((k, v) ∷ parent)))
          e (rw n)
    | inr e ↦ rw e
  ])
]

-- A map of variables is filled, and never fails.
pub merge_flat :
    (parent child : Dict Value)
    → IsMap parent
    → (m : Dict Value) × (merge_at 0 parent child ≡ ok m)
      × ((j : String) → lookup j m ≡ inherited (lookup j child) (lookup j parent))
unfolding merge_at lookup
merge_flat [] child h = (child, refl, λ j. inherited-nil (lookup j child))
merge_flat ((k, v) ∷ parent) child (fresh, h) =
    let (m, e, f) =
      merge_flat parent (if is_nil (lookup k child) then insert k v child else child) h in
    (m, e, λ j. f j ∙ fill-lookup k j v parent child fresh)

-- The variables of a level.
abbrev pub vars_of : Option Value → Dict Value
vars_of (some (dict fs)) = to_dict fs
vars_of _ = []

-- A level's section of variables is missing or a map.
abbrev pub HasSection : Dict Value → Type 0
HasSection m =
    (lookup "variable" m ≡ none)
    ⊎ ((fs : Fields) × (lookup "variable" m ≡ some (dict fs)) × IsMap (to_dict fs))

abbrev pub HasSectionOrNil : Dict Value → Type 0
HasSectionOrNil m =
    (is_nil (lookup "variable" m) ≡ true) ⊎ ((fs : Fields) × (lookup "variable" m ≡ some (dict fs)))

pub record Merged (parent child m : Dict Value) : Type 0 where
  pub plain :
      (j : String)
      → (j == "variable") ≡ false
      → lookup j m ≡ inherited (lookup j child) (lookup j parent)
  pub variables :
      (n : String)
      → lookup n (vars_of (lookup "variable" m))
        ≡ inherited
            (lookup n (vars_of (lookup "variable" child)))
            (lookup n (vars_of (lookup "variable" parent)))

abbrev pub Merges : Dict Value → Dict Value → Fallible (Dict Value) → Type 0
Merges parent child r = (m : Dict Value) × (r ≡ ok m) × Merged parent child m

abbrev pub filled : String → Value → Dict Value → Dict Value
filled k v child = if is_nil (lookup k child) then insert k v child else child

pub merge_plain :
    (k : String) (v : Value) (parent child : Dict Value)
    → (k == "variable") ≡ false
    → merge_at 1 ((k, v) ∷ parent) child ≡ merge_at 1 parent (filled k v child)
unfolding merge_at
merge_plain k v parent child e = elim (Bool-cases (is_nil (lookup k child))) [
  | inl n ↦ rw (n, merge_at)
  | inr n ↦ rw (n, merge_at) (rw (e, merge_at))
]

pub filled-variable :
    (k : String) (v : Value) (child : Dict Value)
    → (k == "variable") ≡ false
    → lookup "variable" (filled k v child) ≡ lookup "variable" child
filled-variable k v child e = elim (Bool-cases (is_nil (lookup k child))) [
  | inl n ↦ rw n (rw (lookup-insert, e))
  | inr n ↦ rw n
]

lookup-cons_ne :
    (k j : String) (v : Value) (m : Dict Value)
    → (k == j) ≡ false
    → lookup j ((k, v) ∷ m) ≡ lookup j m
unfolding lookup
lookup-cons_ne k j v m e = rw e

lookup-cons_self : (k : String) (v : Value) (m : Dict Value) → lookup k ((k, v) ∷ m) ≡ some v
unfolding lookup
lookup-cons_self k v m = rw eq_refl

pub Merged-plain :
    (k : String) (v : Value) (parent child m : Dict Value)
    → (k == "variable") ≡ false
    → lookup k parent ≡ none
    → Merged parent (filled k v child) m
    → Merged ((k, v) ∷ parent) child m
Merged-plain k v parent child m e fresh h = record {
  plain = λ j p. h.plain j p ∙ fill-lookup k j v parent child fresh;
  variables = λ n.
      rw (lookup-cons_ne k "variable" v parent e)
        (rw (← filled-variable k v child e) (h.variables n));
}

ne_sym : (k j : String) → (k == j) ≡ false → (j == k) ≡ false
ne_sym k j e = ground (arith, eq_iff k j, eq_iff j k)

lookup-nil : (k : String) → lookup {V = Value} k [] ≡ none
unfolding lookup
lookup-nil k = refl

vars-nil : (o : Option Value) → is_nil o ≡ true → vars_of o ≡ []
vars-nil none h = refl
vars-nil (some null) h = refl
vars-nil (some v) h = cc

inherited-none_comm : (o : Option Value) → inherited o none ≡ inherited none o
inherited-none_comm o = ground arith

-- The parent's section where the child has none.
pub Merged-given :
    (fs : Fields) (parent child m : Dict Value)
    → lookup "variable" parent ≡ none
    → is_nil (lookup "variable" child) ≡ true
    → Merged parent (insert "variable" (dict fs) child) m
    → Merged (("variable", dict fs) ∷ parent) child m
Merged-given fs parent child m none_left n h = record {
  plain = λ j p.
      h.plain j p
      ∙ rw (lookup-insert, ne_sym j "variable" p)
          (rw (lookup-cons_ne "variable" j (dict fs) parent (ne_sym j "variable" p)));
  variables = λ k.
      h.variables k
      ∙ rw (lookup-insert, none_left, lookup-cons_self, vars-nil (lookup "variable" child) n)
          (rw (lookup-nil k) (inherited-none_comm (lookup k (to_dict fs))));
}

-- Both have a section.
pub Merged-both :
    (fs cs : Fields) (vars parent child m : Dict Value)
    → lookup "variable" parent ≡ none
    → lookup "variable" child ≡ some (dict cs)
    → ((j : String) → lookup j vars ≡ inherited (lookup j (to_dict cs)) (lookup j (to_dict fs)))
    → Merged parent (insert "variable" (dict (of_dict vars)) child) m
    → Merged (("variable", dict fs) ∷ parent) child m
Merged-both fs cs vars parent child m none_left c f h = record {
  plain = λ j p.
      h.plain j p
      ∙ rw (lookup-insert, ne_sym j "variable" p)
          (rw (lookup-cons_ne "variable" j (dict fs) parent (ne_sym j "variable" p)));
  variables = λ k.
      h.variables k
      ∙ rw (lookup-insert, none_left, lookup-cons_self, c, to_dict-of_dict vars)
          (rw (lookup-nil k) (sym (inherited-nil (lookup k vars)) ∙ f k));
}
