-- ===== src/Topology/Merge/Inherit.antt =====
-- What a child level configures after `merge`.
use curveadm.Prelude.{
  String, ◌≡◌, refl, sym, ◌∙◌, subst, true, false, none, some, [], ◌∷◌, ◌⊎◌, inl, inr, Dict, IsMap,
  lookup, insert, ◌==◌, ok, panic, Bool-cases, text-cases,
}
use curveadm.Config.Value.{Value, Fields, dict, to_dict, of_dict, is_nil, is_string, is_int}
use curveadm.Topology.Merge.{map_of, merge_section, merge_at, merge}
use curveadm.Topology.Merge.Filled.{
  inherited-nil, merge_flat, vars_of, HasSection, HasSectionOrNil, Merged, Merges, filled,
  merge_plain, filled-variable, Merged-plain, Merged-given, Merged-both,
}

merge_given :
    (fs : Fields) (parent child : Dict Value)
    → is_nil (lookup "variable" child) ≡ true
    → merge_at 1 (("variable", dict fs) ∷ parent) child
      ≡ merge_at 1 parent (insert "variable" (dict fs) child)
unfolding merge_at
merge_given fs parent child n = rw (n, merge_at)

merge_both :
    (fs cs : Fields) (parent child vars : Dict Value)
    → is_nil (lookup "variable" child) ≡ false
    → merge_section (merge_at 0) (dict fs) (lookup "variable" child) ≡ ok (dict (of_dict vars))
    → merge_at 1 (("variable", dict fs) ∷ parent) child
      ≡ merge_at 1 parent (insert "variable" (dict (of_dict vars)) child)
unfolding merge_at
merge_both fs cs parent child vars n e = rw (n, merge_at) (rw (e, merge_at))

merge_section_lem :
    (fs cs : Fields) (child vars : Dict Value)
    → lookup "variable" child ≡ some (dict cs)
    → merge_at 0 (to_dict fs) (to_dict cs) ≡ ok vars
    → merge_section (merge_at 0) (dict fs) (lookup "variable" child) ≡ ok (dict (of_dict vars))
unfolding merge_section
merge_section_lem fs cs child vars c e = rw c (rw e)

-- A section of variables in the parent, met at the head of its list.
merge_section_total :
    (fs : Fields) (parent child : Dict Value)
    → lookup "variable" parent ≡ none
    → IsMap (to_dict fs)
    → HasSectionOrNil child
    → ((child' : Dict Value) → Merges parent child' (merge_at 1 parent child'))
    → Merges
        (("variable", dict fs) ∷ parent)
        child
        (merge_at 1 (("variable", dict fs) ∷ parent) child)
merge_section_total fs parent child none_left g (inl n) rest =
    let (m, e, h) = rest (insert "variable" (dict fs) child) in
    (m, rw merge_given e, Merged-given fs parent child m none_left n h)
merge_section_total fs parent child none_left g (inr (cs, c)) rest =
    let (vars, e, f) = merge_flat (to_dict fs) (to_dict cs) g in
    let (m, e', h) = rest (insert "variable" (dict (of_dict vars)) child) in
    (
      m,
      merge_both fs cs parent child vars (rw c) (merge_section_lem fs cs child vars c e) ∙ e',
      Merged-both fs cs vars parent child m none_left c f h,
    )

-- A parent without a section.
merge_rest :
    (parent : Dict Value)
    → IsMap parent
    → lookup "variable" parent ≡ none
    → (child : Dict Value) → Merges parent child (merge_at 1 parent child)
unfolding merge_at lookup
merge_rest [] h v child = (
  child,
  refl,
  record {
    plain = λ j p. inherited-nil (lookup j child);
    variables = λ n. inherited-nil (lookup n (vars_of (lookup "variable" child)));
  },
)
merge_rest ((k, w) ∷ parent) (fresh, h) v child = elim (Bool-cases (k == "variable")) [
  | inl e ↦ absurd (cc (rw e at v))
  | inr e ↦
      let (m, x, g) = merge_rest parent h (rw e at v) (filled k w child) in
      (m, merge_plain k w parent child e ∙ x, Merged-plain k w parent child m e fresh g)
]

merge_total_at :
    (k : String) (w : Value) (parent child : Dict Value)
    → k ≡ "variable"
    → lookup k parent ≡ none
    → IsMap parent
    → HasSection ((k, w) ∷ parent)
    → HasSectionOrNil child
    → Merges ((k, w) ∷ parent) child (merge_at 1 ((k, w) ∷ parent) child)
unfolding lookup
merge_total_at k w parent child e fresh h (inl s) c = absurd (cc (rw (e) at s))
merge_total_at k w parent child e fresh h (inr (fs, s, g)) c =
    let same_value : w ≡ dict fs = cc (rw e at s) in
    rw (e, same_value)
      (merge_section_total fs parent child (rw e at fresh) g c
        (merge_rest parent h (rw e at fresh)))

merge_total :
    (parent child : Dict Value)
    → IsMap parent
    → HasSection parent
    → HasSectionOrNil child
    → Merges parent child (merge_at 1 parent child)
unfolding lookup
merge_total [] child h s c = merge_rest [] h refl child
merge_total ((k, w) ∷ parent) child (fresh, h) s c = elim (text-cases k "variable") [
  | inl e ↦ merge_total_at k w parent child e fresh h s c
  | inr e ↦
      let (m, x, g) = merge_total parent (filled k w child) h (rw e at s) (
        subst (λ o. (is_nil o ≡ true) ⊎ ((fs : Fields) × (o ≡ some (dict fs))))
          (sym (filled-variable k w child e)) c) in
      (m, merge_plain k w parent child e ∙ x, Merged-plain k w parent child m e fresh g)
]

-- Merging a parent section, in which no key occurs twice, into a child section returns when the
-- parent has no `variable` section or a map there, and the child none, nil or a map. Each key but
-- `variable` then has the child's value unless that is nil, else the parent's, and each variable
-- of the two `variable` sections likewise.
pub merge-Merged :
    (parent child : Dict Value)
    → IsMap parent
    → HasSection parent
    → HasSectionOrNil child
    → (m : Dict Value) × (merge parent child ≡ ok m) × Merged parent child m
unfolding merge
merge-Merged = merge_total

merge_panic_head :
    (w : Value) (parent child : Dict Value)
    → is_string w ≡ false
    → is_int w ≡ false
    → map_of (some w) ≡ panic
    → is_nil (lookup "variable" child) ≡ false
    → merge_at 1 (("variable", w) ∷ parent) child ≡ panic
unfolding merge_at merge_section
merge_panic_head w parent child s i p n =
    rw (n, merge_at) (rw (s, i, merge_at) (rw (p, merge_section)))

-- Merging panics when the parent's `variable` section is no text, no integer and no map, as where
-- it is left empty, and the child has a `variable` section that is not nil.
pub merge_panics :
    (w : Value) (parent child : Dict Value)
    → lookup "variable" parent ≡ some w
    → is_string w ≡ false
    → is_int w ≡ false
    → map_of (some w) ≡ panic
    → is_nil (lookup "variable" child) ≡ false
    → merge parent child ≡ panic
unfolding merge lookup
merge_panics w [] child l s i p n = cc
merge_panics w ((k, v) ∷ parent) child l s i p n = elim (text-cases k "variable") [
  | inl e ↦
      let same_value : v ≡ w = cc (rw e at l) in
      rw (e, same_value) (merge_panic_head w parent child s i p n)
  | inr e ↦
      merge_plain k v parent child e
      ∙ merge_panics w parent (filled k v child) (rw e at l) s i p
          (rw (filled-variable k v child e) n)
]
