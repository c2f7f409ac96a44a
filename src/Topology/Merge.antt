-- ===== src/Topology/Merge.antt =====
-- `merge` of internal/configure/topology/topology.go: what a parent level configures is filled into
-- its child level, and their maps of variables are merged one level deep.
pub mod Filled
pub mod Inherit
use curveadm.Prelude.{
  ℕ, zero, suc, ◌-◌, String, Bool, true, false, not, ◌&&◌, Option, none, some, [], ◌∷◌, Dict,
  lookup, insert, ◌==◌, ok, panic, ◌>>=◌, if◌then◌else◌,
}
use curveadm.Errno.{Fallible}
use curveadm.Config.Value.{Value, dict, to_dict, of_dict, is_nil, is_string, is_int}

-- v.(map[string]interface{})
abbrev pub map_of : Option Value → Fallible (Dict Value)
map_of (some (dict fs)) = ok (to_dict fs)
map_of _ = panic

-- The child's section of variables, with the parent's merged into it by `sub`.
unfoldable pub merge_section :
    (Dict Value → Dict Value → Fallible (Dict Value)) → Value → Option Value → Fallible Value
merge_section sub v section = do
  subparent ← map_of (some v)
  subchild ← map_of section
  merged ← sub subparent subchild
  ok (dict (of_dict merged))

-- `rounds` is 2 - deep: a map of variables is entered while deep is below 2.
unfoldable pub merge_at : ℕ → Dict Value → Dict Value → Fallible (Dict Value)
unfolding is_string is_int
merge_at rounds [] child = ok child
merge_at zero ((k, v) ∷ parent) child =
    merge_at zero parent (if is_nil (lookup k child) then insert k v child else child)
merge_at (suc rounds) ((k, v) ∷ parent) child = elim (is_nil (lookup k child)) [
  | true ↦ merge_at (suc rounds) parent (insert k v child)
  | false ↦ elim (k == "variable" && not (is_string v) && not (is_int v)) [
    | false ↦ merge_at (suc rounds) parent child
    | true ↦ do
      section ← merge_section (merge_at rounds) v (lookup k child)
      merge_at (suc rounds) parent (insert k section child)
  ]
]

-- merge(parent, child, 1)
unfoldable pub merge : Dict Value → Dict Value → Fallible (Dict Value)
unfolding merge_at merge_section
merge = merge_at 1
