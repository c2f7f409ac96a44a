-- ===== src/Display/Groups.antt =====
-- The lines of the table, when the replicas of an entry are merged.
use curveadm.Prelude.{
  String, ◌≡◌, refl, sym, subst, ap, ◌∙◌, ◌==◌, eq_iff, text_lt, concat, itoa_ℕ, false, Bool-cases,
  List, [], ◌∷◌, ◌++◌, append_assoc, map, length, All, All-append, ok, inl, inr,
}
use curveadm.Display.{
  ServiceStatus, Line, sorted, merged_status, second_part, gather, groups, merged_line, merge_group,
  merge_groups, merge_statues,
}

abbrev pub Group : Type 0
Group = ServiceStatus × List ServiceStatus

-- A group is not empty, and its statuses have the parent of the first.
abbrev pub IsGroup : Group → Type 0
IsGroup (first, group) =
    (rest : List ServiceStatus) × (group ≡ first ∷ rest)
    × All (λ s. first.parent_id ≡ s.parent_id) group

abbrev pub flat : List Group → List ServiceStatus
flat [] = []
flat ((first, group) ∷ gs) = group ++ flat gs

-- Groups behind each other have two parents.
abbrev pub AreParted : List Group → Type 0
AreParted [] = Unit
AreParted (g ∷ []) = Unit
AreParted (g ∷ h ∷ gs) = ((g.0.parent_id == h.0.parent_id) ≡ false) × AreParted (h ∷ gs)

abbrev pub HasTotal : ServiceStatus → Type 0
HasTotal s = (total : String) × (second_part s.replica ≡ ok total)

-- The lines, one for each group
abbrev pub AreLines : List Group → List Line → Type 0
AreLines [] [] = Unit
AreLines ((first, group) ∷ gs) (l ∷ ls) =
    (l.role ≡ first.role)
    × (l.host ≡ first.host)
    × (l.status ≡ merged_status (sorted text_lt (map (λ s. s.status) group)))
    × ((total : String) × (second_part first.replica ≡ ok total)
        × (l.replica ≡ concat (itoa_ℕ (length group) ∷ "/" ∷ total ∷ [])))
    × AreLines gs ls
AreLines _ _ = ⊥

-- What `gather` makes of a group that it started and the rest
record Gathered (first : ServiceStatus) (group ss : List ServiceStatus) (gs : List Group)
    : Type 0 where
  all : flat gs ≡ group ++ ss
  each : All IsGroup gs
  parted : AreParted gs
  head : (g : List ServiceStatus) × (rest : List Group) × (gs ≡ (first, g) ∷ rest)

parted_cons :
    (first s : ServiceStatus) (group : List ServiceStatus) (gs : List Group)
    → (first.parent_id == s.parent_id) ≡ false
    → (g : List ServiceStatus) × (rest : List Group) × (gs ≡ (s, g) ∷ rest)
    → AreParted gs
    → AreParted ((first, group) ∷ gs)
parted_cons first s group gs n (g, rest, e) p = rw (e) (n, rw e at p)

gather-Gathered :
    (first : ServiceStatus) (group ss : List ServiceStatus)
    → IsGroup (first, group)
    → Gathered first group ss (gather first group ss)
unfolding gather
gather-Gathered first group [] g = record {
  all = refl;
  each = (g, tt);
  parted = tt;
  head = (group, [], refl);
}
gather-Gathered first group (s ∷ ss) (r, e, a) =
    elim (Bool-cases (first.parent_id == s.parent_id)) [
      | inl f ↦
          let same = (eq_iff first.parent_id s.parent_id).0 f in
          let more = gather-Gathered first (group ++ s ∷ []) ss (
            r ++ s ∷ [],
            ap (λ g. g ++ s ∷ []) e,
            All-append (λ t. first.parent_id ≡ t.parent_id) group (s ∷ []) a (same, tt),
          ) in
          rw (gather, f)
            (record {
              all = more.all ∙ append_assoc group (s ∷ []) ss;
              each = more.each;
              parted = more.parted;
              head = more.head;
            })
      | inr f ↦
          let more = gather-Gathered s (s ∷ []) ss ([], refl, (refl, tt)) in
          rw (gather, f)
            (record {
              all = ap (λ t. group ++ t) more.all;
              each = ((r, e, a), more.each);
              parted = parted_cons first s group (gather s (s ∷ []) ss) f more.head more.parted;
              head = (group, gather s (s ∷ []) ss, refl);
            })
    ]

All-behind : {A : Type 0} (P : A → Type 0) (xs ys : List A) → All P (xs ++ ys) → All P ys
All-behind P [] ys h = h
All-behind P (x ∷ xs) ys (p, h) = All-behind P xs ys h

heads :
    (P : ServiceStatus → Type 0) (gs : List Group)
    → All IsGroup gs
    → All P (flat gs)
    → All (λ g. P g.0) gs
heads P [] a h = tt
heads P ((first, group) ∷ gs) ((r, e, _), a) h =
    ((subst (λ g. All P (g ++ flat gs)) e h).0, heads P gs a (All-behind P group (flat gs) h))

module _ (longest : List String → String) where
  merge_groups-AreLines :
      (gs : List Group)
      → All (λ g. HasTotal g.0) gs
      → (ls : List Line) × (merge_groups longest gs ≡ ok ls) × AreLines gs ls
  unfolding merge_groups merge_group merged_line
  merge_groups-AreLines [] h = ([], refl, tt)
  merge_groups-AreLines ((first, group) ∷ gs) ((total, e), h) =
      let (ls, f, a) = merge_groups-AreLines gs h in
      (
        merged_line longest first group total ∷ ls,
        rw (e, f) refl,
        (refl, refl, refl, (total, e, refl), a),
      )

  -- When the replica text of every status has a slash, the merging of the statuses returns, with
  -- one line for each group of statuses. The groups are the statuses in their order, each group
  -- has one parent, and two groups behind each other have two. A line has the role and the host
  -- of its group's first status, the number of the group's statuses before the slash, and the
  -- status of the group.
  pub merge_statues-AreLines :
      (ss : List ServiceStatus)
      → All HasTotal ss
      → (gs : List Group) × (ls : List Line) × (merge_statues longest ss ≡ ok ls)
        × (flat gs ≡ ss)
        × All IsGroup gs
        × AreParted gs
        × AreLines gs ls
  unfolding merge_statues groups
  merge_statues-AreLines [] h = ([], [], refl, refl, tt, tt, tt)
  merge_statues-AreLines (s ∷ ss) h =
      let g = gather-Gathered s (s ∷ []) ss ([], refl, (refl, tt)) in
      let gs = gather s (s ∷ []) ss in
      let (ls, e, a) =
        merge_groups-AreLines gs (heads HasTotal gs g.each (subst (All HasTotal) (sym g.all) h)) in
      (gs, ls, e, g.all, g.each, g.parted, a)
