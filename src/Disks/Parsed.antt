-- ===== src/Disks/Parsed.antt =====
-- The disks that are parsed, and the only lists on which the parsing panics.
use curveadm.Prelude.{
  String, ◌≡◌, Bool, true, false, ◌&&◌, ◌⊎◌, inl, inr, Bool-cases, Option-cases, Option, none, some,
  List, [], ◌∷◌, Dict, All, panic, Ends, arith, refl,
}
use curveadm.Config.Value.{
  Value, Values as Members, null, any, text, int, bool, dict, slice, texts, nil, cons,
}
use curveadm.Config.ItemSet.{strings_of, convert_slice}
use curveadm.Config.Built.{is_plain, are_texts}
use curveadm.Disks.{DiskConfig, Document, parse_root, parse_disks}
use curveadm.Disks.Hosts.{IsDisk, AreApart}
use curveadm.Disks.Apart.{Plain, parse_disks_from-Ends}

-- Every list that is configured is one of texts.
abbrev plain : Dict Value → Bool
plain [] = true
plain ((k, v) ∷ config) = is_plain v && plain config

abbrev all_plain : List (Dict Value) → Bool
all_plain [] = true
all_plain (d ∷ ds) = plain d && all_plain ds

abbrev pub plain_document : Option Document → Bool
plain_document (some (some global, some disks)) = plain global && all_plain disks
plain_document _ = true

plain-Plain : (N : Type 0) (config : Dict Value) → (plain config ≡ true) ⊎ N → Plain N config
plain-Plain N [] h = tt
plain-Plain N ((k, v) ∷ config) (inl e) =
    (inl (ground (arith, e)), plain-Plain N config (inl (ground (arith, e))))
plain-Plain N ((k, v) ∷ config) (inr n) = (inr n, plain-Plain N config (inr n))

all_plain-Plain :
    (N : Type 0) (ds : List (Dict Value)) → (all_plain ds ≡ true) ⊎ N → All (Plain N) ds
all_plain-Plain N [] h = tt
all_plain-Plain N (d ∷ ds) (inl e) =
    (plain-Plain N d (inl (ground (arith, e))), all_plain-Plain N ds (inl (ground (arith, e))))
all_plain-Plain N (d ∷ ds) (inr n) = (plain-Plain N d (inr n), all_plain-Plain N ds (inr n))

abbrev pub AreDisks : List DiskConfig → Type 0
AreDisks dcs = All IsDisk dcs × AreApart [] dcs

parse_root-Ends : (d : Document) → Ends (plain_document (some d) ≡ false) AreDisks (parse_root d)
unfolding parse_root
parse_root-Ends (none, disks) = tt
parse_root-Ends (some global, none) = tt
parse_root-Ends (some global, some disks) =
    let mixed = plain_document (some (some global, some disks)) ≡ false in
    elim (Bool-cases (plain global && all_plain disks)) [
      | inl e ↦
          parse_disks_from-Ends mixed global 0 [] disks
            (plain-Plain mixed global (inl (ground (arith, e))))
            (all_plain-Plain mixed disks (inl (ground (arith, e))))
      | inr e ↦
          parse_disks_from-Ends mixed global 0 [] disks (plain-Plain mixed global (inr e))
            (all_plain-Plain mixed disks (inr e))
    ]

-- The parsing of a document of disks panics only if some list in it has an element that is no
-- text. When it returns disks, no device and no mount point occurs in two of them; each has a
-- device and a mount point that are not empty, a percentage from 1 to 100, and hosts, one at
-- least, which are distinct and of which none is excluded.
pub parse_disks-AreDisks :
    (decode : String → Option Document) (document : String)
    → Ends (plain_document (decode document) ≡ false) AreDisks (parse_disks decode document)
unfolding parse_disks
parse_disks-AreDisks decode document = elim (Option-cases (decode document)) [
  | inl e ↦ rw (parse_disks, e) tt
  | inr (d, e) ↦ rw (parse_disks, e) (parse_root-Ends d)
]

panics : (vs : Members) → are_texts vs ≡ false → strings_of vs ≡ panic
unfolding strings_of
panics nil e = cc
panics (cons (text s) vs) e = rw (panics vs e) refl
panics (cons null vs) e = refl
panics (cons any vs) e = refl
panics (cons (int i) vs) e = refl
panics (cons (bool b) vs) e = refl
panics (cons (dict fs) vs) e = refl
panics (cons (slice ws) vs) e = refl
panics (cons (texts ss) vs) e = refl

-- The conversion of a list whose first element is a text panics when a later element is no text.
pub convert_slice_panics :
    (s : String) (vs : Members)
    → are_texts vs ≡ false
    → convert_slice (slice (cons (text s) vs)) ≡ panic
unfolding convert_slice strings_of
convert_slice_panics s vs e = rw (panics vs e) refl
