-- ===== src/Variables/Scan/Found.antt =====
-- The references that the scanner of `${name}` finds in a text.
use Prim.Native.Char.{Char}
use Prim.Native.String
use text.Mathlib.TextLemmas.{cons-append, nil-append}
use curveadm.Prelude.{
  String, ◌≡◌, refl, ◌∙◌, ap, true, false, List, ◌∷◌, ◌++◌, arith, All, Option, none, some,
  Bool-cases, inl, inr, ◌==◌,
}
use curveadm.Variables.Scan.{
  Token, lit, ref, Mode, plain, dollar, name, one, is, is_special, emit, flush, refs, scan_step,
  scan_from, scan,
}
use curveadm.Variables.Scan.Template.{
  is_name, IsName, with_reference, scan_ref, scan_ref-dollar, scan_ref-name,
}
use curveadm.Variables.Scan.Source.{source, source-scan}

emit-append : (t : Option Token) (xs ys : List Token) → emit t (xs ++ ys) ≡ emit t xs ++ ys
emit-append none xs ys = refl
emit-append (some t) xs ys = refl

scan_from-reference :
    (m : Mode) (before n after : String)
    → IsName n
    → scan_from m (with_reference before n after) ≡ scan_from m before ++ ref n ∷ scan after
unfolding scan_from flush scan
scan_from-reference plain String.[] n after h = rw nil-append (scan_ref n after h)
scan_from-reference dollar String.[] n after h = rw nil-append (scan_ref-dollar n after h)
scan_from-reference (name s) String.[] n after h = rw nil-append (scan_ref-name s n after h)
scan_from-reference m (String.◌∷◌ c s) n after h = rw cons-append (
    ap (emit (scan_step m c).0) (scan_from-reference (scan_step m c).1 s n after h)
    ∙ emit-append (scan_step m c).0 _ _)

is_name-one :
    (s : String) (c : Char)
    → is_name s ≡ true
    → is_special c ≡ false
    → is_name (String.◌++◌ s (one c)) ≡ true
unfolding is_name
is_name-one String.[] c h k = rw nil-append (ground arith)
is_name-one (String.◌∷◌ d s) c h k = rw cons-append (ground (arith, is_name-one s c))

-- What has been read of a name is clean.
abbrev IsClean : Mode → Type 0
IsClean plain = Unit
IsClean dollar = Unit
IsClean (name s) = is_name s ≡ true

-- A token that is a reference has a name.
abbrev IsNamed : Option Token → Type 0
IsNamed none = Unit
IsNamed (some (lit s)) = Unit
IsNamed (some (ref n)) = IsName n

scan_step-IsClean :
    (m : Mode) (c : Char) → IsClean m → IsNamed (scan_step m c).0 × IsClean (scan_step m c).1
unfolding scan_step is_name is_special
scan_step-IsClean plain c h = elim (Bool-cases (is b'$' c)) [
  | inl e ↦ rw e (tt, tt)
  | inr e ↦ rw e (tt, tt)
]
scan_step-IsClean dollar c h = elim (Bool-cases (is b'{' c)) [
  | inl e ↦ rw e (tt, refl)
  | inr e ↦
      rw e (elim (Bool-cases (is b'$' c)) [ inl e' ↦ rw e' (tt, tt) | inr e' ↦ rw e' (tt, tt) ])
]
scan_step-IsClean (name s) c h = elim (Bool-cases (is b'}' c)) [
  | inl e ↦ rw e (elim (Bool-cases (s == "")) [
    | inl n ↦ rw n (tt, tt)
    | inr n ↦ rw n (record { clean = h; some_character = n }, tt)
  ])
  | inr e ↦ rw e (elim (Bool-cases (is b'$' c)) [
    | inl e' ↦ rw e' (tt, tt)
    | inr e' ↦ rw e' (elim (Bool-cases (is b'{' c)) [
      | inl o ↦ rw o (tt, tt)
      | inr o ↦ rw o (tt, is_name-one s c h (ground arith))
    ])
  ])
]

emit-AreNames :
    (t : Option Token) (ts : List Token)
    → IsNamed t
    → All IsName (refs ts)
    → All IsName (refs (emit t ts))
unfolding refs
emit-AreNames none ts h k = k
emit-AreNames (some (lit s)) ts h k = k
emit-AreNames (some (ref n)) ts h k = (h, k)

scan_from-AreNames : (m : Mode) (s : String) → IsClean m → All IsName (refs (scan_from m s))
unfolding scan_from flush refs
scan_from-AreNames plain String.[] h = tt
scan_from-AreNames dollar String.[] h = tt
scan_from-AreNames (name n) String.[] h = tt
scan_from-AreNames m (String.◌∷◌ c s) h =
    let (named, clean) = scan_step-IsClean m c h in
    emit-AreNames (scan_step m c).0 _ named (scan_from-AreNames (scan_step m c).1 s clean)

-- Wherever a reference `${name}` stands in a text, its name not empty and free of `$`, `{` and
-- `}`, the scanner finds it: the tokens are those of the text before it, the reference, and those
-- of the text after it. The tokens spell the text again, and the name of each reference among
-- them is such a name.
pub scan-with_reference :
    (before n after : String)
    → IsName n
    → (scan (with_reference before n after) ≡ scan before ++ ref n ∷ scan after)
      × (source (scan (with_reference before n after)) ≡ with_reference before n after)
      × All IsName (refs (scan (with_reference before n after)))
unfolding scan
scan-with_reference before n after h = (
  scan_from-reference plain before n after h,
  source-scan (with_reference before n after),
  scan_from-AreNames plain (with_reference before n after) tt,
)
