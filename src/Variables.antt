-- ===== src/Variables.antt =====
-- pkg/variable/variables.go: named values that refer to one another as `${name}`. The proofs are in
-- the modules below.
pub mod Scan
pub mod Rendering
pub mod Meaning
pub mod Soundness
pub mod Build
use Scan.{Token, lit, ref, scan, refs}
use Prim.Native.String
use curveadm.Prelude.{
  ℕ, zero, suc, String, Bool, true, false, List, [], ◌∷◌, Option, none, some, Dict, lookup, insert,
  Result, ok, err, panic, exhausted, ◌>>=◌, if◌then◌else◌,
}

pub record Variable : Type 0 where
  pub name : String
  pub description : String
  pub value : String
  pub resolved : Bool

-- `m`, and whether `Build` has compiled the pattern `r`.
pub record Variables : Type 0 where
  pub m : Dict Variable
  pub compiled : Bool

-- The errors that `fmt.Errorf` makes, with the name that they show.
pub data Fault : Type 0 where
  duplicate not_found unresolved not_defined : String → Fault

unfoldable pub new_variables : Variables
new_variables = record { m = []; compiled = false }

unfoldable pub register : Variable → Variables → Result Fault Variables
register v vars = elim (lookup v.name vars.m) [
  | some _ ↦ err (duplicate v.name)
  | none ↦ ok (record vars { m = insert v.name v vars.m })
]

abbrev value_of : String → Option Variable → Result Fault String
value_of n none = err (not_found n)
value_of n (some v) = if v.resolved then ok v.value else err (unresolved n)

unfoldable pub get : String → Variables → Result Fault String
get n vars = value_of n (lookup n vars.m)

unfoldable pub set : String → String → Variables → Result Fault Variables
set n value vars = elim (lookup n vars.m) [
  | none ↦ err (not_found n)
  | some v ↦ ok (record vars { m = insert n (record v { value = value; resolved = true }) vars.m })
]

-- A resolution returns the value and leaves the changed table.
abbrev pub Resolved : Type 0
Resolved = Result Fault (String × Dict Variable)

-- `for _, mu := range matches { vars.resolve(mu[1], marked) }`; `marked` is written and never read.
unfoldable pub resolve_refs :
    (String → Dict Variable → Resolved) → List String → Dict Variable → Result Fault (Dict Variable)
resolve_refs call [] m = ok m
resolve_refs call (k ∷ ks) m = do r ← call k m; resolve_refs call ks r.1

-- `ReplaceAllStringFunc` with `vars.m[name].Value`: a missing name is a nil dereference.
unfoldable pub expand : Dict Variable → List Token → Result Fault String
expand m [] = ok ""
expand m (lit s ∷ ts) = do t ← expand m ts; ok (String.◌++◌ s t)
expand m (ref n ∷ ts) = elim (lookup n m) [
  | none ↦ panic
  | some v ↦ do t ← expand m ts; ok (String.◌++◌ v.value t)
]

abbrev pub mark : String → Variable → String → Dict Variable → Resolved
mark n v t m = ok (t, insert n (record v { value = t; resolved = true }) m)

-- `v` is a pointer: its value is read again once its references are resolved.
unfoldable pub replace : String → Option Variable → Dict Variable → Resolved
unfolding expand
replace n none m = panic
replace n (some v) m = do t ← expand m (scan v.value); mark n v t m

unfoldable pub resolve_value :
    (String → Dict Variable → Resolved) → String → Variable → List String → Dict Variable → Resolved
unfolding resolve_refs replace
resolve_value call n v [] m = mark n v v.value m
resolve_value call n v (k ∷ ks) m = do m' ← resolve_refs call (k ∷ ks) m; replace n (lookup n m') m'

unfoldable pub resolve_found :
    (String → Dict Variable → Resolved) → String → Option Variable → Dict Variable → Resolved
unfolding resolve_value
resolve_found call n none m = err (not_defined n)
resolve_found call n (some v) m =
    if v.resolved then ok (v.value, m) else resolve_value call n v (refs (scan v.value)) m

-- The fuel is the stack: a call on the last frame aborts the program.
unfoldable pub resolve : ℕ → String → Dict Variable → Resolved
unfolding resolve_found resolve_value
resolve zero n m = exhausted
resolve (suc f) n m = resolve_found (resolve f) n (lookup n m) m

-- The field `Name` of each entry, in the order of `range vars.m`.
unfoldable pub names : Dict Variable → List String
names [] = []
names ((k, v) ∷ m) = v.name ∷ names m

unfoldable pub build : ℕ → Variables → Result Fault Variables
unfolding names resolve resolve_refs
build f vars = do
  m ← resolve_refs (resolve f) (names vars.m) vars.m
  ok (record { m = m; compiled = true })

-- `ReplaceAllStringFunc` with `vars.Get`: the error is that of the first failing name.
unfoldable pub render : Variables → List Token → Result Fault String
unfolding get
render vars [] = ok ""
render vars (lit s ∷ ts) = do t ← render vars ts; ok (String.◌++◌ s t)
render vars (ref n ∷ ts) = do v ← get n vars; t ← render vars ts; ok (String.◌++◌ v t)

-- Before the first `Build` the pattern is nil.
unfoldable pub rendering : Variables → String → Result Fault String
unfolding render
rendering vars s =
    if vars.compiled
    then elim (refs (scan s)) [ [] ↦ ok s | _ ∷ _ ↦ render vars (scan s) ]
    else panic
