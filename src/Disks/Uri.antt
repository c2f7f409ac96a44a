-- ===== src/Disks/Uri.antt =====
-- `GenDiskURI` and `GetDiskId` of internal/configure/disks/disks.go.
use Prim.Native.Char.{Char, code}
use text.Mathlib.TextLemmas.{cons-append, nil-append}
use curveadm.Prelude.{
  String, ◌≡◌, refl, ap, ◌∙◌, arith, ◌==◌, Bool, true, false, not, ◌&&◌, Bool-cases, inl, inr, List,
  [], ◌∷◌, nat_eq, join, ok, err, if◌then◌else◌,
}
use curveadm.Errno.{Fallible, invalid_disk_uri}

abbrev pub disk_uri_proto_fs_uuid : String
disk_uri_proto_fs_uuid = "fs:uuid"

unfoldable pub gen_disk_uri : String → String → String
unfolding join
gen_disk_uri proto uri = join "//" (proto ∷ uri ∷ [])

abbrev is_sep : Char → Char → Bool
is_sep c d = nat_eq (code c) b'/' && nat_eq (code d) b'/'

abbrev onto : Char → List String → List String
onto c [] = String.◌∷◌ c "" ∷ []
onto c (p ∷ ps) = String.◌∷◌ c p ∷ ps

-- strings.Split(uri, DISK_URI_SEP)
unfoldable pub components : String → List String
components String.[] = "" ∷ []
components (String.◌∷◌ c String.[]) = String.◌∷◌ c String.[] ∷ []
components (String.◌∷◌ c (String.◌∷◌ d s)) = elim (is_sep c d) [
  | true ↦ "" ∷ components s
  | false ↦ onto c (components (String.◌∷◌ d s))
]

-- The id and the protocol of the URI of a disk
abbrev pub id_of : List String → Fallible (String × String)
id_of (proto ∷ id ∷ _) =
    if proto == disk_uri_proto_fs_uuid then ok (id, proto) else err invalid_disk_uri
id_of _ = err invalid_disk_uri

unfoldable pub get_disk_id : String → Fallible (String × String)
unfolding components
get_disk_id uri = id_of (components uri)

-- No two slashes stand behind each other.
abbrev pub is_single : String → Bool
is_single String.[] = true
is_single (String.◌∷◌ c String.[]) = true
is_single (String.◌∷◌ c (String.◌∷◌ d s)) = not (is_sep c d) && is_single (String.◌∷◌ d s)

one_component : (s : String) → is_single s ≡ true → components s ≡ s ∷ []
unfolding components
one_component String.[] h = refl
one_component (String.◌∷◌ c String.[]) h = refl
one_component (String.◌∷◌ c (String.◌∷◌ d s)) h = elim (Bool-cases (is_sep c d)) [
  | inl e ↦ ground (arith, e, h)
  | inr e ↦
      let rest = one_component (String.◌∷◌ d s) (ground (arith, e, h)) in
      rw (components, e, rest) refl
]

-- The id of the URI that is generated for the protocol of file systems and an id is this id, with
-- the protocol, when no two slashes stand behind each other in the id.
pub get_disk_id-gen_disk_uri :
    (id : String)
    → is_single id ≡ true
    → get_disk_id (gen_disk_uri disk_uri_proto_fs_uuid id) ≡ ok (id, disk_uri_proto_fs_uuid)
unfolding get_disk_id gen_disk_uri join components
get_disk_id-gen_disk_uri id h =
    let e : components (gen_disk_uri disk_uri_proto_fs_uuid id)
        ≡ disk_uri_proto_fs_uuid ∷ components id =
      rw
        (
          cons-append, cons-append, cons-append, cons-append, cons-append, cons-append, cons-append,
          nil-append, cons-append, cons-append, nil-append,
        )
        refl in
    ap id_of (e ∙ ap (λ ss. disk_uri_proto_fs_uuid ∷ ss) (one_component id h))
