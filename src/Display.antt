-- ===== src/Display.antt =====
-- internal/tui/service/status.go: the table of the statuses of services, in which the replicas of an
-- entry are one line. `longest` is Prefix of jpillora/longestcommon. Directories are texts of single
-- bytes, so a slice of bytes is one of characters. The layout of the columns is left out.
pub mod Summary
pub mod Groups
use Prim.Native.Char.{code}
use curveadm.Prelude.{
  ℕ, suc, ◌+◌, String, ◌==◌, ltb, nat_eq, text_lt, concat, itoa_ℕ, Bool, true, false, ◌||◌, Option,
  none, some, List, [], ◌∷◌, ◌++◌, map, length, Dict, lookup, insert, ok, panic, ◌>>=◌,
  if◌then◌else◌,
}
use curveadm.Errno.{Fallible}
use curveadm.Topology.DeployConfig.{
  DeployConfig, role_etcd, role_mds, role_chunkserver, role_snapshotclone, role_metaserver,
}

pub record ServiceStatus : Type 0 where
  pub id : String
  pub parent_id : String
  pub role : String
  pub host : String
  pub replica : String
  pub container_id : String
  pub ports : String
  pub status : String
  pub log_dir : String
  pub data_dir : String
  pub config : DeployConfig

-- What is shown of a status, or of several that are merged
pub record Line : Type 0 where
  pub id : String
  pub role : String
  pub host : String
  pub replica : String
  pub container_id : String
  pub status : String
  pub ports : String
  pub log_dir : String
  pub data_dir : String

-- ROLE_SCORE; a role that the map does not have scores 0.
unfoldable pub role_score : String → ℕ
role_score role =
    if role == role_etcd
    then 0
    else if role == role_mds
    then 1
    else if role == role_chunkserver
    then 2
    else if role == role_metaserver
    then 2
    else if role == role_snapshotclone
    then 3
    else 0

unfoldable pub status_less : ServiceStatus → ServiceStatus → Bool
unfolding role_score
status_less s1 s2 =
    if s1.role == s2.role
    then (if nat_eq s1.config.host_sequence s2.config.host_sequence
        then ltb s1.config.replicas_sequence s2.config.replicas_sequence
        else ltb s1.config.host_sequence s2.config.host_sequence)
    else ltb (role_score s1.role) (role_score s2.role)

-- sort.Slice and sort.Strings
module _ {A : Type 0} (before : A → A → Bool) where
  unfoldable pub insert_in : A → List A → List A
  insert_in a [] = a ∷ []
  insert_in a (b ∷ bs) = let rest = insert_in a bs in if before b a then b ∷ rest else a ∷ b ∷ bs

  unfoldable pub sorted : List A → List A
  unfolding insert_in
  sorted [] = []
  sorted (a ∷ as') = insert_in a (sorted as')

unfoldable pub sort_statues : List ServiceStatus → List ServiceStatus
unfolding sorted status_less
sort_statues ss = sorted status_less ss

unfoldable pub id : List String → String
id (s ∷ []) = s
id _ = "<replicas>"

unfoldable pub has_prefix : String → String → Bool
has_prefix s String.[] = true
has_prefix String.[] (String.◌∷◌ d p) = false
has_prefix (String.◌∷◌ c s) (String.◌∷◌ d p) =
    let rest = has_prefix s p in if nat_eq (code c) (code d) then rest else false

-- The status that counts for the replicas together
unfoldable pub normal : String → String
unfolding has_prefix
normal item =
    if has_prefix item "Up" then "RUNNING" else if has_prefix item "Exited" then "STOPPED" else item

abbrev pub or_zero : Option ℕ → ℕ
or_zero none = 0
or_zero (some n) = n

-- count[status]++
unfoldable pub count_statuses : List String → Dict ℕ → Dict ℕ
unfolding normal
count_statuses [] count = count
count_statuses (item ∷ items) count =
    count_statuses items (insert (normal item) (suc (or_zero (lookup (normal item) count))) count)

-- The status that all replicas have, in whatever order the map is ranged over
unfoldable pub common_status : ℕ → Dict ℕ → String
common_status n [] = "ABNORMAL"
common_status n ((status, k) ∷ count) =
    let rest = common_status n count in if nat_eq k n then status else rest

unfoldable pub merged_status : List String → String
unfolding count_statuses common_status
merged_status (s ∷ []) = s
merged_status items = common_status (length items) (count_statuses items [])

-- strings.TrimPrefix
unfoldable pub trim_prefix : String → String → String
trim_prefix s String.[] = s
trim_prefix String.[] p = String.[]
trim_prefix (String.◌∷◌ c s) (String.◌∷◌ d p) =
    if has_prefix (String.◌∷◌ c s) (String.◌∷◌ d p) then trim_prefix s p else String.◌∷◌ c s

-- first[:limit] and last[:limit], where the limit is 5 or the length of the shorter one
unfoldable pub cut : ℕ → String → String → String × String
cut (suc n) (String.◌∷◌ c s) (String.◌∷◌ d t) =
    let (a, b) = cut n s t in (String.◌∷◌ c a, String.◌∷◌ d b)
cut _ _ _ = ("", "")

abbrev pub last_of : String → List String → String
last_of s [] = s
last_of s (t ∷ ts) = last_of t ts

-- strings.Split(replica, "/")[1]
unfoldable pub up_to_slash : String → String
up_to_slash String.[] = String.[]
up_to_slash (String.◌∷◌ c s) =
    let rest = up_to_slash s in if nat_eq (code c) b'/' then "" else String.◌∷◌ c rest

unfoldable pub second_part : String → Fallible String
unfolding up_to_slash
second_part String.[] = panic
second_part (String.◌∷◌ c s) =
    let rest = second_part s in if nat_eq (code c) b'/' then ok (up_to_slash s) else rest

-- Statuses behind each other with the parent of the first
unfoldable pub gather :
    ServiceStatus
    → List ServiceStatus
    → List ServiceStatus
    → List (ServiceStatus × List ServiceStatus)
gather first group [] = (first, group) ∷ []
gather first group (s ∷ ss) = elim (first.parent_id == s.parent_id) [
  | true ↦ gather first (group ++ s ∷ []) ss
  | false ↦ (first, group) ∷ gather s (s ∷ []) ss
]

unfoldable pub groups : List ServiceStatus → List (ServiceStatus × List ServiceStatus)
unfolding gather
groups [] = []
groups (s ∷ ss) = gather s (s ∷ []) ss

module _ (longest : List String → String) where
  unfoldable pub dir : List String → String
  unfolding has_prefix trim_prefix cut
  dir [] = ""
  dir (s ∷ []) = s
  dir (s ∷ t ∷ items) =
      let prefix = longest (s ∷ t ∷ items) in
      let ends = cut 5 (trim_prefix s prefix) (trim_prefix (last_of t items) prefix) in
      concat (prefix ∷ "{" ∷ ends.0 ∷ "..." ∷ ends.1 ∷ "}" ∷ [])

  -- The line of a group; `merge` sorts the items of a column.
  unfoldable pub merged_line : ServiceStatus → List ServiceStatus → String → Line
  unfolding sorted id merged_status dir
  merged_line first group total = record {
    id = id (sorted text_lt (map (λ s. s.id) group));
    role = first.role;
    host = first.host;
    replica = concat (itoa_ℕ (length group) ∷ "/" ∷ total ∷ []);
    container_id = id (sorted text_lt (map (λ s. s.container_id) group));
    status = merged_status (sorted text_lt (map (λ s. s.status) group));
    ports = id (sorted text_lt (map (λ s. s.ports) group));
    log_dir = dir (sorted text_lt (map (λ s. s.log_dir) group));
    data_dir = dir (sorted text_lt (map (λ s. s.data_dir) group));
  }

  unfoldable pub merge_group : ServiceStatus → List ServiceStatus → Fallible Line
  unfolding merged_line second_part
  merge_group first group = do total ← second_part first.replica; ok (merged_line first group total)

  unfoldable pub merge_groups : List (ServiceStatus × List ServiceStatus) → Fallible (List Line)
  unfolding merge_group
  merge_groups [] = ok []
  merge_groups ((first, group) ∷ gs) = do
    l ← merge_group first group
    ls ← merge_groups gs
    ok (l ∷ ls)

  unfoldable pub merge_statues : List ServiceStatus → Fallible (List Line)
  unfolding merge_groups groups
  merge_statues ss = merge_groups (groups ss)

  abbrev pub line_of : ServiceStatus → Line
  line_of s = record {
    id = s.id;
    role = s.role;
    host = s.host;
    replica = s.replica;
    container_id = s.container_id;
    status = s.status;
    ports = s.ports;
    log_dir = s.log_dir;
    data_dir = s.data_dir;
  }

  -- The cells of `FormatStatus`: three columns are cut unless they are asked for.
  abbrev pub cell : Bool → Line → Line
  cell verbose l = record l {
    ports = if verbose then (if l.ports == "" then "-" else l.ports) else "";
    log_dir = if verbose then l.log_dir else "";
    data_dir = if verbose then l.data_dir else "";
  }

  unfoldable pub format_status : List ServiceStatus → Bool → Bool → Fallible (List Line)
  unfolding sort_statues merge_statues
  format_status ss verbose expand = do
    ls ← (if expand then ok (map line_of (sort_statues ss)) else merge_statues (sort_statues ss))
    ok (map (cell verbose) ls)
