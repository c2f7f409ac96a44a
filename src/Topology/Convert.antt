-- ===== src/Topology/Convert.antt =====
-- internal/configure/topology/dc.go: a service's configuration is made of texts, rendered with its
-- variables, and converted to the types that its items require. `stack` bounds the recursion of the
-- variables.
pub mod Items
pub mod Typed
pub mod Ports
use Prim.Native.String.{◌++◌}
use curveadm.Prelude.{
  ℕ, zero, String, Bool, true, false, not, Option, none, some, List, [], ◌∷◌, Dict, lookup, insert,
  erase, ◌==◌, ℤ, pos, negsuc, Result, ok, err, panic, ◌>>=◌, ◌>>◌, guard, wrap, if◌then◌else◌,
}
use curveadm.Errno.{
  Fallible, unsupport_variable_value_type, invalid_variable_value, invalid_variable_section,
  unsupport_configure_value_type, resolve_variable_failed, rendering_variable_failed,
  configure_value_requires_integer, configure_value_requires_bool,
  configure_value_requires_non_empty_string, configure_value_requires_positive_integer,
  host_not_found,
}
use curveadm.Config.Value.{
  Value, Fields, null, text, int, bool, dict, to_dict, all_to_str, str_to_int, str_to_bool,
}
use curveadm.Variables.{Variables, Variable, Fault, new_variables, register, build, rendering}
use curveadm.Topology.DeployConfig.{DeployConfig, Context, format_id, format_name, lookup_host}
use curveadm.Topology.Item.{
  Item, Require, require_any, require_int, require_string, require_bool, require_positive_integer,
  require_string_slice, get, itemset, find_item,
}

-- `vars.Register(…)`, whose error is dropped
abbrev registered : Variables → Result Fault Variables → Variables
registered vars (ok w) = w
registered vars _ = vars

unfoldable pub user_variables : Dict Value → Variables → Fallible Variables
unfolding all_to_str register
user_variables [] vars = ok vars
user_variables ((k, v) ∷ m) vars = elim (all_to_str v) [
  | none ↦ err unsupport_variable_value_type
  | some s ↦
      if s == ""
      then err invalid_variable_value
      else user_variables m (
          registered vars
            (register (record { name = k; description = ""; value = s; resolved = false }) vars))
]

-- The variable section: missing, nil, or a map.
unfoldable pub variable_section : Option Value → Fallible (Dict Value)
variable_section none = ok []
variable_section (some null) = ok []
variable_section (some (dict fs)) = ok (to_dict fs)
variable_section (some _) = err invalid_variable_section

unfoldable pub to_texts : Dict Value → Fallible (Dict Value)
unfolding all_to_str
to_texts [] = ok []
to_texts ((k, v) ∷ m) = elim (all_to_str v) [
  | none ↦ err unsupport_configure_value_type
  | some s ↦ do rest ← to_texts m; ok ((k, text s) ∷ rest)
]

unfoldable pub new_deploy_config :
    Option Context
    → String
    → String
    → String
    → String
    → ℕ
    → ℕ
    → ℕ
    → Dict Value
    → Fallible DeployConfig
unfolding variable_section user_variables new_variables to_texts format_name format_id
new_deploy_config ctx kind role host name replicas host_sequence replicas_sequence config = do
  m ← variable_section (lookup "variable" config)
  vars ← user_variables m new_variables
  config' ← to_texts (erase "variable" config)
  let name' = format_name name host_sequence
  ok (record {
    kind = kind;
    id = format_id role host name' replicas_sequence;
    parent_id = format_id role host name' 0;
    role = role;
    host = host;
    hostname = "";
    name = name';
    replicas = replicas;
    host_sequence = host_sequence;
    replicas_sequence = replicas_sequence;
    config = config';
    service_config = [];
    variables = vars;
    ctx = ctx;
  })

-- `v.(string)`
abbrev pub text_of : Value → Fallible String
text_of (text s) = ok s
text_of _ = panic

unfoldable pub render_config : Variables → Dict Value → Fallible (Dict Value)
unfolding rendering
render_config vars [] = ok []
render_config vars ((k, v) ∷ m) = do
  s ← text_of v
  r ← wrap rendering_variable_failed (rendering vars s)
  rest ← render_config vars m
  ok ((k, text r) ∷ rest)

unfoldable pub render_variables : ℕ → DeployConfig → Fallible DeployConfig
unfolding render_config build rendering
render_variables stack dc = do
  vars ← wrap resolve_variable_failed (build stack dc.variables)
  name ← wrap rendering_variable_failed (rendering vars dc.name)
  id ← wrap rendering_variable_failed (rendering vars dc.id)
  parent_id ← wrap rendering_variable_failed (rendering vars dc.parent_id)
  config ← render_config vars dc.config
  ok (record dc { name = name; id = id; parent_id = parent_id; config = config; variables = vars })

abbrev in_service_config : Option Item → Bool
in_service_config none = true
in_service_config (some i) = if i.exclude then false else true

unfoldable pub init_service_config : Dict Value → Dict String → Fallible (Dict String)
unfolding find_item
init_service_config [] out = ok out
init_service_config ((k, v) ∷ m) out =
    if in_service_config (find_item k itemset)
    then (do s ← text_of v; init_service_config m (insert k s out))
    else init_service_config m out

abbrev or_err : {A : Type 0} → Option A → Fallible A → Fallible A
or_err none e = e
or_err (some a) e = ok a

abbrev positive : ℤ → Fallible ℤ
positive (pos zero) = err configure_value_requires_positive_integer
positive (negsuc n) = err configure_value_requires_positive_integer
positive n = ok n

-- What a text is converted to, or nothing if the value stays.
unfoldable pub convert_text : Require → String → Fallible (Option Value)
unfolding str_to_int str_to_bool
convert_text require_int s = do
  n ← or_err (str_to_int s) (err configure_value_requires_integer)
  ok (some (int n))
convert_text require_string s =
    if s == "" then err configure_value_requires_non_empty_string else ok none
convert_text require_bool s = do
  b ← or_err (str_to_bool s) (err configure_value_requires_bool)
  ok (some (bool b))
convert_text require_positive_integer s = do
  n ← or_err (str_to_int s) (err configure_value_requires_integer)
  m ← positive n
  ok (some (int m))
convert_text _ s = ok none

abbrev pub stored : String → Option Value → DeployConfig → DeployConfig
stored k none dc = dc
stored k (some v) dc = record dc { config = insert k v dc.config }

unfoldable pub convert_value : Item → Value → DeployConfig → Fallible DeployConfig
unfolding all_to_str convert_text
convert_value i null dc = ok dc
convert_value i value dc = do
  s ← or_err (all_to_str value) (err unsupport_configure_value_type)
  v ← convert_text i.require s
  ok (stored i.key v dc)

unfoldable pub convert_item : Item → DeployConfig → Fallible DeployConfig
unfolding convert_value get
convert_item i dc = do value ← get dc i; convert_value i value dc

unfoldable pub convert_items : List Item → DeployConfig → Fallible DeployConfig
unfolding convert_item
convert_items [] dc = ok dc
convert_items (i ∷ is) dc = do dc' ← convert_item i dc; convert_items is dc'

unfoldable pub convert : DeployConfig → Fallible DeployConfig
unfolding init_service_config convert_items itemset
convert dc = do
  service_config ← init_service_config dc.config dc.service_config
  convert_items itemset (record dc { service_config = service_config })

unfoldable pub resolve_host : ℕ → DeployConfig → Fallible DeployConfig
unfolding build rendering lookup_host
resolve_host stack dc = elim dc.ctx [
  | none ↦ ok (record dc { hostname = dc.host })
  | some ctx ↦ do
    vars ← wrap resolve_variable_failed (build stack dc.variables)
    host ← wrap rendering_variable_failed (rendering vars dc.host)
    guard (not (lookup_host ctx host == "")) host_not_found
    ok (record dc { variables = vars; host = host; hostname = lookup_host ctx host })
]

-- `Build` of a service
unfoldable pub build_config : ℕ → DeployConfig → Fallible DeployConfig
unfolding render_variables convert
build_config stack dc = do dc' ← render_variables stack dc; convert dc'
