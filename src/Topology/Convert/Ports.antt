-- ===== src/Topology/Convert/Ports.antt =====
-- The getters of a built service return: no type assertion fails, and its ports are positive.
use curveadm.Prelude.{
  ℕ, suc, String, ◌≡◌, refl, sym, ap, subst, Bool, true, false, some, ◌⊎◌, inl, inr, arith, lookup,
  ◌==◌, ℤ, pos, ok, Bool-cases, Option-cases,
}
use curveadm.Errno.{Fallible}
use curveadm.Config.Value.{Value, text, bool}
use curveadm.Topology.DeployConfig.{
  DeployConfig, role_etcd, role_mds, role_chunkserver, role_snapshotclone, role_metaserver,
}
use curveadm.Topology.Item.{
  Item, require_string, require_bool, require_positive_integer, default_value, get_string, get_int,
  get_bool, itemset, listen_port_of, number, external_port, config_listen_port, config_listen_ip,
  config_listen_external_ip, config_listen_external_port, config_enable_external_server,
  config_copysets,
}
use curveadm.Topology.Layout.{
  get_listen_ip, get_listen_port, get_listen_external_ip, get_listen_external_port,
  get_enable_external_server, get_copysets,
}
use curveadm.Topology.Convert.{build_config}
use curveadm.Topology.Convert.Items.{HasType}
use curveadm.Topology.Convert.Typed.{build_config-IsConverted}

-- One of the five roles.
abbrev pub IsRole : String → Type 0
IsRole r =
    (r ≡ role_etcd)
    ⊎ (r ≡ role_mds)
    ⊎ (r ≡ role_chunkserver)
    ⊎ (r ≡ role_snapshotclone)
    ⊎ (r ≡ role_metaserver)

abbrev Positive : Fallible ℤ → Type 0
Positive r = (n : ℕ) × (r ≡ ok (pos (suc n)))

abbrev IsTyped : Item → DeployConfig → Type 0
IsTyped i dc = (v : Value) → lookup i.key dc.config ≡ some v → HasType i.require v

get_int-positive :
    (i : Item) (dc : DeployConfig)
    → i.require ≡ require_positive_integer
    → IsTyped i dc
    → ((n : ℕ) × (default_value i.default dc ≡ ok (number (suc n))))
    → Positive (get_int dc i)
unfolding get_int
get_int-positive i dc r h (n, d) = elim (Option-cases (lookup i.key dc.config)) [
  | inl e ↦ (n, rw (e) (rw d))
  | inr (v, e) ↦
      let (m, same) : HasType require_positive_integer v = subst (λ q. HasType q v) r (h v e) in
      (m, rw e (rw same))
]

get_bool-returns :
    (i : Item) (dc : DeployConfig)
    → i.require ≡ require_bool
    → IsTyped i dc
    → ((b : Bool) × (default_value i.default dc ≡ ok (bool b)))
    → (b : Bool) × (get_bool dc i ≡ ok b)
unfolding get_bool
get_bool-returns i dc r h (b, d) = elim (Option-cases (lookup i.key dc.config)) [
  | inl e ↦ (b, rw (e) (rw d))
  | inr (v, e) ↦
      let (c, same) : HasType require_bool v = subst (λ q. HasType q v) r (h v e) in
      (c, rw e (rw same))
]

get_string-returns :
    (i : Item) (dc : DeployConfig)
    → i.require ≡ require_string
    → IsTyped i dc
    → ((s : String) × (default_value i.default dc ≡ ok (text s)))
    → (s : String) × (get_string dc i ≡ ok s)
unfolding get_string
get_string-returns i dc r h (s, d) = elim (Option-cases (lookup i.key dc.config)) [
  | inl e ↦ (s, rw (e) (rw d))
  | inr (v, e) ↦
      let (t, same, _) : HasType require_string v = subst (λ q. HasType q v) r (h v e) in
      (t, rw e (rw same))
]

listen_port_of-positive : (r : String) → IsRole r → (n : ℕ) × (listen_port_of r ≡ number (suc n))
unfolding listen_port_of
listen_port_of-positive r (inl e) = (2379, rw e)
listen_port_of-positive r (inr (inl e)) = (6699, rw e)
listen_port_of-positive r (inr (inr (inl e))) = (8199, rw e)
listen_port_of-positive r (inr (inr (inr (inl e)))) = (5554, rw e)
listen_port_of-positive r (inr (inr (inr (inr e)))) = (6799, rw e)

-- The getters that a pool and the checks read.
pub record IsReady (dc : DeployConfig) : Type 0 where
  pub listen_ip : (s : String) × (get_listen_ip dc ≡ ok s)
  pub external_ip : (s : String) × (get_listen_external_ip dc ≡ ok s)
  pub enabled : (b : Bool) × (get_enable_external_server dc ≡ ok b)
  pub listen_port : Positive (get_listen_port dc)
  pub external_port : Positive (get_listen_external_port dc)
  pub copysets : Positive (get_copysets dc)

module _ (dc : DeployConfig) (role : IsRole dc.role) where
  listen_port-positive : IsTyped config_listen_port dc → Positive (get_int dc config_listen_port)
  listen_port-positive h =
      let (n, e) = listen_port_of-positive dc.role role in
      get_int-positive config_listen_port dc refl h (n, ap ok e)

  external_port-positive :
      IsTyped config_listen_port dc
      → IsTyped config_listen_external_port dc
      → Positive (get_int dc config_listen_external_port)
  unfolding external_port
  external_port-positive h g =
      get_int-positive config_listen_external_port dc refl g
        (elim (Bool-cases (dc.role == role_metaserver)) [
          | inl e ↦ (7799, rw e)
          | inr e ↦ let (n, p) = listen_port-positive h in (n, rw e (rw p))
        ])

  chosen_port :
      (b : Bool)
      → get_enable_external_server dc ≡ ok b
      → Positive (get_int dc config_listen_external_port)
      → Positive (get_listen_port dc)
      → Positive (get_listen_external_port dc)
  unfolding get_listen_external_port get_enable_external_server get_listen_port
  chosen_port true e (n, p) q = (n, rw e p)
  chosen_port false e p (n, q) = (n, rw e q)

  -- A service of a known role whose items are typed is ready.
  typed-IsReady :
      IsTyped config_listen_ip dc
      → IsTyped config_listen_port dc
      → IsTyped config_listen_external_ip dc
      → IsTyped config_listen_external_port dc
      → IsTyped config_enable_external_server dc
      → IsTyped config_copysets dc
      → IsReady dc
  unfolding get_listen_ip get_listen_port get_listen_external_ip get_enable_external_server
      get_copysets
  typed-IsReady ip p eip ep en cs =
      let enabled : (b : Bool) × (get_bool dc config_enable_external_server ≡ ok b) =
        get_bool-returns config_enable_external_server dc refl en (false, refl) in
      let listen = listen_port-positive p in
      record {
        listen_ip = get_string-returns config_listen_ip dc refl ip (dc.hostname, refl);
        external_ip = get_string-returns config_listen_external_ip dc refl eip (dc.hostname, refl);
        enabled = enabled;
        listen_port = listen;
        external_port = chosen_port enabled.0 enabled.1 (external_port-positive p ep) listen;
        copysets = get_int-positive config_copysets dc refl cs (99, ground arith);
      }

-- When the build of a service of one of the five roles returns, the getters of its addresses,
-- ports, copysets and of the switch of the external server return a value, so no type assertion
-- in them panics, and the ports and the copysets are positive.
pub build_config-IsReady :
    (stack : ℕ) (dc : DeployConfig) {dc' : DeployConfig}
    → IsRole dc.role
    → build_config stack dc ≡ ok dc'
    → IsReady dc'
unfolding itemset
build_config-IsReady stack dc {dc'} r h =
    let c = build_config-IsConverted stack dc h in
    typed-IsReady dc' (subst IsRole (sym c.role) r) c.typed.1.1.1.1.1.1.0 c.typed.1.1.1.1.1.1.1.0
      c.typed.1.1.1.1.1.1.1.1.1.1.1.0 c.typed.1.1.1.1.1.1.1.1.1.1.1.1.0
      c.typed.1.1.1.1.1.1.1.1.1.1.1.1.1.0 c.typed.1.1.1.1.1.1.1.1.1.1.1.1.1.1.0
