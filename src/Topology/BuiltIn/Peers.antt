-- ===== src/Topology/BuiltIn/Peers.antt =====
-- The variables that list the addresses of the services of a role, as `joinPeer` writes them.
use Prim.Native.String.{◌++◌}
use curveadm.Prelude.{
  String, ◌≡◌, refl, sym, ◌∙◌, ap, subst, ◌⊎◌, inl, inr, false, Bool-cases, text-cases, ◌==◌, List,
  [], ◌∷◌, All, All-map, keep, ℤ, itoa, join, ok, bind-eq-ok, WhenOk,
}
use curveadm.Errno.{Fallible}
use curveadm.Topology.DeployConfig.{
  DeployConfig, role_etcd, role_mds, role_chunkserver, role_snapshotclone, role_metaserver,
}
use curveadm.Topology.Layout.{
  get_listen_ip, get_listen_port, get_listen_client_port, get_listen_dummy_port,
  get_listen_proxy_port,
}
use curveadm.Topology.BuiltIn.{
  SelectPort, select_listen_port, select_listen_client_port, select_listen_dummy_port,
  select_listen_proxy_port, selected, peer, each_of_role, join_peer, cluster_value, get_value,
}

-- Each such variable with the role and the port
abbrev pub peer_variables : List (String × String × SelectPort)
peer_variables =
    ("cluster_etcd_addr", role_etcd, select_listen_client_port)
    ∷ ("cluster_mds_addr", role_mds, select_listen_port)
    ∷ ("cluster_mds_dummy_addr", role_mds, select_listen_dummy_port)
    ∷ ("cluster_chunkserver_addr", role_chunkserver, select_listen_port)
    ∷ ("cluster_snapshotclone_addr", role_snapshotclone, select_listen_port)
    ∷ ("cluster_snapshotclone_proxy_addr", role_snapshotclone, select_listen_proxy_port)
    ∷ ("cluster_metaserver_addr", role_metaserver, select_listen_port)
    ∷ []

abbrev pub port_at : SelectPort → DeployConfig → Fallible ℤ
port_at select_listen_port = get_listen_port
port_at select_listen_client_port = get_listen_client_port
port_at select_listen_dummy_port = get_listen_dummy_port
port_at select_listen_proxy_port = get_listen_proxy_port

abbrev pub IsPeer : SelectPort → DeployConfig → String → Type 0
IsPeer s dc t =
    (host : String) × (port : ℤ) × (get_listen_ip dc ≡ ok host)
    × (port_at s dc ≡ ok port)
    × (t ≡ host ++ (":" ++ itoa port))

-- One address for each service, in order
abbrev pub ArePeers : SelectPort → List DeployConfig → List String → Type 0
ArePeers s [] [] = Unit
ArePeers s [] (t ∷ ts) = ⊥
ArePeers s (dc ∷ dcs) [] = ⊥
ArePeers s (dc ∷ dcs) (t ∷ ts) = IsPeer s dc t × ArePeers s dcs ts

-- The text is the addresses of the services of a role, with commas between.
abbrev pub ListsPeers : List DeployConfig → String → SelectPort → String → Type 0
ListsPeers dcs role s value =
    (ts : List String) × ArePeers s (keep (λ dc. dc.role == role) dcs) ts × (value ≡ join "," ts)

abbrev pub IsListed : String → List DeployConfig → String → String × String × SelectPort → Type 0
IsListed name dcs value v = ((v.0 == name) ≡ false) ⊎ ListsPeers dcs v.1 v.2 value

-- A variable that is one of the lists has a list as its value.
abbrev pub HasPeers : String → List DeployConfig → String → Type 0
HasPeers name dcs value = All (IsListed name dcs value) peer_variables

peer-IsPeer : (s : SelectPort) (dc : DeployConfig) {t : String} → peer s dc ≡ ok t → IsPeer s dc t
unfolding peer
peer-IsPeer s dc {t} h =
    let (host, e, h1) = bind-eq-ok (get_listen_ip dc) _ h in
    let (listen, f, h2) = bind-eq-ok (get_listen_port dc) _ h1 in
    let (port, g, h3) = bind-eq-ok (selected s dc listen) _ h2 in
    (host, port, e, at s listen f port g, subst (WhenOk (λ x. t ≡ x)) (sym h3) refl)
  where
    at :
        (s : SelectPort) (listen : ℤ)
        → get_listen_port dc ≡ ok listen
        → (port : ℤ) → selected s dc listen ≡ ok port
        → port_at s dc ≡ ok port
    at select_listen_port listen f port g = f ∙ g
    at select_listen_client_port listen f port g = g
    at select_listen_dummy_port listen f port g = g
    at select_listen_proxy_port listen f port g = g

each_of_role-ArePeers :
    (role : String) (s : SelectPort) (dcs : List DeployConfig) {ts : List String}
    → each_of_role role (peer s) dcs ≡ ok ts
    → ArePeers s (keep (λ dc. dc.role == role) dcs) ts
unfolding each_of_role keep
each_of_role-ArePeers role s [] h = subst (WhenOk (ArePeers s [])) h tt
each_of_role-ArePeers role s (dc ∷ dcs) {ts} h = elim (Bool-cases (dc.role == role)) [
  | inr e ↦ rw e (each_of_role-ArePeers role s dcs (rw e at h))
  | inl e ↦
      let (t, f, h1) = bind-eq-ok (peer s dc) _ (rw e at h) in
      let (rest, g, h2) = bind-eq-ok (each_of_role role (peer s) dcs) _ h1 in
      rw e (
        subst (WhenOk (ArePeers s (dc ∷ keep (λ dc. dc.role == role) dcs))) h2
          (peer-IsPeer s dc f, each_of_role-ArePeers role s dcs g))
]

join_peer-ListsPeers :
    (dcs : List DeployConfig) (role : String) (s : SelectPort) {value : String}
    → join_peer dcs role s ≡ ok value
    → ListsPeers dcs role s value
unfolding join_peer
join_peer-ListsPeers dcs role s {value} h =
    let (ts, e, h1) = bind-eq-ok (each_of_role role (peer s) dcs) _ h in
    (ts, each_of_role-ArePeers role s dcs e, subst (WhenOk (λ x. value ≡ x)) (sym h1) refl)

abbrev IsJoined : String → List DeployConfig → DeployConfig → String × String × SelectPort → Type 0
IsJoined uuid dcs dc v = get_value uuid v.0 dcs dc ≡ join_peer dcs v.1 v.2

get_value-IsJoined :
    (uuid : String) (dcs : List DeployConfig) (dc : DeployConfig)
    → All (IsJoined uuid dcs dc) peer_variables
unfolding get_value cluster_value
get_value-IsJoined uuid dcs dc = (refl, (refl, (refl, (refl, (refl, (refl, (refl, tt)))))))

pub get_value-HasPeers :
    (uuid name : String) (dcs : List DeployConfig) (dc : DeployConfig) {value : String}
    → get_value uuid name dcs dc ≡ ok value
    → HasPeers name dcs value
get_value-HasPeers uuid name dcs dc {value} h =
    All-map (IsJoined uuid dcs dc) (IsListed name dcs value) listed peer_variables
      (get_value-IsJoined uuid dcs dc)
  where
    listed : (v : String × String × SelectPort) → IsJoined uuid dcs dc v → IsListed name dcs value v
    listed v e = elim (text-cases v.0 name) [
      | inr q ↦ inl q
      | inl q ↦
          inr (join_peer-ListsPeers dcs v.1 v.2 (sym e ∙ ap (λ m. get_value uuid m dcs dc) q ∙ h))
    ]
