-- ===== src/Checker/Addresses.antt =====
-- What the check of the listen addresses accepts.
use mathlib.Core.List.{map-append}
use curveadm.Prelude.{
  String, ◌≡◌, refl, sym, subst, ◌↔◌, inl, inr, true, false, Bool-cases, List, [], ◌∷◌, ◌++◌, map,
  contains, IsNew, pushed, IsNew-append, ℤ, ok, err, ◌>>=◌, bind-eq-ok, WhenOk, eq_refl, ◌==◌,
}
use curveadm.Errno.{Fallible, duplicate_listen_address}
use curveadm.Topology.DeployConfig.{DeployConfig, role_etcd, role_mds, role_chunkserver}
use curveadm.Topology.Layout.{
  get_listen_ip, get_listen_port, get_listen_external_port, get_enable_external_server,
}
use curveadm.Checker.{
  Address, get_service_listen_addresses, address_text, use_addresses, addresses_from,
  check_address_duplicate,
}

-- Every address that a service listens on
unfoldable pub all_addresses : List DeployConfig → Fallible (List Address)
all_addresses [] = ok []
all_addresses (dc ∷ dcs) = do
  as' ← get_service_listen_addresses dc
  rest ← all_addresses dcs
  ok (as' ++ rest)

use_addresses-IsNew :
    (used : List String) (as' : List Address) {used' : List String}
    → use_addresses used as' ≡ ok used'
    → IsNew used (map address_text as') × (pushed used (map address_text as') ≡ used')
unfolding use_addresses
use_addresses-IsNew used [] {used'} h = (tt, subst (WhenOk (λ u. used ≡ u)) h refl)
use_addresses-IsNew used (a ∷ as') h = elim (Bool-cases (contains used (address_text a))) [
  | inl e ↦ cc (rw e at h)
  | inr e ↦ let (n, p) = use_addresses-IsNew (address_text a ∷ used) as' (rw e at h) in ((e, n), p)
]

use_addresses-returns :
    (used : List String) (as' : List Address)
    → IsNew used (map address_text as')
    → use_addresses used as' ≡ ok (pushed used (map address_text as'))
unfolding use_addresses
use_addresses-returns used [] h = refl
use_addresses-returns used (a ∷ as') (e, h) =
    rw (e) (use_addresses-returns (address_text a ∷ used) as' h)

addresses_from-IsNew :
    (used : List String) (dcs : List DeployConfig)
    → addresses_from used dcs ≡ ok tt
    → (as' : List Address) × (all_addresses dcs ≡ ok as') × IsNew used (map address_text as')
unfolding addresses_from all_addresses
addresses_from-IsNew used [] h = ([], refl, tt)
addresses_from-IsNew used (dc ∷ dcs) h =
    let (as', e, h1) = bind-eq-ok (get_service_listen_addresses dc) _ h in
    let (used', f, h2) = bind-eq-ok (use_addresses used as') _ h1 in
    let (n, p) = use_addresses-IsNew used as' f in
    let (rest, g, m) = addresses_from-IsNew used' dcs h2 in
    (
      as' ++ rest,
      rw (e, g) refl,
      subst (IsNew used) (sym (map-append address_text as' rest)) (
          (IsNew-append used (map address_text as') (map address_text rest)).1
            (n, subst (λ u. IsNew u (map address_text rest)) (sym p) m)),
    )

addresses_from-accepts :
    (used : List String) (dcs : List DeployConfig) {as' : List Address}
    → all_addresses dcs ≡ ok as'
    → IsNew used (map address_text as')
    → addresses_from used dcs ≡ ok tt
unfolding addresses_from all_addresses
addresses_from-accepts used [] e h = refl
addresses_from-accepts used (dc ∷ dcs) {as'} e h =
    let (own, f, e1) = bind-eq-ok (get_service_listen_addresses dc) _ e in
    let (rest, g, e2) = bind-eq-ok (all_addresses dcs) _ e1 in
    let all : IsNew used (map address_text (own ++ rest)) =
      subst (WhenOk (λ l. IsNew used (map address_text l))) (sym e2) h in
    let (a, b) =
      (IsNew-append used (map address_text own) (map address_text rest)).0
        (subst (IsNew used) (map-append address_text own rest) all) in
    rw (f, use_addresses-returns used own a)
      (addresses_from-accepts (pushed used (map address_text own)) dcs g b)

-- Addresses that can all be read and of which no two are alike
abbrev pub AreApart : List DeployConfig → Type 0
AreApart dcs = (as' : List Address) × (all_addresses dcs ≡ ok as') × IsNew [] (map address_text as')

-- The check of the listen addresses accepts exactly the lists of services whose listen addresses
-- can all be read and of which no two are written alike.
pub check_address_duplicate-AreApart :
    (dcs : List DeployConfig) → (check_address_duplicate dcs ≡ ok tt) ↔ AreApart dcs
unfolding check_address_duplicate
check_address_duplicate-AreApart dcs =
    (addresses_from-IsNew [] dcs, λ (as', e, h). addresses_from-accepts [] dcs e h)

-- A chunkserver whose external server is enabled and whose external port is its listen port is
-- refused with a duplicate address, whatever services follow: its two addresses are one, since
-- its external address is read from its listen address.
pub check_address_duplicate-itself :
    (dc : DeployConfig) (dcs : List DeployConfig) (ip : String) (port : ℤ)
    → dc.role ≡ role_chunkserver
    → get_listen_ip dc ≡ ok ip
    → get_listen_port dc ≡ ok port
    → get_enable_external_server dc ≡ ok true
    → get_listen_external_port dc ≡ ok port
    → check_address_duplicate (dc ∷ dcs) ≡ err duplicate_listen_address
unfolding check_address_duplicate addresses_from get_service_listen_addresses use_addresses contains
check_address_duplicate-itself dc dcs ip port r e f b x =
    let own : Address = record { role = role_chunkserver; ip = ip; port = port } in
    let not_etcd : (dc.role == role_etcd) ≡ false =
      subst (λ r. (r == role_etcd) ≡ false) (sym r) refl in
    let not_mds : (dc.role == role_mds) ≡ false =
      subst (λ r. (r == role_mds) ≡ false) (sym r) refl in
    let storage : (dc.role == role_chunkserver) ≡ true =
      subst (λ r. (r == role_chunkserver) ≡ true) (sym r) refl in
    rw (not_etcd, not_mds, storage, e, f, b, x, eq_refl (address_text own)) refl
