-- ===== src/Pool/Zones.antt =====
-- The servers of a new pool, and their zones.
use mathlib.Core.List.{Permᴰ}
use curveadm.Prelude.{
  ℕ, suc, ◌+◌, ◌/◌, String, ◌≡◌, refl, sym, ap, ◌∙◌, subst, inl, inr, ◌==◌, Bool-cases, List, [],
  ◌∷◌, ◌++◌, append_assoc, append-nil, All, keep, pos, ◌+ℤ◌, div_ℤ, is_zero, ok, ℤ, true,
  if◌then◌else◌, ◌<◌, ◌^◌, arith, ltb, int64, int64-small,
}
use curveadm.Errno.{Fallible}
use curveadm.Topology.DeployConfig.{DeployConfig, kind_curvebs}
use curveadm.Topology.Layout.{
  get_listen_ip, get_listen_port, get_listen_external_ip, get_listen_external_port, get_copysets,
}
use curveadm.Topology.Convert.Ports.{IsReady}
use curveadm.Pool.{
  Server, Building, is_storage, format_name, next_zone, port_of, server_of, add_zone, add_server,
  add_servers, at_least_one,
}

-- What the server of a service says of it
pub record IsServer (kind pool : String) (dc : DeployConfig) (s : Server) : Type 0 where
  pub name : s.name ≡ format_name dc
  pub internal_ip : get_listen_ip dc ≡ ok s.internal_ip
  pub external_ip : get_listen_external_ip dc ≡ ok s.external_ip
  pub internal_port :
      (p : ℕ) × (get_listen_port dc ≡ ok (pos (suc p)))
      × (s.internal_port ≡ port_of dc (pos (suc p)))
  pub external_port :
      (p : ℕ) × (get_listen_external_port dc ≡ ok (pos (suc p)))
      × (s.external_port ≡ port_of dc (pos (suc p)))
  pub owner : s.physical_pool ≡ (if kind == kind_curvebs then pool else "")
  pub owner_fs : s.pool ≡ (if kind == kind_curvebs then "" else pool)

-- The servers of the services, one each and in order. The first replica of a host (its id is its
-- parent's) takes the next of the three zones, the others the zone of the one before.
abbrev pub AreServers : String → String → ℕ → String → List DeployConfig → List Server → Type 0
AreServers kind pool calls zone [] [] = Unit
AreServers kind pool calls zone [] (s ∷ ss) = ⊥
AreServers kind pool calls zone (dc ∷ dcs) [] = ⊥
AreServers kind pool calls zone (dc ∷ dcs) (s ∷ ss) =
    IsServer kind pool dc s
    × (s.zone ≡ (if dc.parent_id == dc.id then next_zone 3 calls else zone))
    × AreServers kind pool (if dc.parent_id == dc.id then calls + 1 else calls) s.zone dcs ss

server_of-IsServer :
    (kind pool zone : String) (dc : DeployConfig)
    → IsReady dc
    → (s : Server) × (server_of kind pool dc zone ≡ ok s)
      × (s.zone ≡ zone)
      × IsServer kind pool dc s
unfolding server_of
server_of-IsServer kind pool zone dc r =
    let (ip, e1) = r.listen_ip in
    let (eip, e2) = r.external_ip in
    let (p, e3) = r.listen_port in
    let (ep, e4) = r.external_port in
    (
      _,
      rw (e1, e2, e3, e4) refl,
      refl,
      record {
        name = refl;
        internal_ip = e1;
        external_ip = e2;
        internal_port = (p, e3, refl);
        external_port = (ep, e4, refl);
        owner = refl;
        owner_fs = refl;
      },
    )

abbrev copysets_in : Fallible ℤ → ℕ
copysets_in (ok (pos n)) = n
copysets_in _ = 0

abbrev copysets_of : DeployConfig → ℕ
copysets_of dc = copysets_in (get_copysets dc)

-- The exact sum of the copysets of the services that store data
unfoldable pub stored_copysets : String → List DeployConfig → ℕ
stored_copysets kind [] = 0
stored_copysets kind (dc ∷ dcs) =
    if is_storage kind dc
    then copysets_of dc + stored_copysets kind dcs
    else stored_copysets kind dcs

pub stored_copysets-Perm :
    (kind : String) {xs ys : List DeployConfig}
    → Permᴰ xs ys
    → stored_copysets kind xs ≡ stored_copysets kind ys
unfolding stored_copysets
stored_copysets-Perm kind Permᴰ.nil = refl
stored_copysets-Perm kind (Permᴰ.cons e p) = rw (e, stored_copysets-Perm kind p) refl
stored_copysets-Perm kind (Permᴰ.swap e f) = rw (e, f) (ground arith)
stored_copysets-Perm kind (Permᴰ.trans p q) =
    stored_copysets-Perm kind p ∙ stored_copysets-Perm kind q

-- What `add_servers` makes of a building
pub record Adds (kind pool : String) (n : ℕ) (dcs : List DeployConfig) (b b' : Building)
    : Type 0 where
  pub new : List Server
  pub appended : b'.servers ≡ b.servers ++ new
  pub servers : AreServers kind pool b.calls b.zone (keep (is_storage kind) dcs) new
  pub sum : b'.copysets ≡ pos (n + stored_copysets kind dcs)

add_zone-zone :
    (dc : DeployConfig) (b : Building)
    → (add_zone dc b).zone ≡ (if dc.parent_id == dc.id then next_zone 3 b.calls else b.zone)
unfolding add_zone
add_zone-zone dc b = elim (Bool-cases (dc.parent_id == dc.id)) [
  | inl e ↦ rw (e) refl
  | inr e ↦ rw (e) refl
]

add_zone-calls :
    (dc : DeployConfig) (b : Building)
    → (add_zone dc b).calls ≡ (if dc.parent_id == dc.id then b.calls + 1 else b.calls)
unfolding add_zone
add_zone-calls dc b = elim (Bool-cases (dc.parent_id == dc.id)) [
  | inl e ↦ rw (e) refl
  | inr e ↦ rw (e) refl
]

add_zone-rest :
    (dc : DeployConfig) (b : Building)
    → ((add_zone dc b).servers ≡ b.servers) × ((add_zone dc b).copysets ≡ b.copysets)
unfolding add_zone
add_zone-rest dc b = elim (Bool-cases (dc.parent_id == dc.id)) [
  | inl e ↦ rw (e) (refl, refl)
  | inr e ↦ rw (e) (refl, refl)
]

-- One server is added, in the zone of `add_zone`.
record AddsOne (kind pool : String) (n : ℕ) (dc : DeployConfig) (b b' : Building) : Type 0 where
  server : Server
  is_server : IsServer kind pool dc server
  zone : server.zone ≡ (if dc.parent_id == dc.id then next_zone 3 b.calls else b.zone)
  appended : b'.servers ≡ b.servers ++ server ∷ []
  next_calls : b'.calls ≡ (if dc.parent_id == dc.id then b.calls + 1 else b.calls)
  last_zone : b'.zone ≡ server.zone
  sum : b'.copysets ≡ pos (n + copysets_of dc)

summed :
    (n c : ℕ) {f : Fallible ℤ}
    → f ≡ ok (pos (suc c))
    → n + copysets_in f < 2 ^ 63
    → int64 (pos (n + suc c)) ≡ pos (n + copysets_in f)
summed n c e small = rw e (int64-small (n + suc c) (rw e at small))

add_server-AddsOne :
    (kind pool : String) (n : ℕ) (dc : DeployConfig) (b : Building)
    → IsReady dc
    → b.copysets ≡ pos n
    → n + copysets_of dc < 2 ^ 63
    → (b' : Building) × (add_server kind pool dc b ≡ ok b') × AddsOne kind pool n dc b b'
unfolding add_server ◌+ℤ◌
add_server-AddsOne kind pool n dc b r e small =
    let (s, f, zone, is) = server_of-IsServer kind pool (add_zone dc b).zone dc r in
    let (c, g) = r.copysets in
    let (same, copies) = add_zone-rest dc b in
    let z = add_zone dc b in
    (
      record z { copysets = int64 (z.copysets +ℤ pos (suc c)); servers = z.servers ++ s ∷ [] },
      rw (f, g) refl,
      record {
        server = s;
        is_server = is;
        zone = zone ∙ add_zone-zone dc b;
        appended = ap (λ l. l ++ s ∷ []) same;
        next_calls = add_zone-calls dc b;
        last_zone = sym zone;
        sum = rw (copies, e) (summed n c g small);
      },
    )

one_fits :
    (kind : String) (n : ℕ) (dc : DeployConfig) (dcs : List DeployConfig)
    → is_storage kind dc ≡ true
    → n + stored_copysets kind (dc ∷ dcs) < 2 ^ 63
    → n + copysets_of dc < 2 ^ 63
unfolding stored_copysets
one_fits kind n dc dcs e small = ground arith

rest_fits :
    (kind : String) (n : ℕ) (dc : DeployConfig) (dcs : List DeployConfig)
    → is_storage kind dc ≡ true
    → n + stored_copysets kind (dc ∷ dcs) < 2 ^ 63
    → n + copysets_of dc + stored_copysets kind dcs < 2 ^ 63
unfolding stored_copysets
rest_fits kind n dc dcs e small = ground arith

pub add_servers-Adds :
    (kind pool : String) (n : ℕ) (dcs : List DeployConfig) (b : Building)
    → All IsReady dcs
    → b.copysets ≡ pos n
    → n + stored_copysets kind dcs < 2 ^ 63
    → (b' : Building) × (add_servers kind pool dcs b ≡ ok b') × Adds kind pool n dcs b b'
unfolding add_servers keep stored_copysets
add_servers-Adds kind pool n [] b h e small = (
  b,
  refl,
  record {
    new = [];
    appended = sym (append-nil b.servers);
    servers = tt;
    sum = e ∙ ap pos (omega arith);
  },
)
add_servers-Adds kind pool n (dc ∷ dcs) b (r, h) s small = elim (Bool-cases (is_storage kind dc)) [
  | inr e ↦
      let (b', f, a) = add_servers-Adds kind pool n dcs b h s (rw e at small) in
      (
        b',
        rw (e) f,
        record {
          new = a.new;
          appended = a.appended;
          servers = rw (e) a.servers;
          sum = rw (e) a.sum;
        },
      )
  | inl e ↦
      let (b1, f, one) = add_server-AddsOne kind pool n dc b r s (one_fits kind n dc dcs e small) in
      let (b', g, a) =
        add_servers-Adds kind pool (n + copysets_of dc) dcs b1 h one.sum
          (rest_fits kind n dc dcs e small) in
      (
        b',
        rw (e, f) g,
        record {
          new = one.server ∷ a.new;
          appended =
              a.appended
              ∙ ap (λ l. l ++ a.new) one.appended
              ∙ append_assoc b.servers (one.server ∷ []) a.new;
          servers = rw (e) (
            one.is_server,
            one.zone,
            subst (λ c. AreServers kind pool c one.server.zone (keep (is_storage kind) dcs) a.new)
                one.next_calls
                (subst (λ z. AreServers kind pool b1.calls z (keep (is_storage kind) dcs) a.new)
                  one.last_zone a.servers),
          );
          sum = rw (e) (a.sum ∙ ap pos (omega arith));
        },
      )
]

-- A third, 1 at least
abbrev pub share : ℕ → ℕ
share n = if ltb n 3 then 1 else n / 3

pub at_least_one-share : (n : ℕ) → at_least_one (div_ℤ (pos n) 3) ≡ pos (share n)
unfolding div_ℤ is_zero
at_least_one-share n = ground arith
