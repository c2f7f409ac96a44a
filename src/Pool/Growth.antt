-- ===== src/Pool/Growth.antt =====
-- How the pools of a cluster grow, and what stays when services move.
use curveadm.Prelude.{
  ◌+◌, ◌≤◌, ◌<◌, ◌^◌, ◌∙◌, String, ◌≡◌, refl, sym, ap, subst, inl, inr, arith, ◌==◌, Bool-cases,
  concat, itoa_ℕ, List, [], ◌∷◌, ◌++◌, length, All, keep, pos, ok, if◌then◌else◌,
}
use curveadm.Topology.DeployConfig.{DeployConfig, kind_curvebs}
use curveadm.Topology.Convert.Ports.{IsReady}
use curveadm.Pool.{
  Server, LogicalPool, CurveClusterTopo, is_storage, head_kind, sort_deploy_configs,
  create_logical_pool, logical_pool_of, generate_cluster_pool, scale_out_cluster_pool,
}
use curveadm.Pool.Order.{
  sort_deploy_configs-All, sort_deploy_configs-IsSorted, length-sort_deploy_configs,
}
use curveadm.Pool.Zones.{
  AreServers, stored_copysets, stored_copysets-Perm, share, add_servers-Adds, at_least_one-share,
}

-- Services of a kind whose getters return, one at least.
pub record IsCluster (kind : String) (dcs : List DeployConfig) : Type 0 where
  pub some_service : 1 ≤ length dcs
  pub ready : All IsReady dcs
  pub one_kind : All (λ dc. dc.kind ≡ kind) dcs

head_kind-one :
    (kind : String) (dcs : List DeployConfig)
    → 1 ≤ length dcs
    → All (λ dc. dc.kind ≡ kind) dcs
    → head_kind dcs ≡ ok kind
head_kind-one kind [] h a = ground arith
head_kind-one kind (dc ∷ dcs) h (e, a) = ap ok e

-- A pool that is new
pub record IsPool (kind pool : String) (dcs : List DeployConfig) (p : LogicalPool)
    (servers : List Server) : Type 0 where
  pub name : p.name ≡ pool
  pub copysets : p.copysets ≡ pos (share (stored_copysets kind dcs))
  pub owner : p.physical_pool ≡ (if kind == kind_curvebs then pool else "")
  pub places : AreServers kind pool 0 "" (keep (is_storage kind) (sort_deploy_configs dcs)) servers

create_logical_pool-IsPool :
    (kind pool : String) (dcs : List DeployConfig)
    → IsCluster kind dcs
    → stored_copysets kind dcs < 2 ^ 63
    → (p : LogicalPool) × (servers : List Server) × (create_logical_pool dcs pool ≡ ok (p, servers))
      × IsPool kind pool dcs p servers
unfolding create_logical_pool logical_pool_of
create_logical_pool-IsPool kind pool dcs c small =
    let q = stored_copysets-Perm kind (sort_deploy_configs-IsSorted dcs).1 in
    let (b, e, a) =
      add_servers-Adds kind pool 0 (sort_deploy_configs dcs)
        (record { calls = 0; zone = ""; copysets = pos 0; servers = [] })
        (sort_deploy_configs-All IsReady dcs c.ready) refl (omega (arith, q, small)) in
    let n : b.copysets ≡ pos (stored_copysets kind dcs) = a.sum ∙ ap pos (omega (arith, q)) in
    (
      logical_pool_of kind pool b.copysets,
      b.servers,
      rw (head_kind-one kind dcs c.some_service c.one_kind, e) refl,
      record {
        name = refl;
        copysets = rw (n) (at_least_one-share (stored_copysets kind dcs));
        owner = refl;
        places =
            subst (AreServers kind pool 0 "" (keep (is_storage kind) (sort_deploy_configs dcs)))
              (sym a.appended) a.servers;
      },
    )

sorted_kind :
    (kind : String) (dcs : List DeployConfig)
    → IsCluster kind dcs
    → head_kind (sort_deploy_configs dcs) ≡ ok kind
sorted_kind kind dcs c =
    head_kind-one kind (sort_deploy_configs dcs)
      (omega (arith, length-sort_deploy_configs dcs, c.some_service))
      (sort_deploy_configs-All (λ dc. dc.kind ≡ kind) dcs c.one_kind)

abbrev pub scaled : CurveClusterTopo → String → LogicalPool → List Server → CurveClusterTopo
scaled old kind p new = record {
  servers = old.servers ++ new;
  logical_pools = if kind == kind_curvebs then old.logical_pools ++ p ∷ [] else old.logical_pools;
  pools = if kind == kind_curvebs then old.pools else old.pools ++ p ∷ [];
  npools = old.npools + 1;
}

-- Scaling out a cluster topology by at least one service, all of one kind and with getters that
-- return, returns, when the copysets of those that store data sum up to less than 2 ^ 63. It adds
-- the servers of the new services behind the servers that are there and one pool behind the pools
-- of its kind, changes no other entry, and counts the pool. The pool is named by the new count
-- and its number of copysets is a third of that sum, 1 at least. Each new service that stores
-- data gets one server, in sorted order and with its name, addresses and ports; the first replica
-- of a host takes the next of the three zones, and the others the zone of the server before.
pub scale_out_cluster_pool-scaled :
    (old : CurveClusterTopo) (kind : String) (dcs : List DeployConfig)
    → IsCluster kind dcs
    → stored_copysets kind dcs < 2 ^ 63
    → (p : LogicalPool) × (new : List Server) × (scale_out_cluster_pool old dcs
        ≡ ok (scaled old kind p new))
      × IsPool kind (concat ("pool" ∷ itoa_ℕ (old.npools + 1) ∷ [])) dcs p new
unfolding scale_out_cluster_pool generate_cluster_pool
scale_out_cluster_pool-scaled old kind dcs c small =
    let (p, new, e, is) =
      create_logical_pool-IsPool kind (concat ("pool" ∷ itoa_ℕ (old.npools + 1) ∷ [])) dcs c
        small in
    (
      p,
      new,
      elim (Bool-cases (kind == kind_curvebs)) [
        | inl b ↦ rw (e, sorted_kind kind dcs c, b) refl
        | inr b ↦ rw (e, sorted_kind kind dcs c, b) refl
      ],
      is,
    )
