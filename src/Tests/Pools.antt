-- ===== src/Tests/Pools.antt =====
-- Pools at concrete inputs.
use mathlib.Core.List.{Permᴰ}
use curveadm.Prelude.{◌≡◌, refl, arith, List, [], ◌∷◌, ok, pos, concat, itoa_ℕ, lookup}
use curveadm.Topology.DeployConfig.{kind_curvebs}
use curveadm.Topology.Item.{get, get_int, as_int}
use curveadm.Topology.Layout.{get_copysets}
use curveadm.Pool.{
  Server, LogicalPool, CurveClusterTopo, MigrateServer, targets, sort_deploy_configs,
  scale_out_cluster_pool, migrate_cluster_server, is_storage,
}
use curveadm.Pool.Order.{IsSorted, sort_deploy_configs-IsSorted}
use curveadm.Pool.Zones.{stored_copysets}
use curveadm.Pool.Growth.{IsCluster, IsPool, scaled, scale_out_cluster_pool-scaled}
use curveadm.Pool.Moves.{AreMoved, migrate_cluster_server-moves}
use curveadm.Tests.{three_chunkservers, chunkserver, chunkserver-IsReady}

sort_deploy_configs-IsSorted_example :
    IsSorted (sort_deploy_configs three_chunkservers)
    × Permᴰ (sort_deploy_configs three_chunkservers) three_chunkservers
sort_deploy_configs-IsSorted_example = sort_deploy_configs-IsSorted three_chunkservers

three_chunkservers-IsCluster : IsCluster kind_curvebs three_chunkservers
three_chunkservers-IsCluster = record {
  some_service = omega arith;
  ready = (
    chunkserver-IsReady "h1" "c1",
    (chunkserver-IsReady "h2" "c2", (chunkserver-IsReady "h3" "c3", tt)),
  );
  one_kind = (refl, (refl, (refl, tt)));
}

abbrev old_server : Server
old_server = record {
  name = "h0_0_0";
  internal_ip = "h0";
  internal_port = pos 8200;
  external_ip = "h0";
  external_port = pos 8200;
  zone = "zone1";
  physical_pool = "pool1";
  pool = "";
}

abbrev old : CurveClusterTopo
old = record { servers = old_server ∷ []; logical_pools = []; pools = []; npools = 1 }

three_chunkservers-copysets : stored_copysets kind_curvebs three_chunkservers ≡ 300
unfolding stored_copysets is_storage lookup get_copysets get_int get as_int
three_chunkservers-copysets = refl

scale_out_cluster_pool-scaled_example :
    (p : LogicalPool) × (new : List Server) × (scale_out_cluster_pool old three_chunkservers
      ≡ ok (scaled old kind_curvebs p new))
    × IsPool kind_curvebs (concat ("pool" ∷ itoa_ℕ 2 ∷ [])) three_chunkservers p new
scale_out_cluster_pool-scaled_example =
    scale_out_cluster_pool-scaled old kind_curvebs three_chunkservers three_chunkservers-IsCluster
      (omega (arith, three_chunkservers-copysets))

abbrev moves : List MigrateServer
moves = record { from = chunkserver "h0" "c0"; to = chunkserver "h4" "c4" } ∷ []

migrate_cluster_server-moves_example :
    (ss' : List Server) × (migrate_cluster_server old moves ≡ ok (record old { servers = ss' }))
    × AreMoved (targets moves []) old.servers ss'
migrate_cluster_server-moves_example =
    migrate_cluster_server-moves old moves (chunkserver-IsReady "h4" "c4", tt)
