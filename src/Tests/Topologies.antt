-- ===== src/Tests/Topologies.antt =====
-- Topologies at concrete inputs.
use curveadm.Prelude.{
  ℕ, zero, suc, ◌<◌, String, ◌≡◌, ◌⊎◌, refl, inl, inr, arith, Bool, true, false, Option, none, some,
  List, [], ◌∷◌, length, Dict, lookup, ℤ, pos, ok, panic, itoa,
}
use curveadm.Config.Value.{Value, field, end, null, bool, text, int, dict, is_string, is_int}
use curveadm.Topology.DeployConfig.{
  DeployConfig, role_mds, role_chunkserver, kind_curvebs, format_name,
}
use curveadm.Topology.Convert.{build_config}
use curveadm.Topology.Convert.Typed.{IsConverted, build_config-IsConverted}
use curveadm.Topology.Convert.Ports.{IsReady, build_config-IsReady}
use curveadm.Topology.Merge.{merge}
use curveadm.Topology.Merge.Filled.{Merged}
use curveadm.Topology.Merge.Inherit.{merge-Merged, merge_panics}
use curveadm.Topology.Diff.{diff_add, diff_delete, TopologyDiff, by_id, diff_configs}
use curveadm.Topology.Diff.Complete.{Reports, diff_configs-Reports}
use curveadm.Variables.{Variables}
use curveadm.Topology.BuiltIn.{Var, for_all, for_roles}
use curveadm.Topology.BuiltIn.Registered.{value_var}
use curveadm.Topology.Diff.Sound.{Explained, diff_configs-Explained}
use curveadm.Topology.Parse.{Deploy, replicas_of, deploy_configs}
use curveadm.Topology.Parse.Replicas.{AreReplicas, deploy_configs-AreReplicas}
use curveadm.Tests.{service, three_chunkservers, one_mds}

abbrev to_build : DeployConfig
to_build = record (service role_mds "h1" "m1") {
  config = ("listen.port", text "6${b}") ∷ ("mds.x", text "y") ∷ [];
  variables = record {
    m = ("b", record { name = "b"; description = ""; value = "700"; resolved = false }) ∷ [];
    compiled = false;
  };
}

abbrev built : DeployConfig
built = record (service role_mds "h1" "m1") {
  config =
      ("listen.port", int (pos 6700))
      ∷ ("mds.x", text "y")
      ∷ ("report_usage", bool true)
      ∷ ("listen.client_port", int (pos 2379))
      ∷ ("listen.dummy_port", int (pos 7700))
      ∷ ("listen.proxy_port", int (pos 8080))
      ∷ ("listen.external_port", int (pos 6700))
      ∷ ("global.enable_external_server", bool false)
      ∷ ("copysets", int (pos 100))
      ∷ ("enable_rdma", bool false)
      ∷ ("fs.enable_renameat2", bool true)
      ∷ ("chunkfilepool.enable_get_chunk_from_pool", bool true)
      ∷ [];
  service_config = ("mds.x", "y") ∷ [];
  variables = record {
    m = ("b", record { name = "b"; description = ""; value = "700"; resolved = true }) ∷ [];
    compiled = true;
  };
}

build_config-built : build_config 3 to_build ≡ ok built
unfolding build_config lookup curveadm.Variables.Scan.refs curveadm.Variables.Scan.scan
    curveadm.Prelude.insert curveadm.Topology.Item.path_join curveadm.Prelude.parse_bool
    curveadm.Prelude.format_bool curveadm.Prelude.atoi curveadm.Prelude.itoa
    curveadm.Topology.Item.dummy_port_of curveadm.Topology.Item.external_port
build_config-built = refl

build_config-IsConverted_example : IsConverted to_build built
build_config-IsConverted_example = build_config-IsConverted 3 to_build build_config-built

build_config-IsReady_example : IsReady built
build_config-IsReady_example = build_config-IsReady 3 to_build (inr (inl refl)) build_config-built

abbrev parent : Dict Value
parent = ("a", int (pos 1)) ∷ ("variable", dict (field "v" (int (pos 1)) end)) ∷ []

abbrev child : Dict Value
child = ("a", int (pos 2)) ∷ ("variable", dict (field "w" (int (pos 2)) end)) ∷ []

merge-Merged_example : (m : Dict Value) × (merge parent child ≡ ok m) × Merged parent child m
unfolding lookup
merge-Merged_example =
    merge-Merged parent child (refl, (refl, tt)) (inr (_, refl, (refl, tt))) (inr (_, refl))

merge_panics_example : merge (("variable", null) ∷ []) child ≡ panic
unfolding lookup is_string is_int
merge_panics_example = merge_panics null (("variable", null) ∷ []) child refl refl refl refl refl

abbrev hash : DeployConfig → Option ℕ
hash dc = some 1

diff_configs-Explained_example :
    (ds : List TopologyDiff) × (diff_configs hash one_mds three_chunkservers ≡ ok ds)
    × Explained hash (by_id one_mds []) (by_id three_chunkservers []) ds
diff_configs-Explained_example =
    diff_configs-Explained hash one_mds three_chunkservers (λ dc. (1, refl))

abbrev deploy : Deploy
deploy = record {
  host = "h1";
  name = "";
  replica = pos 0;
  replicas = pos 2;
  config = ("a", text "b") ∷ [];
}

abbrev replica : ℕ → String → DeployConfig
replica seq id = record (service role_chunkserver "h1" id) {
  parent_id = "chunkserver_h1_4_0";
  hostname = "";
  name = "4";
  replicas = 2;
  host_sequence = 4;
  replicas_sequence = seq;
  config = ("a", text "b") ∷ [];
}

abbrev replicas : List DeployConfig
replicas = replica 0 "chunkserver_h1_4_0" ∷ replica 1 "chunkserver_h1_4_1" ∷ []

deploy_configs-replicas :
    deploy_configs none kind_curvebs role_chunkserver [] 4 deploy ≡ ok replicas
unfolding deploy_configs lookup curveadm.Prelude.erase curveadm.Prelude.itoa_ℕ
deploy_configs-replicas = refl

deploy_configs-AreReplicas_example :
    (0 < 2)
    × (replicas_of (pos 2) (pos 0) ≡ ok 2)
    × AreReplicas role_chunkserver "h1" (format_name "" 4) 2 4 0 replicas
deploy_configs-AreReplicas_example =
    deploy_configs-AreReplicas none kind_curvebs role_chunkserver [] 4 deploy
      deploy_configs-replicas

abbrev mds_gone : List TopologyDiff
mds_gone =
    record { diff_type = diff_delete; deploy_config = service role_mds "h1" "m1" }
    ∷ record { diff_type = diff_add; deploy_config = service role_chunkserver "h1" "c1" }
    ∷ record { diff_type = diff_add; deploy_config = service role_chunkserver "h2" "c2" }
    ∷ record { diff_type = diff_add; deploy_config = service role_chunkserver "h3" "c3" }
    ∷ []

diff_configs-mds_gone : diff_configs hash one_mds three_chunkservers ≡ ok mds_gone
unfolding diff_configs lookup curveadm.Prelude.insert
diff_configs-mds_gone = refl

diff_configs-Reports_example : Reports diff_delete (service role_mds "h1" "m1") mds_gone
unfolding by_id lookup curveadm.Prelude.insert
diff_configs-Reports_example =
    diff_configs-Reports hash one_mds three_chunkservers "m1" (service role_mds "h1" "m1") true
      diff_configs-mds_gone refl refl

-- The other way round: the second chunkserver is new.
chunkserver_new : Reports diff_add (service role_chunkserver "h2" "c2") mds_gone
unfolding by_id lookup curveadm.Prelude.insert
chunkserver_new =
    diff_configs-Reports hash one_mds three_chunkservers "c2" (service role_chunkserver "h2" "c2")
      false diff_configs-mds_gone refl refl

abbrev some_vars : List Var
some_vars =
    for_all "service_id"
    ∷ for_roles "service_proxy_port" (role_chunkserver ∷ [])
    ∷ for_all "random_uuid"
    ∷ for_all "cluster_mds_addr"
    ∷ []

abbrev empty : Variables
empty = record { m = []; compiled = false }

abbrev registered : Variables
registered = record {
  m =
      ("service_id", value_var "service_id" "m1")
      ∷ ("random_uuid", value_var "random_uuid" "0")
      ∷ ("cluster_mds_addr", value_var "cluster_mds_addr" "h1:6700")
      ∷ [];
  compiled = false;
}
