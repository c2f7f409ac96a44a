-- ===== src/Tests.antt =====
-- The theorems at concrete inputs, and the services that they are run on.
mod Showing
mod Hosting
mod Storing
mod Vars
mod Topologies
mod Pools
mod Tasking
mod Commands
mod Checks
use curveadm.Prelude.{ℕ, String, List, [], ◌∷◌, false, none, refl, lookup}
use curveadm.Topology.DeployConfig.{
  DeployConfig, kind_curvebs, role_chunkserver, role_etcd, role_mds,
}
use curveadm.Topology.Item.{
  get_string, get_int, get_bool, get, as_string, as_int, as_bool, listen_port_of,
}
use curveadm.Topology.Layout.{
  get_listen_ip, get_listen_port, get_listen_external_ip, get_listen_external_port,
  get_enable_external_server, get_copysets,
}
use curveadm.Topology.Convert.Ports.{IsReady}

-- A service with no configured item
abbrev pub service : String → String → String → DeployConfig
service role host id = record {
  kind = kind_curvebs;
  id = id;
  parent_id = id;
  role = role;
  host = host;
  hostname = host;
  name = "0";
  replicas = 1;
  host_sequence = 0;
  replicas_sequence = 0;
  config = [];
  service_config = [];
  variables = record { m = []; compiled = false };
  ctx = none;
}

abbrev pub chunkserver : String → String → DeployConfig
chunkserver = service role_chunkserver

abbrev pub three_chunkservers : List DeployConfig
three_chunkservers = chunkserver "h1" "c1" ∷ chunkserver "h2" "c2" ∷ chunkserver "h3" "c3" ∷ []

abbrev pub one_mds : List DeployConfig
one_mds = service role_mds "h1" "m1" ∷ []

pub chunkserver-IsReady : (host id : String) → IsReady (chunkserver host id)
unfolding lookup get_listen_ip get_listen_port get_listen_external_ip get_listen_external_port
    get_enable_external_server get_copysets get_string get_int get_bool get as_string as_int as_bool
    listen_port_of
chunkserver-IsReady host id = record {
  listen_ip = (host, refl);
  external_ip = (host, refl);
  enabled = (false, refl);
  listen_port = (8199, refl);
  external_port = (8199, refl);
  copysets = (99, refl);
}
