-- ===== src/Tests/Checks.antt =====
-- The checks of a topology at concrete inputs.
use curveadm.Prelude.{
  String, ◌≡◌, ◌↔◌, refl, true, false, List, [], ◌∷◌, IsNew, lookup, pos, ok, err,
}
use curveadm.Config.Value.{bool, text}
use curveadm.Errno.{duplicate_listen_address}
use curveadm.Topology.DeployConfig.{DeployConfig, kind_curvebs}
use curveadm.Topology.Item.{get_string, get_bool, listen_port_of, external_port}
use curveadm.Topology.Layout.{
  get_listen_ip, get_listen_port, get_listen_external_port, get_enable_external_server,
}
use curveadm.Checker.{check_services, check_address_duplicate, check_data_directory_duplicate}
use curveadm.Checker.Enough.{HasEnough, check_services-HasEnough}
use curveadm.Checker.Addresses.{
  AreApart, check_address_duplicate-AreApart, check_address_duplicate-itself,
}
use curveadm.Checker.Duplicates.{data_directories, check_data_directory_duplicate_iff}
use curveadm.Tests.{chunkserver, three_chunkservers}

check_services-HasEnough_example :
    (check_services false true (chunkserver "h0" "c0" ∷ three_chunkservers) ≡ ok tt)
    ↔ HasEnough false true kind_curvebs (chunkserver "h0" "c0" ∷ three_chunkservers)
check_services-HasEnough_example =
    check_services-HasEnough false true (chunkserver "h0" "c0") three_chunkservers

check_address_duplicate-AreApart_example :
    (check_address_duplicate three_chunkservers ≡ ok tt) ↔ AreApart three_chunkservers
check_address_duplicate-AreApart_example = check_address_duplicate-AreApart three_chunkservers

check_data_directory_duplicate_iff_example :
    (check_data_directory_duplicate three_chunkservers ≡ ok tt)
    ↔ ((ks : List String) × (data_directories three_chunkservers ≡ ok ks) × IsNew [] ks)
check_data_directory_duplicate_iff_example = check_data_directory_duplicate_iff three_chunkservers

-- The external server is enabled at another address, and the external port is left out.
abbrev external : DeployConfig
external = record (chunkserver "h1" "c1") {
  config =
      ("global.enable_external_server", bool true) ∷ ("listen.external_ip", text "10.0.0.1") ∷ [];
}

check_address_duplicate-itself_example :
    check_address_duplicate (external ∷ []) ≡ err duplicate_listen_address
unfolding lookup get_listen_ip get_listen_port get_listen_external_port get_enable_external_server
    listen_port_of external_port get_string get_bool
check_address_duplicate-itself_example =
    check_address_duplicate-itself external [] "h1" (pos 8200) refl refl refl refl refl
