-- ===== src/Topology.antt =====
-- internal/configure/topology: from the text of a cluster's topology to the services to deploy.
pub mod DeployConfig
pub mod Item
pub mod Layout
pub mod Convert
pub mod BuiltIn
pub mod Merge
pub mod Parse
pub mod Diff
