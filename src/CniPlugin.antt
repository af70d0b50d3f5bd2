-- ===== src/CniPlugin.antt =====
-- cni-plugin/main.go: the plugin that sets up the redirection when a pod's network is set up.
pub mod Config
pub mod Cluster
pub mod Options
pub mod Add
pub mod Main
