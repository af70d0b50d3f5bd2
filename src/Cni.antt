-- ===== src/Cni.antt =====
-- internal/cni: the installer of the CNI plugin.
pub mod Json
pub mod Os
pub mod Paths
pub mod Log
pub mod Installer
pub mod Install
pub mod Inject
pub mod Configure
pub mod Kubeconfig
pub mod Revert
pub mod Remove
pub mod Watch
pub mod Run
pub mod Main
