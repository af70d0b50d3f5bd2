-- ===== src/Iptables.antt =====
-- pkg/iptables/iptables.go: which iptables commands set the redirection up and take it down, and
-- how they are run.
pub mod Config
pub mod Commands
pub mod Multiport
pub mod Rules
pub mod Fallback
pub mod Run
pub mod Chains
pub mod Ops
pub mod Listing
pub mod Host
pub mod Install
pub mod Cleanup
pub mod Families
pub mod Traffic
