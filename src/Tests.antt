-- ===== src/Tests.antt =====
-- Each theorem with hypotheses applied at a concrete input, the machines that these inputs need, and
-- tests of the definitions.
mod Disk
mod Listing
mod Machine
mod Codec
mod DualStack
mod Kernel
mod PodSetUp
mod Tables
mod Traffic
mod Configs
mod Ports
mod Iptables
mod ProxyInit
mod Cni
mod Installer
mod Running
mod Watch
mod Removal
mod CniPlugin
mod Go
