-- ===== src/ProxyInit.antt =====
-- proxy-init/cmd/root.go: the options of the `proxy-init` command, the firewall configuration that
-- is built from them, and the command's run.
pub mod Options
pub mod Build
pub mod Run
pub mod Flags
pub mod Main
