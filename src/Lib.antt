-- ===== src/Lib.antt =====
-- linkerd2-proxy-init: the programs that set up the redirection of a pod's traffic to the Linkerd
-- proxy. proxy-init (proxy-init/cmd/root.go) runs in a pod's init container: it turns its options
-- into a configuration and has pkg/iptables install the rules, for IPv4 and then for IPv6. The CNI
-- plugin (cni-plugin/main.go) does the same when a pod's network is set up, and internal/cni keeps
-- that plugin in the CNI configuration of a node.
--
-- Base holds what the modules share: results, Boolean tests, byte strings, signed integers; Task
-- the chaining of steps that change a world and may fail. Text is a list of bytes, and an `int` of
-- Go is an integer: `Atoi` refuses what does not fit 64 bits, and the only sums are counts, of the
-- ports in a group and of the plugins in a list.
--
-- Go holds the functions of Go's library that the source uses: `Atoi` and `Itoa` of strconv, some
-- of strings, of path (Pathname) and of encoding/base64, and the two forms of regular expressions
-- that pkg/iptables compiles. `Itoa` runs on fuel: the decimal digits of n need at most n + 1
-- rounds, which is what it is given. `TrimSpace` is that of ASCII text.
--
-- Ports is pkg/util/portrange.go, and Ports.Range says which texts are port ranges.
--
-- Iptables is pkg/iptables/iptables.go: Config its types and constants, Commands the `make…`
-- functions that build a command, Multiport `makeMultiportDestinations`, Rules the functions that
-- add rules to the list of commands, Fallback `resolveBinFallback`, Run `executeCommand`,
-- `ConfigureFirewall` and `CleanupFirewallConfig`. A command is its path and its arguments. Running
-- one is a parameter `run` from a world to a world with the output and perhaps an error, and so is
-- `has`, which says what exec.LookPath finds. Chains and Ops say what the requests to iptables are:
-- a table is a map from the names of chains to their rules, and a request reads back as an
-- operation on it, with the conditions under which iptables accepts it. Host is the interface
-- between the two: a machine on which an accepted request succeeds with the operation's effect, and
-- on which iptables-save prints a listing of the table. Listing has the form of that text, a line for
-- each chain and for each rule, and what the program's regular expressions find in it; they are right
-- about the rules that are legible, those in whose line the text of the link stands only if they are
-- the link, so that the theorems ask that of the rules that are there. Install and Cleanup state, for
-- every such machine, what the functions make of its table. Multiport.Groups and Multiport.Loop are
-- about the groups of ports, and Run.Outcomes about errors. Traffic is about packets: the record
-- Netfilter says which ones a rule matches, for the matches of iptables that the program uses,
-- `enter` takes a packet through the chains, and `inbound` and `outbound` say what is meant for it.
--
-- ProxyInit is proxy-init: Options has `RootOptions` and the names of the binaries, Build
-- `BuildFirewallConfiguration`, which writes the mode that it chooses back into the options, Run the
-- function that the command runs, all of proxy-init/cmd/root.go, Flags the flags declared there, and
-- Main is proxy-init/main.go. Run.DualStack puts that on a machine with a table for either family of
-- addresses (Iptables.Families). Parameters: `is_cidr` says which texts net.ParseCIDR reads,
-- `is_level` which logrus.ParseLevel reads, and `parse` what cobra makes of the arguments.
--
-- Cni is internal/cni, the installer. Os is the interface to the operating system: a record of the
-- functions of package os that are called, on a world `W` with errors `E`; what a theorem relies on
-- is a record of laws beside it (Stores, Untouched, WritesOut, Shrinks), which a disk of files by
-- their names satisfies (Tests.Disk). Paths is paths.go. Installer has the state of installer.go,
-- `NewInstaller` and the steps that work on it. Log is the log with `appendEntry`, Install is
-- install.go, Json the decoded JSON values, Inject `inject` of conf.go, Configure `configureCNI`
-- and `reconfigureCNI`, Kubeconfig `reconfigureK8s`. Revert is the work of `cniFile.revert` of
-- remove.go on a decoded configuration, and Remove the rest of that file. The JSON library is a
-- pair of parameters, `unmarshal` and `marshal_indent`; so is `hash_encode`, which Main fills with
-- the hex form of crypto/sha256. The template is written out as it is filled in, and
-- written by one call. Watch is watch_fs.go: the watches, the handling of an event, and the
-- goroutines of `Run` and `watchFS` as a step relation. A step is an event handed over on the
-- channel without a buffer, the handling of an event that has been received, while `Run` goes on, an
-- error put into or taken from `errs`, which holds one, the context's end, or an event or error that
-- the operating system sends at any time. The work of one handler is a step, and so is the reading of
-- the directory and, behind the return of `Run`, the removal: the calls to the operating system within
-- them are not interleaved. Run is run.go, with what
-- cni-install/main.go does behind it: the two watches and their handlers, what is done before the
-- loop begins, and the steps from there to a return. Main is the rest of cni-install/main.go.
--
-- CniPlugin is cni-plugin/main.go: Config `parseConfig`, Cluster what is asked of the Kubernetes
-- API, whose client is the record Client, with `getAnnotationOverride` and `getAPIServerPorts`,
-- Options the options that `cmdAdd` makes for proxy-init, Add the rest of `cmdAdd`, and Main the
-- functions that `main` hands to the CNI library. Add.Installed puts a request on the machine with
-- two tables. Parameters: the decoding of the configuration and of results, `load_args` for
-- types.LoadArgs, and `print_result`, which writes to the standard output.
--
-- Tests applies the theorems at concrete inputs: on a machine that satisfies Host (Tests.Machine)
-- and one with two tables (Tests.DualStack), for a netfilter that reads the rules (Tests.Kernel),
-- on a disk (Tests.Disk), and with a printer of JSON values (Tests.Codec).
--
-- Not modelled: logging, with the choice of its level and format; the reading of arguments by cobra
-- and flag, whose outcome is a parameter; the text of the help; what fsnotify does with events once
-- its watcher is closed; and the programs in Rust (the validator and the repair controller).
mod Base
mod Task
pub mod Go
pub mod Ports
pub mod Iptables
pub mod ProxyInit
pub mod Cni
pub mod CniPlugin
mod Tests
