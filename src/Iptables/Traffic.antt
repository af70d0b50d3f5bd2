-- ===== src/Iptables/Traffic.antt =====
-- What the rules do to packets: the interface to netfilter, of which the repository has no source,
-- the way of a packet through the chains, and what is meant to become of it.
pub mod Matching
pub mod Passing
pub mod Firewall
use linkerd2_proxy_init.Base.{
  ℕ, ◌≤◌, Bytes, codes, Bool, true, false, not, ◌&&◌, ◌||◌, ◌==◌, ltb, leb, ℤ, pos, le_int, lt_int,
  eq_int, same, any, Option, none, some, List, [], ◌∷◌, ◌≡◌, ◌≢◌, ◌⊎◌, All, if◌then◌else◌,
}
use linkerd2_proxy_init.Go.Strconv.{itoa}
use linkerd2_proxy_init.Ports.{PortRange}
use linkerd2_proxy_init.Ports.Range.{range}
use linkerd2_proxy_init.Iptables.Config.{
  FirewallConfiguration, redirect_all_mode, redirect_listed_mode,
}
use linkerd2_proxy_init.Iptables.Multiport.{as_destination}
use linkerd2_proxy_init.Iptables.Multiport.Groups.{valid_ranges}
use linkerd2_proxy_init.Iptables.Chains.{Rule, Chains, jumps_to}
use linkerd2_proxy_init.Iptables.Ops.{
  ports_rule, subnet_rule, redirect_rule, redirect_listed_rule, owner_rule, loopback_rule,
  jump_rule,
}

pub record Packet : Type 0 where
  pub is_tcp : Bool
  pub destination_port : ℕ
  pub source : Bytes
  -- It leaves by the interface `lo`.
  pub on_loopback : Bool
  -- The owner of the socket that it comes from.
  pub uid : ℕ
  pub gid : ℕ

unfoldable pub covers : ℕ → PortRange → Bool
covers port r = le_int r.lower_bound (pos port) && le_int (pos port) r.upper_bound

-- The text that asks for a port or a range of ports.
abbrev pub IsDestination : Bytes → Type 0
IsDestination d = (l : ℕ) × (u : ℕ) × (l ≤ u) × (u ≤ 65535) × (d ≡ as_destination (range l u))

-- Which packets a rule matches, as iptables(8) and iptables-extensions(8) have it for the matches
-- that the program uses.
pub record Netfilter : Type 0 where
  pub matches : Rule → Packet → Bool
  pub in_subnet : Bytes → Bytes → Bool
  pub names_port : Bytes → ℕ → Bool
  pub names_port_range :
      (l u port : ℕ)
      → l ≤ u
      → u ≤ 65535
      → names_port (as_destination (range l u)) port ≡ (leb l port && leb port u)
  pub matches_ports :
      (ds : List Bytes) (p : Packet)
      → ds ≢ []
      → All IsDestination ds
      → matches (ports_rule ds) p ≡ (p.is_tcp && any (λ d. names_port d p.destination_port) ds)
  pub matches_subnet :
      (subnet : Bytes) (p : Packet) → matches (subnet_rule subnet) p ≡ in_subnet subnet p.source
  pub matches_redirect :
      (port : ℤ) (comment : Bytes) (p : Packet) → matches (redirect_rule port comment) p ≡ p.is_tcp
  pub matches_listed :
      (proxy_port : ℤ) (port : ℕ) (p : Packet)
      → port ≤ 65535
      → matches (redirect_listed_rule proxy_port (pos port)) p
        ≡ (p.is_tcp && p.destination_port == port)
  pub matches_uid :
      (uid : ℕ) (comment : Bytes) (p : Packet)
      → uid ≤ 4294967294
      → matches (owner_rule (codes "--uid-owner") (pos uid) comment) p ≡ (p.uid == uid)
  pub matches_gid :
      (gid : ℕ) (comment : Bytes) (p : Packet)
      → gid ≤ 4294967294
      → matches (owner_rule (codes "--gid-owner") (pos gid) comment) p ≡ (p.gid == gid)
  pub matches_loopback : (p : Packet) → matches loopback_rule p ≡ p.on_loopback
  pub matches_jump :
      (target comment : Bytes) (p : Packet) → matches (jump_rule target comment) p ≡ true

-- The port that a rule redirects to; any other rule of the program's two chains returns from there.
unfoldable pub redirect_port : Rule → Option Bytes
redirect_port [] = none
redirect_port (flag ∷ []) = none
redirect_port (flag ∷ value ∷ rest) =
    let further = redirect_port rest in
    if same flag (codes "--to-port") then some value else further

abbrev pub or_else : Option Bytes → Option Bytes → Option Bytes
or_else (some port) rest = some port
or_else none rest = rest

-- What is meant to become of a packet: whether it is exempt for its port, for where it comes from or
-- for its owner, and else the port to which it is redirected, if to any.
unfoldable pub to_ignored_port : List Bytes → Packet → Bool
to_ignored_port ports p = p.is_tcp && any (covers p.destination_port) (valid_ranges ports)

unfoldable pub to_redirected_port : FirewallConfiguration → Packet → Bool
to_redirected_port fc p =
    p.is_tcp
    && (if same fc.mode redirect_all_mode
        then true
        else if same fc.mode redirect_listed_mode
        then any (λ port. eq_int (pos p.destination_port) port) fc.ports_to_redirect_inbound
        else false)

-- A user or group of number 0, or below, exempts nothing.
unfoldable pub from_proxy : FirewallConfiguration → Packet → Bool
from_proxy fc p =
    (lt_int (pos 0) fc.proxy_uid && eq_int (pos p.uid) fc.proxy_uid)
    || (lt_int (pos 0) fc.proxy_gid && eq_int (pos p.gid) fc.proxy_gid)

module _ (net : Netfilter) where
  -- The first rule that matches decides; behind the last one the packet returns.
  unfoldable pub traverse : List Rule → Packet → Option Bytes
  traverse [] p = none
  traverse (r ∷ rs) p =
      let rest = traverse rs p in if net.matches r p then redirect_port r else rest

  -- The way through a chain some of whose rules lead to another one, with the rules `inner`.
  unfoldable pub pass : Bytes → List Rule → List Rule → Packet → Option Bytes
  pass chain inner [] p = none
  pass chain inner (r ∷ rs) p =
      let rest = pass chain inner rs p in
      if not (net.matches r p)
      then rest
      else if jumps_to chain r
      then or_else (traverse inner p) rest
      else redirect_port r

  abbrev rules_of : Option (List Rule) → List Rule
  rules_of none = []
  rules_of (some rs) = rs

  -- The port to which a packet that enters the chain `parent` is redirected, if it is.
  unfoldable pub enter : Chains → Bytes → Bytes → Packet → Option Bytes
  enter k parent chain p = pass chain (rules_of (k chain)) (rules_of (k parent)) p

  -- A rule that is the program's link to the chain, or has another target and does not match.
  abbrev pub IsAside : Bytes → Rule → Packet → Rule → Type 0
  IsAside chain jump p r = (r ≡ jump) ⊎ ((net.matches r p ≡ false) × (jumps_to chain r ≡ false))

  unfoldable pub from_ignored_subnet : List Bytes → Packet → Bool
  from_ignored_subnet subnets p = any (λ s. net.in_subnet s p.source) subnets

  unfoldable pub inbound : FirewallConfiguration → Packet → Option Bytes
  inbound fc p =
      if to_ignored_port fc.inbound_ports_to_ignore p
      then none
      else if from_ignored_subnet fc.subnets_to_ignore p
      then none
      else if to_redirected_port fc p
      then some (itoa fc.proxy_inbound_port)
      else none

  unfoldable pub outbound : FirewallConfiguration → Packet → Option Bytes
  outbound fc p =
      if from_proxy fc p
      then none
      else if p.on_loopback
      then none
      else if to_ignored_port fc.outbound_ports_to_ignore p
      then none
      else if p.is_tcp
      then some (itoa fc.proxy_outgoing_port)
      else none

-- Some text of the list is a port or a range of ports, if there is any.
abbrev pub HasValid : List Bytes → Type 0
HasValid ports = (ports ≡ []) ⊎ (valid_ranges ports ≢ [])

-- A port that can be listed.
abbrev pub IsPort : ℤ → Type 0
IsPort i = (n : ℕ) × (n ≤ 65535) × (i ≡ pos n)

-- A number that iptables takes, or one below 0.
abbrev pub IsAtMost : ℕ → ℤ → Type 0
IsAtMost bound i = le_int i (pos bound) ≡ true
