-- ===== src/Iptables/Traffic/Matching.antt =====
-- Which packets the rules for ports and subnets match.
use linkerd2_proxy_init.Base.{
  ℕ, ◌≤◌, Bytes, Bool, ◌&&◌, any, any-append, List, [], ◌∷◌, map, flatten, Result, ok, err, ◌≡◌,
  ◌≢◌, refl, arith, All, All-append_left, All-append_right, ap, ◌∙◌, inl, inr,
}
use linkerd2_proxy_init.Ports.{PortRange, PortError, parse_port_range}
use linkerd2_proxy_init.Ports.Range.{range, Denotes, single, double, parse_port_range-iff-Denotes}
use linkerd2_proxy_init.Iptables.Multiport.{as_destination, make_multiport_destinations}
use linkerd2_proxy_init.Iptables.Multiport.Groups.{keep_range, valid_ranges}
use linkerd2_proxy_init.Iptables.Multiport.Loop.{
  flatten-make_multiport_destinations, make_multiport_destinations_empty,
}
use linkerd2_proxy_init.Iptables.Ops.{ports_rule, subnet_rule}
use linkerd2_proxy_init.Iptables.Traffic.{
  Packet, covers, IsDestination, Netfilter, to_ignored_port, from_ignored_subnet, HasValid,
}

-- A range of ports of 16 bits.
abbrev IsPortRange : PortRange → Type 0
IsPortRange r = (l : ℕ) × (u : ℕ) × (l ≤ u) × (u ≤ 65535) × (r ≡ range l u)

Denotes-IsPortRange : (s : Bytes) (r : PortRange) → Denotes s r → IsPortRange r
Denotes-IsPortRange s r (single {n = n} e (h, fits)) = (n, n, omega arith, fits, refl)
Denotes-IsPortRange s r (double {l = l} {u = u} e hl (hu, fits) le) = (l, u, le, fits, refl)

valid_ranges-IsPortRange : (ports : List Bytes) → All IsPortRange (valid_ranges ports)
unfolding valid_ranges
valid_ranges-IsPortRange [] = tt
valid_ranges-IsPortRange (s ∷ ports) =
    kept (parse_port_range s) refl (valid_ranges-IsPortRange ports)
  where
    kept :
        (r : Result PortError PortRange)
        → parse_port_range s ≡ r
        → All IsPortRange (valid_ranges ports)
        → All IsPortRange (keep_range r (valid_ranges ports))
    kept (ok r) is h = (Denotes-IsPortRange s r ((parse_port_range-iff-Denotes s r).0 is), h)
    kept (err e) is h = h

IsDestination-ranges :
    (rs : List PortRange) → All IsPortRange rs → All IsDestination (map as_destination rs)
IsDestination-ranges [] h = tt
IsDestination-ranges (r ∷ rs) ((l, u, le, fits, is), h) =
    ((l, u, le, fits, ap as_destination is), IsDestination-ranges rs h)

All-flatten :
    {A : Type 0} (P : A → Type 0) (gs : List (List A)) → All P (flatten gs) → All (All P) gs
unfolding flatten
All-flatten P [] h = tt
All-flatten P (g ∷ gs) h =
    (All-append_left P g (flatten gs) h, All-flatten P gs (All-append_right P g (flatten gs) h))

module _ (net : Netfilter) (p : Packet) where
  abbrev named : Bytes → Bool
  named d = net.names_port d p.destination_port

  any-named :
      (rs : List PortRange)
      → All IsPortRange rs
      → any named (map as_destination rs) ≡ any (covers p.destination_port) rs
  unfolding any covers
  any-named [] h = refl
  any-named (r ∷ rs) ((l, u, le, fits, is), h) =
      rw (is, net.names_port_range l u p.destination_port le fits, any-named rs h) refl

  any-groups :
      (gs : List (List Bytes))
      → All (λ g. g ≢ []) gs
      → All (All IsDestination) gs
      → any (λ r. net.matches r p) (map ports_rule gs) ≡ (p.is_tcp && any named (flatten gs))
  unfolding any flatten
  any-groups [] h k = ground arith
  any-groups (g ∷ gs) (hg, h) (kg, k) =
      ground
        (arith, net.matches_ports g p hg kg, any-groups gs h k, any-append named g (flatten gs))

  -- The rules for ignored ports match just the packets that are meant.
  pub any-ignored_ports :
      (ports : List Bytes)
      → HasValid ports
      → any (λ r. net.matches r p) (map ports_rule (make_multiport_destinations ports))
        ≡ to_ignored_port ports p
  unfolding to_ignored_port make_multiport_destinations
  any-ignored_ports ports h =
      let ranges = valid_ranges-IsPortRange ports in
      let flat = flatten-make_multiport_destinations ports in
      any-groups (make_multiport_destinations ports) (filled h)
        (All-flatten IsDestination _ (rw flat (IsDestination-ranges _ ranges)))
      ∙ ap (λ ds. p.is_tcp && any named ds) flat
      ∙ ap (λ b. p.is_tcp && b) (any-named _ ranges)
    where
      filled : HasValid ports → All (λ g. g ≢ []) (make_multiport_destinations ports)
      filled (inl none_listed) = rw none_listed tt
      filled (inr some_valid) = (make_multiport_destinations_empty ports).0 some_valid

  pub any-ignored_subnets :
      (subnets : List Bytes)
      → any (λ r. net.matches r p) (map subnet_rule subnets) ≡ from_ignored_subnet net subnets p
  unfolding any from_ignored_subnet
  any-ignored_subnets [] = refl
  any-ignored_subnets (s ∷ subnets) =
      ground (arith, net.matches_subnet s p, any-ignored_subnets subnets)
