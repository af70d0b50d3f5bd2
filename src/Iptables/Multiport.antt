-- ===== src/Iptables/Multiport.antt =====
-- `makeMultiportDestinations` and `asDestination`: the ports to ignore, in groups that each fit
-- one multiport match.
pub mod Groups
pub mod Loop
use linkerd2_proxy_init.Base.{
  ℕ, ◌+◌, Bytes, codes, ltb, eq_int, List, [], ◌∷◌, ◌++◌, Result, ok, err, if◌then◌else◌,
}
use linkerd2_proxy_init.Go.Strconv.{itoa}
use linkerd2_proxy_init.Ports.{PortRange, PortError, parse_port_range}
use linkerd2_proxy_init.Iptables.Config.{multiport_limit}

unfoldable pub as_destination : PortRange → Bytes
as_destination port_range =
    if eq_int port_range.lower_bound port_range.upper_bound
    then itoa port_range.lower_bound
    else itoa port_range.lower_bound ++ b':' ∷ itoa port_range.upper_bound

-- The number of ports referenced for the range.
unfoldable pub port_count : PortRange → ℕ
port_count port_range = if eq_int port_range.lower_bound port_range.upper_bound then 1 else 2

-- The variables of the loop.
pub record Destinations : Type 0 where
  pub slices : List (List Bytes)
  pub current : List Bytes
  pub destination_port_count : ℕ

unfoldable pub close_if_full : ℕ → Destinations → Destinations
close_if_full count d =
    if ltb multiport_limit (d.destination_port_count + count)
    then record { slices = d.slices ++ d.current ∷ []; current = []; destination_port_count = 0 }
    else d

unfoldable pub add_range : PortRange → Destinations → Destinations
unfolding close_if_full port_count
add_range port_range d =
    let d' = close_if_full (port_count port_range) d in
    record d' {
      current = d'.current ++ as_destination port_range ∷ [];
      destination_port_count = d'.destination_port_count + port_count port_range;
    }

-- One round; a text that is no range is only logged.
unfoldable pub add_if_range : Result PortError PortRange → Destinations → Destinations
add_if_range (ok port_range) d = add_range port_range d
add_if_range (err e) d = d

unfoldable pub add_ports : List Bytes → Destinations → Destinations
add_ports [] d = d
add_ports (port_or_range ∷ ports) d =
    add_ports ports (add_if_range (parse_port_range port_or_range) d)

abbrev pub no_destinations : Destinations
no_destinations = record { slices = []; current = []; destination_port_count = 0 }

unfoldable pub make_multiport_destinations : List Bytes → List (List Bytes)
make_multiport_destinations [] = []
make_multiport_destinations (port ∷ ports) =
    let d = add_ports (port ∷ ports) no_destinations in d.slices ++ d.current ∷ []
