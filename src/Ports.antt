-- ===== src/Ports.antt =====
-- pkg/util/portrange.go: port numbers and port ranges as they are written in the options.
pub mod Range
use linkerd2_proxy_init.Base.{
  ℕ, Bytes, codes, Bool, true, false, ℤ, pos, le_int, lt_int, Option, none, some, List, [], ◌∷◌,
  Result, ok, err, ◌>>=◌, not, ◌&&◌, if◌then◌else◌,
}
use linkerd2_proxy_init.Go.Strconv.{atoi}
use linkerd2_proxy_init.Go.Strings.{split}

pub record PortRange : Type 0 where
  pub lower_bound : ℤ
  pub upper_bound : ℤ

-- The messages, each with the text that it quotes.
pub data PortError : Type 0 where
  not_a_port : Bytes → PortError
  too_many_bounds : PortError
  bad_lower : Bytes → PortError
  bad_upper : Bytes → PortError
  crossed : Bytes → PortError

unfoldable pub is_valid_port : ℤ → Bool
is_valid_port port = le_int (pos 0) port && le_int port (pos 65535)

-- The test `err != nil || !IsValidPort(i)` that stands behind each call of `Atoi`.
unfoldable pub checked_port : PortError → Option ℤ → Result PortError ℤ
unfolding is_valid_port
checked_port e none = err e
checked_port e (some i) = if is_valid_port i then ok i else err e

unfoldable pub parse_port : Bytes → Result PortError ℤ
parse_port port = checked_port (not_a_port port) (atoi port)

-- From the line that reads `bounds[0]` on.
unfoldable pub parse_bounds : Bytes → Bytes → Bytes → Result PortError PortRange
parse_bounds port_range first second = do
  lower ← checked_port (bad_lower first) (atoi first)
  upper ← checked_port (bad_upper second) (atoi second)
  if lt_int upper lower
      then err (crossed port_range)
      else ok (record { lower_bound = lower; upper_bound = upper })

-- The tests on `len(bounds)`; `Split` returns one part at least.
unfoldable pub choose_bounds : Bytes → List Bytes → Result PortError PortRange
choose_bounds port_range (bound ∷ []) = parse_bounds port_range bound bound
choose_bounds port_range (first ∷ second ∷ []) = parse_bounds port_range first second
choose_bounds port_range _ = err too_many_bounds

unfoldable pub parse_port_range : Bytes → Result PortError PortRange
parse_port_range port_range = choose_bounds port_range (split port_range b'-')
