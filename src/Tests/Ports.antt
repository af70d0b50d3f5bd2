-- ===== src/Tests/Ports.antt =====
-- Tests of pkg/util/portrange.go.
use linkerd2_proxy_init.Base.{codes, ◌∷◌, ◌++◌, pos, ok, err, ◌≡◌, ◌↔◌, refl, arith}
use linkerd2_proxy_init.Go.Strconv.{itoa, atoi}
use linkerd2_proxy_init.Go.Strings.{split}
use linkerd2_proxy_init.Ports.{
  parse_port_range, bad_lower, bad_upper, too_many_bounds, crossed, choose_bounds, parse_bounds,
  checked_port,
}
use linkerd2_proxy_init.Ports.Range.{
  range, Denotes, parse_port_range-iff-Denotes, parse_port_range-print,
}

parse_port_range-iff-Denotes_example :
    (parse_port_range (codes "20-22") ≡ ok (range 20 22)) ↔ Denotes (codes "20-22") (range 20 22)
parse_port_range-iff-Denotes_example = parse_port_range-iff-Denotes (codes "20-22") (range 20 22)

parse_port_range-print_example :
    (parse_port_range (itoa (pos 20) ++ b'-' ∷ itoa (pos 22)) ≡ ok (range 20 22))
    × (parse_port_range (itoa (pos 22)) ≡ ok (range 22 22))
parse_port_range-print_example = parse_port_range-print 20 22 (omega arith) (omega arith)

errors :
    (parse_port_range (codes "23-23-") ≡ err too_many_bounds)
    × (parse_port_range (codes "-1") ≡ err (bad_lower (codes "")))
    × (parse_port_range (codes "80-") ≡ err (bad_upper (codes "")))
    × (parse_port_range (codes "65536") ≡ err (bad_lower (codes "65536")))
    × (parse_port_range (codes "60-50") ≡ err (crossed (codes "60-50")))
    × (parse_port_range (codes "0") ≡ ok (range 0 0))
    × (parse_port_range (codes "+5") ≡ ok (range 5 5))
unfolding parse_port_range choose_bounds parse_bounds checked_port split atoi
errors = (refl, refl, refl, refl, refl, refl, refl)
