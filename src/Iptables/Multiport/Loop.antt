-- ===== src/Iptables/Multiport/Loop.antt =====
-- The loop of `makeMultiportDestinations` keeps its invariant, and what follows for the result.
use linkerd2_proxy_init.Base.{
  sym, flatten-concat, ◌+◌, ◌≤◌, Bytes, ltb, List, [], ◌∷◌, ◌++◌, Result, ok, err, ◌≡◌, ◌≢◌, refl,
  arith, All, All-append, append_assoc, append-nil, map, flatten, ltb→lt, Bool-cases, true, inl,
  inr, ap, ◌∙◌,
}
use mathlib.Core.List.{concat-ne-nil}
use linkerd2_proxy_init.Ports.{PortRange, PortError, parse_port_range}
use linkerd2_proxy_init.Iptables.Config.{multiport_limit}
use linkerd2_proxy_init.Iptables.Multiport.{
  as_destination, port_count, Destinations, add_range, add_if_range, add_ports, no_destinations,
  make_multiport_destinations,
}
use linkerd2_proxy_init.Iptables.Multiport.Groups.{
  valid_ranges, keep_range, references, references-one, references-append,
  references-as_destination, Fits, IsTight, IsTight-extend, IsTight-close,
}

-- What holds between the rounds of the loop.
record IsPacked (d : Destinations) : Type 0 where
  counted : d.destination_port_count ≡ references d.current
  fits : Fits d.current
  slices_fit : All Fits d.slices
  tight : IsTight (d.slices ++ d.current ∷ [])
  started : d.current ≡ [] → d.slices ≡ []
  slices_used : All (λ g. g ≢ []) d.slices

port_count-le : (r : PortRange) → port_count r ≤ 2
unfolding port_count
port_count-le r = ground arith

IsTight-one :
    (gs : List (List Bytes)) (g : List Bytes) (e : Bytes)
    → (g ≡ [] → gs ≡ [])
    → IsTight (gs ++ g ∷ [])
    → IsTight (gs ++ (g ++ e ∷ []) ∷ [])
IsTight-one gs [] e started h = rw (started refl) tt
IsTight-one gs (d ∷ ds) e started h = IsTight-extend gs d ds e h

-- A group that is full is not empty.
used :
    (r : PortRange) (d : Destinations)
    → IsPacked d
    → ltb multiport_limit (d.destination_port_count + port_count r) ≡ true
    → d.current ≢ []
unfolding references
used r d h full e =
    let none_yet : references d.current ≡ 0 = rw e in
    absurd (omega (arith, ltb→lt _ _ full, port_count-le r, h.counted))

add_range-IsPacked : (r : PortRange) (d : Destinations) → IsPacked d → IsPacked (add_range r d)
unfolding add_range
add_range-IsPacked r d h =
    let dest = as_destination r in
    let measured = references-as_destination r in
    elim (Bool-cases (ltb multiport_limit (d.destination_port_count + port_count r))) [
      | inl full ↦
          rw (full, add_range)
            (record {
              counted = omega (arith, references-one dest, measured);
              fits = omega (arith, references-one dest, measured, port_count-le r);
              slices_fit = All-append Fits d.slices (d.current ∷ []) h.slices_fit (h.fits, tt);
              tight =
                  IsTight-close d.slices d.current dest (ground (arith, h.counted, measured))
                    h.tight;
              started = λ e. cc;
              slices_used =
                  All-append (λ g. g ≢ []) d.slices (d.current ∷ []) h.slices_used
                    (used r d h full, tt);
            })
      | inr room ↦
          rw (room, add_range)
            (record {
              counted = omega (
                arith,
                references-append d.current (dest ∷ []),
                references-one dest,
                measured,
                h.counted,
              );
              fits = ground (
                arith,
                references-append d.current (dest ∷ []),
                references-one dest,
                measured,
                h.counted,
              );
              slices_fit = h.slices_fit;
              tight = IsTight-one d.slices d.current dest h.started h.tight;
              started = λ e. absurd (concat-ne-nil dest d.current e);
              slices_used = h.slices_used;
            })
    ]

-- What the loop has written so far.
held : Destinations → List Bytes
held d = flatten d.slices ++ d.current

held-add_range :
    (r : PortRange) (d : Destinations) → held (add_range r d) ≡ held d ++ as_destination r ∷ []
unfolding held add_range
held-add_range r d =
    elim (Bool-cases (ltb multiport_limit (d.destination_port_count + port_count r))) [
      | inl full ↦ rw (full, add_range) (rw flatten-concat)
      | inr room ↦ rw (room, add_range) (sym (append_assoc (flatten d.slices) d.current _))
    ]

held-add_if_range :
    (x : Result PortError PortRange) (d : Destinations) (rs : List PortRange)
    → IsPacked d
    → IsPacked (add_if_range x d)
      × (held (add_if_range x d) ++ map as_destination rs
          ≡ held d ++ map as_destination (keep_range x rs))
unfolding add_if_range
held-add_if_range (ok r) d rs h = (add_range-IsPacked r d h, simp (held-add_range, append_assoc))
held-add_if_range (err e) d rs h = (h, refl)

held-add_ports :
    (ps : List Bytes) (d : Destinations)
    → IsPacked d
    → IsPacked (add_ports ps d)
      × (held (add_ports ps d) ≡ held d ++ map as_destination (valid_ranges ps))
unfolding add_ports valid_ranges
held-add_ports [] d h = (h, sym (append-nil (held d)))
held-add_ports (p ∷ ps) d h =
    let x = parse_port_range p in
    let (packed, kept) = held-add_if_range x d (valid_ranges ps) h in
    let (packed', held') = held-add_ports ps (add_if_range x d) packed in (packed', held' ∙ kept)

no_destinations-IsPacked : IsPacked no_destinations
unfolding references
no_destinations-IsPacked = record {
  counted = refl;
  fits = omega arith;
  slices_fit = tt;
  tight = tt;
  started = λ e. refl;
  slices_used = tt;
}

-- Every text that is a port range stands in the groups as its destination, in the order of the
-- list and once for each time that it is listed, and nothing else stands in them.
pub flatten-make_multiport_destinations :
    (ports : List Bytes)
    → flatten (make_multiport_destinations ports) ≡ map as_destination (valid_ranges ports)
unfolding make_multiport_destinations held valid_ranges flatten
flatten-make_multiport_destinations [] = refl
flatten-make_multiport_destinations (p ∷ ps) =
    rw flatten-concat (held-add_ports (p ∷ ps) no_destinations no_destinations-IsPacked).1

-- No group refers to more than 15 ports, a range `l:u` counting as two; and no group could have
-- taken the first destination of the next one, so that no split into commands was made too early.
pub make_multiport_destinations_groups :
    (ports : List Bytes)
    → All Fits (make_multiport_destinations ports) × IsTight (make_multiport_destinations ports)
unfolding make_multiport_destinations
make_multiport_destinations_groups [] = (tt, tt)
make_multiport_destinations_groups (p ∷ ps) =
    let packed = (held-add_ports (p ∷ ps) no_destinations no_destinations-IsPacked).0 in
    (All-append Fits _ (_ ∷ []) packed.slices_fit (packed.fits, tt), packed.tight)

map_nil : (rs : List PortRange) → map as_destination rs ≡ [] → rs ≡ []
map_nil [] h = refl
map_nil (r ∷ rs) h = cc

current-held : (d : Destinations) → IsPacked d → d.current ≡ [] → held d ≡ []
unfolding held flatten
current-held d h e = rw (h.started e, e)

append_nil_right : (xs ys : List Bytes) → xs ++ ys ≡ [] → ys ≡ []
append_nil_right [] ys h = h
append_nil_right (x ∷ xs) ys h = cc

-- Where one port at least is valid no group is empty; where ports are listed and none is valid the
-- result is one empty group, for which a rule without ports is made.
pub make_multiport_destinations_empty :
    (ports : List Bytes)
    → (valid_ranges ports ≢ [] → All (λ g. g ≢ []) (make_multiport_destinations ports))
      × (ports ≢ [] → valid_ranges ports ≡ [] → make_multiport_destinations ports ≡ [] ∷ [])
unfolding make_multiport_destinations held flatten
make_multiport_destinations_empty [] = (λ h. tt, λ h. absurd (h refl))
make_multiport_destinations_empty (p ∷ ps) =
    let d = add_ports (p ∷ ps) no_destinations in
    let (packed, is_held) = held-add_ports (p ∷ ps) no_destinations no_destinations-IsPacked in
    (
      λ h.
          All-append (λ g. g ≢ []) d.slices (d.current ∷ []) packed.slices_used
            (λ e. h (map_nil _ (sym is_held ∙ current-held d packed e)), tt),
      λ h e.
          let nothing : held d ≡ [] = is_held ∙ ap (map as_destination) e in
          let idle : d.current ≡ [] = append_nil_right (flatten d.slices) d.current nothing in
          rw (packed.started idle, idle),
    )
