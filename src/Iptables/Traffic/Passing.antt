-- ===== src/Iptables/Traffic/Passing.antt =====
-- The way of a packet through the rules of the two chains, and through the chain that leads there.
use linkerd2_proxy_init.Base.{
  ℕ, ◌≤◌, Bytes, codes, Bool, true, false, ◌&&◌, ◌||◌, ◌==◌, ℤ, pos, negsuc, lt_int, eq_int, same,
  any, Option, none, some, List, [], ◌∷◌, ◌++◌, map, ◌≡◌, refl, arith, All, All-append, ◌∙◌, ap,
  inl, inr, if◌then◌else◌, Bool-cases, leb→le, append_assoc, any-append,
}
use linkerd2_proxy_init.Go.Strconv.{itoa}
use linkerd2_proxy_init.Iptables.Config.{
  FirewallConfiguration, redirect_all_mode, redirect_listed_mode,
}
use linkerd2_proxy_init.Iptables.Multiport.{make_multiport_destinations}
use linkerd2_proxy_init.Iptables.Chains.{Rule, jumps_to}
use linkerd2_proxy_init.Iptables.Ops.{
  ports_rule, subnet_rule, redirect_rule, redirect_listed_rule, owner_rule, loopback_rule,
  inbound_rules, redirect_chain_rules, owner_rules, output_chain_rules,
}
use linkerd2_proxy_init.Iptables.Install.{link}
use linkerd2_proxy_init.Iptables.Traffic.{
  Packet, Netfilter, redirect_port, traverse, pass, or_else, IsAside, IsPort, IsAtMost, HasValid,
  to_redirected_port, to_ignored_port, from_ignored_subnet, from_proxy, inbound, outbound,
}
use linkerd2_proxy_init.Iptables.Traffic.Matching.{any-ignored_ports, any-ignored_subnets}

-- A rule that redirects nowhere.
abbrev IsReturn : Rule → Type 0
IsReturn r = redirect_port r ≡ none

All-map {ℓ} :
    {A : Type ℓ} (f : A → Rule) (xs : List A) → ((x : A) → IsReturn (f x)) → All IsReturn (map f xs)
All-map f [] h = tt
All-map f (x ∷ xs) h = (h x, All-map f xs h)

ports_rule-IsReturn : (ds : List Bytes) → IsReturn (ports_rule ds)
unfolding redirect_port ports_rule same
ports_rule-IsReturn ds = refl

subnet_rule-IsReturn : (s : Bytes) → IsReturn (subnet_rule s)
unfolding redirect_port subnet_rule same
subnet_rule-IsReturn s = refl

either :
    (a b : Bool) (v : Option Bytes)
    → (if a then none else if b then none else v) ≡ (if a || b then none else v)
either true b v = refl
either false b v = refl

or_else_self : (v : Option Bytes) (b : Bool) → or_else v (if b then v else none) ≡ v
or_else_self none true = refl
or_else_self none false = refl
or_else_self (some port) b = refl

module _ (net : Netfilter) (p : Packet) where
  traverse-append :
      (xs ys : List Rule)
      → All IsReturn xs
      → traverse net (xs ++ ys) p
        ≡ (if any (λ r. net.matches r p) xs then none else traverse net ys p)
  unfolding traverse any
  traverse-append [] ys h = refl
  traverse-append (x ∷ xs) ys (hx, h) = ground (arith, hx, traverse-append xs ys h)

  traverse-ports :
      (ports : List Bytes) (rs : List Rule)
      → HasValid ports
      → traverse net (map ports_rule (make_multiport_destinations ports) ++ rs) p
        ≡ (if to_ignored_port ports p then none else traverse net rs p)
  traverse-ports ports rs h =
      traverse-append _ rs (All-map ports_rule _ ports_rule-IsReturn)
      ∙ ap (λ b. if b then none else traverse net rs p) (any-ignored_ports net p ports h)

  traverse-subnets :
      (subnets : List Bytes) (rs : List Rule)
      → traverse net (map subnet_rule subnets ++ rs) p
        ≡ (if from_ignored_subnet net subnets p then none else traverse net rs p)
  traverse-subnets subnets rs =
      traverse-append _ rs (All-map subnet_rule subnets subnet_rule-IsReturn)
      ∙ ap (λ b. if b then none else traverse net rs p) (any-ignored_subnets net p subnets)

  traverse-redirect :
      (port : ℤ) (comment : Bytes)
      → traverse net (redirect_rule port comment ∷ []) p
        ≡ (if p.is_tcp then some (itoa port) else none)
  unfolding traverse redirect_port redirect_rule same
  traverse-redirect port comment = rw (net.matches_redirect port comment p) refl

  traverse-listed :
      (proxy_port : ℤ) (ports : List ℤ)
      → All IsPort ports
      → traverse net (map (redirect_listed_rule proxy_port) ports) p ≡ (
          if p.is_tcp && any (λ port. eq_int (pos p.destination_port) port) ports
          then some (itoa proxy_port)
          else none)
  unfolding traverse redirect_port redirect_listed_rule same any
  traverse-listed proxy_port [] h = ground arith
  traverse-listed proxy_port (port ∷ ports) ((n, fits, is), h) =
      rw is
        (ground (arith, net.matches_listed proxy_port n p fits, traverse-listed proxy_port ports h))

  traverse-loopback :
      (rs : List Rule)
      → traverse net (loopback_rule ∷ rs) p ≡ (if p.on_loopback then none else traverse net rs p)
  unfolding traverse redirect_port loopback_rule same
  traverse-loopback rs = ap (λ b. if b then none else traverse net rs p) (net.matches_loopback p)

  traverse-inbound_rules :
      (fc : FirewallConfiguration)
      → All IsPort fc.ports_to_redirect_inbound
      → traverse net (inbound_rules fc) p
        ≡ (if to_redirected_port fc p then some (itoa fc.proxy_inbound_port) else none)
  unfolding inbound_rules to_redirected_port traverse
  traverse-inbound_rules fc h = elim (Bool-cases (same fc.mode redirect_all_mode)) [
    | inl all ↦ rw all (traverse-redirect _ _ ∙ ground arith)
    | inr not_all ↦ elim (Bool-cases (same fc.mode redirect_listed_mode)) [
      | inl listed ↦ rw (not_all, listed) (traverse-listed _ _ h)
      | inr neither ↦ rw (not_all, neither) (nothing p.is_tcp)
    ]
  ]
    where
      nothing : (b : Bool) → none ≡ (if b && false then some (itoa fc.proxy_inbound_port) else none)
      nothing true = refl
      nothing false = refl

  -- The chain PROXY_INIT_REDIRECT.
  pub traverse-redirect_chain_rules :
      (fc : FirewallConfiguration)
      → HasValid fc.inbound_ports_to_ignore
      → All IsPort fc.ports_to_redirect_inbound
      → traverse net (redirect_chain_rules fc) p ≡ inbound net fc p
  unfolding redirect_chain_rules inbound
  traverse-redirect_chain_rules fc valid ports =
      rw (traverse-ports _ _ valid, traverse-subnets, traverse-inbound_rules fc ports) refl

  -- A rule that stands there if the test holds.
  traverse-when :
      (test : Bool) (r : Rule) (rs : List Rule)
      → IsReturn r
      → traverse net ((if test then r ∷ [] else []) ++ rs) p
        ≡ (if test && net.matches r p then none else traverse net rs p)
  unfolding traverse
  traverse-when true r rs h = rw h refl
  traverse-when false r rs h = refl

  matches_owner :
      (flag comment : Bytes) (owner : ℕ) (id : ℤ)
      → ((n : ℕ) → n ≤ 4294967294 → net.matches (owner_rule flag (pos n) comment) p ≡ (owner == n))
      → IsAtMost 4294967294 id
      → (lt_int (pos 0) id && net.matches (owner_rule flag id comment) p)
        ≡ (lt_int (pos 0) id && eq_int (pos owner) id)
  matches_owner flag comment owner (negsuc n) matches fits = refl
  matches_owner flag comment owner (pos n) matches fits =
      rw (matches n (leb→le n 4294967294 fits)) refl

  traverse-owner_rules :
      (fc : FirewallConfiguration) (rs : List Rule)
      → IsAtMost 4294967294 fc.proxy_uid
      → IsAtMost 4294967294 fc.proxy_gid
      → traverse net (owner_rules fc ++ rs) p
        ≡ (if from_proxy fc p then none else traverse net rs p)
  unfolding owner_rules from_proxy redirect_port owner_rule same
  traverse-owner_rules fc rs hu hg =
      rw
        (
          append_assoc,
          traverse-when _
              (owner_rule (codes "--uid-owner") fc.proxy_uid (codes "ignore-proxy-user-id")) _ refl,
          traverse-when _
              (owner_rule (codes "--gid-owner") fc.proxy_gid (codes "ignore-proxy-group-id")) rs
              refl,
          matches_owner (codes "--uid-owner") _ p.uid fc.proxy_uid (λ n. net.matches_uid n _ p) hu,
          matches_owner (codes "--gid-owner") _ p.gid fc.proxy_gid (λ n. net.matches_gid n _ p) hg,
        )
        (either (lt_int (pos 0) fc.proxy_uid && eq_int (pos p.uid) fc.proxy_uid)
          (lt_int (pos 0) fc.proxy_gid && eq_int (pos p.gid) fc.proxy_gid) (traverse net rs p))

  -- The chain PROXY_INIT_OUTPUT.
  pub traverse-output_chain_rules :
      (fc : FirewallConfiguration)
      → HasValid fc.outbound_ports_to_ignore
      → IsAtMost 4294967294 fc.proxy_uid
      → IsAtMost 4294967294 fc.proxy_gid
      → traverse net (output_chain_rules fc) p ≡ outbound net fc p
  unfolding output_chain_rules outbound
  traverse-output_chain_rules fc valid hu hg =
      rw
        (
          traverse-owner_rules fc _ hu hg,
          traverse-loopback,
          traverse-ports _ _ valid,
          traverse-redirect,
        )
        refl

  -- In a chain whose other rules are aside, the rules of the chain that it leads to decide.
  pass-linked :
      (chain : Bytes) (jump : Rule) (inner ps : List Rule)
      → jumps_to chain jump ≡ true
      → net.matches jump p ≡ true
      → All (IsAside net chain jump p) ps
      → pass net chain inner ps p ≡ (if any (jumps_to chain) ps then traverse net inner p else none)
  unfolding pass any
  pass-linked chain jump inner [] leads always h = refl
  pass-linked chain jump inner (r ∷ ps) leads always (inl is, h) =
      rw (is, leads, always, pass-linked chain jump inner ps leads always h)
        (or_else_self (traverse net inner p) (any (jumps_to chain) ps))
  pass-linked chain jump inner (r ∷ ps) leads always (inr (passed, elsewhere), h) =
      rw (passed, elsewhere) (pass-linked chain jump inner ps leads always h)

  pub pass-link :
      (chain : Bytes) (jump : Rule) (inner ps : List Rule)
      → jumps_to chain jump ≡ true
      → net.matches jump p ≡ true
      → All (IsAside net chain jump p) ps
      → pass net chain inner (link chain jump ps) p ≡ traverse net inner p
  unfolding link any
  pass-link chain jump inner ps leads always h = elim (Bool-cases (any (jumps_to chain) ps)) [
    | inl linked ↦ rw linked (pass-linked chain jump inner ps leads always h ∙ rw linked refl)
    | inr unlinked ↦ rw unlinked (
        pass-linked chain jump inner (ps ++ jump ∷ []) leads always
          (All-append (IsAside net chain jump p) ps (jump ∷ []) h (inl refl, tt))
        ∙ rw (any-append, leads) (ground arith))
  ]
