-- ===== src/Tests/Kernel.antt =====
-- A netfilter that keeps the interface of `Netfilter`: it reads the arguments of a rule as options
-- with one value each.
use linkerd2_proxy_init.Base.{
  ℕ, ◌≤◌, Bytes, codes, Bool, true, false, ◌&&◌, ◌==◌, leb, ℤ, pos, le_int, eq_int, same, any,
  Option, none, some, List, [], ◌∷◌, ◌≡◌, ◌≢◌, refl, arith, All, All-append, ap, ◌∙◌, if◌then◌else◌,
  Bool-cases, inl, inr,
}
use linkerd2_proxy_init.Go.Strconv.{itoa, atoi}
use linkerd2_proxy_init.Go.Strconv.RoundTrip.{IsDigit, format_nat-IsDigit, atoi-itoa}
use linkerd2_proxy_init.Go.Strings.{split, join}
use linkerd2_proxy_init.Go.Strings.Laws.{split_lacking, split_at}
use linkerd2_proxy_init.Ports.Range.{range}
use linkerd2_proxy_init.Iptables.Multiport.{as_destination}
use linkerd2_proxy_init.Iptables.Chains.{Rule}
use linkerd2_proxy_init.Iptables.Ops.{
  ports_rule, subnet_rule, redirect_rule, redirect_listed_rule, owner_rule, loopback_rule,
  jump_rule,
}
use linkerd2_proxy_init.Iptables.Traffic.{Packet, IsDestination, Netfilter}

-- Whether the number that was read is `n`, is `n` at most, or is `n` at least.
abbrev is_read : Option ℤ → ℕ → Bool
is_read none n = false
is_read (some i) n = eq_int (pos n) i

abbrev is_from : Option ℤ → ℕ → Bool
is_from none n = false
is_from (some i) n = le_int i (pos n)

abbrev is_up_to : Option ℤ → ℕ → Bool
is_up_to none n = false
is_up_to (some i) n = le_int (pos n) i

unfoldable pub within : List Bytes → ℕ → Bool
within (l ∷ []) port = is_read (atoi l) port
within (l ∷ u ∷ []) port = is_from (atoi l) port && is_up_to (atoi u) port
within _ port = false

unfoldable pub names : Bytes → ℕ → Bool
names d port = within (split d b':') port

-- A subnet of eight bits: the first number decides.
abbrev first : List Bytes → Bytes
first [] = []
first (s ∷ rest) = s

unfoldable pub shares_prefix : Bytes → Bytes → Bool
shares_prefix subnet source = same (first (split subnet b'.')) (first (split source b'.'))

unfoldable pub test : Bytes → Bytes → Packet → Bool
test flag value p =
    if same flag (codes "-p")
    then (if same value (codes "tcp") then p.is_tcp else true)
    else if same flag (codes "--dports")
    then any (λ d. names d p.destination_port) (split value b',')
    else if same flag (codes "--destination-port")
    then is_read (atoi value) p.destination_port
    else if same flag (codes "-s")
    then shares_prefix value p.source
    else if same flag (codes "-o")
    then p.on_loopback
    else if same flag (codes "--uid-owner")
    then is_read (atoi value) p.uid
    else if same flag (codes "--gid-owner")
    then is_read (atoi value) p.gid
    else true

unfoldable pub holds : Rule → Packet → Bool
holds (flag ∷ value ∷ rest) p = test flag value p && holds rest p
holds _ p = true

abbrev Lacks : ℕ → Bytes → Type 0
Lacks sep s = All (λ c. c ≢ sep) s

digits-Lacks : (sep : ℕ) (s : Bytes) → ((c : ℕ) → IsDigit c → c ≢ sep) → All IsDigit s → Lacks sep s
digits-Lacks sep [] h hs = tt
digits-Lacks sep (c ∷ s) h (hc, hs) = (h c hc, digits-Lacks sep s h hs)

and_true : (b : Bool) → (b && true) ≡ b
and_true true = refl
and_true false = refl

split-join :
    (d : Bytes) (ds : List Bytes)
    → All (Lacks b',') (d ∷ ds)
    → split (join (d ∷ ds) (codes ",")) b',' ≡ d ∷ ds
unfolding join
split-join d [] (hd, hs) = split_lacking d b',' hd
split-join d (e ∷ ds) (hd, hs) = split_at d _ b',' hd ∙ ap (λ rest. d ∷ rest) (split-join e ds hs)

split_colon : (n : ℕ) → Lacks b':' (itoa (pos n))
unfolding itoa
split_colon n = digits-Lacks b':' _ (λ c h e. omega arith) (format_nat-IsDigit n)

pub names-range :
    (l u port : ℕ)
    → l ≤ u
    → u ≤ 65535
    → names (as_destination (range l u)) port ≡ (leb l port && leb port u)
unfolding names as_destination within
names-range l u port le fits = elim (Bool-cases (l == u)) [
  | inl e ↦
      rw (e, split_lacking (itoa (pos l)) b':' (split_colon l), atoi-itoa l (omega arith))
        (ground arith)
  | inr e ↦
      rw
        (
          e,
          split_at (itoa (pos l)) _ b':' (split_colon l),
          split_lacking (itoa (pos u)) b':' (split_colon u),
          atoi-itoa l (omega arith),
          atoi-itoa u (omega arith),
        )
        refl
]

IsDestination-Lacks : (ds : List Bytes) → All IsDestination ds → All (Lacks b',') ds
unfolding as_destination itoa
IsDestination-Lacks [] h = tt
IsDestination-Lacks (d ∷ ds) ((l, u, le, fits, is), h) =
    let lower = digits-Lacks b',' _ (λ c h e. omega arith) (format_nat-IsDigit l) in
    let upper = digits-Lacks b',' _ (λ c h e. omega arith) (format_nat-IsDigit u) in
    let one : Lacks b',' d = elim (Bool-cases (l == u)) [
      | inl e ↦ rw (is, e) lower
      | inr e ↦ rw (is, e) (All-append (λ c. c ≢ b',') _ _ lower (λ k. ground arith, upper))
    ] in
    (one, IsDestination-Lacks ds h)

pub holds_ports :
    (ds : List Bytes) (p : Packet)
    → ds ≢ []
    → All IsDestination ds
    → holds (ports_rule ds) p ≡ (p.is_tcp && any (λ d. names d p.destination_port) ds)
unfolding holds test ports_rule same
holds_ports [] p ne h = absurd (ne refl)
holds_ports (d ∷ ds) p ne h =
    rw (split-join d ds (IsDestination-Lacks (d ∷ ds) h)) (ap (λ b. p.is_tcp && b) (and_true _))

pub holds_subnet :
    (subnet : Bytes) (p : Packet) → holds (subnet_rule subnet) p ≡ shares_prefix subnet p.source
unfolding holds test subnet_rule same
holds_subnet subnet p = (and_true _)

pub holds_redirect :
    (port : ℤ) (comment : Bytes) (p : Packet) → holds (redirect_rule port comment) p ≡ p.is_tcp
unfolding holds test redirect_rule same
holds_redirect port comment p = (and_true _)

pub holds_listed :
    (proxy_port : ℤ) (port : ℕ) (p : Packet)
    → port ≤ 65535
    → holds (redirect_listed_rule proxy_port (pos port)) p
      ≡ (p.is_tcp && p.destination_port == port)
unfolding holds test redirect_listed_rule same
holds_listed proxy_port port p h =
    rw (atoi-itoa port (omega arith)) (ap (λ b. p.is_tcp && b) (and_true _))

pub holds_uid :
    (uid : ℕ) (comment : Bytes) (p : Packet)
    → uid ≤ 4294967294
    → holds (owner_rule (codes "--uid-owner") (pos uid) comment) p ≡ (p.uid == uid)
unfolding holds test owner_rule same
holds_uid uid comment p h = rw (atoi-itoa uid (omega arith)) (and_true _)

pub holds_gid :
    (gid : ℕ) (comment : Bytes) (p : Packet)
    → gid ≤ 4294967294
    → holds (owner_rule (codes "--gid-owner") (pos gid) comment) p ≡ (p.gid == gid)
unfolding holds test owner_rule same
holds_gid gid comment p h = rw (atoi-itoa gid (omega arith)) (and_true _)

pub holds_loopback : (p : Packet) → holds loopback_rule p ≡ p.on_loopback
unfolding holds test loopback_rule same
holds_loopback p = (and_true _)

pub holds_jump : (target comment : Bytes) (p : Packet) → holds (jump_rule target comment) p ≡ true
unfolding holds test jump_rule same
holds_jump target comment p = refl

unfoldable pub kernel : Netfilter
kernel = record {
  matches = holds;
  in_subnet = shares_prefix;
  names_port = names;
  names_port_range = names-range;
  matches_ports = holds_ports;
  matches_subnet = holds_subnet;
  matches_redirect = holds_redirect;
  matches_listed = holds_listed;
  matches_uid = holds_uid;
  matches_gid = holds_gid;
  matches_loopback = holds_loopback;
  matches_jump = holds_jump;
}
