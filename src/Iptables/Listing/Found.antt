-- ===== src/Iptables/Listing/Found.antt =====
-- What `ConfigureFirewall` finds in the listing of a table: the two chains and the two links.
use linkerd2_proxy_init.Base.{
  ℕ, Bytes, codes, true, false, some, [], ◌∷◌, ◌≡◌, refl, arith, All, any, ◌==◌, ◌∙◌, ap,
}
use linkerd2_proxy_init.Go.Lines.{find_rule, find_line, after_head}
use linkerd2_proxy_init.Iptables.Config.{
  prerouting_chain_name, iptables_output_chain_name, output_chain_name, redirect_chain_name,
}
use linkerd2_proxy_init.Iptables.Chains.{Rule, Chains, jumps_to}
use linkerd2_proxy_init.Iptables.Rules.{
  has_prerouting_rule, has_output_rule, has_redirect_chain, has_output_chain,
}
use linkerd2_proxy_init.Iptables.Listing.{Lacks, rules_of, is_defined, Saves, PrintsJump, IsLegible}
use linkerd2_proxy_init.Iptables.Listing.Detect.{find_rule-specs, any-jumps_to, find_line-declared}

pub Lacks-any : (c : ℕ) (s : Bytes) → any (λ d. d == c) s ≡ false → Lacks c s
unfolding any
Lacks-any c [] h = tt
Lacks-any c (d ∷ s) h = (ground (arith, h), Lacks-any c s (ground (arith, h)))

abbrev pub NamesLack : ℕ → Type 0
NamesLack c =
    Lacks c prerouting_chain_name
    × Lacks c iptables_output_chain_name
    × Lacks c redirect_chain_name
    × Lacks c output_chain_name

pub no_space : NamesLack b' '
unfolding any
no_space = (
  Lacks-any b' ' prerouting_chain_name refl,
  Lacks-any b' ' iptables_output_chain_name refl,
  Lacks-any b' ' redirect_chain_name refl,
  Lacks-any b' ' output_chain_name refl,
)

pub no_newline : NamesLack b'\n'
unfolding any
no_newline = (
  Lacks-any b'\n' prerouting_chain_name refl,
  Lacks-any b'\n' iptables_output_chain_name refl,
  Lacks-any b'\n' redirect_chain_name refl,
  Lacks-any b'\n' output_chain_name refl,
)

module _ (print : Rule → Bytes) (k : Chains) (text : Bytes) (saves : Saves print k text) where
  pub has_redirect_chain-Saves : has_redirect_chain text ≡ is_defined (k redirect_chain_name)
  unfolding has_redirect_chain
  has_redirect_chain-Saves =
      ap (find_line (codes ":PROXY_INIT_REDIRECT ")) saves.rendered
      ∙ find_line-declared redirect_chain_name saves.lines no_space.2 saves.formed
      ∙ saves.declared.0

  pub has_output_chain-Saves : has_output_chain text ≡ is_defined (k output_chain_name)
  unfolding has_output_chain
  has_output_chain-Saves =
      ap (find_line (codes ":PROXY_INIT_OUTPUT ")) saves.rendered
      ∙ find_line-declared output_chain_name saves.lines no_space.3 saves.formed
      ∙ saves.declared.1.0

  module _
      (prints : (target : Bytes) (r : Rule)
        → Lacks b'\n' target
        → jumps_to target r ≡ true
        → PrintsJump target (print r)) where
    -- In the listing of a table the program finds a link from PREROUTING to PROXY_INIT_REDIRECT
    -- just if a rule of PREROUTING leads to that chain. It is assumed that a rule that leads to a
    -- chain is printed with `-j` and the chain's name, behind its matches or in front, and that the
    -- text `-j PROXY_INIT_REDIRECT` is printed for no other rule of PREROUTING.
    pub has_prerouting_rule-Saves :
        All (IsLegible print redirect_chain_name) (rules_of (k prerouting_chain_name))
        → has_prerouting_rule text
          ≡ any (jumps_to redirect_chain_name) (rules_of (k prerouting_chain_name))
    unfolding has_prerouting_rule
    has_prerouting_rule-Saves legible =
        ap (find_rule (codes "-A PREROUTING ") (codes "-j PROXY_INIT_REDIRECT")) saves.rendered
        ∙ find_rule-specs prerouting_chain_name (codes "-j PROXY_INIT_REDIRECT") no_space.0
            saves.lines saves.formed
        ∙ ap (any (λ s. after_head (codes "-j PROXY_INIT_REDIRECT") (some s))) saves.listed.0
        ∙ any-jumps_to print redirect_chain_name (λ r. prints redirect_chain_name r no_newline.2) _
            legible

    pub has_output_rule-Saves :
        All (IsLegible print output_chain_name) (rules_of (k iptables_output_chain_name))
        → has_output_rule text
          ≡ any (jumps_to output_chain_name) (rules_of (k iptables_output_chain_name))
    unfolding has_output_rule
    has_output_rule-Saves legible =
        ap (find_rule (codes "-A OUTPUT ") (codes "-j PROXY_INIT_OUTPUT")) saves.rendered
        ∙ find_rule-specs iptables_output_chain_name (codes "-j PROXY_INIT_OUTPUT") no_space.1
            saves.lines saves.formed
        ∙ ap (any (λ s. after_head (codes "-j PROXY_INIT_OUTPUT") (some s))) saves.listed.1.0
        ∙ any-jumps_to print output_chain_name (λ r. prints output_chain_name r no_newline.3) _
            legible
