-- ===== src/Iptables/Listing.antt =====
-- The output of iptables-save, as iptables-save(8) and iptables(8) have it: a line for every chain,
-- one for every rule, and lines of other kinds.
pub mod Detect
pub mod Found
use linkerd2_proxy_init.Base.{
  ℕ, Bytes, codes, Bool, true, false, same, any, Option, none, some, List, [], ◌∷◌, ◌++◌, map, All,
  ◌≡◌, ◌≢◌, ◌⊎◌, if◌then◌else◌,
}
use linkerd2_proxy_init.Go.Strings.{contains}
use linkerd2_proxy_init.Iptables.Chains.{Rule, Chains, jumps_to}
use linkerd2_proxy_init.Iptables.Config.{
  prerouting_chain_name, iptables_output_chain_name, output_chain_name, redirect_chain_name,
}

-- A chain with its policy and counters, a rule of a chain, or a comment, the table's name or
-- `COMMIT`.
pub data Line : Type 0 where
  declares : Bytes → Bytes → Line
  rule : Bytes → Bytes → Line
  other : Bytes → Line

unfoldable pub text_of : Line → Bytes
text_of (declares c rest) = b':' ∷ (c ++ b' ' ∷ rest)
text_of (rule c spec) = codes "-A " ++ (c ++ b' ' ∷ spec)
text_of (other s) = s

unfoldable pub render : List Line → Bytes
render [] = []
render (l ∷ ls) = text_of l ++ b'\n' ∷ render ls

abbrev pub Lacks : ℕ → Bytes → Type 0
Lacks c s = All (λ d. d ≢ c) s

-- How a line of another kind does not begin.
abbrev pub IsOther : Bytes → Type 0
IsOther [] = Unit
IsOther (c ∷ s) = (c ≢ b':') × (c ≢ b'-')

abbrev pub IsLine : Line → Type 0
IsLine (declares c rest) = Lacks b' ' c × Lacks b'\n' c × Lacks b'\n' rest
IsLine (rule c spec) = Lacks b' ' c × Lacks b'\n' c × Lacks b'\n' spec
IsLine (other s) = Lacks b'\n' s × IsOther s

unfoldable pub declares_chain : Bytes → Line → Bool
declares_chain c (declares d rest) = same c d
declares_chain c (rule d spec) = false
declares_chain c (other s) = false

-- What the rules of a chain are printed as, in order.
unfoldable pub specs_of : Bytes → List Line → List Bytes
specs_of c [] = []
specs_of c (declares d rest ∷ ls) = specs_of c ls
specs_of c (rule d spec ∷ ls) =
    let specs = specs_of c ls in if same c d then spec ∷ specs else specs
specs_of c (other s ∷ ls) = specs_of c ls

abbrev pub is_defined : Option (List Rule) → Bool
is_defined none = false
is_defined (some rs) = true

abbrev pub rules_of : Option (List Rule) → List Rule
rules_of none = []
rules_of (some rs) = rs

-- The text is the listing of a table: it has a line for each of the chains that the program asks
-- for, if it is there, and one for each of its rules, in their order.
pub record Saves (print : Rule → Bytes) (k : Chains) (text : Bytes) : Type 0 where
  pub lines : List Line
  pub rendered : text ≡ render lines
  pub formed : All IsLine lines
  pub declared :
      All
        (λ c. any (declares_chain c) lines ≡ is_defined (k c))
        (redirect_chain_name ∷ output_chain_name ∷ [])
  pub listed :
      All
        (λ c. specs_of c lines ≡ map print (rules_of (k c)))
        (prerouting_chain_name ∷ iptables_output_chain_name ∷ [])

-- What stands before the target: nothing, or matches, the last of which a space follows.
abbrev pub IsLead : Bytes → Type 0
IsLead lead = (lead ≡ []) ⊎ (c : ℕ) × (m : Bytes) × (lead ≡ c ∷ m ++ b' ' ∷ [])

-- A rule that leads to a chain is printed with `-j` and that chain behind its matches.
abbrev pub PrintsJump : Bytes → Bytes → Type 0
PrintsJump target spec =
    (lead : Bytes) × (rest : Bytes) × IsLead lead
    × (spec ≡ lead ++ (codes "-j " ++ (target ++ rest)))

-- No other rule has that text within it: no longer name of a chain begins with the chain's, and no
-- comment holds the text.
abbrev pub IsLegible : (Rule → Bytes) → Bytes → Rule → Type 0
IsLegible print target r =
    (jumps_to target r ≡ true) ⊎ (contains (print r) (codes "-j " ++ target) ≡ false)
