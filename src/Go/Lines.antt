-- ===== src/Go/Lines.antt =====
-- Regular expressions of the form `(?m)^HEAD (.+ )?TAIL`, and `(?m)^HEAD`, as `Find` reads them: a
-- dot matches every byte but a newline, so a match lies within one line.
use linkerd2_proxy_init.Base.{Bytes, Bool, false, Option, none, some, [], ◌∷◌, any, ◌||◌}
use linkerd2_proxy_init.Go.Strings.{split, cut_prefix, has_prefix, contains}

-- `.+` takes one byte at least.
unfoldable pub after_head : Bytes → Option Bytes → Bool
unfolding has_prefix contains
after_head tail none = false
after_head tail (some []) = has_prefix [] tail
after_head tail (some (c ∷ rest)) = has_prefix (c ∷ rest) tail || contains rest (b' ' ∷ tail)

-- `(?m)^head(.+ )?tail`
unfoldable pub find_rule : Bytes → Bytes → Bytes → Bool
unfolding after_head any split cut_prefix
find_rule head tail text = any (λ line. after_head tail (cut_prefix head line)) (split text b'\n')

-- `(?m)^head`
unfoldable pub find_line : Bytes → Bytes → Bool
unfolding any split has_prefix
find_line head text = any (λ line. has_prefix line head) (split text b'\n')
