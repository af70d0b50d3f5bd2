-- ===== src/Go/Pathname.antt =====
-- Package `path`: slash-separated names of files.
use linkerd2_proxy_init.Base.{
  Bytes, codes, Bool, true, false, not, same, is_empty, List, [], ◌∷◌, ◌==◌, ◌&&◌, ◌||◌,
  if◌then◌else◌,
}
use linkerd2_proxy_init.Go.Strings.{split, join}
use mathlib.Core.List.{reverse}

-- A part `..` against the parts before it, the last one first.
up : Bool → List Bytes → List Bytes
up rooted [] = if rooted then [] else codes ".." ∷ []
up rooted (p ∷ ps) = if same p (codes "..") then codes ".." ∷ p ∷ ps else ps

clean_part : Bool → Bytes → List Bytes → List Bytes
clean_part rooted part stack =
    if is_empty part || same part (codes ".")
    then stack
    else if same part (codes "..")
    then up rooted stack
    else part ∷ stack

clean_parts : Bool → List Bytes → List Bytes → List Bytes
clean_parts rooted [] stack = reverse stack
clean_parts rooted (part ∷ parts) stack = clean_parts rooted parts (clean_part rooted part stack)

rendered : Bool → List Bytes → Bytes
rendered true parts = b'/' ∷ join parts (codes "/")
rendered false [] = codes "."
rendered false (part ∷ parts) = join (part ∷ parts) (codes "/")

is_rooted : Bytes → Bool
is_rooted [] = false
is_rooted (c ∷ s) = c == b'/'

-- `Clean`
unfoldable pub clean : Bytes → Bytes
unfolding up clean_part clean_parts rendered is_rooted
clean name = rendered (is_rooted name) (clean_parts (is_rooted name) (split name b'/') [])

-- `Join`
unfoldable pub join_path : List Bytes → Bytes
join_path [] = []
join_path ([] ∷ elements) = join_path elements
join_path ((c ∷ s) ∷ elements) = clean (join ((c ∷ s) ∷ elements) (codes "/"))

-- `Split`: up to the last slash, and what follows it.
unfoldable pub split_last : Bytes → Bytes × Bytes
split_last [] = ([], [])
split_last (c ∷ s) =
    let (directory, file) = split_last s in
    if is_empty directory && not (c == b'/') then ([], c ∷ file) else (c ∷ directory, file)

-- `Dir`
unfoldable pub dir : Bytes → Bytes
dir name = clean (split_last name).0

trim_slashes : Bytes → Bytes
trim_slashes [] = []
trim_slashes (c ∷ s) =
    let rest = trim_slashes s in if is_empty rest && c == b'/' then [] else c ∷ rest

base_of : Bytes → Bytes
base_of [] = codes "/"
base_of (c ∷ s) = (split_last (c ∷ s)).1

-- `Base`
unfoldable pub base : Bytes → Bytes
unfolding trim_slashes base_of
base [] = codes "."
base (c ∷ s) = base_of (trim_slashes (c ∷ s))

-- From the last dot on.
from_dot : Bytes → Bytes
from_dot [] = []
from_dot (c ∷ s) =
    let rest = from_dot s in if not (is_empty rest) then rest else if c == b'.' then c ∷ s else []

-- `Ext`
unfoldable pub ext : Bytes → Bytes
unfolding from_dot
ext name = from_dot (split_last name).1
