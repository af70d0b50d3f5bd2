-- ===== src/Cni/Json.antt =====
-- JSON values as `encoding/json` decodes them into `any`. An object is a Go map: its fields have
-- different keys.
pub mod Laws
use linkerd2_proxy_init.Base.{
  Bytes, codes, Bool, same, Option, none, some, List, [], ◌∷◌, if◌then◌else◌,
}

mutual
  pub data Json : Type 0 where
    null : Json
    bool : Bool → Json
    num str : Bytes → Json
    arr : Items → Json
    obj : Fields → Json

  pub data Items : Type 0 where
    nil : Items
    cons : Json → Items → Items

  pub data Fields : Type 0 where
    end : Fields
    field : Bytes → Json → Fields → Fields

unfoldable pub to_list : Items → List Json
to_list nil = []
to_list (cons v vs) = v ∷ to_list vs

unfoldable pub from_list : List Json → Items
from_list [] = nil
from_list (v ∷ vs) = cons v (from_list vs)

-- `m[key]`
unfoldable pub get : Bytes → Fields → Option Json
get key end = none
get key (field k v fs) = if same k key then some v else get key fs

-- `m[key] = value`
unfoldable pub put : Bytes → Json → Fields → Fields
put key value end = field key value end
put key value (field k v fs) =
    if same k key then field key value fs else field k v (put key value fs)

-- `delete(m, key)`
unfoldable pub delete : Bytes → Fields → Fields
delete key end = end
delete key (field k v fs) = let rest = delete key fs in if same k key then rest else field k v rest

-- A variable of type `map[string]any`: the nil map reads as an empty one.
unfoldable pub fields : Json → Fields
fields (obj fs) = fs
fields _ = end
