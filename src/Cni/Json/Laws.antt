-- ===== src/Cni/Json/Laws.antt =====
-- The laws of maps, and of arrays as lists.
use linkerd2_proxy_init.Base.{
  Bytes, same, same_iff, same_refl, none, some, List, [], ◌∷◌, ◌≡◌, refl, ap, arith, if◌then◌else◌,
}
use linkerd2_proxy_init.Cni.Json.{Json, Fields, end, field, to_list, from_list, get, put, delete}

pub to_list-from_list : (vs : List Json) → to_list (from_list vs) ≡ vs
unfolding to_list from_list
to_list-from_list [] = refl
to_list-from_list (v ∷ vs) = ap (λ t. v ∷ t) (to_list-from_list vs)

pub get-put :
    (j k : Bytes) (v : Json) (fs : Fields)
    → get j (put k v fs) ≡ (if same k j then some v else get j fs)
unfolding get put
get-put j k v end = refl
get-put j k v (field i w fs) =
    ground (arith, get-put j k v fs, same_iff i j, same_iff i k, same_iff k j)

pub put-put : (k : Bytes) (u v : Json) (fs : Fields) → put k v (put k u fs) ≡ put k v fs
unfolding put
put-put k u v end = ground (arith, same_refl k)
put-put k u v (field i w fs) = ground (arith, put-put k u v fs, same_refl k)

pub get-delete :
    (j k : Bytes) (fs : Fields) → get j (delete k fs) ≡ (if same k j then none else get j fs)
unfolding get delete
get-delete j k end = ground arith
get-delete j k (field i w fs) =
    ground (arith, get-delete j k fs, same_iff i j, same_iff i k, same_iff k j)
