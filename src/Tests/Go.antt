-- ===== src/Tests/Go.antt =====
-- Tests of the functions of Go's library.
use linkerd2_proxy_init.Base.{codes, [], ◌∷◌, ◌≡◌, refl, same}
use linkerd2_proxy_init.Go.Strings.{split, join}
use linkerd2_proxy_init.Go.Pathname.{clean, join_path, split_last, dir, base, ext}
use linkerd2_proxy_init.Go.Base64.{encode_base64}

cleaned :
    (clean (codes "/a//b/./../c/") ≡ codes "/a/c")
    × (clean (codes "../a/../../b") ≡ codes "../../b")
    × (clean (codes "/../a") ≡ codes "/a")
    × (clean [] ≡ codes ".")
    × (clean (codes "/") ≡ codes "/")
unfolding clean split join same
cleaned = (refl, refl, refl, refl, refl)

joined :
    (join_path (codes "/host" ∷ codes "/etc/cni/net.d" ∷ codes "x" ∷ [])
      ≡ codes "/host/etc/cni/net.d/x")
    × (join_path ([] ∷ codes "a" ∷ [] ∷ codes "b" ∷ []) ≡ codes "a/b")
    × (join_path ([] ∷ []) ≡ [])
unfolding join_path clean split join same
joined = (refl, refl, refl)

parts_of_names :
    (dir (codes "/etc/cni/10.conf") ≡ codes "/etc/cni")
    × (dir (codes "10.conf") ≡ codes ".")
    × (base (codes "/etc/cni/10.conf") ≡ codes "10.conf")
    × (base (codes "/etc/cni//") ≡ codes "cni")
    × (base (codes "//") ≡ codes "/")
    × (ext (codes "/etc/cni.d/10.calico.conflist") ≡ codes ".conflist")
    × (ext (codes "/etc/cni.d/10") ≡ [])
unfolding dir base ext split_last clean split join same
parts_of_names = (refl, refl, refl, refl, refl, refl, refl)

encoded_texts :
    (encode_base64 (codes "Man") ≡ codes "TWFu")
    × (encode_base64 (codes "light w") ≡ codes "bGlnaHQgdw==")
    × (encode_base64 (codes "light wo") ≡ codes "bGlnaHQgd28=")
unfolding encode_base64
encoded_texts = (refl, refl, refl)
