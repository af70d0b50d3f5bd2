-- ===== src/CniPlugin/Cluster.antt =====
-- What the plugin asks the Kubernetes API, whose client is an interface, and what it makes of the
-- answers: `containsLinkerdProxy`, `getAnnotationOverride`, `getAPIServerPorts`.
use linkerd2_proxy_init.Base.{
  Bytes, codes, Bool, ℤ, Option, none, some, List, [], ◌∷◌, ◌++◌, Result, ok, err, same, is_empty,
  any, ◌||◌, not, if◌then◌else◌,
}
use linkerd2_proxy_init.Go.Strconv.{itoa}
use linkerd2_proxy_init.Task.{◌>>=◌, return}
use linkerd2_proxy_init.CniPlugin.Config.{PluginError, cluster_failed, PluginTask}

-- A map from texts to texts, and `m[key]`, which is empty for a missing key.
abbrev pub Annotations : Type 0
Annotations = List (Bytes × Bytes)

unfoldable pub value_of : Bytes → Annotations → Bytes
value_of key [] = []
value_of key ((k, v) ∷ rest) = if same k key then v else value_of key rest

-- A pod as far as the plugin reads it: the names of its containers, and its metadata.
pub record Pod : Type 0 where
  pub namespace : Bytes
  pub annotations : Annotations
  pub labels : Annotations
  pub init_containers : List Bytes
  pub containers : List Bytes

-- The target port is `none` where it is a name.
pub record ServicePort : Type 0 where
  pub port : ℤ
  pub target_port : Option ℤ

-- The client: connecting with a kubeconfig file, reading a pod, the annotations of a namespace,
-- and the ports of the service `kubernetes` in the namespace `default`.
pub record Client (W E : Type 0) : Type 0 where
  pub connect : Bytes → W → Option E × W
  pub get_pod : Bytes → Bytes → W → Result E Pod × W
  pub get_namespace : Bytes → W → Result E Annotations × W
  pub get_kubernetes_service : W → Result E (List ServicePort) × W

unfoldable pub contains_init_container : Pod → Bool
contains_init_container pod = any (same (codes "linkerd-init")) pod.init_containers

unfoldable pub contains_linkerd_proxy : Pod → Bool
contains_linkerd_proxy pod =
    any (same (codes "linkerd-proxy")) pod.containers
    || any (same (codes "linkerd-proxy")) pod.init_containers

unfoldable pub service_port_texts : ServicePort → Option ℤ → List Bytes
service_port_texts p none = itoa p.port ∷ []
service_port_texts p (some target) = itoa p.port ∷ itoa target ∷ []

unfoldable pub ports_of : List ServicePort → List Bytes
ports_of [] = []
ports_of (p ∷ ports) = service_port_texts p p.target_port ++ ports_of ports

abbrev pub tag_answer : {W E A : Type 0} → Result E A × W → Result (PluginError E) A × W
tag_answer (ok a, w) = (ok a, w)
tag_answer (err e, w) = (err (cluster_failed e), w)

abbrev pub from_cluster : {W E A : Type 0} → (W → Result E A × W) → PluginTask W E A
from_cluster request = λ w. tag_answer (request w)

module _ {W E : Type 0} (client : Client W E) where
  unfoldable pub get_annotation_override : Pod → Bytes → PluginTask W E Bytes
  get_annotation_override pod key =
      let override = value_of key pod.annotations in
      if not (is_empty override) then return override else (do
        annotations ← from_cluster (client.get_namespace pod.namespace)
        return (value_of key annotations))

  unfoldable pub get_api_server_ports : PluginTask W E (List Bytes)
  get_api_server_ports = do
    ports ← from_cluster client.get_kubernetes_service
    return (ports_of ports)
