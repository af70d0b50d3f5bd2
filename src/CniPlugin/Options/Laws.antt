-- ===== src/CniPlugin/Options/Laws.antt =====
-- What the annotations of a pod and of its namespace make of the options.
use linkerd2_proxy_init.Base.{
  Bytes, codes, ℤ, Option, none, some, List, [], ◌∷◌, ◌++◌, Result, ok, err, ◌≡◌, refl, arith,
  is_empty, Bool-cases, Option-cases, inl, inr, append-nil, if◌then◌else◌,
}
use linkerd2_proxy_init.Go.Strconv.{atoi}
use linkerd2_proxy_init.Go.Strings.{split}
use linkerd2_proxy_init.ProxyInit.Options.{RootOptions, iptables_mode_legacy}
use linkerd2_proxy_init.Task.{then_task, return}
use linkerd2_proxy_init.CniPlugin.Config.{PluginError, not_an_integer}
use linkerd2_proxy_init.CniPlugin.Cluster.{
  Client, Pod, Annotations, ServicePort, value_of, ports_of, tag_answer, get_annotation_override,
  get_api_server_ports,
}
use linkerd2_proxy_init.CniPlugin.Options.{
  override_outbound, override_inbound, override_subnets, override_id, parsed_or_fail, default_mode,
  or_default_ports, skip_api_server_ports, override_options,
}

-- A text of ports or subnets where there is one, and what stands without it.
abbrev pub split_or : List Bytes → Bytes → List Bytes
split_or old text = if is_empty text then old else split text b','

abbrev pub id_or : ℤ → Bytes → Option ℤ
id_or old text = if is_empty text then some old else atoi text

abbrev pub known_ports : {E : Type 0} → Result E (List ServicePort) → List Bytes
known_ports (ok ports) = ports_of ports
known_ports (err e) = codes "443" ∷ codes "6443" ∷ []

override_outbound_lem :
    (text : Bytes) (o : RootOptions)
    → override_outbound text o
      ≡ record o { outbound_ports_to_ignore = split_or o.outbound_ports_to_ignore text }
unfolding override_outbound
override_outbound_lem text o = ground arith

override_inbound_lem :
    (text : Bytes) (o : RootOptions)
    → override_inbound text o
      ≡ record o { inbound_ports_to_ignore = o.inbound_ports_to_ignore ++ split_or [] text }
unfolding override_inbound
override_inbound_lem text o = ground (arith, append-nil o.inbound_ports_to_ignore)

override_subnets_lem :
    (text : Bytes) (o : RootOptions)
    → override_subnets text o ≡ record o { subnets_to_ignore = split_or o.subnets_to_ignore text }
unfolding override_subnets
override_subnets_lem text o = ground arith

default_mode_lem :
    (o : RootOptions)
    → default_mode o ≡ record o {
      iptables_mode = if is_empty o.iptables_mode then iptables_mode_legacy else o.iptables_mode;
    }
unfolding default_mode
default_mode_lem o = ground arith

abbrev pub number_or_error : {E : Type 0} → Option ℤ → Result (PluginError E) ℤ
number_or_error none = err not_an_integer
number_or_error (some i) = ok i

parsed_or_fail_lem :
    {W E : Type 0} (i : Option ℤ) (w : W)
    → parsed_or_fail {W = W} {E = E} i w ≡ (number_or_error i, w)
unfolding parsed_or_fail
parsed_or_fail_lem none w = refl
parsed_or_fail_lem (some i) w = refl

override_id_lem :
    {W E : Type 0} (text : Bytes) (old : ℤ) (w : W)
    → override_id {W = W} {E = E} text old w ≡ (number_or_error (id_or old text), w)
unfolding override_id
override_id_lem text old w = elim (Bool-cases (is_empty text)) [
  | inl h ↦ rw h refl
  | inr h ↦ rw h (parsed_or_fail_lem (atoi text) w)
]

-- An annotation of the pod goes before one of its namespace.
abbrev pub effective : Pod → Annotations → Bytes → Bytes
effective pod annotations key =
    if is_empty (value_of key pod.annotations)
    then value_of key annotations
    else value_of key pod.annotations

abbrev pub api_server_ports : {E : Type 0} → Pod → Result E (List ServicePort) → List Bytes
api_server_ports pod service =
    if is_empty (value_of (codes "linkerd.io/control-plane-component") pod.labels)
    then []
    else known_ports service

-- The options with the overrides, given the user and the group.
abbrev pub overridden :
    {E : Type 0}
    → Pod
    → Annotations
    → Result E (List ServicePort)
    → RootOptions
    → ℤ
    → ℤ
    → RootOptions
overridden pod annotations service o user group =
    let text = effective pod annotations in
    record o {
      outbound_ports_to_ignore =
          split_or o.outbound_ports_to_ignore (text (codes "config.linkerd.io/skip-outbound-ports"))
          ++ api_server_ports pod service;
      inbound_ports_to_ignore =
          o.inbound_ports_to_ignore
          ++ split_or [] (text (codes "config.linkerd.io/skip-inbound-ports"));
      subnets_to_ignore =
          split_or o.subnets_to_ignore (text (codes "config.linkerd.io/skip-subnets"));
      proxy_user_id = user;
      proxy_group_id = group;
      iptables_mode = if is_empty o.iptables_mode then iptables_mode_legacy else o.iptables_mode;
    }

abbrev pub overridden_or_error :
    {E : Type 0} → (ℤ → ℤ → RootOptions) → Option ℤ → Option ℤ → Result (PluginError E) RootOptions
overridden_or_error make none group = err not_an_integer
overridden_or_error make (some user) none = err not_an_integer
overridden_or_error make (some user) (some group) = ok (make user group)

module _ {W E : Type 0} (client : Client W E) (pod : Pod) (annotations : Annotations)
    (service : Result E (List ServicePort))
    (namespace_read : (w : W) → client.get_namespace pod.namespace w ≡ (ok annotations, w))
    (service_read : (w : W) → client.get_kubernetes_service w ≡ (service, w)) where
  get_annotation_override-effective :
      (key : Bytes) (w : W)
      → get_annotation_override client pod key w ≡ (ok (effective pod annotations key), w)
  unfolding get_annotation_override
  get_annotation_override-effective key w =
      elim (Bool-cases (is_empty (value_of key pod.annotations))) [
        | inl h ↦ rw (h, namespace_read w) refl
        | inr h ↦ rw h refl
      ]

  -- Whatever the answer is, the step goes on.
  asked_ports :
      (answer : Result E (List ServicePort)) (w : W)
      → or_default_ports (then_task (tag_answer (answer, w)) λ ports. return (ports_of ports))
        ≡ (ok (known_ports answer), w)
  asked_ports (ok ports) w = refl
  asked_ports (err e) w = refl

  skip_api_server_ports_lem :
      (o : RootOptions) (w : W)
      → skip_api_server_ports client pod o w ≡ (
        ok (record o {
          outbound_ports_to_ignore = o.outbound_ports_to_ignore ++ api_server_ports pod service;
        }),
        w,
      )
  unfolding skip_api_server_ports get_api_server_ports
  skip_api_server_ports_lem o w =
      elim (Bool-cases
        (is_empty (value_of (codes "linkerd.io/control-plane-component") pod.labels))) [
          | inl h ↦ rw (h, append-nil o.outbound_ports_to_ignore) refl
          | inr h ↦ rw (h, service_read w, asked_ports service w) refl
        ]

  ruleset overrides = (
    get_annotation_override-effective, override_outbound_lem, override_inbound_lem,
    override_subnets_lem, override_id_lem, skip_api_server_ports_lem, default_mode_lem,
  )

  -- If the namespace can be read and neither that nor asking for the service changes anything, the
  -- options get what the annotations of the pod, or else of its namespace, say: other outbound ports
  -- and subnets to ignore, further inbound ports, and another user and group, where a text for these
  -- that is no number is an error. A component of the control plane ignores the ports of the API
  -- server too, or 443 and 6443 where they are not known, and the mode is legacy if none is set.
  pub override_options_lem :
      (o : RootOptions) (w : W)
      → override_options client pod o w ≡ (
        overridden_or_error
            (overridden pod annotations service o)
            (id_or o.proxy_user_id
              (effective pod annotations (codes "config.linkerd.io/proxy-uid")))
            (id_or o.proxy_group_id
              (effective pod annotations (codes "config.linkerd.io/proxy-gid"))),
        w,
      )
  unfolding override_options
  override_options_lem o w =
      let user_text = effective pod annotations (codes "config.linkerd.io/proxy-uid") in
      let group_text = effective pod annotations (codes "config.linkerd.io/proxy-gid") in
      elim (Option-cases (id_or o.proxy_user_id user_text)) [
        | inl h ↦ simp (overrides, h)
        | inr (user, h) ↦ elim (Option-cases (id_or o.proxy_group_id group_text)) [
          | inl k ↦ simp (overrides, h, k)
          | inr (group, k) ↦ simp (overrides, h, k)
        ]
      ]
