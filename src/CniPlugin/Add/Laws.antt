-- ===== src/CniPlugin/Add/Laws.antt =====
-- What a successful `cmdAdd` has done.
use linkerd2_proxy_init.Base.{
  Bytes, codes, same, same_iff, same_refl, any, any-append, List, [], ◌∷◌, ◌++◌, ◌||◌, ◌↔◌, Bool,
  true, false, not, Option, none, some, Result, ok, err, ◌≡◌, ◌⊎◌, refl, ap, ◌∙◌, arith, is_empty,
  ◌&&◌, Bool-cases, inl, inr,
}
use linkerd2_proxy_init.Iptables.Config.{FirewallConfiguration}
use linkerd2_proxy_init.Iptables.Commands.{Cmd}
use linkerd2_proxy_init.Iptables.Run.{Output, configure_firewall}
use linkerd2_proxy_init.ProxyInit.Options.{RootOptions}
use linkerd2_proxy_init.ProxyInit.Build.{OptionsError, build_firewall_configuration}
use linkerd2_proxy_init.Task.{Done, done, then_task_success}
use linkerd2_proxy_init.CniPlugin.Config.{
  PluginConf, ProxyInit, PluginError, parse_config, cluster_failed, firewall_failed, print_failed,
}
use linkerd2_proxy_init.CniPlugin.Cluster.{
  Client, Pod, contains_init_container, contains_linkerd_proxy, tag_answer,
}
use linkerd2_proxy_init.CniPlugin.Options.{root_options, override_options}
use linkerd2_proxy_init.CniPlugin.Add.{
  checked, CmdArgs, k8s_args, loaded, result_to_print, configure_built, build_and_configure,
  configure_families, configure_pod, set_up, cmd_add,
}

checked_success :
    {W E : Type 0} (tag : E → PluginError E) (x : Option E × W) {w' : W}
    → checked tag x ≡ (ok done, w')
    → x ≡ (none, w')
checked_success tag (none, w₁) h = ground arith
checked_success tag (some e, w₁) h = absurd (ground arith)

pub tag_answer_success :
    {W E A : Type 0} (x : Result E A × W) {a : A} {w' : W}
    → tag_answer x ≡ (ok a, w')
    → x ≡ (ok a, w')
tag_answer_success (ok a, w₁) h = ground arith
tag_answer_success (err e, w₁) h = absurd (ground arith)

loaded_success :
    {W E : Type 0} (o : Option (Bytes × Bytes)) (names : Bytes × Bytes) (w w₁ : W)
    → loaded {W = W} {E = E} o w ≡ (ok names, w₁)
    → (o ≡ some names) × (w ≡ w₁)
unfolding loaded
loaded_success none names w w₁ h = absurd (ground arith)
loaded_success (some read) names w w₁ h = (ground arith, ground arith)

-- The name stands in the list.
abbrev pub Lists : Bytes → List Bytes → Type 0
Lists name names = (before : List Bytes) × (after : List Bytes) × (names ≡ before ++ name ∷ after)

any-Lists : (name : Bytes) (names : List Bytes) → (any (same name) names ≡ true) ↔ Lists name names
any-Lists name names = (there names, found names)
  where
    there : (names : List Bytes) → any (same name) names ≡ true → Lists name names
    there [] h = absurd (unfold any in ground arith)
    there (n ∷ names) h = elim (Bool-cases (same name n)) [
      | inl here ↦ ([], names, rw ((same_iff name n).0 here) refl)
      | inr other ↦
          let (before, after, is) = there names (unfold any in ground (arith, h, other)) in
          (n ∷ before, after, rw is refl)
    ]

    found : (names : List Bytes) → Lists name names → any (same name) names ≡ true
    found names (before, after, is) =
        rw (is, any-append) (unfold any in rw same_refl (ground arith))

-- A test of three, for what they test.
guard_iff :
    (a b c : Bool) {A B C : Type 0}
    → ((a ≡ true) ↔ A)
    → ((b ≡ true) ↔ B)
    → ((c ≡ true) ↔ C)
    → ((not a && (b || c)) ≡ true) ↔ ((¬ A) × (B ⊎ C))
guard_iff true b c a-iff b-iff c-iff =
    (λ h. absurd (ground arith), λ m. absurd (m.0 (a-iff.0 refl)))
guard_iff false true c a-iff b-iff c-iff =
    (λ h. (λ a. cc (a-iff.1 a), inl (b-iff.0 refl)), λ m. refl)
guard_iff false false true a-iff b-iff c-iff =
    (λ h. (λ a. cc (a-iff.1 a), inr (c-iff.0 refl)), λ m. refl)
guard_iff false false false a-iff b-iff c-iff =
    (λ h. absurd (ground arith), λ m. elim (m.1) [ inl b ↦ b-iff.1 b | inr c ↦ c-iff.1 c ])

-- A pod with the proxy, among its containers or as a sidecar among its init containers, that does not
-- set up its own rules.
abbrev pub IsMeshed : Pod → Type 0
IsMeshed pod =
    (¬ Lists (codes "linkerd-init") pod.init_containers)
    × (Lists (codes "linkerd-proxy") pod.containers
        ⊎ Lists (codes "linkerd-proxy") pod.init_containers)

-- The test of the plugin.
abbrev pub is_meshed : Pod → Bool
is_meshed pod = not (contains_init_container pod) && contains_linkerd_proxy pod

pub is_meshed-iff-IsMeshed : (pod : Pod) → (is_meshed pod ≡ true) ↔ IsMeshed pod
unfolding contains_init_container contains_linkerd_proxy
is_meshed-iff-IsMeshed pod =
    guard_iff _ _ _ (any-Lists (codes "linkerd-init") pod.init_containers)
      (any-Lists (codes "linkerd-proxy") pod.containers)
      (any-Lists (codes "linkerd-proxy") pod.init_containers)

pub not-IsMeshed : (pod : Pod) → is_meshed pod ≡ false → ¬ IsMeshed pod
not-IsMeshed pod h m = cc ((is_meshed-iff-IsMeshed pod).1 m)

-- A request that names its pod.
abbrev pub is_named : Bytes × Bytes → Bool
is_named (namespace, pod_name) = not (is_empty namespace) && not (is_empty pod_name)

module _ {W E : Type 0} (run : Cmd → W → Output E × W) (has is_cidr : Bytes → Bool)
    (client : Client W E) where
  -- The configuration is built from the options, and applied with success.
  pub record Applied (o : RootOptions) (w w' : W) : Type 0 where
    pub config : FirewallConfiguration
    pub built : (build_firewall_configuration is_cidr o).0 ≡ ok config
    pub applied : configure_firewall run has config w ≡ (none, w')

  -- IPv4 is configured, and then IPv6 exactly where it is asked for.
  abbrev pub FamiliesApplied : RootOptions → W → W → Type 0
  FamiliesApplied o w w' =
      (w₁ : W) × Applied (record o { ipv6 = false }) w w₁
      × ((o.ipv6 ≡ false) × (w₁ ≡ w') ⊎ (o.ipv6 ≡ true) × Applied o w₁ w')

  abbrev pub PodReady : Bytes → ProxyInit → Pod → W → W → Type 0
  PodReady net_ns conf pod w w' =
      (¬ IsMeshed pod) × (w ≡ w')
      ⊎ IsMeshed pod
        × ((o : RootOptions) × (w₁ : W) × (override_options client pod (root_options conf net_ns) w
              ≡ (ok o, w₁))
            × FamiliesApplied o w₁ w')

  abbrev pub Ready : {Raw R : Type 0} → CmdArgs → PluginConf Raw R → Bytes × Bytes → W → W → Type 0
  Ready args conf names w w' =
      (is_named names ≡ false) × (w ≡ w')
      ⊎ (is_named names ≡ true)
        × ((w₁ : W) × (client.connect conf.kubeconfig w ≡ (none, w₁))
            × ((pod : Pod) × (w₂ : W) × (client.get_pod names.0 names.1 w₁ ≡ (ok pod, w₂))
                × PodReady args.net_ns conf.proxy_init pod w₂ w'))

  build_and_configure_success :
      (o : RootOptions) (d : Done) (w w' : W)
      → build_and_configure run has is_cidr client o w ≡ (ok d, w')
      → Applied o w w'
  unfolding build_and_configure configure_built
  build_and_configure_success o done w w' h =
      inspect (build_firewall_configuration is_cidr o).0 refl h
    where
      inspect :
          (r : Result OptionsError FirewallConfiguration)
          → (build_firewall_configuration is_cidr o).0 ≡ r
          → configure_built run has is_cidr client r w ≡ (ok done, w')
          → Applied o w w'
      inspect (err e) is_r h = absurd (ground arith)
      inspect (ok config) is_r h = record {
        config = config;
        built = is_r;
        applied = checked_success firewall_failed (configure_firewall run has config w) h;
      }

  configure_families_success :
      (o : RootOptions) (w w' : W)
      → configure_families run has is_cidr client o w ≡ (ok done, w')
      → FamiliesApplied o w w'
  unfolding configure_families
  configure_families_success o w w' h =
      let (d, w₁, first, h₁) = then_task_success _ _ h in
      (
        w₁,
        build_and_configure_success _ d w w₁ first,
        elim (Bool-cases o.ipv6) [
          | inl dual ↦ inr (dual, build_and_configure_success o done w₁ w' (simp dual at h₁))
          | inr single ↦
              inl (single, ap (λ (x : Result (PluginError E) Done × W). x.1) (simp single at h₁))
        ],
      )

  configure_pod_success :
      (net_ns : Bytes) (conf : ProxyInit) (pod : Pod) (w w' : W)
      → configure_pod run has is_cidr client net_ns conf pod w ≡ (ok done, w')
      → PodReady net_ns conf pod w w'
  unfolding configure_pod
  configure_pod_success net_ns conf pod w w' h = elim (Bool-cases (is_meshed pod)) [
    | inl meshed ↦
        let (o, w₁, made, h₁) = then_task_success _ _ (simp meshed at h) in
        inr (
          (is_meshed-iff-IsMeshed pod).0 meshed,
          (o, w₁, made, configure_families_success o w₁ w' h₁),
        )
    | inr other ↦ inl (
      not-IsMeshed pod other,
      ap (λ (x : Result (PluginError E) Done × W). x.1) (simp other at h),
    )
  ]

  set_up_success :
      {Raw R : Type 0} (args : CmdArgs) (conf : PluginConf Raw R) (names : Bytes × Bytes) (w w' : W)
      → set_up run has is_cidr client args conf names w ≡ (ok done, w')
      → Ready args conf names w w'
  unfolding set_up
  set_up_success args conf names w w' h = elim (Bool-cases (is_named names)) [
    | inl named ↦
        let (d, w₁, connected, h₁) = then_task_success _ _ (simp named at h) in
        let (pod, w₂, answered, h₂) = then_task_success _ _ h₁ in
        inr (
          named,
          (
            w₁,
            connect_success d w₁ connected,
            (
              pod,
              w₂,
              tag_answer_success _ answered,
              configure_pod_success args.net_ns conf.proxy_init pod w₂ w' h₂,
            ),
          ),
        )
    | inr other ↦ inl (other, ap (λ (x : Result (PluginError E) Done × W). x.1) (simp other at h))
  ]
    where
      connect_success :
          (d : Done) (w₁ : W)
          → checked cluster_failed (client.connect conf.kubeconfig w) ≡ (ok d, w₁)
          → client.connect conf.kubeconfig w ≡ (none, w₁)
      connect_success done w₁ h = checked_success cluster_failed _ h

  set_up-Ready :
      {Raw R : Type 0} (args : CmdArgs) (conf : PluginConf Raw R) (names : Bytes × Bytes) (d : Done)
      (v w w' : W)
      → v ≡ w
      → set_up run has is_cidr client args conf names w ≡ (ok d, w')
      → Ready args conf names v w'
  set_up-Ready args conf names done v w w' e h = rw e (set_up_success args conf names w w' h)

  module _ {Raw R : Type 0} (unmarshal : Bytes → Option (PluginConf Raw R))
      (result_of : Bytes → Raw → Option R) (load_args : Bytes → Option (Bytes × Bytes))
      (print_result : R → Bytes → W → Option E × W) (empty_result : R) where
    -- A request that succeeds has a configuration and arguments that are read, and ends with the
    -- printing of the previous result, or of an empty one. Before that nothing has been done where
    -- the arguments name no pod, and nothing but reading the pod where that one is not meshed or has
    -- its own init container; for any other pod the options have been made, and IPv4 and then, if it
    -- is asked for, IPv6 have been configured with success.
    pub cmd_add_success :
        (args : CmdArgs) (w w' : W)
        → cmd_add run has is_cidr client unmarshal result_of load_args print_result empty_result
            args w
          ≡ (ok done, w')
        → (conf : PluginConf Raw R) × (names : Bytes × Bytes) × (w₁ : W) × (parse_config unmarshal
              result_of {E = E} args.stdin_data
            ≡ ok conf)
          × (load_args (k8s_args args.args) ≡ some names)
          × Ready args conf names w w₁
          × (print_result (result_to_print empty_result conf.prev_result) conf.cni_version w₁
              ≡ (none, w'))
    unfolding cmd_add
    cmd_add_success args w w' h =
        let (conf, w₁, parsed, h₁) = then_task_success _ _ h in
        let (names, w₂, read, h₂) = then_task_success _ _ h₁ in
        let (named, kept) = loaded_success _ names w₁ w₂ read in
        let (d, w₃, ready, printed) =
          then_task_success (set_up run has is_cidr client args conf names w₂)
            (λ _ w.
              checked print_failed
                (print_result (result_to_print empty_result conf.prev_result) conf.cni_version w))
            h₂ in
        let kept₀ = ap (λ (x : Result (PluginError E) (PluginConf Raw R) × W). x.1) parsed ∙ kept in
        (
          conf,
          names,
          w₃,
          ap (λ (x : Result (PluginError E) (PluginConf Raw R) × W). x.0) parsed,
          named,
          set_up-Ready args conf names d w w₂ w₃ kept₀ ready,
          checked_success print_failed _ printed,
        )
