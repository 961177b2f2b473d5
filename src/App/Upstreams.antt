-- ===== src/App/Upstreams.antt =====
-- The upstreams of the operations that a configured application publishes.
use mcp_portal.Base.{
  >>=-eq-ok, >>_iff, All, Any, Bool-cases, Dict, List, Option, Option-cases, Result-cases, Text, [],
  ap, arith, contains, guard, inl, inr, keys, lookup, nat_eq, not, ok, ok-injective, option_eq,
  some, subst, sym, text_eq, true, ◌∙◌, ◌∷◌, ◌≡◌,
}
use mcp_portal.Operations.{Binding, Operation, effect_eq, location_eq, sensitivity_eq}
use mcp_portal.Platform.{Platform}
use mcp_portal.Classify.{effect_for_method}
use mcp_portal.Config.{
  ClassificationRule, HttpBindingEntry, McpPortalConfig, OperationEntry, SourceMode, configured,
  introspect_safe, introspect_unsafe,
}
use mcp_portal.Registry.{
  ToolSet, apply_mode_posture, apply_rule, build_toolset, classify, classify_one, is_safe, matches,
  select, selected_operations,
}
use mcp_portal.Registry.Selected.{All-filtered, toolset-All}
use mcp_portal.Merge.{merge_operations}
use mcp_portal.Flatten.{Flat, build_input_schema, check_path_template, resolve_arg_names}
use mcp_portal.Explicit.{
  build, build_graphql, build_http, explicit_operations, http_binding, operation_of,
}
use mcp_portal.Explicit.Entries.{BindingEntry-cases}
use mcp_portal.Loader.{Environment, LoadedConfig, Readers, load_config}
use mcp_portal.Loader.Loaded.{load_config-IsLoaded}
use mcp_portal.App.{
  App, Transport, app_principal, app_toolset, build_app, build_transports, executes, explicit_of,
  introspected_operations,
}
use mcp_portal.App.Wiring.{build_app-executes, protocol_of}

module _ (ks : List Text) where
  abbrev Known : Operation → Type 0
  Known op = contains ks op.upstream ≡ true

  classify_one-Known :
      (op : Operation) (rules : List ClassificationRule) → Known op → Known (classify_one op rules)
  unfolding classify_one apply_rule
  classify_one-Known op [] h = h
  classify_one-Known op (rule ∷ rules) h = elim (Bool-cases (matches op rule.match)) [
    | inl e ↦ rw (classify_one, e) (classify_one-Known (apply_rule op rule) rules h)
    | inr e ↦ rw (classify_one, e) (classify_one-Known op rules h)
  ]

  classify-Known :
      (ops : List Operation) (rules : List ClassificationRule)
      → All Known ops
      → All Known (classify ops rules)
  unfolding classify
  classify-Known [] rules a = tt
  classify-Known (op ∷ ops) rules (h, a) =
      (classify_one-Known op rules h, classify-Known ops rules a)

  posture-Known :
      (ops : List Operation) (mode : SourceMode)
      → All Known ops
      → All Known (apply_mode_posture ops mode)
  unfolding apply_mode_posture
  posture-Known ops introspect_safe a = All-filtered Known is_safe ops a
  posture-Known ops introspect_unsafe a = a
  posture-Known ops configured a = a

  selected-Known :
      (ops : List Operation) (config : McpPortalConfig)
      → All Known ops
      → All Known (selected_operations ops config).0
  unfolding selected_operations select
  selected-Known ops config a = All-filtered Known _ _ (
      posture-Known (classify ops config.classification) config.mode
        (classify-Known ops config.classification a))

  build_http-Known :
      (py : Platform) (entry : OperationEntry) (op : Operation) (b : HttpBindingEntry)
      → contains ks entry.upstream ≡ true
      → build_http py entry b ≡ ok (some op)
      → Known op
  unfolding build_http operation_of
  build_http-Known py entry op b known h =
      elim (Result-cases (effect_for_method py (http_binding py b).method)) [
        | inl (x, e) ↦ ground arith
        | inr (effect, e) ↦
            let (_, h₁) =
              (>>_iff (check_path_template (http_binding py b)) _ (some op)).0
                (rw (build_http, e) at h) in
            let (resolved, _, h₂) = >>=-eq-ok (resolve_arg_names (http_binding py b)) _ h₁ in
            let (input_schema, _, h₃) = >>=-eq-ok (build_input_schema (http_binding py b)) _ h₂ in
            let same : operation_of entry effect input_schema (Binding.http resolved) ≡ op = cc in
            subst Known same known
      ]

  build-Known :
      (py : Platform) (entry : OperationEntry) (op : Operation)
      → contains ks entry.upstream ≡ true
      → build py entry ≡ ok (some op)
      → Known op
  unfolding build build_graphql operation_of
  build-Known py entry op known h = elim (BindingEntry-cases entry.binding) [
    | inl (b, e) ↦ build_http-Known py entry op b known (rw (build, e) at h)
    | inr (g, e) ↦ let same = built-same (rw (build, e) at h) in subst Known same known
  ]
    where
      built-same :
          {o : Operation} → ◌≡◌ {A = Flat (Option Operation)} (ok (some o)) (ok (some op)) → o ≡ op
      built-same x = cc

  explicit_operations-Known :
      (py : Platform) (entries : List OperationEntry) (ops : List Operation)
      → All (λ (o : OperationEntry). contains ks o.upstream ≡ true) entries
      → explicit_operations py entries ≡ ok ops
      → All Known ops
  unfolding explicit_operations
  explicit_operations-Known py [] ops known h = subst (All Known) (ok-injective h) tt
  explicit_operations-Known py (entry ∷ entries) ops (k, known) h =
      elim (Result-cases (build py entry)) [
        | inl (problem, e) ↦ ground arith
        | inr (built, e) ↦ elim (Option-cases built) [
          | inl n ↦
              explicit_operations-Known py entries ops known (rw (explicit_operations, e, n) at h)
          | inr (op, o) ↦
              let (rest, h₁, h₂) =
                >>=-eq-ok (explicit_operations py entries) (λ (os : List Operation). ok (op ∷ os))
                  (rw (explicit_operations, e, o) at h) in
              subst (All Known) (ok-injective h₂) (
                build-Known py entry op k (e ∙ ap ok o),
                explicit_operations-Known py entries rest known h₁,
              )
        ]
      ]

  merged-Known :
      (explicit merged : List Operation)
      → merge_operations [] explicit ≡ ok merged
      → All Known explicit
      → All Known merged
  unfolding merge_operations
  merged-Known explicit merged h a =
      let (_, same) = (>>_iff (guard _ _) _ merged).0 h in
      subst (All Known) (ok-injective same)
        (All-filtered Known (λ (op : Operation). not (contains [] op.id)) explicit a)

All-Any :
    (P : Operation → Type 0) (op : Operation) (ops : List Operation)
    → All P ops
    → Any (λ o. o ≡ op) ops
    → P op
All-Any P op [] a m = absurd m
All-Any P op (o ∷ ops) (p, a) (inl e) = subst P e p
All-Any P op (o ∷ ops) (p, a) (inr m) = All-Any P op ops a m

module _ (py : Platform)
    (introspect : McpPortalConfig → Option (List Operation × Dict Text Text)) where
  nothing_introspected :
      (config : McpPortalConfig) (found : List Operation × Dict Text Text)
      → config.mode ≡ configured
      → introspected_operations py introspect config ≡ ok found
      → found.0 ≡ []
  unfolding introspected_operations
  nothing_introspected config found mode h =
      ap (λ (f : List Operation × Dict Text Text). f.0)
        (sym (ok-injective (rw (introspected_operations, mode) at h)))

  app_toolset-Known :
      (ks : List Text) (explicit : List Operation) (config : McpPortalConfig) (ts : ToolSet)
      → All (Known ks) explicit
      → app_toolset py introspect [] explicit config ≡ ok ts
      → All (Known ks) ts.operations
  unfolding app_toolset
  app_toolset-Known ks explicit config ts a h = elim (Result-cases (merge_operations [] explicit)) [
    | inl (x, e) ↦ ground arith
    | inr (merged, e) ↦ elim (Result-cases (build_toolset py merged config)) [
      | inl (x, f) ↦ ground arith
      | inr (toolset, f) ↦
          toolset-All (Known ks) (λ op n k. k) py merged config ts
            (f ∙ ap ok (ok-injective (rw (app_toolset, e, f) at h)))
            (selected-Known ks merged config (merged-Known ks explicit merged e a))
    ]
  ]

  explicit_of-Known :
      (ks : List Text) (config : McpPortalConfig) (explicit : List Operation)
      → All (λ (o : OperationEntry). contains ks o.upstream ≡ true) config.operations
      → explicit_of py introspect config ≡ ok explicit
      → All (Known ks) explicit
  unfolding explicit_of
  explicit_of-Known ks config explicit known h =
      elim (Result-cases (explicit_operations py config.operations)) [
        | inl (x, e) ↦ ground arith
        | inr (ops, e) ↦
            explicit_operations-Known ks py config.operations explicit known
              (e ∙ ap ok (ok-injective (rw (explicit_of, e) at h)))
      ]

  -- When a config without introspection loads and its application is built, each operation that is
  -- published is called over its own protocol: its upstream has a transport, and the transport's
  -- assertion holds.
  pub build_app-serves :
      (env : Environment) (readers : Readers) (path base_dir : Text) (loaded : LoadedConfig)
      (app : App) (op : Operation)
      → load_config env readers py path base_dir ≡ ok loaded
      → loaded.config.mode ≡ configured
      → build_app py introspect loaded ≡ ok app
      → Any (λ o. o ≡ op) app.toolset.operations
      → (t : Transport) × (lookup op.upstream app.transports ≡ some t)
        × (executes t op.binding ≡ some (protocol_of op.binding))
  unfolding build_app
  build_app-serves env readers path base_dir loaded app op loads mode built member =
      let ks = keys loaded.config.upstreams in
      let (_, _, is_loaded) = load_config-IsLoaded env readers py path base_dir loaded loads in
      let (found, introspected, h₁) =
        >>=-eq-ok (introspected_operations py introspect loaded.config) _ built in
      let (explicit, made, h₂) = >>=-eq-ok (explicit_of py introspect loaded.config) _ h₁ in
      let (toolset, published, h₃) =
        >>=-eq-ok (app_toolset py introspect found.0 explicit loaded.config) _ h₂ in
      let (principal, _, h₄) = >>=-eq-ok (app_principal loaded.config) _ h₃ in
      let (transports, _, h₅) =
        >>=-eq-ok
          (build_transports loaded.secrets found.1 toolset.operations loaded.config.upstreams) _
          h₄ in
      let same : toolset ≡ app.toolset = ap (λ (a : App). a.toolset) (ok-injective h₅) in
      let none_found = nothing_introspected loaded.config found mode introspected in
      let known =
        app_toolset-Known ks explicit loaded.config toolset
          (explicit_of-Known ks loaded.config explicit is_loaded.sound.known made)
          (subst (λ ops. app_toolset py introspect ops explicit loaded.config ≡ ok toolset)
            none_found published) in
      build_app-executes py introspect loaded app op built member (
        All-Any (Known ks) op app.toolset.operations
          (subst (λ (ts : ToolSet). All (Known ks) ts.operations) same known) member)
