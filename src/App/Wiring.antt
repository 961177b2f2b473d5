-- ===== src/App/Wiring.antt =====
-- Which transport an operation reaches.
use mcp_portal.Base.{
  ==→≡, >>=-eq-ok, Any, Bool, Bool-cases, Dict, List, Option, Text, [], any, ap, arith, contains,
  eq_self, false, inl, inr, keys, lookup, nat_eq, ok, ok-injective, option_eq, refl, some, subst,
  sym, text_eq, true, ◌==◌, ◌∙◌, ◌∷◌, ◌≡◌,
}
use mcp_portal.Operations.{Binding, Operation, effect_eq, location_eq, sensitivity_eq}
use mcp_portal.Platform.{Platform}
use mcp_portal.Config.{McpPortalConfig, UpstreamConfig}
use mcp_portal.Loader.{LoadedConfig}
use mcp_portal.App.{
  Adapter, App, Protocol, Transport, app_principal, app_toolset, asserted, build_app,
  build_transport, build_transports, executes, explicit_of, graphql_protocol, has_graphql, has_http,
  http_protocol, introspected_operations, is_http_binding, source_for, transport_for,
}

abbrev pub protocol_of : Binding → Protocol
protocol_of (Binding.http b) = http_protocol
protocol_of (Binding.graphql b) = graphql_protocol

any-member :
    (p : Operation → Bool) (op : Operation) (ops : List Operation)
    → Any (λ o. o ≡ op) ops
    → p op ≡ true
    → any p ops ≡ true
any-member p op [] m h = absurd m
any-member p op (o ∷ ops) (inl e) h = let here : p o ≡ true = ap p e ∙ h in ground arith
any-member p op (o ∷ ops) (inr m) h = ground (arith, any-member p op ops m h)

executes-transport_for :
    (key : Text) (ops : List Operation) (a : Adapter) (b : Binding)
    → (is_http_binding b ≡ true → has_http key ops ≡ true)
    → (is_http_binding b ≡ false → has_graphql key ops ≡ true)
    → executes (transport_for key ops a) b ≡ some (protocol_of b)
unfolding executes transport_for
executes-transport_for key ops a (Binding.http b) h g = ground (arith, h refl)
executes-transport_for key ops a (Binding.graphql b) h g = ground (arith, g refl)

module _ (secrets : Dict Text Text) (base_urls : Dict Text Text) (ops : List Operation) where
  lookup-build_transports :
      (upstreams : Dict Text UpstreamConfig) (transports : Dict Text Transport) (key : Text)
      → build_transports secrets base_urls ops upstreams ≡ ok transports
      → contains (keys upstreams) key ≡ true
      → (a : Adapter) × (lookup key transports ≡ some (transport_for key ops a))
  unfolding build_transports build_transport
  lookup-build_transports [] transports key h known = cc
  lookup-build_transports ((k, u) ∷ upstreams) transports key h known =
      let (t, built, h₁) = >>=-eq-ok (build_transport secrets base_urls ops k u) _ h in
      let (rest, others, h₂) = >>=-eq-ok (build_transports secrets base_urls ops upstreams) _ h₁ in
      let (source, _, b₁) = >>=-eq-ok (source_for k u.auth.outbound secrets) _ built in
      let (base_url, _, b₂) = >>=-eq-ok (asserted (lookup k base_urls)) _ b₁ in
      let adapter : Adapter = record {
        upstream = record u { base_url = some base_url };
        credential_source = source;
      } in
      let made : transport_for k ops adapter ≡ t = ok-injective b₂ in
      subst (λ ts. (a : Adapter) × (lookup key ts ≡ some (transport_for key ops a)))
        (ok-injective h₂)
        (elim (Bool-cases (key == k)) [
          | inl e ↦ (
            adapter,
            rw e (ap some (sym made ∙ ap (λ j. transport_for j ops adapter) (sym (==→≡ key k e)))),
          )
          | inr e ↦
              let (a, found) = lookup-build_transports upstreams rest key others (rw e at known) in
              (a, rw e found)
        ])

-- In an application that is built, a published operation whose upstream the config has is called
-- over its own protocol: its upstream has a transport, and the transport's assertion holds.
pub build_app-executes :
    (py : Platform) (introspect : McpPortalConfig → Option (List Operation × Dict Text Text))
    (loaded : LoadedConfig) (app : App) (op : Operation)
    → build_app py introspect loaded ≡ ok app
    → Any (λ o. o ≡ op) app.toolset.operations
    → contains (keys loaded.config.upstreams) op.upstream ≡ true
    → (t : Transport) × (lookup op.upstream app.transports ≡ some t)
      × (executes t op.binding ≡ some (protocol_of op.binding))
unfolding build_app has_http has_graphql
build_app-executes py introspect loaded app op h member known =
    let (found, _, h₁) = >>=-eq-ok (introspected_operations py introspect loaded.config) _ h in
    let (explicit, _, h₂) = >>=-eq-ok (explicit_of py introspect loaded.config) _ h₁ in
    let (toolset, _, h₃) =
      >>=-eq-ok (app_toolset py introspect found.0 explicit loaded.config) _ h₂ in
    let (principal, _, h₄) = >>=-eq-ok (app_principal loaded.config) _ h₃ in
    let (transports, built, h₅) =
      >>=-eq-ok (build_transports loaded.secrets found.1 toolset.operations loaded.config.upstreams)
        _ h₄ in
    let same = ok-injective h₅ in
    let ops_same : toolset.operations ≡ app.toolset.operations =
      ap (λ (a : App). a.toolset.operations) same in
    let transports_same : transports ≡ app.transports = ap (λ (a : App). a.transports) same in
    let published : Any (λ o. o ≡ op) toolset.operations =
      subst (Any (λ (o : Operation). o ≡ op)) (sym ops_same) member in
    let (a, at) =
      lookup-build_transports loaded.secrets found.1 toolset.operations loaded.config.upstreams
        transports op.upstream built known in
    (
      transport_for op.upstream toolset.operations a,
      subst (λ ts. lookup op.upstream ts ≡ some (transport_for op.upstream toolset.operations a))
          transports_same at,
      executes-transport_for op.upstream toolset.operations a op.binding
          (λ is_http.
            any-member _ op toolset.operations published
              (rw (eq_self op.upstream) (rw is_http refl)))
          (λ not_http.
            any-member _ op toolset.operations published
              (rw (eq_self op.upstream) (rw not_http refl))),
    )
