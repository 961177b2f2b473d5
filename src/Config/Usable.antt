-- ===== src/Config/Usable.antt =====
-- What an upstream of config/models.py that validates guarantees.
use mcp_portal.Base.{
  Option-cases, arith, false, inl, inr, nat_eq, none, ok, option_eq, some, subst, text_eq, true, ℕ,
  ◌&&◌, ◌*◌, ◌<◌, ◌∙◌, ◌≡◌, ◌≢◌,
}
use mcp_portal.Config.{
  GraphQlIntrospectionConfig, OutboundConfig, UpstreamConfig, client_credentials, static,
  token_exchange,
}
use mcp_portal.Config.Validation.{
  budget_positive, default_total_budget, dynamic_modes_need_endpoint_and_client,
  graphql_base_url_matches, graphql_introspection_needs_base_url, graphql_of, is_none,
  missing_dynamic, static_needs_a_value, validate_outbound, validate_upstream,
}

-- An upstream that validated can be called, within a positive total budget, with what its
-- credentials need.
pub record IsUsable (u : UpstreamConfig) : Type 0 where
  pub timeout : 0 < u.timeout_ms
  pub budget : (total : ℕ) × (u.max_total_ms ≡ some total) × (0 < total)
  pub addressed : u.base_url ≡ none → u.introspection ≢ none
  pub graphql_addressed :
      (g : GraphQlIntrospectionConfig)
      → graphql_of u.introspection ≡ some g
      → u.base_url ≡ some g.url
  pub static_value : u.auth.outbound.mode ≡ static → u.auth.outbound.value ≢ none
  pub exchange_client :
      u.auth.outbound.mode ≡ token_exchange
      → (u.auth.outbound.token_endpoint ≢ none)
        × (u.auth.outbound.client_id ≢ none)
        × (u.auth.outbound.client_secret ≢ none)
  pub credentials_client :
      u.auth.outbound.mode ≡ client_credentials
      → (u.auth.outbound.token_endpoint ≢ none)
        × (u.auth.outbound.client_id ≢ none)
        × (u.auth.outbound.client_secret ≢ none)

default_total_budget-budget :
    (u : UpstreamConfig)
    → 0 < u.timeout_ms
    → budget_positive u.max_total_ms ≡ true
    → (total : ℕ) × ((default_total_budget u).max_total_ms ≡ some total) × (0 < total)
unfolding default_total_budget
default_total_budget-budget u t b = elim (Option-cases u.max_total_ms) [
  | inl e ↦ (u.timeout_ms * 3, ground arith, omega arith)
  | inr (total, e) ↦ (total, ground arith, ground arith)
]

budget-same :
    (u : UpstreamConfig)
    → ((default_total_budget u).auth ≡ u.auth)
      × ((default_total_budget u).base_url ≡ u.base_url)
      × ((default_total_budget u).introspection ≡ u.introspection)
      × ((default_total_budget u).timeout_ms ≡ u.timeout_ms)
unfolding default_total_budget
budget-same u = ground arith

-- The tests that a validated upstream has passed.
record Passed (u : UpstreamConfig) : Type 0 where
  outbound : validate_outbound u.auth.outbound ≡ ok tt
  timeout : 0 < u.timeout_ms
  budget : budget_positive u.max_total_ms ≡ true
  addressed : (is_none u.base_url && is_none u.introspection) ≡ false
  graphql_base : graphql_introspection_needs_base_url u ≡ true
  graphql_url : graphql_base_url_matches (graphql_of u.introspection) u.base_url ≡ true

validate_upstream-Passed :
    (u v : UpstreamConfig) → validate_upstream u ≡ ok v → (default_total_budget u ≡ v) × Passed u
unfolding validate_upstream
validate_upstream-Passed u v h = ground arith

outbound_settings :
    (o : OutboundConfig)
    → validate_outbound o ≡ ok tt
    → (o.mode ≡ static → o.value ≢ none)
      × (o.mode ≡ token_exchange
          → (o.token_endpoint ≢ none) × (o.client_id ≢ none) × (o.client_secret ≢ none))
      × (o.mode ≡ client_credentials
          → (o.token_endpoint ≢ none) × (o.client_id ≢ none) × (o.client_secret ≢ none))
unfolding validate_outbound static_needs_a_value dynamic_modes_need_endpoint_and_client
    missing_dynamic
outbound_settings o h = ground arith

graphql_addressed_lem :
    (u : UpstreamConfig)
    → Passed u
    → (g : GraphQlIntrospectionConfig) → graphql_of u.introspection ≡ some g
    → u.base_url ≡ some g.url
unfolding graphql_introspection_needs_base_url graphql_base_url_matches
graphql_addressed_lem u p g e = ground arith

pub validate_upstream-IsUsable : (u v : UpstreamConfig) → validate_upstream u ≡ ok v → IsUsable v
validate_upstream-IsUsable u v h =
    let (same, p) = validate_upstream-Passed u v h in
    let (auth, base, intro, timeout) = budget-same u in
    let (a, b, c) = outbound_settings u.auth.outbound p.outbound in
    subst IsUsable same (record {
      timeout = ground (arith, p.timeout);
      budget = default_total_budget-budget u p.timeout p.budget;
      addressed = λ e n. ground (arith, p.addressed);
      graphql_addressed = λ g e. base ∙ graphql_addressed_lem u p g (ground arith);
      static_value = rw auth a;
      exchange_client = rw auth b;
      credentials_client = rw auth c;
    })
