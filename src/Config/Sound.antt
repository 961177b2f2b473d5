-- ===== src/Config/Sound.antt =====
-- What a config that validates guarantees.
use mcp_portal.Base.{
  >>=-eq-ok, >>_iff, All, Bool, Dict, List, Text, [], arith, contains, false, filter, inl, inr,
  is_empty, keys, map, nat_eq, none, not, ok, ok-injective, option_eq, subst, text, text_eq, true,
  ◌&&◌, ◌||◌, ◌∷◌, ◌≡◌, ◌≢◌, ◌⊎◌,
}
use mcp_portal.Config.Validation
use mcp_portal.Config.{
  InboundAuthConfig, McpPortalConfig, OperationEntry, ServerTransport, UpstreamConfig, configured,
  http_transport, introspect_unsafe, token_exchange,
}
use mcp_portal.Config.Validation.{
  check_config, exchanging, is_http, loopback_hosts, unauthenticated_http_is_guarded,
  unknown_upstreams_of, unresolvable, validate_config, validate_inbound, validate_upstream,
  validate_upstreams, without_base_url,
}
use mcp_portal.Config.Usable.{IsUsable, validate_upstream-IsUsable}

validate_upstreams-IsUsable :
    (us vs : Dict Text UpstreamConfig)
    → validate_upstreams us ≡ ok vs
    → All (λ (_, u). IsUsable u) vs
unfolding validate_upstreams
validate_upstreams-IsUsable [] vs h = rw (← ok-injective h) tt
validate_upstreams-IsUsable ((key, u) ∷ us) vs h =
    let (v, hv, h₁) = >>=-eq-ok (validate_upstream u) _ h in
    let (ws, hws, h₂) = >>=-eq-ok (validate_upstreams us) _ h₁ in
    rw (← ok-injective h₂)
      (validate_upstream-IsUsable u v hv, validate_upstreams-IsUsable us ws hws)

-- What a validated config promises, beyond each of its upstreams.
pub record IsSound (c : McpPortalConfig) : Type 0 where
  pub upstreams : All (λ (_, u). IsUsable u) c.upstreams
  -- Every operation is called at an upstream that the config has.
  pub known :
      All (λ (o : OperationEntry). contains (keys c.upstreams) o.upstream ≡ true) c.operations
  pub acknowledged : c.mode ≡ introspect_unsafe → c.acknowledge_unsafe ≡ true
  pub base_urls : c.mode ≡ configured → All (λ (_, u). u.base_url ≢ none) c.upstreams
  -- An HTTP endpoint that others can reach asks for a token, unless the operator waived it.
  pub guarded :
      c.server.transport ≡ http_transport
      → c.auth.inbound.enabled ≡ false
      → contains loopback_hosts c.server.http.host ≡ false
      → c.auth.inbound.allow_unauthenticated_http ≡ true
  -- Where a token is exchanged, there is an inbound token.
  pub exchange :
      All
        (λ (_, u).
          u.auth.outbound.mode ≡ token_exchange
          → (c.server.transport ≡ http_transport) × (c.auth.inbound.enabled ≡ true))
        c.upstreams
  pub issuer :
      c.auth.inbound.enabled ≡ true
      → (c.auth.inbound.issuer ≢ none) × (c.auth.inbound.audience ≢ none)
  pub no_none_algorithm : contains c.auth.inbound.algorithms (text "none") ≡ false

known_upstreams :
    (ks : List Text) (os : List OperationEntry)
    → is_empty (filter (λ key. not (contains ks key)) (map (λ (o : OperationEntry). o.upstream) os))
      ≡ true
    → All (λ (o : OperationEntry). contains ks o.upstream ≡ true) os
known_upstreams ks [] h = tt
known_upstreams ks (o ∷ os) h = ground (arith, known_upstreams ks os)

All-base_urls :
    (us : Dict Text UpstreamConfig)
    → is_empty (without_base_url us) ≡ true
    → All (λ (_, u). u.base_url ≢ none) us
unfolding without_base_url
All-base_urls [] h = tt
All-base_urls ((key, u) ∷ us) h = ground (arith, All-base_urls us)

module _ (P : Type 0) where
  exchanges :
      (us : Dict Text UpstreamConfig)
      → (is_empty (exchanging us) ≡ true) ⊎ P
      → All (λ (_, u). u.auth.outbound.mode ≡ token_exchange → P) us
  unfolding exchanging
  exchanges [] h = tt
  exchanges ((key, u) ∷ us) (inr p) = (λ e. p, exchanges us (inr p))
  exchanges ((key, u) ∷ us) (inl h) = (λ e. ground arith, exchanges us (inl (ground arith)))

-- The tests that a validated config has passed.
record Checked (c : McpPortalConfig) : Type 0 where
  known : is_empty (unknown_upstreams_of c) ≡ true
  acknowledged : Validation.acknowledged c.mode c.acknowledge_unsafe ≡ true
  base_urls : is_empty (unresolvable c.mode c.upstreams) ≡ true
  guarded : unauthenticated_http_is_guarded c ≡ true
  exchange :
      (is_empty (exchanging c.upstreams) || (is_http c.server.transport && c.auth.inbound.enabled))
      ≡ true

check_config-Checked : (c : McpPortalConfig) → check_config c ≡ ok tt → Checked c
unfolding check_config
check_config-Checked c h = ground arith

inbound_settings :
    (a : InboundAuthConfig)
    → validate_inbound a ≡ ok tt
    → (a.enabled ≡ true → (a.issuer ≢ none) × (a.audience ≢ none))
      × (contains a.algorithms (text "none") ≡ false)
unfolding validate_inbound
inbound_settings a h = ground arith

exchange_or_none :
    (e a : Bool) (tr : ServerTransport)
    → (e || (is_http tr && a)) ≡ true
    → (e ≡ true) ⊎ ((tr ≡ http_transport) × (a ≡ true))
exchange_or_none e a tr h = ground arith

Checked-IsSound :
    (c : McpPortalConfig)
    → All (λ (_, u). IsUsable u) c.upstreams
    → validate_inbound c.auth.inbound ≡ ok tt
    → Checked c
    → IsSound c
unfolding unknown_upstreams_of unresolvable unauthenticated_http_is_guarded
Checked-IsSound c usable inbound k =
    let (issuer, algorithms) = inbound_settings c.auth.inbound inbound in
    record {
      upstreams = usable;
      known = known_upstreams (keys c.upstreams) c.operations k.known;
      acknowledged = λ e. ground (arith, k.acknowledged);
      base_urls = λ e. All-base_urls c.upstreams (rw e at k.base_urls);
      guarded = λ t a l. ground (arith, k.guarded);
      exchange = exchanges _ c.upstreams (
          exchange_or_none (is_empty (exchanging c.upstreams)) c.auth.inbound.enabled
            c.server.transport k.exchange);
      issuer = issuer;
      no_none_algorithm = algorithms;
    }

-- Every config that `validate_config` returns is sound: it guards an HTTP endpoint, exchanges
-- only tokens that it can have, never admits the algorithm "none", calls only upstreams that it
-- has, and each upstream is usable.
pub validate_config-IsSound : (c d : McpPortalConfig) → validate_config c ≡ ok d → IsSound d
unfolding validate_config
validate_config-IsSound c d h =
    let (us, validated, h₁) = >>=-eq-ok (validate_upstreams c.upstreams) _ h in
    let (inbound, h₂) = (>>_iff (validate_inbound c.auth.inbound) _ d).0 h₁ in
    let v : McpPortalConfig = record c { upstreams = us } in
    let (checked, h₃) = (>>_iff (check_config v) _ d).0 h₂ in
    subst IsSound (ok-injective h₃) (
      Checked-IsSound v (validate_upstreams-IsUsable c.upstreams us validated) inbound
        (check_config-Checked v checked))
