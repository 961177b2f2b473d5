-- ===== src/Loader/Checked.antt =====
-- The credential's header and the callers' headers, in a config that loads.
use mcp_portal.Base.{
  ==→≡, >>=-eq-ok, All, All-imp, Any, Bool-cases, Dict, List, Text, [], ap, arith, contains, filter,
  inl, inr, insert, map, nat_eq, ok, ok-injective, option_eq, refl, some, subst, sym, text, text_eq,
  true, values, ◌==◌, ◌∷◌, ◌≡◌, ◌≢◌,
}
use mcp_portal.Json.{Json}
use mcp_portal.Operations.{
  HttpBinding, ParamLocation, Parameter, effect_eq, location_eq, sensitivity_eq,
}
use mcp_portal.Platform.{Platform}
use mcp_portal.Config.{
  HttpBindingEntry, McpPortalConfig, OperationEntry, UpstreamConfig, http_entry,
}
use mcp_portal.Explicit.{http_binding}
use mcp_portal.Flatten.{resolve_arg_names}
use mcp_portal.Transports.Http.{
  Credential, Parts, PreparedRequest, build_content, build_request, place_all, with_content_type,
}
use mcp_portal.Loader.Loaded.{load_config-IsLoaded}
use mcp_portal.Loader.{
  Environment, LoadedConfig, Readers, check_header_denylist, credential_headers_for, has_credential,
  is_denylisted, load_config,
}
use mcp_portal.Loader.Denylist.{
  EntryAllowed, check_entries-Allowed, content_type-Named, place_all-Named, resolved-Allowed,
}

Any-All : {A : Type 0} (P : A → Type 0) (a : A) (xs : List A) → All P xs → Any (λ x. x ≡ a) xs → P a
Any-All P a [] h m = absurd m
Any-All P a (x ∷ xs) (p, h) (inl e) = subst P e p
Any-All P a (x ∷ xs) (p, h) (inr m) = Any-All P a xs h m

-- The lower case of the header is among those that the denylist adds.
credential_header-listed :
    (py : Platform) (us : List UpstreamConfig) (u : UpstreamConfig)
    → Any (λ x. x ≡ u) us
    → has_credential py u.auth.outbound.mode ≡ true
    → contains
        (map
          (λ (x : UpstreamConfig). py.lower x.auth.outbound.header)
          (filter (λ (x : UpstreamConfig). has_credential py x.auth.outbound.mode) us))
        (py.lower u.auth.outbound.header)
      ≡ true
credential_header-listed py [] u m h = absurd m
credential_header-listed py (x ∷ us) u (inl e) h = rw e (ground arith)
credential_header-listed py (x ∷ us) u (inr m) h =
    ground (arith, credential_header-listed py us u m h)

denylisted-extra :
    (py : Platform) (name : Text) (extra : List Text)
    → contains extra (py.lower name) ≡ true
    → is_denylisted py name extra ≡ true
unfolding is_denylisted
denylisted-extra py name extra h = ground arith

-- A header parameter of an operation that the denylist passes is none of the credential's.
entry-apart :
    (py : Platform) (config : McpPortalConfig) (op : OperationEntry) (b : HttpBindingEntry)
    (u : UpstreamConfig) (resolved : HttpBinding)
    → check_header_denylist py config ≡ ok tt
    → Any (λ x. x ≡ op) config.operations
    → op.binding ≡ http_entry b
    → resolve_arg_names (http_binding py b) ≡ ok resolved
    → Any (λ x. x ≡ u) (values config.upstreams)
    → has_credential py u.auth.outbound.mode ≡ true
    → All
        (λ (p : Parameter).
          p.location ≡ ParamLocation.header
          → py.lower p.wire_name ≢ py.lower u.auth.outbound.header)
        resolved.parameters
unfolding check_header_denylist credential_headers_for
entry-apart py config op b u resolved checked among bound names known needs =
    let allowed = resolved-Allowed py _ (http_binding py b) resolved names (
      Any-All (EntryAllowed py _) op config.operations
        (check_entries-Allowed py _ config.operations checked) among b bound) in
    All-imp resolved.parameters
      (λ p allow is_header same.
        let listed = denylisted-extra py p.wire_name _ (
          subst (λ n. contains (credential_headers_for py config) n ≡ true) (sym same)
            (credential_header-listed py (values config.upstreams) u known needs)) in
        let passed = allow is_header in cc)
      allowed

-- The other headers have other names.
insert-alone :
    (py : Platform) (name value : Text) (headers : Dict Text Text)
    → All (λ (h : Text × Text). py.lower h.0 ≢ py.lower name) headers
    → All
        (λ (h : Text × Text). py.lower h.0 ≡ py.lower name → h ≡ (name, value))
        (insert name value headers)
insert-alone py name value [] _ = ((λ e. refl), tt)
insert-alone py name value ((k, x) ∷ headers) (apart, rest) = elim (Bool-cases (name == k)) [
  | inl e ↦ absurd (apart (ap py.lower (sym (==→≡ name k e))))
  | inr e ↦ rw e ((λ same. absurd (apart same)), insert-alone py name value headers rest)
]

Any-insert :
    (name value : Text) (headers : Dict Text Text)
    → Any (λ (h : Text × Text). h ≡ (name, value)) (insert name value headers)
Any-insert name value [] = inl refl
Any-insert name value ((k, x) ∷ headers) = elim (Bool-cases (name == k)) [
  | inl e ↦ rw e (inl (ap (λ n. (n, value)) (sym (==→≡ name k e))))
  | inr e ↦ rw e (inr (Any-insert name value headers))
]

-- In a config that loads, no caller's header can pass for the credential's: a request for a
-- configured operation has the credential's header with the credential's value, and every header
-- of it whose name is the credential's up to case is this one, if the credential goes into the
-- header of an upstream that has a credential and that header is not `Content-Type`.
pub build_request-credential_alone :
    (env : Environment) (readers : Readers) (py : Platform) (path base_dir : Text)
    (loaded : LoadedConfig) (op : OperationEntry) (b : HttpBindingEntry) (u : UpstreamConfig)
    (resolved : HttpBinding) (base_url : Text) (arguments : Dict Text Json) (c : Credential)
    (request : PreparedRequest)
    → load_config env readers py path base_dir ≡ ok loaded
    → Any (λ x. x ≡ op) loaded.config.operations
    → op.binding ≡ http_entry b
    → resolve_arg_names (http_binding py b) ≡ ok resolved
    → Any (λ x. x ≡ u) (values loaded.config.upstreams)
    → has_credential py u.auth.outbound.mode ≡ true
    → c.header ≡ u.auth.outbound.header
    → py.lower (text "Content-Type") ≢ py.lower c.header
    → build_request py resolved base_url arguments (some c) ≡ ok request
    → Any (λ (h : Text × Text). h ≡ (c.header, c.value)) request.headers
      × All
          (λ (h : Text × Text). py.lower h.0 ≡ py.lower c.header → h ≡ (c.header, c.value))
          request.headers
unfolding build_request
build_request-credential_alone env readers py path base_dir loaded op b u resolved base_url
      arguments c request loads among bound names known needs same apart h =
    let (raw, _, is_loaded) = load_config-IsLoaded env readers py path base_dir loaded loads in
    let P : Text → Type 0 = λ n. py.lower n ≢ py.lower c.header in
    let start : Parts = record { path = resolved.path; query = []; headers = [] } in
    let (parts, placed, h₁) = >>=-eq-ok (place_all py resolved.parameters arguments start) _ h in
    let (content, _, h₂) = >>=-eq-ok (build_content py resolved.body arguments) _ h₁ in
    let apart_headers =
      All-imp resolved.parameters (λ p ne is_header e. ne is_header (rw same at e))
        (entry-apart py loaded.config op b u resolved is_loaded.checked among bound names known
          needs) in
    let others =
      content_type-Named py P resolved.body parts.headers apart
        (place_all-Named py P resolved.parameters arguments start parts apart_headers tt placed) in
    let headers = with_content_type resolved.body parts.headers in
    rw (sym (ok-injective h₂))
      (Any-insert c.header c.value headers, insert-alone py c.header c.value headers others)
