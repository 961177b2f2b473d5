-- ===== src/Loader.antt =====
-- config/loader.py: secrets, the denylist of headers and the loading of a config. Paths are texts.
pub mod Secrets
pub mod Denylist
pub mod Loaded
pub mod Checked
use mcp_portal.Base.{
  Bool, Dict, List, Option, Result, Text, [], any, contains, drop, err, false, filter, guard,
  if◌then◌else◌, insert, is_empty, length, map, nat_eq, none, not, ok, option_eq, some, starts_with,
  text, text_eq, true, values, without_last, ◌&&◌, ◌++◌, ◌==◌, ◌>>=◌, ◌>>◌, ◌||◌, ◌∷◌,
}
use mcp_portal.Json.{Fields, Items, Json, arr, bool, cons, nil, null, num, obj, str}
use mcp_portal.Operations.{
  Binding, Operation, ParamLocation, Parameter, effect_eq, graphql, location_eq, sensitivity_eq,
}
use mcp_portal.Platform.{Platform}
use mcp_portal.PolicyConfig
use mcp_portal.PolicyConfig.{PolicyConfig, PolicyError, validate}
use mcp_portal.Config.{
  McpPortalConfig, OperationEntry, OutboundMode, ParameterEntry, PolicyFileConfig, UpstreamConfig,
  graphql_entry, http_entry, no_credential,
}
use mcp_portal.Config.Validation
use mcp_portal.Config.Validation.{ConfigError, validate_config}
use mcp_portal.Explicit.{text_or}

pub data LoadError : Type 0 where
  not_a_reference : Text → LoadError
  unset_variable : Text → LoadError
  unreadable_secret : Text → LoadError
  denied_header : Text → Text → LoadError
  unreadable : Text → LoadError
  malformed : Text → LoadError
  invalid_config : Validation.ConfigError → LoadError
  invalid_policy : PolicyError → LoadError

abbrev pub Loads : Type 0 → Type 0
Loads A = Result LoadError A

abbrev pub denylisted_headers : List Text
denylisted_headers =
    text "authorization"
    ∷ text "proxy-authorization"
    ∷ text "host"
    ∷ text "cookie"
    ∷ text "set-cookie"
    ∷ text "content-length"
    ∷ text "transfer-encoding"
    ∷ text "connection"
    ∷ text "upgrade"
    ∷ text "te"
    ∷ text "trailer"
    ∷ text "expect"
    ∷ []

abbrev pub denylisted_prefixes : List Text
denylisted_prefixes = text "proxy-" ∷ text "x-forwarded-" ∷ []

-- What `_SECRET_RE` matches: `${env:VAR}` or `${file:path}`.
pub data SecretRef : Type 0 where
  env_ref : Text → SecretRef
  file_ref : Text → SecretRef

-- What stands between the prefix and a closing brace, with no brace in it.
unfoldable pub target_of : Text → Text → Option Text
target_of prefix ref =
    if starts_with ref prefix
    then elim (without_last b'}' (drop (length prefix) ref)) [
      | none ↦ none
      | some target ↦ if is_empty target || contains target b'}' then none else some target
    ]
    else none

unfoldable pub secret_ref : Text → Option SecretRef
secret_ref ref = elim (target_of (text "$" ++ text "{env:") ref) [
  | some name ↦ some (env_ref name)
  | none ↦ elim (target_of (text "$" ++ text "{file:") ref) [
    | some target ↦ some (file_ref target)
    | none ↦ none
  ]
]

-- `os.environ.get`, and `read_text` of a path; `none` where it raises an `OSError`.
pub record Environment : Type 0 where
  pub getenv : Text → Option Text
  pub read_text : Text → Option Text

-- `path if path.is_absolute() else base_dir / path`
unfoldable pub resolved_path : Text → Text → Text
resolved_path base_dir target =
    if starts_with target (text "/") then target else base_dir ++ (b'/' ∷ target)

-- `text[:-1] if text.endswith("\n") else text`
unfoldable pub without_newline : Text → Text
without_newline t = elim (without_last 10 t) [ none ↦ t | some rest ↦ rest ]

module _ (env : Environment) (base_dir : Text) where
  unfoldable pub resolve_ref : SecretRef → Loads Text
  resolve_ref (env_ref name) = elim (env.getenv name) [
    | none ↦ err (unset_variable name)
    | some value ↦ ok value
  ]
  resolve_ref (file_ref target) = elim (env.read_text (resolved_path base_dir target)) [
    | none ↦ err (unreadable_secret target)
    | some content ↦ ok (without_newline content)
  ]

  unfoldable pub resolve_secret : Text → Loads Text
  resolve_secret ref = elim (secret_ref ref) [
    | none ↦ err (not_a_reference ref)
    | some r ↦ resolve_ref r
  ]

  unfoldable pub collect_text : Text → Dict Text Text → Loads (Dict Text Text)
  collect_text s out = elim (secret_ref s) [
    | none ↦ ok out
    | some r ↦ resolve_secret s >>= λ value. ok (insert s value out)
  ]

  -- `_collect_secrets`; keys are not looked at.
  unfoldable mutual
    pub collect_secrets : Json → Dict Text Text → Loads (Dict Text Text)
    collect_secrets (str s) out = collect_text s out
    collect_secrets (obj fs) out = collect_fields fs out
    collect_secrets (arr xs) out = collect_items xs out
    collect_secrets null out = ok out
    collect_secrets (bool b) out = ok out
    collect_secrets (num n) out = ok out

    pub collect_items : Items → Dict Text Text → Loads (Dict Text Text)
    collect_items nil out = ok out
    collect_items (cons j r) out = collect_secrets j out >>= collect_items r

    pub collect_fields : Fields → Dict Text Text → Loads (Dict Text Text)
    collect_fields Fields.end out = ok out
    collect_fields (Fields.field k j r) out = collect_secrets j out >>= collect_fields r

module _ (py : Platform) where
  unfoldable pub is_denylisted : Text → List Text → Bool
  is_denylisted name extra =
      let lowered = py.lower name in
      contains denylisted_headers lowered
      || (contains extra lowered || any (λ p. starts_with lowered p) denylisted_prefixes)

  abbrev pub has_credential : OutboundMode → Bool
  has_credential no_credential = false
  has_credential _ = true

  unfoldable pub credential_headers_for : McpPortalConfig → List Text
  credential_headers_for config =
      map (λ (u : UpstreamConfig). py.lower u.auth.outbound.header)
        (filter (λ (u : UpstreamConfig). has_credential u.auth.outbound.mode)
          (values config.upstreams))

  unfoldable pub check_parameter : Text → List Text → ParameterEntry → Loads (Unit {0})
  check_parameter op_id extra p =
      let name = text_or p.wire_name p.arg in
      guard (not (p.location == ParamLocation.header && is_denylisted name extra))
        (denied_header op_id name)

  unfoldable pub check_parameters : Text → List Text → List ParameterEntry → Loads (Unit {0})
  check_parameters op_id extra [] = ok tt
  check_parameters op_id extra (p ∷ ps) =
      check_parameter op_id extra p >> check_parameters op_id extra ps

  unfoldable pub check_entry : List Text → OperationEntry → Loads (Unit {0})
  check_entry extra op = elim op.binding [
    | http_entry b ↦ check_parameters op.id extra b.parameters
    | graphql_entry b ↦ ok tt
  ]

  unfoldable pub check_entries : List Text → List OperationEntry → Loads (Unit {0})
  check_entries extra [] = ok tt
  check_entries extra (op ∷ ops) = check_entry extra op >> check_entries extra ops

  unfoldable pub check_header_denylist : McpPortalConfig → Loads (Unit {0})
  check_header_denylist config = check_entries (credential_headers_for config) config.operations

  -- The same check of operations, from whichever source.
  unfoldable pub check_operation_parameters : Text → List Text → List Parameter → Loads (Unit {0})
  check_operation_parameters op_id extra [] = ok tt
  check_operation_parameters op_id extra (p ∷ ps) =
      guard (not (p.location == ParamLocation.header && is_denylisted p.wire_name extra))
        (denied_header op_id p.wire_name)
      >> check_operation_parameters op_id extra ps

  unfoldable pub check_operation_headers : List Operation → List Text → Loads (Unit {0})
  check_operation_headers [] extra = ok tt
  check_operation_headers (op ∷ ops) extra =
      (elim op.binding [
        | Binding.http b ↦ check_operation_parameters op.id extra b.parameters
        | Binding.graphql b ↦ ok tt
      ])
      >> check_operation_headers ops extra

pub record LoadedConfig : Type 0 where
  pub config : McpPortalConfig
  pub base_dir : Text
  pub secrets : Dict Text Text
  pub policy : Option PolicyConfig

-- What the readers of files make of a text: `json.loads` or the YAML loader by the path's suffix,
-- and pydantic's reading of the values into the records, before the validators.
pub record Readers : Type 0 where
  pub parse : Text → Text → Option Json
  pub read_config : Json → Option McpPortalConfig
  pub read_policy : Json → Option PolicyConfig

module _ (env : Environment) (readers : Readers) where
  unfoldable pub read_file : Text → Loads Json
  read_file path_text = elim (env.read_text path_text) [
    | none ↦ err (unreadable path_text)
    | some content ↦ elim (readers.parse path_text content) [
      | none ↦ err (malformed path_text)
      | some raw ↦ ok raw
    ]
  ]

  unfoldable pub load_policy_file : Text → Text → Loads PolicyConfig
  load_policy_file file base_dir = read_file (resolved_path base_dir file) >>= λ raw.
      elim (readers.read_policy raw) [
        | none ↦ err (malformed file)
        | some p ↦ elim (PolicyConfig.validate p) [ err e ↦ err (invalid_policy e) | ok q ↦ ok q ]
      ]

  unfoldable pub load_policy : Option PolicyFileConfig → Text → Loads (Option PolicyConfig)
  load_policy none base_dir = ok none
  load_policy (some p) base_dir = load_policy_file p.file base_dir >>= λ policy. ok (some policy)

  unfoldable pub read_valid : Text → Json → Loads McpPortalConfig
  read_valid path_text raw = elim (readers.read_config raw) [
    | none ↦ err (malformed path_text)
    | some c ↦ elim (validate_config c) [ err e ↦ err (invalid_config e) | ok d ↦ ok d ]
  ]

  -- `base_dir` is `path.parent`.
  unfoldable pub load_config : Platform → Text → Text → Loads LoadedConfig
  load_config py path_text base_dir = do
    raw ← read_file path_text
    config ← read_valid path_text raw
    check_header_denylist py config
    secrets ← collect_secrets env base_dir raw []
    policy ← load_policy config.policy base_dir
    ok (record { config = config; base_dir = base_dir; secrets = secrets; policy = policy })
