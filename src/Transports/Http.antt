-- ===== src/Transports/Http.antt =====
-- transports/http.py: the request of an HTTP binding, and the call that sends it.
pub mod Headers
pub mod PathSafety
use mcp_portal.Base.{
  Bool, Dict, List, Option, Result, Text, [], contains, err, false, filter, guard, if◌then◌else◌,
  insert, is_empty, join, keys, length, lookup, map, nat_eq, none, not, ok, option_eq, some, text,
  text_eq, true, values, ℕ, ◌&&◌, ◌++◌, ◌==◌, ◌>>=◌, ◌>>◌, ◌||◌, ◌∷◌,
}
use mcp_portal.Json.{Fields, Items, Json, arr, bool, cons, fields, items, nil, obj, str}
use mcp_portal.Operations.{
  BodyMode, BodySpec, Effect, HttpBinding, ParamLocation, Parameter, effect_eq, location_eq,
  sensitivity_eq, single_arg,
}
use mcp_portal.Platform.{Platform}
use mcp_portal.Config.{UpstreamConfig}
use mcp_portal.Transports.Quote.{quote, urlencode}
use mcp_portal.Transports.Replace.{replace}
use mcp_portal.Transports.Common.{BodyTexts, map_body}
use mcp_portal.Transports.Retry.{Outcome, Response, World, returned, run_attempts, timed_out}

pub data RequestBuildError : Type 0 where
  empty_path_value : Text → RequestBuildError
  header_injection : Text → RequestBuildError
  missing_required : Text → RequestBuildError

pub record Credential : Type 0 where
  pub header : Text
  pub value : Text

pub record PreparedRequest : Type 0 where
  pub method : Text
  pub url : Text
  pub headers : Dict Text Text
  pub content : Option Text

abbrev pub Built : Type 0 → Type 0
Built A = Result RequestBuildError A

-- `text.lstrip("/")`, `text.rstrip("/")`
unfoldable pub lstrip_slash : Text → Text
lstrip_slash [] = []
lstrip_slash (c ∷ s) = let rest = lstrip_slash s in if c == b'/' then rest else c ∷ s

unfoldable pub rstrip_slash : Text → Text
rstrip_slash [] = []
rstrip_slash (c ∷ s) =
    let rest = rstrip_slash s in if c == b'/' && is_empty rest then [] else c ∷ rest

unfoldable pub join_url : Text → Text → Text
join_url base_url path = rstrip_slash base_url ++ (b'/' ∷ lstrip_slash path)

-- `schema.get("type") == "object"`
unfoldable pub is_object_type : Option Json → Bool
is_object_type (some (str t)) = t == text "object"
is_object_type _ = false

-- The properties that a schema declares, and the names that it requires.
unfoldable pub property_names : Option Json → List Text
property_names (some (obj fs)) = keys (fields fs)
property_names _ = []

unfoldable pub text_items : Items → List Text
text_items nil = []
text_items (cons (str s) r) = s ∷ text_items r
text_items (cons _ r) = text_items r

-- The names of a list of texts. A `required` that is no such list is read by its texts alone, where
-- the loop would raise or run over the characters of a text.
unfoldable pub required_names : Option Json → List Text
required_names (some (arr xs)) = text_items xs
required_names _ = []

unfoldable pub object_of : Dict Text Json → Fields
object_of [] = Fields.end
object_of ((k, v) ∷ d) = Fields.field k v (object_of d)

abbrev pub is_single_arg : BodyMode → Bool
is_single_arg single_arg = true
is_single_arg BodyMode.flatten = false

-- The body goes whole under the argument `body`.
unfoldable pub is_whole : BodySpec → Bool
is_whole body = is_single_arg body.mode || not (is_object_type (lookup (text "type") body.schema))

-- What the loop over the parameters builds up.
pub record Parts : Type 0 where
  pub path : Text
  pub query : List (Text × Text)
  pub headers : Dict Text Text

abbrev pub placeholder : Text → Text
placeholder wire_name = b'{' ∷ (wire_name ++ (b'}' ∷ []))

abbrev pub with_content_type : Option BodySpec → Dict Text Text → Dict Text Text
with_content_type none headers = headers
with_content_type (some body) headers = insert (text "Content-Type") body.content_type headers

abbrev pub with_credential : Option Credential → Dict Text Text → Dict Text Text
with_credential none headers = headers
with_credential (some c) headers = insert c.header c.value headers

unfoldable pub with_query : List (Text × Text) → Text → Text
with_query query url = if is_empty query then url else url ++ (b'?' ∷ urlencode query)

pub record HttpResponse : Type 0 where
  pub status : ℕ
  pub body_text : Text
  pub truncated : Bool
  pub original_bytes : ℕ

unfoldable pub map_response : BodyTexts → ℕ → Response → HttpResponse
map_response texts max_response_bytes r =
    let (shown, cut) =
      map_body texts r.content r.content_type max_response_bytes (some r.text_value) in
    record {
      status = r.status_code;
      body_text = shown;
      truncated = cut;
      original_bytes = length r.content;
    }

pub data CallError : Type 0 where
  build_error : RequestBuildError → CallError
  timeout_error : CallError

abbrev pub finish : BodyTexts → ℕ → Outcome → Result CallError HttpResponse
finish texts cap (returned r) = ok (map_response texts cap r)
finish texts cap timed_out = err timeout_error

module _ (py : Platform) where
  unfoldable pub encode_path_value : Text → Json → Built Text
  encode_path_value arg value = do
    guard (not (is_empty (py.str_value value))) (empty_path_value arg)
    ok (quote (py.str_value value))

  unfoldable pub query_pairs : Text → Json → Bool → List (Text × Text)
  query_pairs arg (arr xs) explode =
      let values = map py.str_value (items xs) in
      if explode then map (λ v. (arg, v)) values else (arg, join (text ",") values) ∷ []
  query_pairs arg (bool b) explode = (arg, (if b then text "true" else text "false")) ∷ []
  query_pairs arg value explode = (arg, py.str_value value) ∷ []

  unfoldable pub check_header_value : Text → Text → Built Text
  check_header_value name value = do
    guard (not (contains value 13 || contains value 10)) (header_injection name)
    ok value

  unfoldable pub place : ParamLocation → Parameter → Json → Parts → Built Parts
  place ParamLocation.path p value parts = do
    encoded ← encode_path_value p.arg value
    ok (record parts { path = replace (placeholder p.wire_name) encoded parts.path })
  place ParamLocation.query p value parts =
      ok (record parts { query = parts.query ++ query_pairs p.wire_name value p.explode })
  place ParamLocation.header p value parts = do
    checked ← check_header_value p.wire_name (py.str_value value)
    ok (record parts { headers = insert p.wire_name checked parts.headers })

  unfoldable pub place_all : List Parameter → Dict Text Json → Parts → Built Parts
  place_all [] arguments parts = ok parts
  place_all (p ∷ ps) arguments parts = elim (lookup p.arg arguments) [
    | none ↦ if p.required then err (missing_required p.arg) else place_all ps arguments parts
    | some value ↦ place p.location p value parts >>= place_all ps arguments
  ]

  -- The first required name that the arguments or the declared properties lack.
  unfoldable pub check_required : List Text → Dict Text Json → Dict Text Json → Built (Unit {0})
  check_required [] arguments body_fields = ok tt
  check_required (name ∷ names) arguments body_fields = do
    guard (contains (keys arguments) name && contains (keys body_fields) name)
        (missing_required name)
    check_required names arguments body_fields

  unfoldable pub build_body : BodySpec → Dict Text Json → Built Text
  build_body body arguments =
      let declared = property_names (lookup (text "properties") body.schema) in
      let body_fields = filter (λ (k, _). contains declared k) arguments in
      if is_whole body
      then elim (lookup (text "body") arguments) [
        | none ↦ err (missing_required (text "body"))
        | some value ↦ ok (py.json_dumps value)
      ]
      else check_required (required_names (lookup (text "required") body.schema)) arguments
          body_fields
        >> ok (py.json_dumps (obj (object_of body_fields)))

  unfoldable pub build_content : Option BodySpec → Dict Text Json → Built (Option Text)
  build_content none arguments = ok none
  build_content (some body) arguments = do content ← build_body body arguments; ok (some content)

  unfoldable pub build_request :
      HttpBinding → Text → Dict Text Json → Option Credential → Built PreparedRequest
  build_request binding base_url arguments credential = do
    parts ←
        place_all binding.parameters arguments
          (record { path = binding.path; query = []; headers = [] })
    content ← build_content binding.body arguments
    ok (record {
      method = binding.method;
      url = with_query parts.query (join_url base_url parts.path);
      headers = with_credential credential (with_content_type binding.body parts.headers);
      content = content;
    })

  -- `HttpTransport.execute`, from the credential on. The request is built before the first
  -- attempt, so a build error sends nothing.
  unfoldable pub execute :
      BodyTexts
      → UpstreamConfig
      → World
      → Effect
      → HttpBinding
      → Text
      → Dict Text Json
      → Option Credential
      → Result CallError HttpResponse × ℕ
  execute texts upstream world effect binding base_url arguments credential =
      let run = run_attempts upstream.max_total_ms upstream.timeout_ms world effect in
      elim (build_request binding base_url arguments credential) [
        | err e ↦ (err (build_error e), 0)
        | ok request ↦ (finish texts upstream.max_response_bytes run.outcome, run.requests)
      ]
