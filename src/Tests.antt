-- ===== src/Tests.antt =====
-- Concrete platforms, operations, policies and configs, on which the theorems are run.
mod Policies
mod Names
mod Requests
mod Sources
mod Loading
mod Tokens
mod Tasks
mod Configuring
use mcp_portal.Base.{
  Text, [], all, arith, false, if◌then◌else◌, leb, map, nat_eq, none, option_eq, refl, some, suc,
  text, text_eq, true, zero, ℕ, ◌&&◌, ◌+◌, ◌-◌, ◌==◌, ◌||◌, ◌∷◌, ◌≡◌,
}
use mcp_portal.Json.{Json, arr, nil, num, str}
use mcp_portal.Operations.{
  Binding, HttpBinding, Operation, ParamLocation, Parameter, effect_eq, idempotent_write,
  location_eq, normal, read_only, sensitivity_eq,
}
use mcp_portal.Platform.{IsLawful, Platform, is_digit, is_lower_letter}
use mcp_portal.Rar.{AuthorizationDetail}
use mcp_portal.Principal.{Principal, local_principal}
use mcp_portal.PolicyConfig.{PolicyConfig, PolicyRule, allow, deny}
use mcp_portal.Naming.{NamingOptions, operation_id}
use mcp_portal.Config.{McpPortalConfig, UpstreamConfig, introspect_safe, no_credential, stdio}

-- ASCII's lower case.
abbrev lower_char : ℕ → ℕ
lower_char c = if leb b'A' c && leb c b'Z' then c + 32 else c

abbrev repeat : ℕ → Text
repeat zero = []
repeat (suc n) = b'a' ∷ repeat n

abbrev show_value : Json → Text
show_value (str s) = s
show_value (num s) = s
show_value _ = text "?"

abbrev pub ascii : Platform
ascii = record {
  lower = map lower_char;
  upper = map (λ c. if leb b'a' c && leb c b'z' then c - 32 else c);
  sha256_hexdigest = λ s. repeat 64;
  str_value = show_value;
  json_dumps = λ j. text "{}";
}

lower_name :
    (s : Text)
    → all (λ c. is_digit c || is_lower_letter c || c == b'_') s ≡ true
    → map lower_char s ≡ s
unfolding nat_eq
lower_name [] h = refl
lower_name (c ∷ s) h = ground (arith, lower_name s)

pub ascii-IsLawful : IsLawful ascii
unfolding nat_eq
ascii-IsLawful = record {
  hexdigest_length = λ s. refl;
  hexdigest_hex = λ s. refl;
  str_value_text = λ s. refl;
  lower_lower = lower_name;
}

abbrev pub get_order : Parameter
get_order = record {
  arg = text "id";
  location = ParamLocation.path;
  wire_name = text "id";
  required = true;
  schema = [];
  explode = true;
}

abbrev pub trace_header : Parameter
trace_header = record get_order {
  arg = text "trace";
  location = ParamLocation.header;
  wire_name = text "X-Trace";
  required = false;
}

abbrev pub order_binding : HttpBinding
order_binding = record {
  method = text "GET";
  path = text "/orders/{id}";
  parameters = get_order ∷ trace_header ∷ [];
  body = none;
}

abbrev pub order_read : Operation
order_read = record {
  id = text "Order.Get";
  upstream = text "shop";
  name = [];
  title = text "Get";
  description = text "Get an order";
  group_tags = text "orders" ∷ [];
  effect = read_only;
  sensitivity = normal;
  input_schema = [];
  binding = Binding.http order_binding;
  meta = [];
}

abbrev pub order_delete : Operation
order_delete = record order_read {
  id = text "Order.Delete";
  name = text "remove";
  effect = idempotent_write;
}

abbrev pub orders_read : AuthorizationDetail
orders_read = record {
  type = text "orders";
  actions = text "read" ∷ [];
  locations = [];
  datatypes = [];
  identifier = none;
  privileges = [];
}

abbrev pub clerk : Principal
clerk = record {
  identity = text "clerk";
  authorization_details = orders_read ∷ [];
  subject_token = none;
  subject_token_expires_at = none;
}

abbrev pub read_rule : PolicyRule
read_rule = record {
  match = record {
    ids = [];
    tags = text "orders" ∷ [];
    upstream = [];
    effect = read_only ∷ [];
    sensitivity = [];
  };
  require = some (record {
    authorization_details =
        record {
          type = text "orders";
          actions = some (text "read" ∷ []);
          locations = none;
          datatypes = none;
          identifier = none;
          privileges = none;
        }
        ∷ [];
  });
  outbound = record { carry = true };
}

abbrev pub closed_policy : PolicyConfig
closed_policy = record { defaults = record { unmatched = deny }; rules = read_rule ∷ [] }

abbrev pub open_policy : PolicyConfig
open_policy = record { defaults = record { unmatched = allow }; rules = [] }

abbrev pub options : NamingOptions
options = record {
  strategy = operation_id;
  prefix_with_group_tag = true;
  prefix_with_upstream = false;
}

abbrev pub shop : UpstreamConfig
shop = record {
  base_url = some (text "https://shop");
  timeout_ms = 1000;
  max_total_ms = some 3000;
  max_response_bytes = 100;
  auth = record {
    outbound = record {
      mode = no_credential;
      header = text "Authorization";
      scheme = none;
      value = none;
      token_endpoint = none;
      client_id = none;
      client_secret = none;
      scopes = [];
      audience = none;
      resource = none;
      requested_token_type = [];
    };
  };
  introspection = none;
}

abbrev pub config : McpPortalConfig
config = record {
  mode = introspect_safe;
  acknowledge_unsafe = false;
  server = record {
    name = text "portal";
    transport = stdio;
    http = record {
      host = text "127.0.0.1";
      port = 8443;
      path = text "/mcp";
      allowed_origins = [];
      allowed_hosts = [];
    };
  };
  upstreams = (text "shop", shop) ∷ [];
  operations = [];
  classification = [];
  selection = record {
    include_tags = none;
    exclude_tags = [];
    include_ids = none;
    exclude_ids = [];
  };
  naming = record {
    strategy = operation_id;
    prefix_with_group_tag = false;
    prefix_with_upstream = false;
  };
  auth = record {
    local_principal = record { authorization_details = arr nil };
    inbound = record {
      enabled = false;
      issuer = none;
      audience = none;
      jwks_uri = none;
      required_scopes = [];
      algorithms = [];
      leeway_s = 0;
      allow_unauthenticated_http = false;
    };
  };
  policy = none;
}
