-- ===== src/Principal.antt =====
-- auth/principal.py: the identity that a policy decision is made for.
use mcp_portal.Base.{
  Dict, List, Option, Result, Text, err, if◌then◌else◌, is_empty, nat_eq, none, ok, option_eq, some,
  text, text_eq, ℕ, ◌>>=◌,
}
use mcp_portal.Json.{Json, arr, nil}
use mcp_portal.Rar.{AuthorizationDetail, RarError, get_or_empty, parse_authorization_details}

pub record Principal : Type 0 where
  pub identity : Text
  pub authorization_details : List AuthorizationDetail
  pub subject_token : Option Text
  pub subject_token_expires_at : Option ℕ

-- A `RarError` in the configured details is raised again as a `ConfigError`.
unfoldable pub local_principal : Json → Result RarError Principal
local_principal authorization_details = do
  details ← parse_authorization_details authorization_details
  ok (record {
    identity = text "local";
    authorization_details = details;
    subject_token = none;
    subject_token_expires_at = none;
  })

-- The fields that the portal reads of the SDK's `AccessToken`.
pub record AccessToken : Type 0 where
  pub token : Text
  pub client_id : Text
  pub scopes : List Text
  pub expires_at : Option ℕ
  pub subject : Option Text
  pub claims : Option (Dict Text Json)

-- `(claims or {}).get("authorization_details", [])`
unfoldable pub raw_details : Option (Dict Text Json) → Json
raw_details none = arr nil
raw_details (some claims) = get_or_empty (text "authorization_details") claims

-- `subject or client_id`: an empty subject counts as none.
unfoldable pub identity_of : Option Text → Text → Text
identity_of none client_id = client_id
identity_of (some subject) client_id = if is_empty subject then client_id else subject

unfoldable pub principal_from_access_token : AccessToken → Option Principal
principal_from_access_token t = elim (parse_authorization_details (raw_details t.claims)) [
  | err _ ↦ none
  | ok details ↦ some (record {
    identity = identity_of t.subject t.client_id;
    authorization_details = details;
    subject_token = some t.token;
    subject_token_expires_at = t.expires_at;
  })
]
