-- ===== src/Rar.antt =====
-- auth/rar.py: RFC 9396 authorization details, their coverage and their parser.
pub mod Coverage
pub mod Parsing
use mcp_portal.Base.{
  Bool, Dict, List, Option, Result, Text, [], all, any, contains, err, false, if◌then◌else◌,
  is_empty, lookup, nat_eq, none, not, ok, option_eq, some, text, text_eq, true, values, ◌==◌,
  ◌>>=◌, ◌>>◌, ◌||◌, ◌∷◌,
}
use mcp_portal.Json.{Items, Json, arr, cons, fields, nil, null, obj, str}

pub record AuthorizationDetail : Type 0 where
  pub type : Text
  pub actions : List Text
  pub locations : List Text
  pub datatypes : List Text
  pub identifier : Option Text
  pub privileges : List Text

-- `not (required and not set(required) <= set(presented))`
unfoldable pub within : List Text → List Text → Bool
within required presented = is_empty required || all (λ r. contains presented r) required

unfoldable pub covers_one : AuthorizationDetail → AuthorizationDetail → Bool
covers_one required presented =
    if not (presented.type == required.type)
    then false
    else if not (within required.actions presented.actions)
    then false
    else if not (within required.locations presented.locations)
    then false
    else if not (within required.datatypes presented.datatypes)
    then false
    else if not (within required.privileges presented.privileges)
    then false
    else elim required.identifier [
      | none ↦ true
      | some identifier ↦ presented.identifier == some identifier
    ]

unfoldable pub covers : AuthorizationDetail → List AuthorizationDetail → Bool
covers required presented = any (λ p. covers_one required p) presented

pub data RarError : Type 0 where
  not_a_list not_an_object missing_type bad_identifier : RarError
  not_strings : Text → RarError

unfoldable pub strings : Text → Items → Result RarError (List Text)
strings name nil = ok []
strings name (cons (str s) r) = do rest ← strings name r; ok (s ∷ rest)
strings name (cons _ r) = err (not_strings name)

unfoldable pub string_tuple : Json → Text → Result RarError (List Text)
string_tuple (arr xs) name = strings name xs
string_tuple _ name = err (not_strings name)

-- `entry.get(name, [])`
unfoldable pub get_or_empty : Text → Dict Text Json → Json
get_or_empty name entry = elim (lookup name entry) [ none ↦ arr nil | some value ↦ value ]

unfoldable pub string_field : Text → Dict Text Json → Result RarError (List Text)
string_field name entry = string_tuple (get_or_empty name entry) name

unfoldable pub detail_type : Option Json → Result RarError Text
detail_type (some (str s)) = ok s
detail_type _ = err missing_type

unfoldable pub detail_identifier : Option Json → Result RarError (Option Text)
detail_identifier none = ok none
detail_identifier (some null) = ok none
detail_identifier (some (str s)) = ok (some s)
detail_identifier _ = err bad_identifier

unfoldable pub parse_entry : Json → Result RarError AuthorizationDetail
parse_entry (obj entry) = do
  let values = fields entry
  type ← detail_type (lookup (text "type") values)
  identifier ← detail_identifier (lookup (text "identifier") values)
  actions ← string_field (text "actions") values
  locations ← string_field (text "locations") values
  datatypes ← string_field (text "datatypes") values
  privileges ← string_field (text "privileges") values
  ok (record {
    type = type;
    actions = actions;
    locations = locations;
    datatypes = datatypes;
    identifier = identifier;
    privileges = privileges;
  })
parse_entry _ = err not_an_object

unfoldable pub parse_entries : Items → Result RarError (List AuthorizationDetail)
parse_entries nil = ok []
parse_entries (cons j r) = do d ← parse_entry j; rest ← parse_entries r; ok (d ∷ rest)

unfoldable pub parse_authorization_details : Json → Result RarError (List AuthorizationDetail)
parse_authorization_details (arr xs) = parse_entries xs
parse_authorization_details _ = err not_a_list
