-- ===== src/Rar/Parsing.antt =====
-- The parser of authorization details reads back what is written, and what it accepts.
use mcp_portal.Base.{
  List, Option, Text, [], nat_eq, none, ok, option_eq, refl, some, text, text_eq, ◌∷◌, ◌≡◌,
}
use mcp_portal.Json.{Fields, Items, Json, arr, cons, nil, obj, str}
use mcp_portal.Rar.{
  AuthorizationDetail, detail_identifier, detail_type, get_or_empty, parse_authorization_details,
  parse_entries, parse_entry, string_field, string_tuple, strings,
}

-- A detail as the JSON of RFC 9396.
abbrev pub json_of_strings : List Text → Items
json_of_strings [] = nil
json_of_strings (s ∷ ss) = cons (str s) (json_of_strings ss)

abbrev pub identifier_fields : Option Text → Fields
identifier_fields none = Fields.end
identifier_fields (some i) = Fields.field (text "identifier") (str i) Fields.end

abbrev pub json_of_detail : AuthorizationDetail → Json
json_of_detail d = obj (
    Fields.field (text "type") (str d.type) (
      Fields.field (text "actions") (arr (json_of_strings d.actions)) (
        Fields.field (text "locations") (arr (json_of_strings d.locations)) (
          Fields.field (text "datatypes") (arr (json_of_strings d.datatypes)) (
            Fields.field (text "privileges") (arr (json_of_strings d.privileges))
              (identifier_fields d.identifier))))))

abbrev pub json_of_details : List AuthorizationDetail → Items
json_of_details [] = nil
json_of_details (d ∷ ds) = cons (json_of_detail d) (json_of_details ds)

strings-json : (name : Text) (ss : List Text) → strings name (json_of_strings ss) ≡ ok ss
unfolding strings
strings-json name [] = refl
strings-json name (s ∷ ss) = rw (strings-json name ss) refl

abbrev detail :
    Text → List Text → List Text → List Text → List Text → Option Text → AuthorizationDetail
detail t actions locations datatypes privileges identifier = record {
  type = t;
  actions = actions;
  locations = locations;
  datatypes = datatypes;
  identifier = identifier;
  privileges = privileges;
}

parse_entry-detail :
    (t : Text) (acts ls ds ps : List Text) (i : Option Text)
    → parse_entry (json_of_detail (detail t acts ls ds ps i)) ≡ ok (detail t acts ls ds ps i)
unfolding parse_entry string_field string_tuple get_or_empty detail_type detail_identifier text_eq
    nat_eq
parse_entry-detail t acts ls ds ps none =
    rw
      (
        strings-json (text "actions") acts,
        strings-json (text "locations") ls,
        strings-json (text "datatypes") ds,
        strings-json (text "privileges") ps,
      )
      refl
parse_entry-detail t acts ls ds ps (some i) =
    rw
      (
        strings-json (text "actions") acts,
        strings-json (text "locations") ls,
        strings-json (text "datatypes") ds,
        strings-json (text "privileges") ps,
      )
      refl

parse_entry-json : (d : AuthorizationDetail) → parse_entry (json_of_detail d) ≡ ok d
parse_entry-json d =
    parse_entry-detail d.type d.actions d.locations d.datatypes d.privileges d.identifier

parse_entries-json : (ds : List AuthorizationDetail) → parse_entries (json_of_details ds) ≡ ok ds
unfolding parse_entries
parse_entries-json [] = refl
parse_entries-json (d ∷ ds) = rw (parse_entry-json d, parse_entries-json ds) refl

-- Details that are written as JSON are read back as they were, the optional identifier included.
pub parse_authorization_details-json :
    (ds : List AuthorizationDetail) → parse_authorization_details (arr (json_of_details ds)) ≡ ok ds
unfolding parse_authorization_details
parse_authorization_details-json ds = parse_entries-json ds
