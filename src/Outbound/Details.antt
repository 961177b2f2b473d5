-- ===== src/Outbound/Details.antt =====
-- The details that are sent to the identity provider.
use mcp_portal.Base.{
  Dict, List, Option, Text, [], ap, arith, eq_self, false, lookup, nat_eq, none, ok, option_eq,
  refl, some, text, text_eq, ◌==◌, ◌∙◌, ◌∷◌, ◌≡◌,
}
use mcp_portal.Json.{Fields, Json, arr, fields, str}
use mcp_portal.Rar.{
  AuthorizationDetail, detail_identifier, detail_type, get_or_empty, parse_authorization_details,
  parse_entries, parse_entry, string_field, string_tuple, strings,
}
use mcp_portal.Outbound.{detail_object, detail_objects, list_field, list_items, text_field}

strings-list_items : (name : Text) (ss : List Text) → strings name (list_items ss) ≡ ok ss
unfolding strings list_items
strings-list_items name [] = refl
strings-list_items name (s ∷ ss) = rw (strings-list_items name ss) refl

-- Another field's value is found past the field.
lookup-list_field :
    (k name : Text) (ss : List Text) (rest : Fields)
    → (k == name) ≡ false
    → lookup k (fields (list_field name ss rest)) ≡ lookup k (fields rest)
unfolding list_field
lookup-list_field k name [] rest h = refl
lookup-list_field k name (s ∷ ss) rest h = ground arith

lookup-text_field :
    (k name : Text) (s : Option Text) (rest : Fields)
    → (k == name) ≡ false
    → lookup k (fields (text_field name s rest)) ≡ lookup k (fields rest)
unfolding text_field
lookup-text_field k name none rest h = refl
lookup-text_field k name (some s) rest h = ground arith

string_field-lookup :
    (name : Text) (xs ys : Dict Text Json)
    → lookup name xs ≡ lookup name ys
    → string_field name xs ≡ string_field name ys
unfolding string_field get_or_empty
string_field-lookup name xs ys h = rw (string_field, get_or_empty, h) refl

string_field-some :
    (name : Text) (ss : List Text) (xs : Dict Text Json)
    → lookup name xs ≡ some (arr (list_items ss))
    → string_field name xs ≡ ok ss
unfolding string_field get_or_empty string_tuple
string_field-some name ss xs h = rw (string_field, get_or_empty, h) (strings-list_items name ss)

-- A field that is left out is read as an empty list.
string_field-list_field :
    (name : Text) (ss : List Text) (rest : Fields)
    → lookup name (fields rest) ≡ none
    → string_field name (fields (list_field name ss rest)) ≡ ok ss
unfolding string_field list_field get_or_empty string_tuple strings
string_field-list_field name [] rest h = rw h refl
string_field-list_field name (s ∷ ss) rest h =
    string_field-some name (s ∷ ss) (fields (list_field name (s ∷ ss) rest))
      (rw (eq_self name) refl)

detail_identifier-text_field :
    (name : Text) (s : Option Text) (rest : Fields)
    → lookup name (fields rest) ≡ none
    → detail_identifier (lookup name (fields (text_field name s rest))) ≡ ok s
unfolding text_field detail_identifier
detail_identifier-text_field name none rest h = rw h refl
detail_identifier-text_field name (some s) rest h = rw (eq_self name) refl

module _ (d : AuthorizationDetail) where
  abbrev from_privileges : Fields
  from_privileges = list_field (text "privileges") d.privileges Fields.end

  abbrev from_identifier : Fields
  from_identifier = text_field (text "identifier") d.identifier from_privileges

  abbrev from_datatypes : Fields
  from_datatypes = list_field (text "datatypes") d.datatypes from_identifier

  abbrev from_locations : Fields
  from_locations = list_field (text "locations") d.locations from_datatypes

  abbrev from_actions : Fields
  from_actions = list_field (text "actions") d.actions from_locations

  absent_from_identifier :
      (k : Text)
      → (k == text "identifier") ≡ false
      → (k == text "privileges") ≡ false
      → lookup k (fields from_identifier) ≡ none
  absent_from_identifier k i p =
      lookup-text_field k (text "identifier") d.identifier from_privileges i
      ∙ lookup-list_field k (text "privileges") d.privileges Fields.end p

  -- The fields of a detail, by the readers of the parser.
  record ReadsBack (fs : Fields) : Type 0 where
    type : detail_type (lookup (text "type") (fields fs)) ≡ ok d.type
    identifier : detail_identifier (lookup (text "identifier") (fields fs)) ≡ ok d.identifier
    actions : string_field (text "actions") (fields fs) ≡ ok d.actions
    locations : string_field (text "locations") (fields fs) ≡ ok d.locations
    datatypes : string_field (text "datatypes") (fields fs) ≡ ok d.datatypes
    privileges : string_field (text "privileges") (fields fs) ≡ ok d.privileges

  after_locations :
      (k : Text)
      → (k == text "type") ≡ false
      → (k == text "actions") ≡ false
      → (k == text "locations") ≡ false
      → lookup k (fields (Fields.field (text "type") (str d.type) from_actions))
        ≡ lookup k (fields from_datatypes)
  after_locations k t a l = ground (
    arith,
    lookup-list_field k (text "actions") d.actions from_locations a,
    lookup-list_field k (text "locations") d.locations from_datatypes l,
  )

  detail-ReadsBack : ReadsBack (Fields.field (text "type") (str d.type) from_actions)
  unfolding detail_type text_eq nat_eq
  detail-ReadsBack = record {
    type = refl;
    identifier =
        ap detail_identifier (
          after_locations (text "identifier") refl refl refl
          ∙ lookup-list_field (text "identifier") (text "datatypes") d.datatypes from_identifier
              refl)
        ∙ detail_identifier-text_field (text "identifier") d.identifier from_privileges (
            lookup-list_field (text "identifier") (text "privileges") d.privileges Fields.end refl);
    actions =
        string_field-lookup (text "actions") _ (fields from_actions) refl
        ∙ string_field-list_field (text "actions") d.actions from_locations (
            lookup-list_field (text "actions") (text "locations") d.locations from_datatypes refl
            ∙ lookup-list_field (text "actions") (text "datatypes") d.datatypes from_identifier refl
            ∙ absent_from_identifier (text "actions") refl refl);
    locations =
        string_field-lookup (text "locations") _ _
          (lookup-list_field (text "locations") (text "actions") d.actions from_locations refl)
        ∙ string_field-list_field (text "locations") d.locations from_datatypes (
            lookup-list_field (text "locations") (text "datatypes") d.datatypes from_identifier refl
            ∙ absent_from_identifier (text "locations") refl refl);
    datatypes =
        string_field-lookup (text "datatypes") _ _
          (after_locations (text "datatypes") refl refl refl)
        ∙ string_field-list_field (text "datatypes") d.datatypes from_identifier
            (absent_from_identifier (text "datatypes") refl refl);
    privileges =
        string_field-lookup (text "privileges") _ _ (
          after_locations (text "privileges") refl refl refl
          ∙ lookup-list_field (text "privileges") (text "datatypes") d.datatypes from_identifier
              refl
          ∙ lookup-text_field (text "privileges") (text "identifier") d.identifier from_privileges
              refl)
        ∙ string_field-list_field (text "privileges") d.privileges Fields.end refl;
  }

parse_entry-detail_object : (d : AuthorizationDetail) → parse_entry (detail_object d) ≡ ok d
unfolding parse_entry detail_object
parse_entry-detail_object d =
    let r = detail-ReadsBack d in
    rw (r.type, r.identifier, r.actions, r.locations, r.datatypes, r.privileges) refl

parse_entries-detail_objects :
    (ds : List AuthorizationDetail) → parse_entries (detail_objects ds) ≡ ok ds
unfolding parse_entries detail_objects
parse_entries-detail_objects [] = refl
parse_entries-detail_objects (d ∷ ds) =
    rw (parse_entry-detail_object d, parse_entries-detail_objects ds) refl

-- The parser of details reads back the JSON that is written, whichever of their parts are empty.
pub parse_authorization_details-detail_objects :
    (ds : List AuthorizationDetail) → parse_authorization_details (arr (detail_objects ds)) ≡ ok ds
unfolding parse_authorization_details
parse_authorization_details-detail_objects ds = parse_entries-detail_objects ds
