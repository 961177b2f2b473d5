-- ===== src/Explicit/Types.antt =====
-- The JSON type of a GraphQL type that is written as GraphQL writes types.
use mcp_portal.Base.{
  All, Bool, Bool-cases, Dict, Text, [], ap, arith, eq_self, false, if◌then◌else◌, inl, inr,
  is_empty, length, lookup, nat_eq, none, option_eq, refl, some, sym, text, text_eq, true,
  without_last, ℕ, ◌&&◌, ◌++◌, ◌==◌, ◌∙◌, ◌∷◌, ◌≡◌, ◌≢◌,
}
use mcp_portal.Json.{Fields, Json, obj, str}
use mcp_portal.Explicit.{
  between_brackets, is_blank, json_type_for_graphql_type, json_type_on, lstrip_blank, rstrip_blank,
  scalar_type, without_bang,
}
use mcp_portal.Operations.{effect_eq, location_eq, sensitivity_eq}
use mcp_portal.Explicit.Fuel.{
  bare, bare-length, between_brackets-length, json_type_for_graphql_type-fuel,
}

-- A type of GraphQL: a name or a list, with a mark where null is no value of it.
pub data GraphQlType : Type 0 where
  named : Text → Bool → GraphQlType
  list_of : GraphQlType → Bool → GraphQlType

abbrev marked : Text → Bool → Text
marked t true = t ++ (b'!' ∷ [])
marked t false = t

abbrev bracketed : Text → Text
bracketed t = b'[' ∷ (t ++ (b']' ∷ []))

abbrev pub print : GraphQlType → Text
print (named name non_null) = marked name non_null
print (list_of item non_null) = marked (bracketed (print item)) non_null

-- A character that is neither blank nor one of `!`, `[` and `]`.
abbrev pub IsPlain : ℕ → Type 0
IsPlain c = (is_blank c ≡ false) × (c ≢ b'!') × (c ≢ b'[') × (c ≢ b']')

abbrev pub IsWritten : GraphQlType → Type 0
IsWritten (named name _) = (name ≢ []) × All IsPlain name
IsWritten (list_of item _) = IsWritten item

abbrev scalar_names : Dict Text Text
scalar_names =
    (text "Int", text "integer")
    ∷ (text "Float", text "number")
    ∷ (text "Boolean", text "boolean")
    ∷ []

-- The schema by the type's structure: a list is an array of its items' schema, a mark changes
-- nothing, and a name that is not one of the three is a string.
abbrev pub schema_of : GraphQlType → Json
schema_of (named name _) = obj (
    Fields.field (text "type")
      (str (elim (lookup name scalar_names) [ none ↦ text "string" | some t ↦ t ])) Fields.end)
schema_of (list_of item _) = obj (
    Fields.field (text "type") (str (text "array"))
      (Fields.field (text "items") (schema_of item) Fields.end))

without_last-snoc : (c : ℕ) (t : Text) → without_last c (t ++ (c ∷ [])) ≡ some t
unfolding without_last
without_last-snoc c [] = rw (eq_self c) refl
without_last-snoc c (a ∷ []) = rw (without_last, eq_self c) refl
without_last-snoc c (a ∷ b ∷ t) = rw (without_last-snoc c (b ∷ t)) refl

without_last-other : (c d : ℕ) (t : Text) → d ≢ c → without_last c (t ++ (d ∷ [])) ≡ none
unfolding without_last
without_last-other c d [] ne = ground arith
without_last-other c d (a ∷ []) ne =
    let differs : (d == c) ≡ false = ground arith in rw (without_last, differs) refl
without_last-other c d (a ∷ b ∷ t) ne = rw (without_last-other c d (b ∷ t) ne) refl

rstrip_blank-snoc :
    (d : ℕ) (t : Text) → is_blank d ≡ false → rstrip_blank (t ++ (d ∷ [])) ≡ t ++ (d ∷ [])
unfolding rstrip_blank
rstrip_blank-snoc d [] h = rw h refl
rstrip_blank-snoc d (a ∷ t) h = rw (rstrip_blank-snoc d t h) (kept a t)
  where
    kept :
        (c : ℕ) (s : Text)
        → (if is_blank c && is_empty (s ++ (d ∷ [])) then [] else c ∷ (s ++ (d ∷ [])))
          ≡ c ∷ (s ++ (d ∷ []))
    kept c [] = elim (Bool-cases (is_blank c)) [ inl e ↦ rw e refl | inr e ↦ rw e refl ]
    kept c (x ∷ s) = elim (Bool-cases (is_blank c)) [ inl e ↦ rw e refl | inr e ↦ rw e refl ]

-- A text that begins and ends with other characters than blanks.
record IsTight (t : Text) : Type 0 where
  head : ℕ
  last : ℕ
  rest : Text
  init : Text
  is_head : t ≡ head ∷ rest
  is_last : t ≡ init ++ (last ∷ [])
  tight_head : is_blank head ≡ false
  tight_last : is_blank last ≡ false

strip-IsTight : (t : Text) → IsTight t → rstrip_blank (lstrip_blank t) ≡ t
unfolding lstrip_blank
strip-IsTight t k =
    ap rstrip_blank (ap lstrip_blank k.is_head ∙ rw k.tight_head (sym k.is_head))
    ∙ ap rstrip_blank k.is_last
    ∙ rstrip_blank-snoc k.last k.init k.tight_last
    ∙ sym k.is_last

marked-IsTight : (t : Text) (b : Bool) → IsTight t → IsTight (marked t b)
unfolding nat_eq
marked-IsTight t false k = k
marked-IsTight t true k = record {
  head = k.head;
  last = b'!';
  rest = k.rest ++ (b'!' ∷ []);
  init = t;
  is_head = ap (λ s. s ++ (b'!' ∷ [])) k.is_head;
  is_last = refl;
  tight_head = k.tight_head;
  tight_last = refl;
}

bracketed-IsTight : (t : Text) → IsTight (bracketed t)
unfolding nat_eq
bracketed-IsTight t = record {
  head = b'[';
  last = b']';
  rest = t ++ (b']' ∷ []);
  init = b'[' ∷ t;
  is_head = refl;
  is_last = refl;
  tight_head = refl;
  tight_last = refl;
}

-- Without the mark and the blanks there is the type itself.
bare-marked :
    (t : Text) (b : Bool)
    → IsTight t
    → without_last b'!' t ≡ none
    → without_bang (rstrip_blank (lstrip_blank (marked t b))) ≡ t
unfolding without_bang
bare-marked t true k h =
    ap without_bang (strip-IsTight (marked t true) (marked-IsTight t true k))
    ∙ rw (without_bang, without_last-snoc b'!' t) refl
bare-marked t false k h = ap without_bang (strip-IsTight t k) ∙ rw (without_bang, h) refl

json_type-named :
    (t : Text)
    → between_brackets (bare t) ≡ none
    → json_type_for_graphql_type t
      ≡ obj (Fields.field (text "type") (scalar_type (bare t)) Fields.end)
unfolding json_type_for_graphql_type json_type_on
json_type-named t h = rw (json_type_for_graphql_type, json_type_on, h) refl

json_type-list :
    (t item : Text)
    → between_brackets (bare t) ≡ some item
    → json_type_for_graphql_type t
      ≡ obj (
          Fields.field
            (text "type")
            (str (text "array"))
            (Fields.field (text "items") (json_type_for_graphql_type item) Fields.end))
unfolding json_type_for_graphql_type json_type_on
json_type-list t item h =
    let shorter = between_brackets-length (bare t) item h in
    let short = bare-length t in
    rw
      (
        json_type_for_graphql_type,
        json_type_on,
        h,
        json_type_for_graphql_type-fuel (length t) item (omega arith),
      )
      refl

scalar_type-name :
    (name : Text)
    → scalar_type name ≡ str (elim (lookup name scalar_names) [ none ↦ text "string" | some t ↦ t ])
unfolding scalar_type
scalar_type-name name = elim (Bool-cases (name == text "Int")) [
  | inl a ↦ rw (scalar_type, a) refl
  | inr a ↦ elim (Bool-cases (name == text "Float")) [
    | inl b ↦ rw (scalar_type, a, b) refl
    | inr b ↦ elim (Bool-cases (name == text "Boolean")) [
      | inl c ↦ rw (scalar_type, a, b, c) refl
      | inr c ↦ rw (scalar_type, a, b, c) refl
    ]
  ]
]

last_of :
    (c : ℕ) (t : Text)
    → All IsPlain (c ∷ t)
    → (init : Text) × (last : ℕ) × (c ∷ t ≡ init ++ (last ∷ [])) × IsPlain last
last_of c [] (p, _) = ([], c, refl, p)
last_of c (d ∷ t) (_, ps) =
    let (init, last, e, p) = last_of d t ps in (c ∷ init, last, ap (λ s. c ∷ s) e, p)

between_brackets-plain : (c : ℕ) (t : Text) → c ≢ b'[' → between_brackets (c ∷ t) ≡ none
unfolding between_brackets
between_brackets-plain c t ne = ground arith

between_brackets-bracketed : (t : Text) → between_brackets (bracketed t) ≡ some t
unfolding between_brackets nat_eq
between_brackets-bracketed t = without_last-snoc b']' t

json_type-print_name :
    (c : ℕ) (s : Text) (b : Bool)
    → All IsPlain (c ∷ s)
    → json_type_for_graphql_type (marked (c ∷ s) b) ≡ schema_of (named (c ∷ s) b)
json_type-print_name c s b ((blank, bang, bracket, close), plain) =
    let (init, last, e, (last_blank, last_bang, _, _)) =
      last_of c s ((blank, bang, bracket, close), plain) in
    let tight : IsTight (c ∷ s) = record {
      head = c;
      last = last;
      rest = s;
      init = init;
      is_head = refl;
      is_last = e;
      tight_head = blank;
      tight_last = last_blank;
    } in
    let unmarked = ap (without_last b'!') e ∙ without_last-other b'!' last init last_bang in
    let bare_name = bare-marked (c ∷ s) b tight unmarked in
    json_type-named (marked (c ∷ s) b)
      (ap between_brackets bare_name ∙ between_brackets-plain c s bracket)
    ∙ ap (λ j. obj (Fields.field (text "type") j Fields.end))
        (ap scalar_type bare_name ∙ scalar_type-name (c ∷ s))

no_bang : (t : Text) → without_last b'!' (bracketed t) ≡ none
no_bang t = without_last-other b'!' b']' (b'[' ∷ t) (omega arith)

json_type-print_list :
    (t : Text) (b : Bool)
    → json_type_for_graphql_type (marked (bracketed t) b)
      ≡ obj (
          Fields.field
            (text "type")
            (str (text "array"))
            (Fields.field (text "items") (json_type_for_graphql_type t) Fields.end))
json_type-print_list t b = json_type-list (marked (bracketed t) b) t (
    ap between_brackets (bare-marked (bracketed t) b (bracketed-IsTight t) (no_bang t))
    ∙ between_brackets-bracketed t)

abbrev array_of : Json → Json
array_of j =
    obj (Fields.field (text "type") (str (text "array")) (Fields.field (text "items") j Fields.end))

-- What `_json_type_for_graphql_type` makes of a type that is written as GraphQL writes types, with
-- names that hold no blank and none of `!`, `[` and `]`, is the schema of the type: lists at any
-- depth are arrays of their items' schemas, the marks of types that are not null are dropped, and
-- `Int`, `Float` and `Boolean` are an integer, a number and a boolean, any other name a string.
pub json_type_for_graphql_type-print :
    (type : GraphQlType) → IsWritten type → json_type_for_graphql_type (print type) ≡ schema_of type
json_type_for_graphql_type-print (named [] b) (nonempty, plain) = absurd (nonempty refl)
json_type_for_graphql_type-print (named (c ∷ s) b) (nonempty, plain) =
    json_type-print_name c s b plain
json_type_for_graphql_type-print (list_of item b) written =
    json_type-print_list (print item) b
    ∙ ap array_of (json_type_for_graphql_type-print item written)
