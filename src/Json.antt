-- ===== src/Json.antt =====
-- The values of `json.loads`, with a number kept as the text that `str` prints for it.
use mcp_portal.Base.{Bool, Dict, List, Text, [], nat_eq, option_eq, text_eq, ◌∷◌}

mutual
  pub data Json : Type 0 where
    null : Json
    bool : Bool → Json
    num : Text → Json
    str : Text → Json
    arr : Items → Json
    obj : Fields → Json

  pub data Items : Type 0 where
    nil : Items
    cons : Json → Items → Items

  pub data Fields : Type 0 where
    end : Fields
    field : Text → Json → Fields → Fields

abbrev pub items : Items → List Json
items nil = []
items (cons j r) = j ∷ items r

-- The items of a `dict`. `json.loads` keeps one entry for each key.
abbrev pub fields : Fields → Dict Text Json
fields end = []
fields (field k j r) = (k, j) ∷ fields r
