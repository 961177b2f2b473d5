-- ===== src/Operations.antt =====
-- operations.py: the operation domain model, with JSON values for Python's `Any`.

use mcp_portal.Base.{Bool, Dict, Eq, List, Option, Text, nat_eq, option_eq, text_eq}
use mcp_portal.Json.{Json}

pub data Effect : Type 0 where
  read_only idempotent_write action : Effect

pub data Sensitivity : Type 0 where
  normal sensitive : Sensitivity

pub data ParamLocation : Type 0 where
  path query header : ParamLocation

pub data BodyMode : Type 0 where
  flatten single_arg : BodyMode

pub Effect-discrete : Discrete Effect
Effect-discrete = hlevel

pub Sensitivity-discrete : Discrete Sensitivity
Sensitivity-discrete = hlevel

pub ParamLocation-discrete : Discrete ParamLocation
ParamLocation-discrete = hlevel

instance unfoldable pub sensitivity_eq : Eq Sensitivity
unfolding Sensitivity-discrete
sensitivity_eq = record { dec = Sensitivity-discrete }

instance unfoldable pub location_eq : Eq ParamLocation
unfolding ParamLocation-discrete
location_eq = record { dec = ParamLocation-discrete }

instance unfoldable pub effect_eq : Eq Effect
unfolding Effect-discrete
effect_eq = record { dec = Effect-discrete }

abbrev pub Schema : Type 0
Schema = Dict Text Json

-- `style` has one value, "form", and is left out.
pub record Parameter : Type 0 where
  pub arg : Text
  pub location : ParamLocation
  pub wire_name : Text
  pub required : Bool
  pub schema : Schema
  pub explode : Bool

pub record BodySpec : Type 0 where
  pub content_type : Text
  pub schema : Schema
  pub mode : BodyMode

pub record HttpBinding : Type 0 where
  pub method : Text
  pub path : Text
  pub parameters : List Parameter
  pub body : Option BodySpec

pub record Variable : Type 0 where
  pub name : Text
  pub graphql_type : Text
  pub required : Bool

pub data OperationType : Type 0 where
  query_operation mutation_operation : OperationType

pub record GraphQlBinding : Type 0 where
  pub operation_type : OperationType
  pub document : Text
  pub variables : List Variable

-- The closed union that the source discriminates on `protocol`.
pub data Binding : Type 0 where
  http : HttpBinding → Binding
  graphql : GraphQlBinding → Binding

pub record Operation : Type 0 where
  pub id : Text
  pub upstream : Text
  pub name : Text
  pub title : Text
  pub description : Text
  pub group_tags : List Text
  pub effect : Effect
  pub sensitivity : Sensitivity
  pub input_schema : Schema
  pub binding : Binding
  pub meta : Schema
