-- ===== src/Model.antt =====
-- backend/calculations/models.py: the vocabulary of calculations and the workflow specification.
mod Vocabulary
mod Modifiers
mod Options
pub use Vocabulary.*
pub use Modifiers.*
pub use Options.*
use bmd_compute.Prelude.{String, Option, List}

pub record StageSpec : Type 0 where
  pub stage_type : StageType
  pub theory : Theory
  pub modifiers : ModifierSet
  pub label : Option String
  pub options : Fields

pub record WorkflowSpec : Type 0 where
  pub stages : List StageSpec
  pub label : Option String
  pub recipe : Option String

pub record CalculationSpec : Type 0 where
  pub purpose : Purpose
  pub theory : Theory
  pub modifiers : ModifierSet
  pub label : Option String
