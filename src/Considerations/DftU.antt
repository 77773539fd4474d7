-- ===== src/Considerations/DftU.antt =====
-- backend/calculations/dft_u_policy.py: the automatic DFT+U rule. What pymatgen knows of a structure
-- is an argument: its elements, the most electronegative one, the table of the +U values and the
-- guesses of oxidation states. A guess is a value of a type of its own, and whether it leaves an
-- element without d electrons is an argument, since it is arithmetic on floats; so is whether a float
-- is positive.
use bmd_compute.Prelude.{
  String, Bool, true, false, Option, none, some, List, [], ◌∷◌, all, any, ltb, str_eq,
  if◌then◌else◌,
}
use bmd_compute.Model.{Json, bool, int, float, str, obj, pos, Fields, end, field, get}

-- The settings of MPRelaxSet: for each anion with values of its own, the values of the elements.
pub record HubbardTable : Type 0 where
  pub ldautype : Json
  pub anions : List String
  pub l_values : String → Fields
  pub u_values : String → Fields
  pub j_values : String → Fields

-- The symbols of the elements with a positive amount, in order.
pub record Composition (Guess : Type 0) : Type 0 where
  pub symbols : List String
  pub most_electronegative : Option String
  pub oxi_state_guesses : List Guess

pub data Gate : Type 0 where
  not_evaluated d_electrons_present all_d0 oxidation_states_unavailable : Gate

pub record Evaluation : Type 0 where
  pub elements : List String
  pub deciding_anion : Option String
  pub triggering_elements : List String
  pub mp_rule_triggered : Bool
  pub gate : Gate
  pub decision : String
  pub parameters : Option Json

abbrev pub is_member : String → List String → Bool
is_member name names = any (λ n. str_eq n name) names

-- `table[anion].get(symbol, 0)`
abbrev pub value_or_zero : Fields → String → Json
value_or_zero d symbol = elim (get symbol d) [ none ↦ int (pos 0) | some v ↦ v ]

unfoldable pub species_of : HubbardTable → String → List String → Fields
species_of table anion [] = end
species_of table anion (symbol ∷ symbols) =
    field symbol
      (obj (
        field "L" (value_or_zero (table.l_values anion) symbol) (
          field "U" (value_or_zero (table.u_values anion) symbol)
            (field "J" (value_or_zero (table.j_values anion) symbol) end))))
      (species_of table anion symbols)

unfoldable pub frozen_parameters : HubbardTable → List String → String → Json
frozen_parameters table symbols anion = obj (
    field "policy_id" (str "bmd_compute.dft_u") (
      field "policy_version" (int (pos 1)) (
        field "parameter_source"
          (str "pymatgen.io.vasp.sets.MPRelaxSet (MPRelaxSet.yaml INCAR LDAU*)")
          (field "deciding_anion" (str anion) (
            field "LDAUTYPE" table.ldautype
              (field "species" (obj (species_of table anion symbols)) end))))))

-- The value of a key, if the dictionary has it.
abbrev pub deciding_anion_of : HubbardTable → Option String → Option String
deciding_anion_of table none = none
deciding_anion_of table (some symbol) = if is_member symbol table.anions then some symbol else none

module _ {Guess : Type 0} (is_positive_float : String → Bool) (is_d0 : Guess → String → Bool) where
  -- `float(value) > 0`; a text is no value of the table.
  abbrev pub is_positive : Json → Bool
  is_positive (int (pos n)) = ltb 0 n
  is_positive (float text) = is_positive_float text
  is_positive (bool b) = b
  is_positive _ = false

  abbrev pub triggering : Fields → List String → List String
  triggering values [] = []
  triggering values (symbol ∷ symbols) =
      let rest = triggering values symbols in
      if is_positive (value_or_zero values symbol) then symbol ∷ rest else rest

  -- The d0 gate on the guesses.
  abbrev pub gate_of : List Guess → List String → Gate
  gate_of [] symbols = Gate.oxidation_states_unavailable
  gate_of (g ∷ guesses) symbols =
      if all (λ guess. all (is_d0 guess) symbols) (g ∷ guesses)
      then Gate.all_d0
      else Gate.d_electrons_present

  abbrev pub decision_of : Gate → String
  decision_of Gate.not_evaluated = "not_triggered"
  decision_of Gate.all_d0 = "suppress"
  decision_of _ = "apply"

  abbrev pub parameters_of : HubbardTable → List String → String → Gate → Option Json
  parameters_of table symbols anion Gate.d_electrons_present =
      some (frozen_parameters table symbols anion)
  parameters_of table symbols anion Gate.oxidation_states_unavailable =
      some (frozen_parameters table symbols anion)
  parameters_of table symbols anion _ = none

  abbrev not_triggered : List String → Option String → Evaluation
  not_triggered symbols anion = record {
    elements = symbols;
    deciding_anion = anion;
    triggering_elements = [];
    mp_rule_triggered = false;
    gate = Gate.not_evaluated;
    decision = "not_triggered";
    parameters = none;
  }

  abbrev pub triggered : HubbardTable → List String → String → List String → Gate → Evaluation
  triggered table symbols anion elements gate = record {
    elements = symbols;
    deciding_anion = some anion;
    triggering_elements = elements;
    mp_rule_triggered = true;
    gate = gate;
    decision = decision_of gate;
    parameters = parameters_of table symbols anion gate;
  }

  abbrev pub evaluated_for : HubbardTable → Composition Guess → String → List String → Evaluation
  evaluated_for table composition anion [] = not_triggered composition.symbols (some anion)
  evaluated_for table composition anion (e ∷ elements) =
      triggered table composition.symbols anion (e ∷ elements)
        (gate_of composition.oxi_state_guesses (e ∷ elements))

  -- What follows the choice of the anion.
  abbrev pub evaluation_by : HubbardTable → Composition Guess → Option String → Evaluation
  evaluation_by table composition none = not_triggered composition.symbols none
  evaluation_by table composition (some anion) =
      evaluated_for table composition anion (triggering (table.u_values anion) composition.symbols)

  unfoldable pub evaluate_dft_u : HubbardTable → Composition Guess → Evaluation
  evaluate_dft_u table composition =
      evaluation_by table composition (deciding_anion_of table composition.most_electronegative)
