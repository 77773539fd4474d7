-- ===== src/Considerations/Frozen.antt =====
-- The parameters that the DFT+U rule applies are ones that the registry accepts.
use bmd_compute.Prelude.{
  String, Bool, true, ◌&&◌, Option, none, some, List, [], ◌∷◌, ◌≡◌, refl, str_eq, arith,
}
use bmd_compute.Model.{Json, Fields, end, field}
use bmd_compute.Registry.Support.{is_number, is_integer, all_species_values, is_frozen_dft_u}
use bmd_compute.Considerations.DftU.{
  deciding_anion_of, triggered, evaluation_by, HubbardTable, Composition, Gate, Evaluation,
  value_or_zero, species_of, frozen_parameters, triggering, gate_of, evaluated_for, evaluate_dft_u,
}

abbrev pub all_numbers : Fields → Bool
all_numbers end = true
all_numbers (field k v d) = is_number (some v) && all_numbers d

-- What MPRelaxSet documents of its table: LDAUTYPE is an integer, and the values are numbers.
pub record NumericTable (table : HubbardTable) : Type 0 where
  pub ldautype : is_integer (some table.ldautype) ≡ true
  pub l_values : (anion : String) → all_numbers (table.l_values anion) ≡ true
  pub u_values : (anion : String) → all_numbers (table.u_values anion) ≡ true
  pub j_values : (anion : String) → all_numbers (table.j_values anion) ≡ true

value_or_zero-number :
    (d : Fields) (symbol : String)
    → all_numbers d ≡ true
    → is_number (some (value_or_zero d symbol)) ≡ true
value_or_zero-number end symbol numbers = refl
value_or_zero-number (field k v d) symbol numbers =
    ground (arith, numbers, value_or_zero-number d symbol)

module _ (table : HubbardTable) (numeric : NumericTable table) (anion : String) where
  species_of-values :
      (symbols : List String) → all_species_values (species_of table anion symbols) ≡ true
  unfolding species_of
  species_of-values [] = refl
  species_of-values (s ∷ symbols) = ground (
    arith,
    value_or_zero-number (table.l_values anion) s (numeric.l_values anion),
    value_or_zero-number (table.u_values anion) s (numeric.u_values anion),
    value_or_zero-number (table.j_values anion) s (numeric.j_values anion),
    species_of-values symbols,
  )

  frozen_parameters-frozen :
      (s : String) (symbols : List String)
      → is_frozen_dft_u (frozen_parameters table (s ∷ symbols) anion) ≡ true
  unfolding frozen_parameters species_of
  frozen_parameters-frozen s symbols =
      ground (arith, species_of-values (s ∷ symbols), numeric.ldautype)

-- What an evaluation that applies DFT+U has.
abbrev pub HasFrozen : Evaluation → Type 0
HasFrozen e = (p : Json) × (e.parameters ≡ some p) × (is_frozen_dft_u p ≡ true)

module _ {Guess : Type 0} (is_positive_float : String → Bool) (is_d0 : Guess → String → Bool) where
  triggered-HasFrozen :
      (table : HubbardTable) (s : String) (symbols : List String) (anion : String)
      (elements : List String) (gate : Gate)
      → NumericTable table
      → str_eq
          (triggered is_positive_float is_d0 table (s ∷ symbols) anion elements gate).decision
          "apply"
        ≡ true
      → HasFrozen (triggered is_positive_float is_d0 table (s ∷ symbols) anion elements gate)
  triggered-HasFrozen table s symbols anion elements Gate.d_electrons_present numeric applied =
      (_, refl, frozen_parameters-frozen table numeric anion s symbols)
  triggered-HasFrozen table s symbols anion elements Gate.oxidation_states_unavailable numeric
        applied =
      (_, refl, frozen_parameters-frozen table numeric anion s symbols)
  triggered-HasFrozen table s symbols anion elements Gate.not_evaluated numeric applied =
      absurd (ground (arith, applied))
  triggered-HasFrozen table s symbols anion elements Gate.all_d0 numeric applied =
      absurd (ground (arith, applied))

  abbrev applied : Evaluation → Bool
  applied e = str_eq e.decision "apply"

  evaluated_for-HasFrozen :
      (table : HubbardTable) (symbols : List String) (most : Option String) (guesses : List Guess)
      (anion : String) (elements : List String)
      → NumericTable table
      → triggering is_positive_float is_d0 (table.u_values anion) symbols ≡ elements
      → applied (
          evaluated_for is_positive_float is_d0 table
            (record { symbols = symbols; most_electronegative = most; oxi_state_guesses = guesses })
            anion
            elements)
        ≡ true
      → HasFrozen (
          evaluated_for is_positive_float is_d0 table
            (record { symbols = symbols; most_electronegative = most; oxi_state_guesses = guesses })
            anion
            elements)
  evaluated_for-HasFrozen table symbols most guesses anion [] numeric triggers apply =
      absurd (ground (arith, apply))
  evaluated_for-HasFrozen table [] most guesses anion (e ∷ elements) numeric triggers apply = cc
  evaluated_for-HasFrozen table (s ∷ symbols) most guesses anion (e ∷ elements) numeric triggers
        apply =
      triggered-HasFrozen table s symbols anion (e ∷ elements)
        (gate_of is_positive_float is_d0 guesses (e ∷ elements)) numeric apply

  pub evaluate_dft_u-HasFrozen :
      (table : HubbardTable) (composition : Composition Guess)
      → NumericTable table
      → str_eq (evaluate_dft_u is_positive_float is_d0 table composition).decision "apply" ≡ true
      → HasFrozen (evaluate_dft_u is_positive_float is_d0 table composition)
  unfolding evaluate_dft_u
  evaluate_dft_u-HasFrozen table composition numeric apply =
      decided (deciding_anion_of table composition.most_electronegative) apply
    where
      decided :
          (anion : Option String)
          → applied (evaluation_by is_positive_float is_d0 table composition anion) ≡ true
          → HasFrozen (evaluation_by is_positive_float is_d0 table composition anion)
      decided none apply = absurd (ground (arith, apply))
      decided (some anion) apply =
          evaluated_for-HasFrozen table composition.symbols composition.most_electronegative
            composition.oxi_state_guesses anion
            (triggering is_positive_float is_d0 (table.u_values anion) composition.symbols) numeric
            refl apply
