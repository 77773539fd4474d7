-- ===== src/Considerations/Detections.antt =====
-- backend/calculations/method_considerations.py: the detections in the elements of a structure, and its
-- dimensionality.
use bmd_compute.Prelude.{
  ℕ, String, Bool, true, false, ◌&&◌, Option, none, some, List, [], ◌∷◌, any, ◌==◌, str_eq,
  if◌then◌else◌,
}
use bmd_compute.Considerations.DftU.{is_member}

-- The classes in the order of the dictionary, each with its elements.
abbrev pub TriggerClasses : Type 0
TriggerClasses = List (String × List String)

abbrev pub soc_trigger_classes : TriggerClasses
soc_trigger_classes =
    (
      "4d_transition_metals",
      "Y" ∷ "Zr" ∷ "Nb" ∷ "Mo" ∷ "Tc" ∷ "Ru" ∷ "Rh" ∷ "Pd" ∷ "Ag" ∷ "Cd" ∷ [],
    )
    ∷ ("5d_transition_metals", "Hf" ∷ "Ta" ∷ "W" ∷ "Re" ∷ "Os" ∷ "Ir" ∷ "Pt" ∷ "Au" ∷ "Hg" ∷ [])
    ∷ (
      "lanthanides",
      "La" ∷ "Ce" ∷ "Pr" ∷ "Nd" ∷ "Pm" ∷ "Sm" ∷ "Eu" ∷ "Gd" ∷ "Tb" ∷ "Dy" ∷ "Ho" ∷ "Er" ∷ "Tm"
          ∷ "Yb" ∷ "Lu" ∷ [],
    )
    ∷ (
      "actinides",
      "Ac" ∷ "Th" ∷ "Pa" ∷ "U" ∷ "Np" ∷ "Pu" ∷ "Am" ∷ "Cm" ∷ "Bk" ∷ "Cf" ∷ "Es" ∷ "Fm" ∷ "Md" ∷ "No"
          ∷ "Lr" ∷ [],
    )
    ∷ ("heavy_p_block", "Tl" ∷ "Pb" ∷ "Bi" ∷ "Po" ∷ [])
    ∷ []

abbrev pub spin_trigger_classes : TriggerClasses
spin_trigger_classes =
    ("3d_spin_screen", "Ti" ∷ "V" ∷ "Cr" ∷ "Mn" ∷ "Fe" ∷ "Co" ∷ "Ni" ∷ [])
    ∷ ("4d_spin_screen", "Mo" ∷ "Tc" ∷ "Ru" ∷ "Rh" ∷ [])
    ∷ ("5d_spin_screen", "Re" ∷ "Os" ∷ "Ir" ∷ [])
    ∷ (
      "lanthanide_spin_screen",
      "Ce" ∷ "Pr" ∷ "Nd" ∷ "Pm" ∷ "Sm" ∷ "Eu" ∷ "Gd" ∷ "Tb" ∷ "Dy" ∷ "Ho" ∷ "Er" ∷ "Tm" ∷ "Yb" ∷ [],
    )
    ∷ ("actinide_spin_screen", "U" ∷ "Np" ∷ "Pu" ∷ "Am" ∷ "Cm" ∷ "Bk" ∷ "Cf" ∷ [])
    ∷ []

-- `TRIGGER_ELEMENT_CLASSES.get(element, ())`, the dictionary being the inverse of the classes.
unfoldable pub classes_for_element : TriggerClasses → String → List String
classes_for_element [] element = []
classes_for_element ((name, elements) ∷ classes) element =
    let rest = classes_for_element classes element in
    if is_member element elements then name ∷ rest else rest

-- The classes that one of the elements has, in the order of the dictionary.
unfoldable pub ordered_trigger_classes : TriggerClasses → List String → List String
ordered_trigger_classes [] observed = []
ordered_trigger_classes ((name, elements) ∷ classes) observed =
    let rest = ordered_trigger_classes classes observed in
    if any (λ e. is_member e elements) observed then name ∷ rest else rest

-- A detection of an element that is present; its identifier follows from the element.
pub record StructureDetection : Type 0 where
  pub element : String
  pub soc_classes : List String
  pub spin_classes : List String

abbrev pub is_none : List String → Bool
is_none [] = true
is_none _ = false

-- The loop over the elements, for the tables of the two screens.
unfoldable pub detect_with : TriggerClasses → TriggerClasses → List String → List StructureDetection
unfolding classes_for_element
detect_with soc spin [] = []
detect_with soc spin (element ∷ elements) =
    let soc_classes = classes_for_element soc element in
    let spin_classes = classes_for_element spin element in
    let rest = detect_with soc spin elements in
    if is_none soc_classes && is_none spin_classes
    then rest
    else record { element = element; soc_classes = soc_classes; spin_classes = spin_classes } ∷ rest

abbrev pub detect_structure_features : List String → List StructureDetection
detect_structure_features = detect_with soc_trigger_classes spin_trigger_classes

-- What `observe_structure_dimensionality` says of the bonded connectivity.
pub record DimensionalityObservation : Type 0 where
  pub status : String
  pub dimensionality : Option ℕ

abbrev is_two : Option ℕ → Bool
is_two none = false
is_two (some n) = n == 2

unfoldable pub is_two_dimensional_connectivity : DimensionalityObservation → Bool
is_two_dimensional_connectivity observation =
    str_eq observation.status "observed" && is_two observation.dimensionality
