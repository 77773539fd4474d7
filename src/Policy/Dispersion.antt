-- ===== src/Policy/Dispersion.antt =====
-- backend/calculations/dispersion.py: the van der Waals method of a stage's options.
use bmd_compute.Prelude.{
  ℕ, String, Bool, true, false, Option, none, some, List, [], ◌∷◌, Result, ok, err, if◌then◌else◌,
}
use bmd_compute.Prelude.Text.{codes, codes_eq, strip, lower, replace}
use bmd_compute.Model.{Json, null, str, obj, Fields, end, field, get}

pub data DispersionMethod : Type 0 where
  dftd3 dftd3_bj : DispersionMethod

-- The ValueError of an unknown method.
pub data MethodError : Type 0 where
  unsupported_method : MethodError

abbrev pub default_dispersion_method : DispersionMethod
default_dispersion_method = dftd3_bj

method_alias : List ℕ → Option DispersionMethod
unfolding codes_eq
method_alias s =
    if codes_eq s (codes "d3")
    then some dftd3
    else if codes_eq s (codes "dft-d3")
    then some dftd3
    else if codes_eq s (codes "dftd3")
    then some dftd3
    else if codes_eq s (codes "d3-bj")
    then some dftd3_bj
    else if codes_eq s (codes "d3bj")
    then some dftd3_bj
    else if codes_eq s (codes "dft-d3-bj")
    then some dftd3_bj
    else if codes_eq s (codes "dftd3-bj")
    then some dftd3_bj
    else if codes_eq s (codes "dftd3bj")
    then some dftd3_bj
    else none

is_blank : List ℕ → Bool
is_blank [] = true
is_blank _ = false

normalize_text : String → Result MethodError DispersionMethod
unfolding method_alias strip lower replace is_blank
normalize_text s =
    let text = strip (codes s) in
    if is_blank text
    then ok default_dispersion_method
    else elim (method_alias (replace 32 [] (replace 95 (45 ∷ []) (lower text)))) [
      | some m ↦ ok m
      | none ↦ err unsupported_method
    ]

-- A value that is neither missing, `None` nor text: the `str` of a number, a Boolean, a list or an
-- object is neither blank nor an alias.
unfoldable pub normalize_dispersion_method : Option Json → Result MethodError DispersionMethod
unfolding normalize_text
normalize_dispersion_method none = ok default_dispersion_method
normalize_dispersion_method (some null) = ok default_dispersion_method
normalize_dispersion_method (some (str s)) = normalize_text s
normalize_dispersion_method (some _) = err unsupported_method

method_of_value : Option Json → Result MethodError DispersionMethod
unfolding normalize_dispersion_method
method_of_value (some (obj d)) = normalize_dispersion_method (get "method" d)
method_of_value (some (str s)) = normalize_dispersion_method (some (str s))
method_of_value _ = ok default_dispersion_method

unfoldable pub dispersion_method_from_options : Fields → Result MethodError DispersionMethod
unfolding method_of_value
dispersion_method_from_options options = method_of_value (get "dispersion" options)

abbrev pub method_value : DispersionMethod → String
method_value dftd3 = "dftd3"
method_value dftd3_bj = "dftd3-bj"

abbrev pub dispersion_option_payload : DispersionMethod → Json
dispersion_option_payload m = obj (field "method" (str (method_value m)) end)
