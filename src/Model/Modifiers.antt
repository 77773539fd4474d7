-- ===== src/Model/Modifiers.antt =====
-- `frozenset[Modifier]`: a set of modifiers is its characteristic vector.
use bmd_compute.Prelude.{Bool, true, false, not, ◌&&◌, ◌||◌, ◌≡◌, arith}
use bmd_compute.Model.Vocabulary.{
  Modifier, soc, dft_u, dispersion, spin_polarized, gamma_only, ions_only,
}

pub record ModifierSet : Type 0 where
  pub has_soc : Bool
  pub has_dft_u : Bool
  pub has_dispersion : Bool
  pub has_spin_polarized : Bool
  pub has_gamma_only : Bool
  pub has_ions_only : Bool

-- `m in s`
abbrev pub contains : ModifierSet → Modifier → Bool
contains s soc = s.has_soc
contains s dft_u = s.has_dft_u
contains s dispersion = s.has_dispersion
contains s spin_polarized = s.has_spin_polarized
contains s gamma_only = s.has_gamma_only
contains s ions_only = s.has_ions_only

abbrev pub no_modifiers : ModifierSet
no_modifiers = record {
  has_soc = false;
  has_dft_u = false;
  has_dispersion = false;
  has_spin_polarized = false;
  has_gamma_only = false;
  has_ions_only = false;
}

-- `s | {m}`
abbrev pub add : Modifier → ModifierSet → ModifierSet
add soc s = record s { has_soc = true }
add dft_u s = record s { has_dft_u = true }
add dispersion s = record s { has_dispersion = true }
add spin_polarized s = record s { has_spin_polarized = true }
add gamma_only s = record s { has_gamma_only = true }
add ions_only s = record s { has_ions_only = true }

-- `s - {m}`
abbrev pub discard : Modifier → ModifierSet → ModifierSet
discard soc s = record s { has_soc = false }
discard dft_u s = record s { has_dft_u = false }
discard dispersion s = record s { has_dispersion = false }
discard spin_polarized s = record s { has_spin_polarized = false }
discard gamma_only s = record s { has_gamma_only = false }
discard ions_only s = record s { has_ions_only = false }

-- `not s.difference(t)`
abbrev pub is_subset : ModifierSet → ModifierSet → Bool
is_subset s t =
    (not s.has_soc || t.has_soc)
    && (not s.has_dft_u || t.has_dft_u)
    && (not s.has_dispersion || t.has_dispersion)
    && (not s.has_spin_polarized || t.has_spin_polarized)
    && (not s.has_gamma_only || t.has_gamma_only)
    && (not s.has_ions_only || t.has_ions_only)

pub subset_member :
    (s t : ModifierSet) (m : Modifier)
    → is_subset s t ≡ true
    → contains s m ≡ true
    → contains t m ≡ true
subset_member s t m h k = ground arith
