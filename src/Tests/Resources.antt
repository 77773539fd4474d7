-- ===== src/Tests/Resources.antt =====
-- Resources from settings.
use bmd_compute.Prelude.{ℕ, List, [], ◌∷◌, ◌≡◌, refl, ok, err, some, none}
use bmd_compute.Prelude.Text.{codes}
use bmd_compute.Resources.{
  Setting, Settings, ResourceField, ResourceError, ExecutionResources, int_value, to_dict, Given,
  default_partition, default_account, default_walltime, normalize_execution_resources,
}
use bmd_compute.Resources.Built.{InRange}
use bmd_compute.Resources.RoundTrip.{normalize_execution_resources-reads}

reads_digits : int_value (Setting.text (codes " 1_024 ")) ≡ some 1024
unfolding int_value bmd_compute.Resources.signed_value bmd_compute.Resources.digits_value
    bmd_compute.Prelude.Text.strip bmd_compute.Prelude.Text.lstrip bmd_compute.Prelude.Text.is_space
reads_digits = refl

abbrev form : Settings
form = ("cpus", Setting.text (codes " 48 ")) ∷ ("walltime", Setting.text (codes " 24:00:00 ")) ∷ []

abbrev form_resources : ExecutionResources
form_resources = record {
  nodes = 1;
  cpus = 48;
  memory_gb = 128;
  walltime = codes "24:00:00";
  queue = default_partition;
  account = default_account;
}

form_read : normalize_execution_resources (Given.dictionary form) ≡ ok form_resources
unfolding normalize_execution_resources bmd_compute.Resources.from_dict
    bmd_compute.Resources.execution_resources bmd_compute.Resources.positive_int
    bmd_compute.Resources.allowed_cpu_count bmd_compute.Resources.allowed_memory
    bmd_compute.Resources.validate_queue bmd_compute.Resources.nonempty_text int_value
    bmd_compute.Resources.signed_value bmd_compute.Resources.digits_value
    bmd_compute.Prelude.Text.strip bmd_compute.Prelude.Text.lstrip bmd_compute.Prelude.Text.is_space
    bmd_compute.Prelude.Text.codes_eq
form_read = refl

defaults_read :
    normalize_execution_resources Given.nothing
    ≡ ok (record {
      nodes = 1;
      cpus = 24;
      memory_gb = 128;
      walltime = default_walltime;
      queue = default_partition;
      account = default_account;
    })
unfolding normalize_execution_resources bmd_compute.Resources.execution_resources
    bmd_compute.Resources.positive_int bmd_compute.Resources.allowed_cpu_count
    bmd_compute.Resources.allowed_memory bmd_compute.Resources.validate_queue
    bmd_compute.Resources.nonempty_text int_value bmd_compute.Prelude.Text.strip
    bmd_compute.Prelude.Text.lstrip bmd_compute.Prelude.Text.is_space
    bmd_compute.Prelude.Text.codes_eq
defaults_read = refl

normalize_execution_resources-reads_example :
    InRange form_resources
    × (normalize_execution_resources (Given.dictionary (to_dict form_resources))
        ≡ ok form_resources)
normalize_execution_resources-reads_example = normalize_execution_resources-reads form form_read
