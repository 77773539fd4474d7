-- ===== src/Resources/RoundTrip.antt =====
-- backend/calculations/resources.py: normalized resources survive the dictionary of a record.
use bmd_compute.Prelude.{ℕ, ◌≤◌, List, [], ◌∷◌, ◌≡◌, ◌≢◌, arith, true, any, ◌==◌, ok, refl}
use bmd_compute.Prelude.Text.{codes_eq}
use bmd_compute.Resources.{
  Setting, Settings, ResourceField, ExecutionResources, allowed_cpu_counts, allowed_memory_gb,
  default_partition, int_value, positive_int, allowed_cpu_count, allowed_memory, filled,
  nonempty_text, validate_queue, execution_resources, from_dict, to_dict, get_or, default_walltime,
  default_account, Given, normalize_execution_resources,
}
use bmd_compute.Resources.Built.{Trimmed, InRange, execution_resources-InRange}

positive_int-whole : (n : ℕ) (f : ResourceField) → 1 ≤ n → positive_int (Setting.whole n) f ≡ ok n
unfolding positive_int int_value
positive_int-whole n f enough = ground (arith, enough)

allowed_cpu_count-whole :
    (n : ℕ)
    → any (λ m. m == n) allowed_cpu_counts ≡ true
    → allowed_cpu_count (Setting.whole n) ≡ ok n
unfolding allowed_cpu_count positive_int int_value
allowed_cpu_count-whole n is_listed = ground (arith, is_listed)

allowed_memory-whole :
    (n : ℕ) → any (λ m. m == n) allowed_memory_gb ≡ true → allowed_memory (Setting.whole n) ≡ ok n
unfolding allowed_memory positive_int int_value
allowed_memory-whole n is_listed = ground (arith, is_listed)

filled-full : (f : ResourceField) (s : List ℕ) → s ≢ [] → filled f s ≡ ok s
filled-full f [] full = absurd (full refl)
filled-full f (c ∷ s) full = refl

nonempty_text-text :
    (s : List ℕ) (f : ResourceField) → Trimmed s → nonempty_text (Setting.text s) f ≡ ok s
unfolding nonempty_text
nonempty_text-text s f trimmed = rw (trimmed.1) (filled-full f s trimmed.0)

validate_queue-text :
    (s : List ℕ)
    → Trimmed s
    → codes_eq s default_partition ≡ true
    → validate_queue (Setting.text s) ≡ ok s
unfolding validate_queue
validate_queue-text s trimmed is_listed =
    rw (nonempty_text-text s ResourceField.queue trimmed, is_listed)

from_dict-to_dict : (r : ExecutionResources) → InRange r → from_dict (to_dict r) ≡ ok r
unfolding from_dict to_dict execution_resources
from_dict-to_dict r within = rw (
  positive_int-whole r.nodes ResourceField.nodes within.nodes,
  allowed_cpu_count-whole r.cpus within.cpus,
  allowed_memory-whole r.memory_gb within.memory_gb,
  nonempty_text-text r.walltime ResourceField.walltime within.walltime,
  validate_queue-text r.queue within.queue_text within.queue,
  nonempty_text-text r.account ResourceField.account within.account,
)

-- When a dictionary of settings is normalized to resources, there is at least one node, the CPU
-- count and the memory are listed ones, the queue is the default partition, and no text is empty
-- or has white space around it. The dictionary of those resources is normalized to the same
-- resources.
pub normalize_execution_resources-reads :
    (settings : Settings) {r : ExecutionResources}
    → normalize_execution_resources (Given.dictionary settings) ≡ ok r
    → InRange r × (normalize_execution_resources (Given.dictionary (to_dict r)) ≡ ok r)
unfolding normalize_execution_resources from_dict
normalize_execution_resources-reads settings {r = r} read =
    let within : InRange r =
      execution_resources-InRange (get_or "nodes" (Setting.whole 1) settings)
        (get_or "cpus" (get_or "ntasks" (Setting.whole 24) settings) settings)
        (get_or "memory_gb" (get_or "mem_gb" (Setting.whole 128) settings) settings)
        (get_or "walltime" (Setting.text default_walltime) settings)
        (get_or "queue" (get_or "partition" (Setting.text default_partition) settings) settings)
        (get_or "account" (Setting.text default_account) settings) read in
    (within, from_dict-to_dict r within)
