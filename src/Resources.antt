-- ===== src/Resources.antt =====
-- backend/calculations/resources.py with the defaults of backend/config.py: the resources of a
-- calculation. A setting is None, an integer or text, as a form or a record gives it. Text is the list
-- of its code points; white space and digits are those of ASCII.
pub mod Built
pub mod RoundTrip
use bmd_compute.Prelude.{
  ℕ, ◌*◌, ◌+◌, ◌-◌, String, Bool, true, false, ◌&&◌, Option, none, some, List, [], ◌∷◌, any, leb,
  ltb, ◌==◌, Result, ok, err, ◌>>=◌, str_eq, if◌then◌else◌,
}
use bmd_compute.Prelude.Text.{codes, codes_eq, strip}
use bmd_compute.Prelude.Decimal.{is_digit, decimal}

pub data Setting : Type 0 where
  none_value : Setting
  whole : ℕ → Setting
  -- −(n+1)
  negative : ℕ → Setting
  text : List ℕ → Setting

abbrev pub Settings : Type 0
Settings = List (String × Setting)

pub data ResourceField : Type 0 where
  nodes cpus memory walltime queue account : ResourceField

-- A `CalculationValidationError` is what its message names.
pub data ResourceError : Type 0 where
  not_positive is_blank not_listed : ResourceField → ResourceError
  not_interpreted : ResourceError

pub record ExecutionResources : Type 0 where
  pub nodes : ℕ
  pub cpus : ℕ
  pub memory_gb : ℕ
  pub walltime : List ℕ
  pub queue : List ℕ
  pub account : List ℕ

abbrev pub allowed_cpu_counts : List ℕ
allowed_cpu_counts = 24 ∷ 48 ∷ 72 ∷ 96 ∷ 120 ∷ 144 ∷ 168 ∷ 192 ∷ []

abbrev pub allowed_memory_gb : List ℕ
allowed_memory_gb = 32 ∷ 64 ∷ 96 ∷ 128 ∷ 160 ∷ 192 ∷ 224 ∷ 256 ∷ 320 ∷ 384 ∷ 512 ∷ []

abbrev pub default_partition : List ℕ
default_partition = codes "leeburton-pool"

abbrev pub default_account : List ℕ
default_account = codes "power-leeburton-users_v2"

abbrev pub default_walltime : List ℕ
default_walltime = codes "72:00:00"

-- The digits of `int(text)`, where a digit stands before and after each `_`; the flag says that a
-- digit was read last.
unfoldable pub digits_value : Bool → ℕ → List ℕ → Option ℕ
digits_value read n [] = if read then some n else none
digits_value read n (c ∷ s) =
    let digit = digits_value true (n * 10 + (c - 48)) s in
    let underscore = digits_value false n s in
    if is_digit c then digit else if read && (c == 95) then underscore else none

-- A negative number and the text of one are below 1, so 0 stands for them.
abbrev below_one : Option ℕ → Option ℕ
below_one none = none
below_one (some n) = some 0

unfoldable pub signed_value : List ℕ → Option ℕ
unfolding digits_value
signed_value [] = none
signed_value (c ∷ s) =
    if c == 45
    then below_one (digits_value false 0 s)
    else if c == 43
    then digits_value false 0 s
    else digits_value false 0 (c ∷ s)

-- `int(value)`, with 0 for what is negative; none is a TypeError or ValueError.
unfoldable pub int_value : Setting → Option ℕ
unfolding signed_value
int_value Setting.none_value = none
int_value (Setting.whole n) = some n
int_value (Setting.negative n) = some 0
int_value (Setting.text s) = signed_value (strip s)

abbrev pub positive : ResourceField → Option ℕ → Result ResourceError ℕ
positive f none = err (ResourceError.not_positive f)
positive f (some number) = if ltb number 1 then err (ResourceError.not_positive f) else ok number

unfoldable pub positive_int : Setting → ResourceField → Result ResourceError ℕ
unfolding int_value
positive_int value f = positive f (int_value value)

-- `if number not in listed: raise`
abbrev pub listed : ResourceField → List ℕ → ℕ → Result ResourceError ℕ
listed f numbers number =
    if any (λ n. n == number) numbers then ok number else err (ResourceError.not_listed f)

unfoldable pub allowed_cpu_count : Setting → Result ResourceError ℕ
unfolding positive_int
allowed_cpu_count value =
    positive_int value ResourceField.cpus >>= listed ResourceField.cpus allowed_cpu_counts

unfoldable pub allowed_memory : Setting → Result ResourceError ℕ
unfolding positive_int
allowed_memory value =
    positive_int value ResourceField.memory >>= listed ResourceField.memory allowed_memory_gb

-- `str(value or "")`
abbrev pub text_of : Setting → List ℕ
text_of Setting.none_value = []
text_of (Setting.whole n) = if n == 0 then [] else decimal n
text_of (Setting.negative n) = 45 ∷ decimal (n + 1)
text_of (Setting.text s) = s

abbrev pub filled : ResourceField → List ℕ → Result ResourceError (List ℕ)
filled f [] = err (ResourceError.is_blank f)
filled f (c ∷ s) = ok (c ∷ s)

unfoldable pub nonempty_text : Setting → ResourceField → Result ResourceError (List ℕ)
nonempty_text value f = filled f (strip (text_of value))

-- `ALLOWED_QUEUES` has the one queue.
abbrev pub listed_queue : List ℕ → Result ResourceError (List ℕ)
listed_queue name =
    if codes_eq name default_partition
    then ok name
    else err (ResourceError.not_listed ResourceField.queue)

unfoldable pub validate_queue : Setting → Result ResourceError (List ℕ)
unfolding nonempty_text
validate_queue value = nonempty_text value ResourceField.queue >>= listed_queue

-- `ExecutionResources(nodes, cpus, ...)` with `__post_init__`.
unfoldable pub execution_resources :
    (node_count cpu_count memory_amount time partition charged : Setting)
    → Result ResourceError ExecutionResources
unfolding positive_int allowed_cpu_count allowed_memory nonempty_text validate_queue
execution_resources node_count cpu_count memory_amount time partition charged = do
  n ← positive_int node_count ResourceField.nodes
  c ← allowed_cpu_count cpu_count
  m ← allowed_memory memory_amount
  w ← nonempty_text time ResourceField.walltime
  q ← validate_queue partition
  a ← nonempty_text charged ResourceField.account
  ok (record { nodes = n; cpus = c; memory_gb = m; walltime = w; queue = q; account = a })

-- `values.get(key, default)`
abbrev pub get_or : String → Setting → Settings → Setting
get_or key default [] = default
get_or key default ((k, value) ∷ settings) =
    let later = get_or key default settings in if str_eq key k then value else later

unfoldable pub from_dict : Settings → Result ResourceError ExecutionResources
unfolding execution_resources
from_dict settings =
    execution_resources (get_or "nodes" (Setting.whole 1) settings)
      (get_or "cpus" (get_or "ntasks" (Setting.whole 24) settings) settings)
      (get_or "memory_gb" (get_or "mem_gb" (Setting.whole 128) settings) settings)
      (get_or "walltime" (Setting.text default_walltime) settings)
      (get_or "queue" (get_or "partition" (Setting.text default_partition) settings) settings)
      (get_or "account" (Setting.text default_account) settings)

unfoldable pub to_dict : ExecutionResources → Settings
to_dict r =
    ("nodes", Setting.whole r.nodes)
    ∷ ("ntasks", Setting.whole r.cpus)
    ∷ ("mem_gb", Setting.whole r.memory_gb)
    ∷ ("walltime", Setting.text r.walltime)
    ∷ ("partition", Setting.text r.queue)
    ∷ ("account", Setting.text r.account)
    ∷ []

abbrev pub default_execution_resources : Result ResourceError ExecutionResources
default_execution_resources =
    execution_resources (Setting.whole 1) (Setting.whole 24) (Setting.whole 128)
      (Setting.text default_walltime) (Setting.text default_partition)
      (Setting.text default_account)

-- What `normalize_execution_resources` may be given.
pub data Given : Type 0 where
  resources : ExecutionResources → Given
  dictionary : Settings → Given
  nothing another : Given

unfoldable pub normalize_execution_resources : Given → Result ResourceError ExecutionResources
unfolding from_dict execution_resources
normalize_execution_resources (Given.resources r) = ok r
normalize_execution_resources (Given.dictionary settings) = from_dict settings
normalize_execution_resources Given.nothing = default_execution_resources
normalize_execution_resources Given.another = err ResourceError.not_interpreted
