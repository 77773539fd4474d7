-- ===== src/Resources/Built.antt =====
-- backend/calculations/resources.py: what `ExecutionResources` accepts is in range.
use bmd_compute.Prelude.{
  ℕ, ◌≤◌, List, [], ◌∷◌, ◌≡◌, ◌≢◌, Option, none, some, sym, ap, ◌∙◌, arith, true, any, ◌==◌, ok,
  >>=-eq-ok, ok-injective, ◌>>=◌, Bool-cases, inl, inr, subst,
}
use bmd_compute.Prelude.Text.{codes_eq, strip}
use bmd_compute.Prelude.Strip.{strip-strip}
use bmd_compute.Resources.{
  Setting, ResourceField, ResourceError, ExecutionResources, allowed_cpu_counts, allowed_memory_gb,
  default_partition, int_value, positive, positive_int, listed, allowed_cpu_count, allowed_memory,
  text_of, filled, nonempty_text, listed_queue, validate_queue, execution_resources,
}

-- Text that is not empty and has no white space around it.
abbrev pub Trimmed : List ℕ → Type 0
Trimmed s = (s ≢ []) × (strip s ≡ s)

pub record InRange (r : ExecutionResources) : Type 0 where
  pub nodes : 1 ≤ r.nodes
  pub cpus : any (λ n. n == r.cpus) allowed_cpu_counts ≡ true
  pub memory_gb : any (λ n. n == r.memory_gb) allowed_memory_gb ≡ true
  pub walltime : Trimmed r.walltime
  pub queue : codes_eq r.queue default_partition ≡ true
  pub queue_text : Trimmed r.queue
  pub account : Trimmed r.account

positive-positive :
    (f : ResourceField) (number : Option ℕ) {n : ℕ} → positive f number ≡ ok n → 1 ≤ n
positive-positive f none read = cc
positive-positive f (some number) read = ground (arith, read)

listed-listed :
    (f : ResourceField) (numbers : List ℕ) (number : ℕ) {n : ℕ}
    → listed f numbers number ≡ ok n
    → (number ≡ n) × (any (λ m. m == n) numbers ≡ true)
listed-listed f numbers number read = elim (Bool-cases (any (λ m. m == number) numbers)) [
  | inl found ↦
      let same : number ≡ _ = ok-injective ResourceError (ground (arith, found, read)) in
      (same, ap (λ k. any (λ m. m == k) numbers) (sym same) ∙ found)
  | inr missing ↦ absurd (ground (arith, missing, read))
]

filled-filled :
    (f : ResourceField) (s : List ℕ) {t : List ℕ} → filled f s ≡ ok t → (s ≡ t) × (t ≢ [])
filled-filled f [] read = cc
filled-filled f (c ∷ s) read =
    let same : (c ∷ s) ≡ _ = ok-injective ResourceError read in (same, λ empty. cc)

nonempty_text-Trimmed :
    (value : Setting) (f : ResourceField) {t : List ℕ} → nonempty_text value f ≡ ok t → Trimmed t
unfolding nonempty_text
nonempty_text-Trimmed value f read =
    let h = filled-filled f (strip (text_of value)) read in
    (h.1, ap strip (sym h.0) ∙ strip-strip (text_of value) ∙ h.0)

listed_queue-listed :
    (s : List ℕ) {t : List ℕ}
    → listed_queue s ≡ ok t
    → (s ≡ t) × (codes_eq t default_partition ≡ true)
listed_queue-listed s read = elim (Bool-cases (codes_eq s default_partition)) [
  | inl found ↦
      let same : s ≡ _ = ok-injective ResourceError (ground (arith, found, read)) in
      (same, ap (λ k. codes_eq k default_partition) (sym same) ∙ found)
  | inr missing ↦ absurd (ground (arith, missing, read))
]

validate_queue-listed :
    (value : Setting) {t : List ℕ}
    → validate_queue value ≡ ok t
    → Trimmed t × (codes_eq t default_partition ≡ true)
unfolding validate_queue
validate_queue-listed value read =
    let (s, text, is_listed) =
      >>=-eq-ok (nonempty_text value ResourceField.queue) listed_queue read in
    let h = listed_queue-listed s is_listed in
    (nonempty_text-Trimmed value ResourceField.queue (text ∙ ap (λ u. ok u) h.0), h.1)

positive_int-listed :
    (value : Setting) (f : ResourceField) (numbers : List ℕ) {n : ℕ}
    → (positive_int value f >>= listed f numbers) ≡ ok n
    → any (λ m. m == n) numbers ≡ true
positive_int-listed value f numbers read =
    let (k, text, is_listed) = >>=-eq-ok (positive_int value f) (listed f numbers) read in
    (listed-listed f numbers k is_listed).1

-- What the constructor builds is in range.
pub execution_resources-InRange :
    (node_count cpu_count memory_amount time partition charged : Setting) {r : ExecutionResources}
    → execution_resources node_count cpu_count memory_amount time partition charged ≡ ok r
    → InRange r
unfolding execution_resources allowed_cpu_count allowed_memory positive_int
execution_resources-InRange node_count cpu_count memory_amount time partition charged read =
    let (n, n_read, read₁) = >>=-eq-ok (positive_int node_count ResourceField.nodes) _ read in
    let (c, c_read, read₂) = >>=-eq-ok (allowed_cpu_count cpu_count) _ read₁ in
    let (m, m_read, read₃) = >>=-eq-ok (allowed_memory memory_amount) _ read₂ in
    let (w, w_read, read₄) = >>=-eq-ok (nonempty_text time ResourceField.walltime) _ read₃ in
    let (q, q_read, read₅) = >>=-eq-ok (validate_queue partition) _ read₄ in
    let (a, a_read, read₆) = >>=-eq-ok (nonempty_text charged ResourceField.account) _ read₅ in
    subst InRange (ok-injective ResourceError read₆) (record {
      nodes = positive-positive ResourceField.nodes (int_value node_count) n_read;
      cpus = positive_int-listed cpu_count ResourceField.cpus allowed_cpu_counts c_read;
      memory_gb = positive_int-listed memory_amount ResourceField.memory allowed_memory_gb m_read;
      walltime = nonempty_text-Trimmed time ResourceField.walltime w_read;
      queue = (validate_queue-listed partition q_read).1;
      queue_text = (validate_queue-listed partition q_read).0;
      account = nonempty_text-Trimmed charged ResourceField.account a_read;
    })
