-- ===== src/Lib.antt =====
-- BMD Compute: the core of the service that plans VASP calculations, admits them, treats them
-- automatically, and prepares and submits them to a Slurm cluster exactly once.
--
-- A workflow is a list of stages with a theory, modifiers and options. The registry validates
-- stages and workflows; the admission refuses combinations that are no longer offered; the
-- automatic treatments add modifiers to the workflow of a Desired Output. A workflow that passed
-- becomes a submission attempt on the cluster, which the browser and the machine API prepare and
-- submit through the same protocol; the machine API keeps a ledger of its attempts and caps.
--
-- Model, Model/Vocabulary, Model/Modifiers, Model/Options: backend/calculations/models.py. A
-- frozenset of modifiers is its characteristic vector; JSON floats are carried as their text.
-- Policy: backend/calculations/theory_policy.py (Policy/Theory), dispersion.py
-- (Policy/Dispersion), vasp_stage_definitions.py (Policy/StageDefinitions; Policy/IncarDefaults
-- has its tables of defaults and Policy/Incar its dictionary helpers).
-- Policy/StageDefinitions/Facts says what the tables amount to. Policy/BaseIncar has the INCAR
-- settings that a stage starts from, Policy/BaseIncar/Preserved which settings of the user they
-- keep, and Policy/BaseIncar/Relaxations how those of related paths differ. A float is carried as
-- its text, and its reading as an integer is an argument.
-- Registry: backend/calculations/registry.py. Registry/Support has _validate_stage_support and
-- validate_stage_spec, Registry/Workflow validate_workflow_spec and the checks on neighbouring
-- stages, Registry/Compatibility the calculation specifications that predate workflows,
-- Registry/DesiredOutputs the Desired Outputs. Registry/Errors names each raise by its data;
-- message texts are not modelled. Registry/Support/Legal and Registry/Workflow/WellFormed describe
-- what is accepted without the order of the checks, and Registry/Compatibility/RoundTrip
-- translates back and forth.
-- Admission: backend/calculations/admission.py, with Admission/Narrows.
-- Treatments: backend/calculations/default_treatments.py. Treatments/Apply has the loops,
-- Treatments/Resolve resolve_default_treatments in the steps of its body; Treatments/Effect and
-- Treatments/Resolved say what they do to each stage, Treatments/Total and
-- Treatments/Total/Outputs that none of them fails on a Desired Output. What
-- method_consideration_payload observed of the structure is the argument Payload, which
-- Considerations fills.
-- Attempt: the submission protocol of backend/paramiko_remote.py. Attempt/Host is the state file,
-- the lock directory and Slurm's jobs; Attempt/Client is submit, for both the dry run and the
-- submission, with one remote operation in each step; Attempt/Schedule lets any request take the
-- next step. The host answers each operation by a Reply: carried out, refused, raised with or
-- without effect, or a write that broke off. Attempt/Invariant, Attempt/Moves, Attempt/Safety,
-- Attempt/Final and Attempt/Progress have the proofs. The wait for another request polls as often
-- as the request's field polls says, so that every number of polls before the deadline is covered.
-- That an sbatch that exits with an error queued no job is a hypothesis of the steps. The uploads,
-- the check on the owner of the run directory and the job record written at the end are not
-- modelled, since they do not touch the attempt's state.
-- Execution: compute_api/ledger.py (Execution/Records) and compute_api/execution.py:
-- Execution/Limits, Execution/Submissions, Execution/Bind, Execution/Refresh and
-- Execution/Execute, with the proofs in Execution/Within, Execution/Caps, Execution/Bound,
-- Execution/Submits, Execution/Updates and Execution/Lookup. Times are whole seconds. The loop of
-- _bind_attempt has its five tries as fuel, and each try sees ledgers of its own, so that other
-- requests may interfere; the answers of the cluster are arguments. The planner and the digests
-- are arguments, as they are injected or hash functions.
-- Auth: compute_api/auth.py. Auth/Tokens parses the token document, Auth/Authenticate
-- authenticates a request and checks scopes; Auth/Entries says what the entries of an accepted
-- document are, Auth/Headers what a bearer header looks like, Auth/Parts what a token consists of,
-- Auth/Accepted who is authenticated. Text is a list of code points there, and SHA-256 is an
-- argument.
-- Serialisation: backend/calculations/models.py, to_dict, from_dict and from_value, with
-- Serialisation/RoundTrip. Canonical: canonical_value and the sorted keys of canonical_json in
-- backend/phonons/records.py; the canonical text is represented by the value with its keys in
-- order, since the two determine each other.
-- TaskSet: backend/stage_task_set.py. TaskSet/Values has the accessors, TaskSet/Validation the
-- validation of a record, TaskSet/Build its construction, its canonical form and the verification
-- against a workflow. TaskSet/Accepted says what the checks on parts of a record accept,
-- TaskSet/Consistent what an accepted record is, TaskSet/Sorted has the canonical form of a built
-- record, TaskSet/Verified shows that it is validated alike, TaskSet/Built and TaskSet/Parents
-- follow a record from its construction to its verification. TaskSet/Paths has the directories of
-- tasks and the functions of posixpath that they use, TaskSet/Normal says what a normal path is,
-- TaskSet/Directories where a task's directory is. SHA-256 of the canonical text is the argument
-- digest.
-- Considerations: backend/calculations/dft_u_policy.py (Considerations/DftU) and
-- method_considerations.py (Considerations/Detections, Considerations/Capabilities and
-- Considerations/Method). Considerations/Frozen says that the parameters of the rule are ones the
-- registry accepts, Considerations/Observed what a payload mentions, Considerations/Outcome what
-- becomes of a workflow, Considerations/Resolves that the treatments resolve it,
-- Considerations/Runs which stages a new calculation can run, Considerations/Support which stages
-- of a workflow support a modifier. The elements, the table of +U values, the oxidation states and
-- the dimensionality are arguments, since pymatgen computes them.
-- StageIncar: the INCAR functions of backend/workflows.py, from the settings of the user to those
-- of the static, restarted and HSE06 analysis stages. StageIncar/Layers says which settings the
-- later layers keep, StageIncar/Tags what the modifiers require and write, StageIncar/Required
-- that it stands in the result, StageIncar/Kept what is left of the user's settings. The value
-- that MAGMOM gets is an argument, and so is the reading of a float.
-- RunRecords: backend/run_records.py, the directories that a submission record names, with
-- RunRecords/Directories. Registry/StageDirectories has the directories that the registry gives
-- the stages of a workflow, and Submission/StageDirectories composes the two.
-- Submission: backend/submission.py: the label and run name (Submission/Labels) and the validation
-- of the fields that the batch script contains (Submission/Scripts). Submission/PlainFields
-- describes the fields by their characters, Submission/Walltimes and Submission/RemotePaths have
-- the proofs for wall times and paths, Submission/Accepts those that a described field is
-- accepted. A field is str(value or ""), as a list of code points; white space is that of ASCII.
-- Submission/Identity is the token that a form carries for an attempt, over Submission/Timestamps
-- and Submission/Base64; Submission/Tokens says what a verified token is, Submission/Created, by
-- Submission/Canonical, that a created one is verified. The secret, uuid, hmac and the reading of
-- JSON are fields of Environment, with one new identifier for every call that draws one.
-- Monitoring: backend/monitoring.py, the identifiers and states of Slurm jobs and the status read
-- from the output of squeue, scontrol and sacct. Text is a list of code points, with the letters,
-- white space and line breaks of ASCII. Monitoring/States has the identifiers and states,
-- Monitoring/Output the parsers, Monitoring/Rows is about the rows of sacct, Monitoring/Status
-- about the status.
-- Resources: backend/calculations/resources.py with the defaults of backend/config.py.
-- Resources/Built says what is accepted, Resources/RoundTrip that it survives its dictionary. A
-- setting is None, an integer or text.
-- Tests: runs at concrete inputs.
--
-- Not modelled: the web routes and templates, the construction of atomate2 flows, Slurm scripts,
-- SSH sessions, the remote commands of monitoring, the parsing of VASP output, and the phonon
-- package, which are glue over third-party libraries or input and output.
pub mod Prelude
pub mod Model
pub mod Policy
pub mod Registry
pub mod Admission
pub mod Treatments
pub mod Attempt
pub mod Auth
pub mod Execution
pub mod Serialisation
pub mod Canonical
pub mod TaskSet
pub mod RunRecords
pub mod Submission
pub mod StageIncar
pub mod Monitoring
pub mod Resources
pub mod Considerations
pub mod Tests
