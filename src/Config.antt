-- ===== src/Config.antt =====
-- core/config: a target and a workload as their files describe them (target.go, workload.go), and the run's
-- settings from every layer (resolve.go). The koanf library and the reading of YAML are not part of the
-- repository: a record of koanf's operations is a parameter, with what the code relies on as a record of laws,
-- and a file that is read is an argument; so is the reading of a duration's text by time.ParseDuration. The text
-- of an error is kept as the field at fault.

pub mod Resolve
use proofload_sh.Prelude.{
  ℕ, ◌≡◌, Bool, true, false, not, Option, none, some, List, [], ◌∷◌, if◌then◌else◌, ℤ, pos, ltb_ℤ,
  String, ◌==◌, Dict, lookup, insert, string_eq,
}
use proofload_sh.Schedule.{RateSpec, fixed, max_rate}
use proofload_sh.Workload.{Workload, OpSpec, Param}
use proofload_sh.Verify.Report.{
  VerifyModel, verify_none, reconciliation, register, list_append, kafka_log,
}

pub data Error : Type 0 where
  unreadable : String → Error
  invalid : (field text : String) → Error
  no_environment : Error

pub data Result {ℓ} (A : Type ℓ) : Type ℓ where
  ok : A → Result A
  err : Error → Result A

abbrev pub and_then {ℓ κ} : {A : Type ℓ} {B : Type κ} → Result A → (A → Result B) → Result B
and_then (err e) f = err e
and_then (ok a) f = f a

-- `Defaults`, `ClusterConfig`, `Capabilities` and `TargetConfig`; in a file the durations are texts.
pub record Defaults (D : Type 0) : Type 0 where
  pub connections : ℤ
  pub warmup : D
  pub duration : D

pub record ClusterConfig : Type 0 where
  pub backend : String
  pub nodes : ℤ
  pub replication_factor : ℤ
  pub consistency : List String

pub record Capabilities : Type 0 where
  pub verify_models : List String
  pub faults : List String

pub record Target (D : Type 0) : Type 0 where
  pub target : String
  pub image : String
  pub version : String
  pub defaults : Defaults D
  pub cluster : ClusterConfig
  pub capabilities : Capabilities

abbrev pub TargetConfig : Type 0
TargetConfig = Target ℤ

abbrev pub TargetFile : Type 0
TargetFile = Target String

-- `parseDuration`, with the parse of a text that is not empty.
abbrev pub parse_duration : (String → Option ℤ) → String → String → Result ℤ
parse_duration parse text field =
    if text == ""
    then ok (pos 0)
    else (elim (parse text) [ none ↦ err (invalid field text) | some d ↦ ok d ])

-- `mapTarget`
pub map_target : (String → Option ℤ) → TargetFile → Result TargetConfig
map_target parse tf = and_then (parse_duration parse tf.defaults.warmup "warmup") (λ (warmup : ℤ).
    and_then (parse_duration parse tf.defaults.duration "duration") (λ (duration : ℤ). ok (record {
      target = tf.target;
      image = tf.image;
      version = tf.version;
      defaults = record {
        connections = tf.defaults.connections;
        warmup = warmup;
        duration = duration;
      };
      cluster = tf.cluster;
      capabilities = tf.capabilities;
    })))

-- `RunMode`
pub data RunMode : Type 0 where
  performance correctness : RunMode

abbrev pub valid_modes : Dict String RunMode
valid_modes = ("performance", performance) ∷ ("correctness", correctness) ∷ []

-- A key distribution keeps its text.
abbrev pub valid_dists : Dict String String
valid_dists =
    ("uniform", "uniform")
    ∷ ("zipfian", "zipfian")
    ∷ ("latest", "latest")
    ∷ ("sequential", "sequential")
    ∷ []

abbrev pub valid_models : Dict String VerifyModel
valid_models =
    ("", verify_none)
    ∷ ("reconciliation", reconciliation)
    ∷ ("register", register)
    ∷ ("list-append", list_append)
    ∷ ("kafka-log", kafka_log)
    ∷ []

-- `workloadFile`
pub record WorkloadFile : Type 0 where
  pub name : String
  pub mode : String
  pub key_space : ℤ
  pub key_dist : String
  pub value_size : ℤ
  pub verify_model : String
  pub operations : List OpSpec
  pub params : Dict String Param

-- domain.Workload, with the fields that the generator reads in `spec`.
pub record Loaded : Type 0 where
  pub name : String
  pub mode : RunMode
  pub verify_model : VerifyModel
  pub spec : Workload

abbrev pub valid : {A : Type 0} → String → String → Dict String A → Result A
valid field text m = elim (lookup text m) [ none ↦ err (invalid field text) | some a ↦ ok a ]

-- `mapWorkload`
pub map_workload : WorkloadFile → Result Loaded
unfolding lookup
map_workload wf = and_then (valid "mode" wf.mode valid_modes) (λ (mode : RunMode).
    and_then (valid "key_dist" wf.key_dist valid_dists) (λ (dist : String).
      and_then (valid "verify_model" wf.verify_model valid_models) (λ (model : VerifyModel).
        ok (record {
          name = wf.name;
          mode = mode;
          verify_model = model;
          spec = record {
            operations = wf.operations;
            key_space = wf.key_space;
            key_dist = dist;
            value_size = wf.value_size;
            params = wf.params;
          };
        }))))
