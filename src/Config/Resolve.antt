-- ===== src/Config/Resolve.antt =====
-- core/config/resolve.go: the layers of a run's settings, and what they make together. The environment is an
-- argument, as the entries that `envProvider` makes of it; so are the decoded target and workload files.
pub mod Precedence
pub mod Examples
use proofload_sh.Prelude.{
  ◌≡◌, Bool, true, false, not, Option, none, some, List, [], ◌∷◌, if◌then◌else◌, ℤ, pos, ltb_ℤ,
  String, ◌==◌, Dict, lookup, string_eq,
}
use proofload_sh.Schedule.{RateSpec, fixed, max_rate}
use proofload_sh.Config.{
  Error, unreadable, no_environment, Result, ok, err, and_then, TargetConfig, TargetFile,
  map_target, WorkloadFile, Loaded, map_workload,
}

-- A value that the code puts into a layer.
pub data Value : Type 0 where
  number : ℤ → Value
  text : String → Value
  texts : List String → Value

-- What the code uses of koanf: New, Load of a map, of a file and of the environment, Set, and the readers.
pub record Koanf : Type 1 where
  pub Store : Type 0
  pub new_store : Store
  pub load_map : Dict String Value → Store → Store
  pub load_file : String → Store → Option Store
  pub set : String → Value → Store → Store
  pub get : String → Store → Option Value
  pub as_number : Option Value → ℤ
  pub as_text : Option Value → String
  pub as_texts : Option Value → List String

-- What koanf documents: a later load or set overrides an earlier one, key by key.
abbrev pub or_else {ℓ} : {A : Type ℓ} → Option A → Option A → Option A
or_else none b = b
or_else (some a) b = some a

pub record StoreLaws (lib : Koanf) : Type 0 where
  pub get-new_store : (k : String) → lib.get k lib.new_store ≡ none
  pub get-load_map :
      (k : String) (m : Dict String Value) (s : lib.Store)
      → lib.get k (lib.load_map m s) ≡ or_else (lookup k m) (lib.get k s)
  pub get-set :
      (k i : String) (v : Value) (s : lib.Store)
      → lib.get k (lib.set i v s) ≡ (if i == k then some v else lib.get k s)

-- `ResolveOptions`, with the contents of the two files in place of their paths.
pub record ResolveOptions : Type 0 where
  pub global_path : String
  pub endpoints : List String
  pub consistency : String
  pub overrides : Dict String Value

-- `settings`
pub record Settings : Type 0 where
  pub connections : ℤ
  pub duration : ℤ
  pub warmup : ℤ
  pub consistency : String
  pub endpoints : List String
  pub rate : Option RateSpec

-- The cluster, the topology, the driver's configuration and the manifest of `Resolved`.
pub record Topology : Type 0 where
  pub name : String
  pub backend : String
  pub target : String
  pub image : String
  pub version : String
  pub nodes : ℤ
  pub replication_factor : ℤ

pub record Resolved : Type 0 where
  pub workload : Loaded
  pub topology : Topology
  pub target : String
  pub target_version : String
  pub replication_factor : ℤ
  pub levels : List String
  pub settings : Settings

abbrev pub first_of : List String → Option String
first_of [] = none
first_of (x ∷ xs) = some x

abbrev pub is_empty {ℓ} : {A : Type ℓ} → List A → Bool
is_empty [] = true
is_empty (x ∷ xs) = false

-- `buildTopology`
pub build_topology : TargetConfig → Topology
build_topology t = record {
  name = t.target;
  backend = t.cluster.backend;
  target = t.target;
  image = t.image;
  version = t.version;
  nodes = t.cluster.nodes;
  replication_factor = t.cluster.replication_factor;
}

module _ (lib : Koanf) where
  open lib use {Store, new_store, load_map, load_file, set, get, as_number, as_text, as_texts}

  -- The target's layer.
  abbrev pub target_layer : TargetConfig → Store → Store
  target_layer t s =
      let loaded =
        load_map
          (("connections", number t.defaults.connections)
            ∷ ("duration", number t.defaults.duration)
            ∷ ("warmup", number t.defaults.warmup)
            ∷ [])
          s in
      elim (first_of t.cluster.consistency) [
        | none ↦ loaded
        | some level ↦ set "consistency" (text level) loaded
      ]

  -- The flags that are options of their own.
  abbrev pub flag_layer : ResolveOptions → Store → Store
  flag_layer o s =
      let leveled = if o.consistency == "" then s else set "consistency" (text o.consistency) s in
      if is_empty o.endpoints then leveled else set "endpoints" (texts o.endpoints) leveled

  abbrev pub override_layer : ResolveOptions → Store → Store
  override_layer o s = if is_empty o.overrides then s else load_map o.overrides s

  -- `readSettings`: `none` is the zero rate.
  pub read_settings : Store → Settings
  read_settings s =
      let ops = as_number (get "ops_per_sec" s) in
      record {
        connections = as_number (get "connections" s);
        duration = as_number (get "duration" s);
        warmup = as_number (get "warmup" s);
        consistency = as_text (get "consistency" s);
        endpoints = as_texts (get "endpoints" s);
        rate =
            if ltb_ℤ (pos 0) ops then some (record { mode = fixed; ops_per_sec = ops }) else none;
      }

  -- The first layer of `resolveSettings`.
  abbrev pub global_layer : ResolveOptions → Result Store
  global_layer o =
      if o.global_path == "" then ok new_store else (elim (load_file o.global_path new_store) [
        | none ↦ err (unreadable o.global_path)
        | some s ↦ ok s
      ])

  -- `resolveSettings`: an environment of `none` is one that could not be read.
  pub resolve_settings :
      ResolveOptions → TargetConfig → Option (Dict String Value) → Result Settings
  unfolding read_settings
  resolve_settings o t env = and_then (global_layer o) (λ (global : Store).
      let flagged = flag_layer o (target_layer t global) in
      (elim env [
        | none ↦ err no_environment
        | some vars ↦ ok (read_settings (override_layer o (load_map vars flagged)))
      ]))

  -- `Resolve`: a file of `none` is one that could not be read.
  pub resolve :
      (parse : String → Option ℤ)
      → (target_file : Option TargetFile) → (workload_file : Option WorkloadFile)
      → Option (Dict String Value)
      → ResolveOptions
      → Result Resolved
  unfolding resolve_settings build_topology
  resolve parse none workload_file env o = err (unreadable "target")
  resolve parse (some tf) workload_file env o =
      and_then (map_target parse tf) (λ (t : TargetConfig).
        and_then
          (elim workload_file [ none ↦ err (unreadable "workload") | some wf ↦ map_workload wf ])
          (λ (w : Loaded). and_then (resolve_settings o t env) (λ (s : Settings). ok (record {
            workload = w;
            topology = build_topology t;
            target = t.target;
            target_version = t.version;
            replication_factor = t.cluster.replication_factor;
            levels = t.cluster.consistency;
            settings = s;
          }))))
