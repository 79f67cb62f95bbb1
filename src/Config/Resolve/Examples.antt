-- ===== src/Config/Resolve/Examples.antt =====
-- The theorem on the layers with a store that is a list of entries, the strongest first.
use proofload_sh.Prelude.{
  ◌≡◌, refl, arith, Option, none, some, List, [], ◌∷◌, ◌++◌, ℤ, pos, String, Dict, lookup,
  string_eq,
}
use proofload_sh.Config.{ok, TargetConfig}
use proofload_sh.Config.Resolve.{
  Value, number, text, texts, Koanf, StoreLaws, or_else, ResolveOptions, Settings, resolve_settings,
}
use proofload_sh.Config.Resolve.Precedence.{layered, rate_of, resolve_settings-layered}

abbrev number_of : Option Value → ℤ
number_of (some (number n)) = n
number_of _ = pos 0

abbrev text_of : Option Value → String
text_of (some (text s)) = s
text_of _ = ""

abbrev texts_of : Option Value → List String
texts_of (some (texts xs)) = xs
texts_of _ = []

abbrev entries : Koanf
entries = record {
  Store = Dict String Value;
  new_store = [];
  load_map = λ m s. m ++ s;
  load_file = λ path s. none;
  set = λ k v s. (k, v) ∷ s;
  get = λ k s. lookup k s;
  as_number = number_of;
  as_text = text_of;
  as_texts = texts_of;
}

lookup-append :
    (k : String) (m s : Dict String Value) → lookup k (m ++ s) ≡ or_else (lookup k m) (lookup k s)
unfolding lookup
lookup-append k [] s = refl
lookup-append k ((i, v) ∷ m) s = let rest = lookup-append k m s in ground (arith, rest)

entries-StoreLaws : StoreLaws entries
unfolding lookup
entries-StoreLaws = record {
  get-new_store = λ k. refl;
  get-load_map = lookup-append;
  get-set = λ k i v s. refl;
}

abbrev target : TargetConfig
target = record {
  target = "db";
  image = "db:1";
  version = "1";
  defaults = record { connections = pos 8; warmup = pos 5; duration = pos 60 };
  cluster = record {
    backend = "compose";
    nodes = pos 3;
    replication_factor = pos 3;
    consistency = "quorum" ∷ "one" ∷ [];
  };
  capabilities = record { verify_models = []; faults = [] };
}

abbrev options : ResolveOptions
options = record {
  global_path = "";
  endpoints = "a:1" ∷ [];
  consistency = "one";
  overrides = ("duration", number (pos 30)) ∷ ("ops_per_sec", number (pos 100)) ∷ [];
}

abbrev vars : Dict String Value
vars =
    ("duration", number (pos 45))
    ∷ ("warmup", number (pos 1))
    ∷ ("consistency", text "quorum")
    ∷ ("endpoints", texts ("b:2" ∷ []))
    ∷ []

resolve_settings-layered_example :
    let value = layered options target vars (λ k. none) in
    (s : Settings) × (resolve_settings entries options target (some vars) ≡ ok s)
    × (s.connections ≡ number_of (value "connections"))
    × (s.duration ≡ number_of (value "duration"))
    × (s.warmup ≡ number_of (value "warmup"))
    × (s.consistency ≡ text_of (value "consistency"))
    × (s.endpoints ≡ texts_of (value "endpoints"))
    × (s.rate ≡ rate_of (number_of (value "ops_per_sec")))
unfolding lookup
resolve_settings-layered_example =
    resolve_settings-layered entries entries-StoreLaws options target vars [] refl
