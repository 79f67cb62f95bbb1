-- ===== src/Provision/Compose/Hooks.antt =====
-- core/provision/compose/hooks.go, with the health check of render.go: what is known of each target.
use proofload_sh.Prelude.{ℕ, Bool, true, false, Option, none, some, List, [], ◌∷◌, String, codes}
use proofload_sh.Provision.{Text, EnvEntry}

-- `health`
pub record Health : Type 0 where
  pub test : List String
  pub interval : String
  pub timeout : String
  pub retries : ℕ
  pub start_period : String

-- `targetHook`
pub record TargetHook : Type 0 where
  pub known : Bool
  pub default_image : Text
  pub container_port : ℕ
  pub base_port : ℕ
  pub env : List EnvEntry
  pub health : Option Health
  pub volume_path : Text

abbrev pub generic_hook : TargetHook
generic_hook = record {
  known = false;
  default_image = [];
  container_port = 8080;
  base_port = 18080;
  env = [];
  health = none;
  volume_path = [];
}

abbrev pub hooks : List (String × TargetHook)
hooks =
    (
      "postgresql",
      record {
        known = true;
        default_image = codes "postgres";
        container_port = 5432;
        base_port = 15432;
        env =
            ("POSTGRES_PASSWORD", "proofload")
            ∷ ("POSTGRES_USER", "proofload")
            ∷ ("POSTGRES_DB", "proofload")
            ∷ [];
        health = some (record {
          test = "CMD-SHELL" ∷ "pg_isready -U proofload" ∷ [];
          interval = "5s";
          timeout = "5s";
          retries = 10;
          start_period = "10s";
        });
        volume_path = codes "/var/lib/postgresql/data";
      },
    )
    ∷ (
      "redis",
      record {
        known = true;
        default_image = codes "redis";
        container_port = 6379;
        base_port = 16379;
        env = [];
        health = some (record {
          test = "CMD" ∷ "redis-cli" ∷ "ping" ∷ [];
          interval = "5s";
          timeout = "3s";
          retries = 10;
          start_period = "5s";
        });
        volume_path = codes "/data";
      },
    )
    ∷ []
