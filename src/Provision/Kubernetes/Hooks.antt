-- ===== src/Provision/Kubernetes/Hooks.antt =====
-- core/provision/k8s/hooks.go, with the probe of render.go: what is known of each target.
use proofload_sh.Prelude.{ℕ, Bool, true, false, List, [], ◌∷◌, String, codes}
use proofload_sh.Provision.{Text, EnvEntry}

-- `probe`
pub record Probe : Type 0 where
  pub exec : List String
  pub tcp_port : ℕ
  pub initial_delay : ℕ
  pub period : ℕ

-- `targetHook`
pub record TargetHook : Type 0 where
  pub known : Bool
  pub default_image : Text
  pub port_name : String
  pub container_port : ℕ
  pub env : List EnvEntry
  pub readiness : Probe

abbrev pub generic_hook : TargetHook
generic_hook = record {
  known = false;
  default_image = [];
  port_name = "tcp";
  container_port = 8080;
  env = [];
  readiness = record { exec = []; tcp_port = 8080; initial_delay = 5; period = 5 };
}

abbrev pub hooks : List (String × TargetHook)
hooks =
    (
      "postgresql",
      record {
        known = true;
        default_image = codes "postgres";
        port_name = "postgres";
        container_port = 5432;
        env =
            ("POSTGRES_PASSWORD", "proofload")
            ∷ ("POSTGRES_USER", "proofload")
            ∷ ("POSTGRES_DB", "proofload")
            ∷ [];
        readiness = record {
          exec = "pg_isready" ∷ "-U" ∷ "proofload" ∷ [];
          tcp_port = 0;
          initial_delay = 10;
          period = 5;
        };
      },
    )
    ∷ (
      "redis",
      record {
        known = true;
        default_image = codes "redis";
        port_name = "redis";
        container_port = 6379;
        env = [];
        readiness = record {
          exec = "redis-cli" ∷ "ping" ∷ [];
          tcp_port = 0;
          initial_delay = 5;
          period = 5;
        };
      },
    )
    ∷ (
      "cassandra",
      record {
        known = true;
        default_image = codes "cassandra";
        port_name = "cql";
        container_port = 9042;
        env = [];
        readiness = record {
          exec = "cqlsh" ∷ "-e" ∷ "describe cluster" ∷ [];
          tcp_port = 0;
          initial_delay = 30;
          period = 10;
        };
      },
    )
    ∷ (
      "kafka",
      record {
        known = true;
        default_image = codes "kafka";
        port_name = "kafka";
        container_port = 9092;
        env = [];
        readiness = record { exec = []; tcp_port = 9092; initial_delay = 15; period = 10 };
      },
    )
    ∷ []
