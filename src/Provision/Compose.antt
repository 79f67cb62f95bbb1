-- ===== src/Provision/Compose.antt =====
-- core/provision/compose: render.go, docker.go and compose.go. `docker` is the answers to its calls, and
-- the decoding of its JSON is an argument; the YAML text of the project is not modelled, only the model it
-- is rendered from.
use proofload_sh.Prelude.{
  ℕ, zero, suc, ◌+◌, Bool, true, false, ◌&&◌, ◌||◌, Option, none, some, ◌>>=◌, List, [], ◌∷◌, ◌++◌,
  map, if◌then◌else◌, eqb, eq_codes, Eq, String, ◌==◌, ℤ, pos, negsuc, ltb_ℤ, eqb_ℤ, codes, decimal,
  format_int, length, Dict, lookup, insert,
}
use proofload_sh.Provision.{
  Text, text_eq, NodeRole, ControlEndpoint, control_docker, ClusterNode, ClusterSpec,
  ClusterTopology, ResourceSpec, resolve_image, role_for, EnvEntry, sorted_env, hook_for, is_empty,
  nodes_wanted,
}
use proofload_sh.Provision.Text.{after_last, parse_port, trim_space}
pub mod Hooks
pub use Hooks.{Health, TargetHook, generic_hook, hooks}
pub mod Services
pub mod Ports
pub mod Waiting
pub mod Bundle
pub mod Provisioner

-- `serviceModel`
pub record ServiceModel : Type 0 where
  pub key : Text
  pub image : Text
  pub container_name : Text
  pub role : NodeRole
  pub host_port : ℕ
  pub container_port : ℕ
  pub env : List EnvEntry
  pub health : Option Health
  pub volume : Text
  pub volume_path : Text
  pub cpu_limit : Text
  pub mem_limit : Text

-- `projectModel`
pub record ProjectModel : Type 0 where
  pub project : Text
  pub services : List ServiceModel
  pub volumes : List Text

-- `projectName`
unfoldable pub project_name : ClusterTopology → Text
project_name t = codes "proofload-" ++ t.name

-- The name of node i.
unfoldable pub node_name : ClusterTopology → ℕ → Text
node_name t i = t.name ++ 45 ∷ decimal i

-- `buildService`
unfoldable pub build_service : ClusterTopology → TargetHook → ℕ → ServiceModel
unfolding node_name resolve_image role_for sorted_env
build_service t hook i = record {
  key = node_name t i;
  image = resolve_image t hook.default_image;
  container_name = node_name t i;
  role = role_for hook.known i;
  host_port = hook.base_port + i;
  container_port = hook.container_port;
  env = sorted_env hook.env;
  health = hook.health;
  volume = if is_empty hook.volume_path then [] else node_name t i ++ codes "-data";
  volume_path = hook.volume_path;
  cpu_limit = t.resources.cpu;
  mem_limit = t.resources.memory;
}

unfoldable pub services_from : ClusterTopology → TargetHook → ℕ → ℕ → List ServiceModel
unfolding build_service
services_from t hook i zero = []
services_from t hook i (suc n) = build_service t hook i ∷ services_from t hook (suc i) n

unfoldable pub volumes_of : List ServiceModel → List Text
volumes_of [] = []
volumes_of (s ∷ ss) =
    let rest = volumes_of ss in if is_empty s.volume then rest else s.volume ∷ rest

-- `buildModel`
unfoldable pub build_project : ClusterTopology → ProjectModel
unfolding hook_for services_from volumes_of project_name
build_project t =
    let services = services_from t (hook_for hooks generic_hook t.target) 0 (nodes_wanted t) in
    record { project = project_name t; services = services; volumes = volumes_of services }

-- What `docker` answers to a call: `none` is an error.
abbrev pub Docker : Type 0
Docker = List Text → Option Text

-- `composeArgs`
unfoldable pub compose_args : Text → Text → List Text → List Text
compose_args project file rest = codes "compose" ∷ codes "-p" ∷ project ∷ codes "-f" ∷ file ∷ rest

-- The port at the end of an answer, or another one.
unfoldable pub port_or : ℤ → Option Text → ℤ
unfolding after_last parse_port
port_or other none = other
port_or other (some out) = elim (after_last 58 out) [
  | none ↦ other
  | some digits ↦ let p = parse_port digits in if ltb_ℤ (pos 0) p then p else other
]

-- `resolvePort`
unfoldable pub resolve_port : Docker → Text → Text → ServiceModel → ℤ
unfolding port_or compose_args
resolve_port docker project file s =
    port_or (pos s.host_port)
      (docker (compose_args project file (codes "port" ∷ s.key ∷ decimal s.container_port ∷ [])))

-- `psEntry`
pub record PsEntry : Type 0 where
  pub name : Text
  pub service : Text
  pub state : Text
  pub health : Text

-- The lines of a text.
unfoldable pub lines : Text → List Text
lines [] = [] ∷ []
lines (c ∷ cs) = elim (eqb c 10) [
  | true ↦ [] ∷ lines cs
  | false ↦ elim (lines cs) [ [] ↦ (c ∷ []) ∷ [] | l ∷ ls ↦ (c ∷ l) ∷ ls ]
]

unfoldable pub parse_lines : (Text → Option PsEntry) → List Text → Option (List PsEntry)
unfolding trim_space
parse_lines decode [] = some []
parse_lines decode (l ∷ ls) =
    if is_empty (trim_space l)
    then parse_lines decode ls
    else (decode (trim_space l) >>= λ e. parse_lines decode ls >>= λ es. some (e ∷ es))

abbrev pub starts_array : Text → Bool
starts_array [] = false
starts_array (c ∷ cs) = eqb c 91

-- `parsePS`, over the decoders of an array of entries and of one entry
unfoldable pub parse_ps :
    (Text → Option (List PsEntry)) → (Text → Option PsEntry) → Text → Option (List PsEntry)
unfolding parse_lines lines trim_space
parse_ps decode_array decode raw =
    let text = trim_space raw in
    if is_empty text
    then some []
    else if starts_array text
    then decode_array text
    else parse_lines decode (lines text)

-- The entries by their service; the last of a service counts.
unfoldable pub by_service : List PsEntry → Dict Text PsEntry → Dict Text PsEntry
by_service [] m = m
by_service (e ∷ es) m = by_service es (insert e.service e m)

-- A node behind a port of the host.
unfoldable pub host_node : Text → NodeRole → ℤ → ClusterNode
host_node name role port = record {
  id = name;
  role = role;
  client = codes "127.0.0.1:" ++ format_int port;
  control = record { method = control_docker; ref = name; namespace = [] };
}

-- `nodesFromPS`
unfoldable pub nodes_from_services :
    Docker → Text → Text → Dict Text PsEntry → List ServiceModel → List ClusterNode
unfolding host_node resolve_port
nodes_from_services docker project file entries [] = []
nodes_from_services docker project file entries (s ∷ ss) =
    let rest = nodes_from_services docker project file entries ss in
    elim (lookup s.key entries) [
      | none ↦ rest
      | some e ↦ host_node e.name s.role (resolve_port docker project file s) ∷ rest
    ]

unfoldable pub nodes_from_ps : Docker → ProjectModel → Text → List PsEntry → List ClusterNode
unfolding nodes_from_services by_service
nodes_from_ps docker m file entries =
    nodes_from_services docker m.project file (by_service entries []) m.services

-- `spec`
unfoldable pub spec : Docker → ClusterTopology → ProjectModel → Text → ClusterSpec
unfolding host_node resolve_port
spec docker t m file = record {
  nodes =
      map (λ s. host_node s.container_name s.role (resolve_port docker m.project file s))
        m.services;
  replication_factor =
      if eqb_ℤ t.replication_factor (pos 0) then pos (length m.services) else t.replication_factor;
}
