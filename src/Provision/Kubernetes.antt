-- ===== src/Provision/Kubernetes.antt =====
-- core/provision/k8s: render.go, k8s.go and kubectl.go. `kubectl` is the answers to its calls, and the
-- decoding of its JSON is an argument; the YAML text of the manifest is not modelled, only the model it is
-- rendered from.
use proofload_sh.Prelude.{
  ℕ, zero, suc, ◌+◌, Bool, true, false, ◌&&◌, Option, none, some, List, [], ◌∷◌, ◌++◌, map,
  if◌then◌else◌, ◌>>=◌, get_or, get_elem?, ltb, leb, eqb, String, ℤ, pos, negsuc, ltb_ℤ, leb_ℤ,
  eqb_ℤ, codes, decimal, format_int, length,
}
use proofload_sh.Provision.{
  Text, NodeRole, generic, ControlEndpoint, control_k8s, ClusterNode, ClusterSpec, ClusterTopology,
  ResourceSpec, resolve_image, role_for, EnvEntry, sorted_env, hook_for, is_empty, nodes_wanted,
}
use proofload_sh.Provision.Text.{after_last, atoi, trim_space}
pub mod Hooks
pub use Hooks.{Probe, TargetHook, generic_hook, hooks}
pub mod Pods

-- `manifestModel`
pub record ManifestModel : Type 0 where
  pub name : Text
  pub namespace : Text
  pub container : Text
  pub image : Text
  pub replicas : ℕ
  pub port_name : String
  pub container_port : ℕ
  pub env : List EnvEntry
  pub readiness : Probe
  pub cpu_limit : Text
  pub mem_limit : Text
  pub roles : List NodeRole

unfoldable pub namespace_for : ClusterTopology → Text
namespace_for t = codes "proofload-" ++ t.name

-- The roles of n nodes from node i on.
unfoldable pub roles_from : Bool → ℕ → ℕ → List NodeRole
unfolding role_for
roles_from known i zero = []
roles_from known i (suc n) = role_for known i ∷ roles_from known (suc i) n

-- `buildModel`
unfoldable pub build_model : ClusterTopology → ManifestModel
unfolding hook_for resolve_image sorted_env roles_from namespace_for
build_model t =
    let hook = hook_for hooks generic_hook t.target in
    record {
      name = t.name;
      namespace = namespace_for t;
      container = t.name;
      image = resolve_image t hook.default_image;
      replicas = nodes_wanted t;
      port_name = hook.port_name;
      container_port = hook.container_port;
      env = sorted_env hook.env;
      readiness = hook.readiness;
      cpu_limit = t.resources.cpu;
      mem_limit = t.resources.memory;
      roles = roles_from hook.known 0 (nodes_wanted t);
    }

-- `podName`
unfoldable pub pod_name : ManifestModel → ℕ → Text
pod_name m i = m.name ++ 45 ∷ decimal i

-- `resolveClient`
unfoldable pub resolve_client : ManifestModel → Text → Text
resolve_client m pod =
    pod
    ++ codes "."
    ++ m.name
    ++ codes "."
    ++ m.namespace
    ++ codes ".svc.cluster.local:"
    ++ decimal m.container_port

-- `controlFor`
unfoldable pub control_for : ManifestModel → Text → ControlEndpoint
control_for m pod = record { method = control_k8s; ref = pod; namespace = m.namespace }

-- `roleAt`
unfoldable pub role_at : ManifestModel → ℤ → NodeRole
role_at m (pos i) = get_or m.roles i generic
role_at m (negsuc i) = generic

-- The node of a pod with some ordinal.
unfoldable pub node_of : ManifestModel → Text → ℤ → ClusterNode
unfolding role_at resolve_client control_for
node_of m pod ordinal = record {
  id = pod;
  role = role_at m ordinal;
  client = resolve_client m pod;
  control = control_for m pod;
}

-- The loop of `nodes`, from pod i on.
unfoldable pub nodes_from : ManifestModel → ℕ → ℕ → List ClusterNode
unfolding node_of pod_name
nodes_from m i zero = []
nodes_from m i (suc n) = node_of m (pod_name m i) (pos i) ∷ nodes_from m (suc i) n

-- `nodes`
unfoldable pub nodes : ManifestModel → List ClusterNode
unfolding nodes_from
nodes m = nodes_from m 0 m.replicas

-- `podOrdinal`
unfoldable pub pod_ordinal : Text → ℤ
unfolding after_last atoi
pod_ordinal name = elim (after_last 45 name) [
  | none ↦ negsuc 0
  | some digits ↦ elim (atoi digits) [ none ↦ negsuc 0 | some n ↦ n ]
]

-- `nodesFromPods`, over the names of the pods
unfoldable pub nodes_from_pods : ManifestModel → List Text → List ClusterNode
unfolding node_of pod_ordinal
nodes_from_pods m pods = map (λ pod. node_of m pod (pod_ordinal pod)) pods

-- `parsePods`, over the decoder of a list of pods; `none` is an error.
unfoldable pub parse_pods : (Text → Option (List Text)) → Text → Option (List Text)
unfolding trim_space
parse_pods decode raw = let text = trim_space raw in if is_empty text then some [] else decode text

-- `spec`
unfoldable pub spec : ClusterTopology → ManifestModel → ClusterSpec
unfolding nodes
spec t m = record {
  nodes = nodes m;
  replication_factor =
      if eqb_ℤ t.replication_factor (pos 0) then pos m.replicas else t.replication_factor;
}

-- What `kubectl` answers to a call: `none` is an error.
abbrev pub Kubectl : Type 0
Kubectl = List Text → Option Text

-- `Up`, after the manifest is written to a file, if it could be
unfoldable pub up : Kubectl → (file : Option Text) → ClusterTopology → Option ClusterSpec
unfolding build_model spec
up kubectl none t = none
up kubectl (some file) t =
    let m = build_model t in
    kubectl (codes "apply" ∷ codes "-f" ∷ file ∷ []) >>= λ applied.
    kubectl (
      codes "rollout"
      ∷ codes "status"
      ∷ (codes "statefulset/" ++ m.name)
      ∷ codes "-n"
      ∷ m.namespace
      ∷ codes "--timeout=3m0s"
      ∷ [])
    >>= λ rolled. some (spec t m)

-- `Down`: whether the namespace is deleted.
unfoldable pub down : Kubectl → ClusterTopology → Option Text
unfolding namespace_for
down kubectl t =
    kubectl (codes "delete" ∷ codes "namespace" ∷ namespace_for t ∷ codes "--ignore-not-found" ∷ [])

-- `Nodes`
unfoldable pub live_nodes :
    Kubectl → (Text → Option (List Text)) → ClusterTopology → Option (List ClusterNode)
unfolding build_model parse_pods nodes_from_pods
live_nodes kubectl decode t =
    let m = build_model t in
    kubectl (
      codes "get"
      ∷ codes "pods"
      ∷ codes "-n"
      ∷ m.namespace
      ∷ codes "-l"
      ∷ (codes "app=" ++ m.name)
      ∷ codes "-o"
      ∷ codes "json"
      ∷ [])
    >>= λ raw. parse_pods decode raw >>= λ pods. some (nodes_from_pods m pods)
