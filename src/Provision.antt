-- ===== src/Provision.antt =====
-- core/domain/cluster.go, and what the two provisioners of core/provision share: the image and the role of a
-- node, the order of its environment, and texts, which are their code points.
use proofload_sh.Prelude.{
  ℕ, zero, suc, pos, negsuc, Eq, eq_codes, eq_codes_iff, Bool, true, false, Option, none, some,
  List, [], ◌∷◌, ◌++◌, if◌then◌else◌, eqb, String, ◌==◌, string_eq, ℤ, codes, is_some,
}
use proofload_sh.Prelude.Sort.{sort_stable, less_text}
pub mod Text
pub mod Compose
pub mod Kubernetes
pub mod Examples

abbrev pub Text : Type 0
Text = List ℕ

-- domain.NodeRole, for the roles that provisioners assign
pub data NodeRole : Type 0 where
  primary replica generic : NodeRole
  named : Text → NodeRole

-- domain.ControlMethod
pub data ControlMethod : Type 0 where
  control_k8s control_docker control_ssh control_none : ControlMethod

-- domain.ControlEndpoint
pub record ControlEndpoint : Type 0 where
  pub method : ControlMethod
  pub ref : Text
  pub namespace : Text

-- domain.Node
pub record ClusterNode : Type 0 where
  pub id : Text
  pub role : NodeRole
  pub client : Text
  pub control : ControlEndpoint

-- domain.ClusterSpec
pub record ClusterSpec : Type 0 where
  pub nodes : List ClusterNode
  pub replication_factor : ℤ

-- domain.ResourceSpec
pub record ResourceSpec : Type 0 where
  pub cpu : Text
  pub memory : Text

-- domain.Topology
pub record ClusterTopology : Type 0 where
  pub name : Text
  pub target : String
  pub image : Text
  pub version : Text
  pub node_count : ℤ
  pub replication_factor : ℤ
  pub resources : ResourceSpec
  pub bundle : Text

instance abbrev pub text_eq : Eq Text
text_eq = record { beq = eq_codes; beq_iff = eq_codes_iff }

abbrev pub is_empty : Text → Bool
is_empty [] = true
is_empty (c ∷ cs) = false

-- The nodes that a topology asks for, at least one.
abbrev pub nodes_wanted : ClusterTopology → ℕ
nodes_wanted t = elim t.node_count [ pos zero ↦ 1 | pos (suc n) ↦ suc n | negsuc n ↦ 1 ]

-- `resolveImage`
unfoldable pub resolve_image : ClusterTopology → (default_image : Text) → Text
resolve_image t default_image =
    let preferred = if is_empty t.image then default_image else t.image in
    let img = if is_empty preferred then codes t.target else preferred in
    if is_empty t.version then img else img ++ codes ":" ++ t.version

-- `roleFor`
unfoldable pub role_for : (known : Bool) → ℕ → NodeRole
role_for known i = if known then (if eqb i 0 then primary else replica) else generic

-- `kv`, an entry of an environment
abbrev pub EnvEntry : Type 0
EnvEntry = String × String

less_key : EnvEntry → EnvEntry → Bool
less_key a b = less_text a.0 b.0

-- `sortedEnv`: a sort by keys, of an environment whose keys differ.
unfoldable pub sorted_env : List EnvEntry → List EnvEntry
unfolding less_key
sorted_env env = sort_stable less_key env

-- `hookFor`: the hook of a target, or the generic one.
unfoldable pub hook_for : {H : Type 0} → List (String × H) → H → String → H
hook_for [] generic_hook target = generic_hook
hook_for ((k, h) ∷ hooks) generic_hook target =
    if k == target then h else hook_for hooks generic_hook target
