-- ===== src/Provision/Examples.antt =====
-- The theorems on provisioning at a concrete topology.
use proofload_sh.Prelude.{
  ℕ, ◌≡◌, ◌≢◌, ◌↔◌, arith, true, false, some, List, [], ◌∷◌, map, All, get_elem?, codes, pos,
  length,
}
use proofload_sh.Provision.{ClusterTopology, hook_for}
use proofload_sh.Provision.Kubernetes.{
  build_model, nodes, nodes_from_pods, pod_name, hooks, generic_hook,
}
use proofload_sh.Provision.Kubernetes.Pods.{role_at, node_at, upto, nodes_from_pods-nodes}
use proofload_sh.Provision.Compose.{ServiceModel, build_project}
use proofload_sh.Provision.Compose.Services.{Clash, build_project-Clash}
use proofload_sh.Provision.Compose.Waiting.{
  HealthPoll, healthy, waiting, wait_healthy, InTime, wait_healthy-healthy,
}

-- Three nodes of Redis.
abbrev three_nodes : ClusterTopology
three_nodes = record {
  name = codes "bench-1";
  target = "redis";
  image = [];
  version = codes "7";
  node_count = pos 3;
  replication_factor = pos 0;
  resources = record { cpu = []; memory = codes "1g" };
  bundle = [];
}

nodes_from_pods-nodes_example :
    let m = build_model three_nodes in
    (nodes m ≡ map (node_at m) (upto 0 3))
    × (nodes_from_pods m (map (pod_name m) (2 ∷ 0 ∷ [])) ≡ map (node_at m) (2 ∷ 0 ∷ []))
    × All
        (λ i. (node_at m i).role ≡ role_at ((hook_for hooks generic_hook "redis").known) i)
        (2 ∷ 0 ∷ [])
nodes_from_pods-nodes_example =
    nodes_from_pods-nodes three_nodes (2 ∷ 0 ∷ []) (ground arith) (omega arith)

build_project-Clash_example :
    (length (build_project three_nodes).services ≡ 3)
    × ((i j : ℕ) (s r : ServiceModel)
        → get_elem? (build_project three_nodes).services i ≡ some s
        → get_elem? (build_project three_nodes).services j ≡ some r
        → Clash s r
        → i ≡ j)
build_project-Clash_example = build_project-Clash three_nodes

-- The containers start at first, and are healthy at the second poll.
abbrev two_polls : List HealthPoll
two_polls =
    record { inspect = λ name. some (codes "starting"); late = false; cancelled = false }
    ∷ record { inspect = λ name. some (codes "healthy"); late = true; cancelled = false }
    ∷ []

wait_healthy-healthy_example :
    ((wait_healthy (build_project three_nodes) two_polls ≡ healthy)
      ↔ InTime (build_project three_nodes) two_polls)
    × ((k : ℕ) (p : HealthPoll)
        → get_elem? two_polls k ≡ some p
        → p.late ≡ true
        → wait_healthy (build_project three_nodes) two_polls ≢ waiting)
wait_healthy-healthy_example = wait_healthy-healthy (build_project three_nodes) two_polls
