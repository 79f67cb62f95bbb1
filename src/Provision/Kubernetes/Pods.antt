-- ===== src/Provision/Kubernetes/Pods.antt =====
-- The pods that are found later are the nodes that were reported first.
use proofload_sh.Prelude.{
  true, false, ℕ, zero, suc, ◌+◌, ◌<◌, ◌≡◌, refl, ap, ◌∙◌, inl, arith, none, some, List, [], ◌∷◌,
  map, All, All-mono, get_or, pos, negsuc, decimal, Bool,
}
use proofload_sh.Machine.{two63}
use proofload_sh.Provision.{
  NodeRole, primary, replica, ClusterNode, ClusterTopology, role_for, generic, hook_for,
  nodes_wanted,
}
use proofload_sh.Provision.Text.{atoi, after_last-append, atoi-decimal, decimal-apart}
use proofload_sh.Provision.Kubernetes.{
  ManifestModel, build_model, pod_name, pod_ordinal, node_of, nodes_from, nodes, nodes_from_pods,
  roles_from, hooks, generic_hook,
}

-- The ordinal is read back from the name of a pod, whatever dashes the topology's name has.
pub pod_ordinal-pod_name :
    (m : ManifestModel) (i : ℕ) → i < two63 → pod_ordinal (pod_name m i) ≡ pos i
unfolding pod_ordinal pod_name
pod_ordinal-pod_name m i h =
    ap
      (λ o. elim o [
        | none ↦ negsuc 0
        | some digits ↦ elim (atoi digits) [ none ↦ negsuc 0 | some n ↦ n ]
      ])
      (after_last-append 45 m.name (decimal i) (decimal-apart 45 i (inl (omega arith))))
    ∙ ap (λ o. elim o [ none ↦ negsuc 0 | some n ↦ n ]) (atoi-decimal i h)

-- The node of pod i.
abbrev pub node_at : ManifestModel → ℕ → ClusterNode
node_at m i = node_of m (pod_name m i) (pos i)

-- The pods from i on.
abbrev pub upto : ℕ → ℕ → List ℕ
upto i zero = []
upto i (suc n) = i ∷ upto (suc i) n

nodes_from-upto : (m : ManifestModel) (i n : ℕ) → nodes_from m i n ≡ map (node_at m) (upto i n)
unfolding nodes_from
nodes_from-upto m i zero = refl
nodes_from-upto m i (suc n) = ap (λ l. node_at m i ∷ l) (nodes_from-upto m (suc i) n)

nodes_from_pods-named :
    (m : ManifestModel) (is : List ℕ)
    → All (λ i. i < two63) is
    → nodes_from_pods m (map (pod_name m) is) ≡ map (node_at m) is
unfolding nodes_from_pods
nodes_from_pods-named m [] h = refl
nodes_from_pods-named m (i ∷ is) h =
    ap (λ o. node_of m (pod_name m i) o ∷ nodes_from_pods m (map (pod_name m) is))
      (pod_ordinal-pod_name m i h.0)
    ∙ ap (λ l. node_at m i ∷ l) (nodes_from_pods-named m is h.1)

get_or-roles_from :
    (known : Bool) (i n j : ℕ)
    → j < n
    → get_or (roles_from known i n) j generic ≡ role_for known (i + j)
unfolding roles_from
get_or-roles_from known i zero j h = absurd (omega (arith, h))
get_or-roles_from known i (suc n) zero h = ap (role_for known) (omega arith)
get_or-roles_from known i (suc n) (suc j) h =
    get_or-roles_from known (suc i) n j (omega (arith, h)) ∙ ap (role_for known) (omega arith)

-- The role of the node of an ordinal.
abbrev pub role_at : (known : Bool) → ℕ → NodeRole
role_at false i = generic
role_at true zero = primary
role_at true (suc i) = replica

role_for-role_at : (known : Bool) (i : ℕ) → role_for known i ≡ role_at known i
unfolding role_for
role_for-role_at false i = refl
role_for-role_at true zero = refl
role_for-role_at true (suc i) = ground arith

-- The pods that are found later, in any order and perhaps not all of them, have the roles and the
-- endpoints of the nodes that bring-up reported: bring-up reports the nodes of the ordinals from 0 up to
-- the number of nodes, at least one, and the listing gives the node of each ordinal it lists; pod 0 of a
-- known target is the primary and the others are replicas, and those of other targets are generic. The ordinals that
-- are listed are in the topology, and its number of nodes fits an int.
pub nodes_from_pods-nodes :
    (t : ClusterTopology) (listed : List ℕ)
    → All (λ i. i < nodes_wanted t) listed
    → nodes_wanted t < two63
    → let m = build_model t in
      (nodes m ≡ map (node_at m) (upto 0 (nodes_wanted t)))
      × (nodes_from_pods m (map (pod_name m) listed) ≡ map (node_at m) listed)
      × All
          (λ i. (node_at m i).role ≡ role_at ((hook_for hooks generic_hook t.target).known) i)
          listed
unfolding nodes build_model
nodes_from_pods-nodes t listed h fits =
    let m = build_model t in
    (
      nodes_from-upto m 0 (nodes_wanted t),
      nodes_from_pods-named m listed (
          All-mono (λ i. i < nodes_wanted t) (λ i. i < two63) (λ i k. omega (arith, k, fits)) listed
            h),
      All-mono (λ i. i < nodes_wanted t)
          (λ i. (node_at m i).role ≡ role_at ((hook_for hooks generic_hook t.target).known) i)
          (λ i k.
            let known = (hook_for hooks generic_hook t.target).known in
            get_or-roles_from known 0 (nodes_wanted t) i k
            ∙ ap (role_for known) (omega arith)
            ∙ role_for-role_at known i)
          listed h,
    )
