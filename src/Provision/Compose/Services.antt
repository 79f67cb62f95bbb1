-- ===== src/Provision/Compose/Services.antt =====
-- The services of a project.
use proofload_sh.Prelude.{
  ℕ, zero, suc, ◌+◌, ◌≡◌, refl, sym, ap, subst, ◌∙◌, arith, ◌⊎◌, inl, inr, some_injective, false,
  some, List, [], ◌∷◌, ◌++◌, if◌then◌else◌, get_elem?, length, codes, decimal, number_of,
}
use mathlib.Core.List.{append_cancel_left, append_cancel_right}
use proofload_sh.Prelude.Decimal.{number_of-decimal}
use proofload_sh.Provision.{Text, ClusterTopology, hook_for, is_empty, nodes_wanted}
use proofload_sh.Provision.Compose.{
  TargetHook, generic_hook, hooks, ServiceModel, node_name, build_service, services_from,
  build_project,
}

decimal_injective : (i j : ℕ) → decimal i ≡ decimal j → i ≡ j
decimal_injective i j e = sym (number_of-decimal i) ∙ ap (number_of 0) e ∙ number_of-decimal j

tail_of_list : List ℕ → List ℕ
tail_of_list [] = []
tail_of_list (c ∷ cs) = cs

node_name_injective : (t : ClusterTopology) (i j : ℕ) → node_name t i ≡ node_name t j → i ≡ j
unfolding node_name tail_of_list
node_name_injective t i j e =
    decimal_injective i j
      (ap tail_of_list (append_cancel_left t.name (45 ∷ decimal i) (45 ∷ decimal j) e))

get_elem?-services_from :
    (t : ClusterTopology) (hook : TargetHook) (i n k : ℕ) (s : ServiceModel)
    → get_elem? (services_from t hook i n) k ≡ some s
    → s ≡ build_service t hook (i + k)
unfolding services_from
get_elem?-services_from t hook i zero k s e = cc
get_elem?-services_from t hook i (suc n) zero s e =
    sym (some_injective (build_service t hook i) s e) ∙ ap (build_service t hook) (omega arith)
get_elem?-services_from t hook i (suc n) (suc k) s e =
    get_elem?-services_from t hook (suc i) n k s e ∙ ap (build_service t hook) (omega arith)

length-services_from :
    (t : ClusterTopology) (hook : TargetHook) (i n : ℕ) → length (services_from t hook i n) ≡ n
unfolding services_from
length-services_from t hook i zero = refl
length-services_from t hook i (suc n) = ap suc (length-services_from t hook (suc i) n)

-- Two services share a container's name, a host port or a volume.
abbrev pub Clash : ServiceModel → ServiceModel → Type 0
Clash s r =
    (s.container_name ≡ r.container_name)
    ⊎ (s.host_port ≡ r.host_port)
    ⊎ ((is_empty s.volume ≡ false) × (s.volume ≡ r.volume))

volume_injective :
    (path a b : Text)
    → is_empty (if is_empty path then [] else a ++ codes "-data") ≡ false
    → (if is_empty path then [] else a ++ codes "-data")
      ≡ (if is_empty path then [] else b ++ codes "-data")
    → a ≡ b
volume_injective [] a b h e = cc
volume_injective (c ∷ path) a b h e = append_cancel_right a b (codes "-data") e

service-Clash :
    (t : ClusterTopology) (hook : TargetHook) (i j : ℕ)
    → Clash (build_service t hook i) (build_service t hook j)
    → i ≡ j
unfolding build_service
service-Clash t hook i j (inl e) = node_name_injective t i j e
service-Clash t hook i j (inr (inl e)) = omega (arith, e)
service-Clash t hook i j (inr (inr (some_volume, e))) =
    node_name_injective t i j
      (volume_injective hook.volume_path (node_name t i) (node_name t j) some_volume e)

-- A project has as many services as its topology has nodes, at least one, and no two of them share the
-- name of a container, a host port or a volume.
pub build_project-Clash :
    (t : ClusterTopology)
    → (length (build_project t).services ≡ nodes_wanted t)
      × ((i j : ℕ) (s r : ServiceModel)
          → get_elem? (build_project t).services i ≡ some s
          → get_elem? (build_project t).services j ≡ some r
          → Clash s r
          → i ≡ j)
unfolding build_project
build_project-Clash t =
    let hook = hook_for hooks generic_hook t.target in
    (
      length-services_from t hook 0 (nodes_wanted t),
      λ i j s r e g c. service-Clash t hook i j (
          subst (λ q. Clash q (build_service t hook j))
            (get_elem?-services_from t hook 0 (nodes_wanted t) i s e
              ∙ ap (build_service t hook) (omega arith))
            (subst (Clash s)
              (get_elem?-services_from t hook 0 (nodes_wanted t) j r g
                ∙ ap (build_service t hook) (omega arith))
              c)),
    )
