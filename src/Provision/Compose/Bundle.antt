-- ===== src/Provision/Compose/Bundle.antt =====
-- core/provision/compose/bundle.go: clusters that a target brings as a compose file, and the provisioner of
-- compose.go, which chooses between them and the rendered project.
use proofload_sh.Prelude.{
  ◌≡◌, refl, sym, ap, ◌∙◌, some_injective, inl, inr, arith, ◌↔◌, Bool, true, false, Bool-cases,
  Option, none, some, ◌>>=◌, List, [], ◌∷◌, map, All, if◌then◌else◌, ◌==◌, ℤ, pos, ltb_ℤ, codes,
  format_int, Dict, lookup,
}
use proofload_sh.Provision.{Text, text_eq, named, control_docker, ClusterNode, is_empty}
use proofload_sh.Provision.Compose.{
  Docker, PsEntry, compose_args, parse_ps, by_service, port_or, host_node,
}

-- `bundleNode`
pub record BundleNode : Type 0 where
  pub service : Text
  pub role : Text
  pub client_port : ℤ

-- `readBundleManifest`, over the text of the manifest and its decoder
unfoldable pub read_bundle_manifest :
    (Text → Option (List BundleNode)) → Option Text → Option (List BundleNode)
read_bundle_manifest decode none = none
read_bundle_manifest decode (some text) = decode text >>= some_nodes
  where
    some_nodes : List BundleNode → Option (List BundleNode)
    some_nodes [] = none
    some_nodes (n ∷ ns) = some (n ∷ ns)

-- `entryReady`
unfoldable pub entry_ready : PsEntry → Bool
entry_ready e =
    if is_empty e.health then e.state == codes "running" else e.health == codes "healthy"

-- `bundlePending`, once the entries are there
unfoldable pub bundle_pending : Dict Text PsEntry → List BundleNode → List Text
unfolding entry_ready
bundle_pending entries [] = []
bundle_pending entries (n ∷ ns) =
    let rest = bundle_pending entries ns in
    elim (lookup n.service entries) [
      | none ↦ n.service ∷ rest
      | some e ↦ if entry_ready e then rest else n.service ∷ rest
    ]

-- `resolveNamedPort`
unfoldable pub resolve_named_port : Docker → Text → Text → Text → ℤ → ℤ
unfolding port_or compose_args
resolve_named_port docker project file service container_port =
    port_or container_port
      (docker (compose_args project file (codes "port" ∷ service ∷ format_int container_port ∷ [])))

-- The name of a service's container, if docker lists one, and else the service's own.
unfoldable pub container_of : Dict Text PsEntry → Text → Text
container_of entries service = elim (lookup service entries) [
  | none ↦ service
  | some e ↦ if is_empty e.name then service else e.name
]

-- A node of a bundle: without a client port it has no client endpoint.
unfoldable pub bundle_node : Docker → Text → Text → Dict Text PsEntry → BundleNode → ClusterNode
unfolding resolve_named_port container_of host_node
bundle_node docker project file entries n =
    let name = container_of entries n.service in
    if ltb_ℤ (pos 0) n.client_port
    then host_node name (named n.role)
        (resolve_named_port docker project file n.service n.client_port)
    else record {
      id = name;
      role = named n.role;
      client = [];
      control = record { method = control_docker; ref = name; namespace = [] };
    }

-- `nodesBundle`
unfoldable pub nodes_bundle :
    Docker
    → (Text → Option (List PsEntry))
    → (Text → Option PsEntry)
    → Text
    → Text
    → List BundleNode
    → Option (List ClusterNode)
unfolding bundle_node parse_ps by_service compose_args
nodes_bundle docker decode_array decode project file manifest =
    docker (compose_args project file (codes "ps" ∷ codes "--format" ∷ codes "json" ∷ []))
    >>= λ raw. parse_ps decode_array decode raw >>= λ entries.
        some (map (bundle_node docker project file (by_service entries [])) manifest)

-- The services of a manifest are ready: docker lists an entry for each, and the last one is ready.
abbrev pub Ready : Dict Text PsEntry → BundleNode → Type 0
Ready entries n = (e : PsEntry) × (lookup n.service entries ≡ some e) × (entry_ready e ≡ true)

pending_with : List Text → Text → Option PsEntry → List Text
pending_with rest service none = service ∷ rest
pending_with rest service (some e) = if entry_ready e then rest else service ∷ rest

pending_with-Ready :
    (entries : Dict Text PsEntry) (n : BundleNode) (rest : List Text) (o : Option PsEntry)
    → lookup n.service entries ≡ o
    → (pending_with rest n.service o ≡ []) ↔ (Ready entries n × (rest ≡ []))
unfolding pending_with
pending_with-Ready entries n rest none l = (λ h. cc, λ h. absurd (ground (arith, h.0.1, l)))
pending_with-Ready entries n rest (some e) l = elim (Bool-cases (entry_ready e)) [
  | inl r ↦ (λ h. ((e, l, r), ground (arith, h, r)), λ h. ground (arith, h.1, r))
  | inr r ↦ (
    λ h. absurd (ground (arith, h, r)),
    λ h. absurd (unready r (some_injective e h.0.0 (sym l ∙ h.0.1)) h.0.2),
  )
]
  where
    unready : {d : PsEntry} → entry_ready e ≡ false → e ≡ d → entry_ready d ≡ true → ⊥
    unready r same ready = let seen : true ≡ false = sym ready ∙ ap entry_ready (sym same) ∙ r in cc

-- Nothing of a bundle is pending exactly when docker lists, for each service of its manifest, an entry that
-- is healthy, or running where it has no health check; of several entries of a service the last counts.
pub bundle_pending-Ready :
    (entries : Dict Text PsEntry) (manifest : List BundleNode)
    → (bundle_pending entries manifest ≡ []) ↔ All (Ready entries) manifest
unfolding bundle_pending pending_with
bundle_pending-Ready entries [] = (λ h. tt, λ h. refl)
bundle_pending-Ready entries (n ∷ ns) =
    let rest = bundle_pending-Ready entries ns in
    let here =
      pending_with-Ready entries n (bundle_pending entries ns) (lookup n.service entries) refl in
    (
      λ h.
          let both =
            here.0 (sym (at_entry (bundle_pending entries ns) n (lookup n.service entries)) ∙ h) in
          (both.0, rest.0 both.1),
      λ h.
          at_entry (bundle_pending entries ns) n (lookup n.service entries)
          ∙ here.1 (h.0, rest.1 h.1),
    )
  where
    at_entry :
        (rest : List Text) (n : BundleNode) (o : Option PsEntry)
        → (elim o [
          | none ↦ n.service ∷ rest
          | some e ↦ if entry_ready e then rest else n.service ∷ rest
        ])
          ≡ pending_with rest n.service o
    at_entry rest n none = refl
    at_entry rest n (some e) = refl
