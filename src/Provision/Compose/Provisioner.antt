-- ===== src/Provision/Compose/Provisioner.antt =====
-- core/provision/compose/compose.go: the provisioner, which runs a bundle that the target brings or the project
-- that it renders. The outcome of the wait for health, and whether the project could be written to its
-- file, are arguments.
use proofload_sh.Prelude.{
  Option, none, some, ◌>>=◌, List, [], ◌∷◌, if◌then◌else◌, pos, eqb_ℤ, codes, length,
}
use proofload_sh.Provision.{Text, ClusterNode, ClusterSpec, ClusterTopology, is_empty}
use proofload_sh.Provision.Compose.{
  Docker, PsEntry, compose_args, parse_ps, project_name, build_project, spec, nodes_from_ps,
}
use proofload_sh.Provision.Compose.Waiting.{Wait, healthy, timed_out, ended, waiting}
use proofload_sh.Provision.Compose.Bundle.{BundleNode, read_bundle_manifest, nodes_bundle}

-- What the provisioner is given: docker, the decoders of its output and of a bundle's manifest, the text of
-- that manifest, the paths of the bundle's compose file and of the project's, and how the wait ends.
pub record Surroundings : Type 0 where
  pub docker : Docker
  pub decode_array : Text → Option (List PsEntry)
  pub decode : Text → Option PsEntry
  pub decode_manifest : Text → Option (List BundleNode)
  pub manifest_text : Option Text
  pub bundle_file : Text
  pub project_file : Option Text
  pub wait : Wait

when_healthy : {A : Type 0} → Wait → Option A → Option A
when_healthy healthy result = result
when_healthy timed_out result = none
when_healthy ended result = none
when_healthy waiting result = none

-- `up -d --wait`, and `up -d` where that fails
start : Docker → Text → Text → Option Text
unfolding compose_args
start docker project file =
    elim (docker (compose_args project file (codes "up" ∷ codes "-d" ∷ codes "--wait" ∷ []))) [
      | some out ↦ some out
      | none ↦ docker (compose_args project file (codes "up" ∷ codes "-d" ∷ []))
    ]

-- `upBundle`
pub up_bundle : Surroundings → ClusterTopology → Option ClusterSpec
unfolding read_bundle_manifest nodes_bundle start when_healthy project_name
up_bundle w t = read_bundle_manifest w.decode_manifest w.manifest_text >>= λ manifest.
    start w.docker (project_name t) w.bundle_file >>= λ started.
    when_healthy w.wait
      (nodes_bundle w.docker w.decode_array w.decode (project_name t) w.bundle_file manifest)
    >>= λ nodes. some (record {
      nodes = nodes;
      replication_factor =
          if eqb_ℤ t.replication_factor (pos 0) then pos (length nodes) else t.replication_factor;
    })

-- `Up`: a project that does not start is still waited for.
pub up : Surroundings → ClusterTopology → Option ClusterSpec
unfolding up_bundle build_project spec when_healthy
up w t =
    if is_empty t.bundle
    then (w.project_file >>= λ file.
        when_healthy w.wait (some (spec w.docker t (build_project t) file)))
    else up_bundle w t

-- `downBundle` and `Down`
pub down : Surroundings → ClusterTopology → Option Text
unfolding compose_args build_project project_name
down w t =
    let removal = codes "down" ∷ codes "-v" ∷ [] in
    if is_empty t.bundle
    then (w.project_file >>= λ file.
        w.docker (compose_args ((build_project t).project) file removal))
    else w.docker (compose_args (project_name t) w.bundle_file removal)

-- `Nodes`
pub live_nodes : Surroundings → ClusterTopology → Option (List ClusterNode)
unfolding read_bundle_manifest nodes_bundle build_project nodes_from_ps parse_ps compose_args
    project_name
live_nodes w t =
    if is_empty t.bundle
    then (w.project_file >>= λ file.
        let m = build_project t in
        w.docker (compose_args m.project file (codes "ps" ∷ codes "--format" ∷ codes "json" ∷ []))
        >>= λ raw. parse_ps w.decode_array w.decode raw >>= λ entries.
            some (nodes_from_ps w.docker m file entries))
    else (read_bundle_manifest w.decode_manifest w.manifest_text >>= λ manifest.
        nodes_bundle w.docker w.decode_array w.decode (project_name t) w.bundle_file manifest)
