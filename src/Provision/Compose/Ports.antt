-- ===== src/Provision/Compose/Ports.antt =====
-- The host port that a service is reached at.
use proofload_sh.Prelude.{
  ℕ, ◌<◌, ◌≡◌, refl, ap, ◌∙◌, arith, inr, none, some, [], ◌∷◌, ◌++◌, if◌then◌else◌, ℤ, pos, ltb_ℤ,
  decimal, codes,
}
use proofload_sh.Machine.{two63}
use proofload_sh.Provision.{Text}
use proofload_sh.Provision.Text.{parse_port, after_last-append, decimal-apart, parse_port-decimal}
use proofload_sh.Provision.Compose.{Docker, ServiceModel, compose_args, port_or, resolve_port}

port_or-address :
    (other : ℤ) (address : Text) (p : ℕ)
    → 0 < p
    → p < two63
    → port_or other (some (address ++ 58 ∷ decimal p)) ≡ pos p
unfolding port_or
port_or-address other address p positive fits =
    ap
      (λ o. elim o [
        | none ↦ other
        | some digits ↦ let q = parse_port digits in if ltb_ℤ (pos 0) q then q else other
      ])
      (after_last-append 58 address (decimal p) (decimal-apart 58 p (inr (omega arith))))
    ∙ ground (arith, parse_port-decimal p fits, positive)

-- A service is reached at the port that docker reports, whatever address stands before it, and at the
-- port that the project assigned when docker reports none. The reported port is positive and fits an int.
pub resolve_port-address :
    (docker : Docker) (project file : Text) (s : ServiceModel) (address : Text) (p : ℕ)
    → 0 < p
    → p < two63
    → let query =
        compose_args project file (codes "port" ∷ s.key ∷ decimal s.container_port ∷ []) in
      (docker query ≡ some (address ++ 58 ∷ decimal p) → resolve_port docker project file s ≡ pos p)
      × (docker query ≡ none → resolve_port docker project file s ≡ pos s.host_port)
unfolding resolve_port
resolve_port-address docker project file s address p positive fits = (
  λ e. ap (port_or (pos s.host_port)) e ∙ port_or-address (pos s.host_port) address p positive fits,
  λ e. ap (port_or (pos s.host_port)) e ∙ (unfold port_or in refl),
)
