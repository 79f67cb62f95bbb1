-- ===== src/Export/Request.antt =====
-- core/export: what an exporter posts, and when it reports a failure.
use proofload_sh.Prelude.{
  ℕ, Bool, true, false, Option, none, some, if◌then◌else◌, List, [], ◌∷◌, String, Dict, ℤ, pos, ◌≡◌,
  refl, arith, ◌↔◌, ◌⊎◌, inl, inr, ◌≤ℤ◌,
}
use proofload_sh.Snapshots.{LatencySnapshot}
use proofload_sh.Export.{
  Exporter, influx, pushgateway, Answer, unsent, answered, Failure, post_body,
}
use proofload_sh.Export.Influx.{write_influx_lines}
use proofload_sh.Export.Pushgateway.{build_exposition, latest_per_op}

post_body-none :
    (builds : Bool) (answer : Answer)
    → (post_body builds answer ≡ none) ↔ (
        (builds ≡ true)
        × ((status : ℤ) × (answer ≡ answered status) × (pos 200 ≤ℤ status) × (status ≤ℤ pos 299)))
unfolding post_body
post_body-none false answer = (λ h. cc, λ h. cc)
post_body-none true unsent = (λ h. cc, λ h. cc)
post_body-none true (answered status) =
    (λ h. (refl, (status, refl, ground (arith, h), ground (arith, h))), λ h. ground (arith, h))

-- A request: the URL and the body.
pub record Post : Type 0 where
  pub url : List ℕ
  pub body : List ℕ

-- An HTTP client: whether a URL makes a request, and the answer to one.
pub record Client : Type 0 where
  pub builds : List ℕ → Bool
  pub send : Post → Answer

module _ {F : Type 0} (format_float : F → List ℕ) (zero_snapshot : LatencySnapshot F)
    (client : Client) where
  -- The request for the snapshots there are.
  pub post_of : Exporter → List (LatencySnapshot F) → Dict String String → Post
  unfolding write_influx_lines
  post_of (influx url) snaps labels = record {
    url = url;
    body = write_influx_lines format_float snaps labels;
  }
  post_of (pushgateway url) snaps labels = record {
    url = url;
    body = build_exposition format_float (latest_per_op zero_snapshot snaps) labels;
  }

  post : Post → Option Failure
  unfolding post_body
  post p = post_body (client.builds p.url) (client.send p)

  -- `Export` of either exporter: the request that is made, if any, and the failure, if any.
  unfoldable pub export :
      Exporter → List (LatencySnapshot F) → Dict String String → Option Post × Option Failure
  unfolding post_of post
  export e [] labels = (none, none)
  export e (s ∷ snaps) labels =
      let p = post_of e (s ∷ snaps) labels in (if client.builds p.url then some p else none, post p)

  -- An export reports no failure exactly when there is nothing to send, or when the request of all the
  -- snapshots could be built and was answered with a status from 200 to 299.
  pub export-none :
      (e : Exporter) (snaps : List (LatencySnapshot F)) (labels : Dict String String)
      → ((export e snaps labels).1 ≡ none) ↔ (
          (snaps ≡ [])
          ⊎ ((client.builds ((post_of e snaps labels).url) ≡ true)
              × ((status : ℤ) × (client.send (post_of e snaps labels) ≡ answered status)
                  × (pos 200 ≤ℤ status)
                  × (status ≤ℤ pos 299))))
  unfolding export post post_body
  export-none e [] labels = (λ h. inl refl, λ h. refl)
  export-none e (s ∷ snaps) labels =
      let p = post_of e (s ∷ snaps) labels in
      let both = post_body-none (client.builds p.url) (client.send p) in
      (λ h. inr (both.0 h), λ h. elim h [ inl empty ↦ cc | inr sent ↦ both.1 sent ])
