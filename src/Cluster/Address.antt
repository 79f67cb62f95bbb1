-- ===== src/Cluster/Address.antt =====
-- `normalizeURL` of worker.go.
use proofload_sh.Prelude.{
  has_prefix, ℕ, ◌≡◌, refl, ap, sym, ◌∙◌, ◌≢◌, arith, true, ◌||◌, List, [], ◌∷◌, ◌++◌, Bool-cases,
  inl, inr, eqb,
}
use proofload_sh.Cluster.{trim_step, trim_slashes, normalize_url, http, https}

trim_step-trimmed :
    (x : ℕ) (t : List ℕ) → trim_slashes t ≡ t → trim_slashes (trim_step x t) ≡ trim_step x t
unfolding trim_slashes
trim_step-trimmed x [] h = elim (Bool-cases (eqb x b'/')) [
  | inl e ↦ rw e refl
  | inr e ↦ rw e (rw e refl)
]
trim_step-trimmed x (y ∷ ys) h = ap (trim_step x) h

trim_idem : (xs : List ℕ) → trim_slashes (trim_slashes xs) ≡ trim_slashes xs
unfolding trim_slashes
trim_idem [] = refl
trim_idem (x ∷ xs) = trim_step-trimmed x (trim_slashes xs) (trim_idem xs)

trim_step-ne : (x : ℕ) (t : List ℕ) → t ≢ [] → trim_step x t ≡ x ∷ t
trim_step-ne x [] h = absurd (h refl)
trim_step-ne x (y ∷ ys) h = refl

append-ne : (xs ys : List ℕ) → ys ≢ [] → xs ++ ys ≢ []
append-ne [] ys h = h
append-ne (x ∷ xs) ys h = λ e. cc e

trim-append :
    (xs ys : List ℕ) → trim_slashes ys ≢ [] → trim_slashes (xs ++ ys) ≡ xs ++ trim_slashes ys
unfolding trim_slashes
trim-append [] ys h = refl
trim-append (x ∷ xs) ys h =
    ap (trim_step x) (trim-append xs ys h)
    ∙ trim_step-ne x (xs ++ trim_slashes ys) (append-ne xs (trim_slashes ys) h)

has_prefix-append : (ps xs : List ℕ) → has_prefix ps (ps ++ xs) ≡ true
unfolding has_prefix
has_prefix-append [] xs = refl
has_prefix-append (p ∷ ps) xs = ground (arith, has_prefix-append ps xs)

-- The address of a coordinator that is not empty and not all slashes gets a scheme once: the result
-- begins with http:// or https://, and normalizing it again changes nothing.
pub normalize_url_idem :
    (addr : List ℕ)
    → trim_slashes addr ≢ []
    → ((has_prefix http (normalize_url addr) || has_prefix https (normalize_url addr)) ≡ true)
      × (normalize_url (normalize_url addr) ≡ normalize_url addr)
unfolding normalize_url
normalize_url_idem addr h =
    let t = trim_slashes addr in
    let again : trim_slashes t ≡ t = trim_idem addr in
    elim (Bool-cases (has_prefix http t)) [
      | inl a ↦ rw a (rw (again, a) (refl, refl))
      | inr a ↦ elim (Bool-cases (has_prefix https t)) [
        | inl b ↦ rw (a, b) (rw (again, a, b) (refl, refl))
        | inr b ↦
            let kept : trim_slashes (http ++ t) ≡ http ++ t =
              trim-append http t (λ e. h (sym again ∙ e)) ∙ ap (◌++◌ http) again in
            let scheme = has_prefix-append http t in
            rw (a, b) (rw scheme refl, rw (kept, scheme) refl)
      ]
    ]
