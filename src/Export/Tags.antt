-- ===== src/Export/Tags.antt =====
-- The labels that a series carries.
use proofload_sh.Prelude.{
  ◌≡◌, refl, ◌∙◌, ap, arith, Option, none, some, [], ◌∷◌, if◌then◌else◌, keep, All, String, ◌==◌,
  string_eq, Dict, lookup, insert, lookup-insert, Distinct, sorted_entries,
}
use proofload_sh.Prelude.Names.{insert-Distinct, Distinct-tail, sorted_entries-keep, All-insert}
use proofload_sh.Export.{with_labels, with_op}

-- What a map holds under a key, with another map for the keys that it lacks.
abbrev pub or_else {ℓ} : {V : Type ℓ} → Option V → Option V → Option V
or_else none d = d
or_else (some v) d = some v

with_labels-Distinct :
    (tags labels : Dict String String) → Distinct tags → Distinct (with_labels tags labels)
unfolding with_labels
with_labels-Distinct tags [] h = h
with_labels-Distinct tags ((k, v) ∷ labels) h =
    with_labels-Distinct (insert k v tags) labels (insert-Distinct k v tags h)

lookup-with_labels :
    (k : String) (tags labels : Dict String String)
    → Distinct labels
    → lookup k (with_labels tags labels) ≡ or_else (lookup k labels) (lookup k tags)
unfolding with_labels lookup
lookup-with_labels k tags [] h = refl
lookup-with_labels k tags ((i, v) ∷ labels) h =
    let tail = Distinct-tail i v labels h in
    let rest = lookup-with_labels k (insert i v tags) labels tail.0 in
    rest ∙ ground (arith, lookup-insert i k v tags, tail.1, string_eq.beq_iff i k)

one-Distinct : (k v : String) → Distinct {V = String} ((k, v) ∷ [])
unfolding lookup
one-Distinct k v j = ground arith

pub with_op-Distinct : (op : String) (labels : Dict String String) → Distinct (with_op op labels)
unfolding with_op
with_op-Distinct op labels = with_labels-Distinct (("op", op) ∷ []) labels (one-Distinct "op" op)

-- Each label that the caller gives is among the tags once, with its value, and so is `op`, with the
-- operation unless the caller gives that label; no other tag is there. The caller's labels have distinct keys.
pub with_op-keep :
    (op k : String) (labels : Dict String String)
    → Distinct labels
    → keep (λ p. p.0 == k) (sorted_entries "" (with_op op labels))
      ≡ (elim (or_else (lookup k labels) (if "op" == k then some op else none)) [
        | none ↦ []
        | some v ↦ (k, v) ∷ []
      ])
unfolding with_op
with_op-keep op k labels h =
    sorted_entries-keep "" k (with_op op labels) (with_op-Distinct op labels)
    ∙ ap (λ o. elim o [ none ↦ [] | some v ↦ (k, v) ∷ [] ])
        (lookup-with_labels k (("op", op) ∷ []) labels h)
    ∙ (unfold lookup in refl)

pub with_labels-All {κ} :
    (P : String × String → Type κ) (tags labels : Dict String String)
    → All P tags
    → All P labels
    → All P (with_labels tags labels)
unfolding with_labels
with_labels-All P tags [] h g = h
with_labels-All P tags ((k, v) ∷ labels) h g =
    with_labels-All P (insert k v tags) labels (All-insert P k v tags g.0 h) g.1
