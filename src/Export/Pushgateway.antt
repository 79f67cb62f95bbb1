-- ===== src/Export/Pushgateway.antt =====
-- core/export/pushgateway.go
use proofload_sh.Prelude.{
  ℕ, Bool, true, false, ◌||◌, Option, none, some, List, [], ◌∷◌, ◌++◌, map, if◌then◌else◌, eqb,
  String, ◌==◌, string_eq, Dict, insert, codes, ℤ, pos, sorted_entries, format_int,
}
use proofload_sh.Snapshots.{LatencySnapshot, Percentiles}
use proofload_sh.Export.{backslash, comma, equals, space, quote, newline, with_op}
pub mod Latest
pub mod Quoted

-- `escapePromLabelValue`
unfoldable pub escape_prom_label_value : List ℕ → List ℕ
escape_prom_label_value [] = []
escape_prom_label_value (c ∷ cs) =
    let rest = escape_prom_label_value cs in
    if eqb c backslash || eqb c quote
    then backslash ∷ c ∷ rest
    else if eqb c newline
    then backslash ∷ 110 ∷ rest
    else c ∷ rest

abbrev pub quoted : String × String → List ℕ
quoted (k, v) = codes k ++ equals ∷ quote ∷ escape_prom_label_value (codes v) ++ quote ∷ []

-- The labels, with a comma before each but the first.
unfoldable pub label_list : Bool → List (String × String) → List ℕ
label_list first [] = []
label_list first (p ∷ ps) = (if first then [] else comma ∷ []) ++ quoted p ++ label_list false ps

unfoldable pub label_set : String → Dict String String → String → Dict String String
label_set op labels quantile =
    let set = with_op op labels in if quantile == "" then set else insert "quantile" quantile set

-- `promLabels`
unfoldable pub prom_labels : String → Dict String String → String → List ℕ
unfolding label_list label_set
prom_labels op labels quantile =
    123 ∷ label_list true (sorted_entries "" (label_set op labels quantile)) ++ 125 ∷ []

-- The line that declares a family.
type_line : String → List ℕ
type_line name = codes "# TYPE " ++ codes name ++ codes " gauge\n"

sample : String → List ℕ → List ℕ → List ℕ
sample name label_text value = codes name ++ label_text ++ space ∷ value ++ newline ∷ []

module _ {F : Type 0} where
  unfoldable pub by_op :
      List (LatencySnapshot F) → Dict String (LatencySnapshot F) → Dict String (LatencySnapshot F)
  by_op [] m = m
  by_op (s ∷ snaps) m = by_op snaps (insert s.op_type s m)

  -- `latestPerOp`, with the zero value of a snapshot for a name that the map lacks.
  unfoldable pub latest_per_op :
      LatencySnapshot F → List (LatencySnapshot F) → List (LatencySnapshot F)
  unfolding by_op
  latest_per_op zero_snapshot snaps = map (λ p. p.1) (sorted_entries zero_snapshot (by_op snaps []))

  abbrev pub quantiles : List (String × (Percentiles F → F))
  quantiles =
      ("0.5", λ p. p.p50)
      ∷ ("0.9", λ p. p.p90)
      ∷ ("0.95", λ p. p.p95)
      ∷ ("0.99", λ p. p.p99)
      ∷ ("0.999", λ p. p.p999)
      ∷ ("0.9999", λ p. p.p9999)
      ∷ []

  -- `writeScalarFamily`
  unfoldable pub write_scalar_family :
      String → List (LatencySnapshot F) → Dict String String → (LatencySnapshot F → List ℕ) → List ℕ
  unfolding prom_labels type_line sample
  write_scalar_family name snaps labels val = type_line name ++ samples snaps
    where
      samples : List (LatencySnapshot F) → List ℕ
      samples [] = []
      samples (s ∷ rest) = sample name (prom_labels s.op_type labels "") (val s) ++ samples rest

  module _ (format_float : F → List ℕ) where
    -- `writeQuantileFamily`
    unfoldable pub write_quantile_family : List (LatencySnapshot F) → Dict String String → List ℕ
    unfolding prom_labels type_line sample
    write_quantile_family snaps labels = type_line "proofload_latency_ms" ++ series snaps
      where
        points : LatencySnapshot F → List (String × (Percentiles F → F)) → List ℕ
        points s [] = []
        points s ((label, value) ∷ qs) =
            sample "proofload_latency_ms" (prom_labels s.op_type labels label)
              (format_float (value s.pct))
            ++ points s qs

        series : List (LatencySnapshot F) → List ℕ
        series [] = []
        series (s ∷ rest) = points s quantiles ++ series rest

    -- `buildExposition`
    unfoldable pub build_exposition : List (LatencySnapshot F) → Dict String String → List ℕ
    unfolding write_scalar_family write_quantile_family
    build_exposition snaps labels =
        write_quantile_family snaps labels
        ++ write_scalar_family "proofload_latency_max_ms" snaps labels
            (λ s. format_float (s.pct).max)
        ++ write_scalar_family "proofload_throughput" snaps labels (λ s. format_float s.throughput)
        ++ write_scalar_family "proofload_in_flight" snaps labels (λ s. format_int s.in_flight)
        ++ write_scalar_family "proofload_errors" snaps labels (λ s. format_int s.errors)
