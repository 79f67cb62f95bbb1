-- ===== src/Export/Examples.antt =====
-- The theorems on the exporters at concrete snapshots.
use proofload_sh.Prelude.{
  ℕ, ◌≡◌, arith, none, some, List, [], ◌∷◌, ◌++◌, map, keep, String, ◌==◌, string_eq, Dict, pos,
  sorted_entries, InOrder, sorted_keys, insert, format_int, decimal,
}
use proofload_sh.Prelude.Sort.{Sorted, sort_stable, insert_sorted, less_text, less_codes}
use proofload_sh.Snapshots.{LatencySnapshot, Percentiles}
use proofload_sh.Export.{space, newline, with_op, with_labels}
use proofload_sh.Export.Influx.{write_influx_line, write_influx_fields, measurement}
use proofload_sh.Export.Influx.Reader.{read_series, as_codes, read_series-write_influx_line}
use proofload_sh.Export.Pushgateway.{latest_per_op}
use proofload_sh.Export.Pushgateway.Latest.{last_of, latest_per_op-keep}

-- A float64 is a count of units here.
abbrev unit_percentiles : Percentiles ℕ
unit_percentiles = record {
  count = pos 2;
  mean = 7;
  p50 = 5;
  p90 = 9;
  p95 = 9;
  p99 = 9;
  p999 = 9;
  p9999 = 9;
  max = 9;
}

abbrev snapshot_of : String → ℕ → LatencySnapshot ℕ
snapshot_of op second = record {
  t = pos second;
  op_type = op;
  throughput = 2;
  in_flight = pos 1;
  errors = pos 0;
  pct = unit_percentiles;
}

abbrev two_labels : Dict String String
two_labels = ("workload", "a=b, c") ∷ ("target", "redis") ∷ []

read_series-write_influx_line_example :
    read_series 5 (write_influx_line decimal (snapshot_of "read" 3) two_labels) ≡ (
      measurement,
      (
        map as_codes (sorted_entries "" (with_op "read" two_labels)),
        space
            ∷ (write_influx_fields decimal (snapshot_of "read" 3)
                ++ (space ∷ (format_int (pos 3) ++ newline ∷ []))),
      ),
    )
unfolding sorted_entries sorted_keys sort_stable with_op with_labels insert insert_sorted less_text
    less_codes
read_series-write_influx_line_example =
    read_series-write_influx_line decimal 5 (snapshot_of "read" 3) two_labels (omega arith)
      (ground arith) tt (ground arith)

abbrev three_snapshots : List (LatencySnapshot ℕ)
three_snapshots = snapshot_of "write" 1 ∷ snapshot_of "read" 1 ∷ snapshot_of "write" 2 ∷ []

latest_per_op-keep_example :
    ((op : String)
      → keep (λ s. s.op_type == op) (latest_per_op (snapshot_of "" 0) three_snapshots)
        ≡ (elim (last_of op three_snapshots) [ none ↦ [] | some s ↦ s ∷ [] ]))
    × Sorted InOrder (
        map
          (λ (s : LatencySnapshot ℕ). s.op_type)
          (latest_per_op (snapshot_of "" 0) three_snapshots))
latest_per_op-keep_example = latest_per_op-keep (snapshot_of "" 0) three_snapshots
