-- ===== src/Export/Influx.antt =====
-- core/export/influx.go
use proofload_sh.Prelude.{
  ℕ, Bool, ◌||◌, List, [], ◌∷◌, ◌++◌, if◌then◌else◌, eqb, String, Dict, codes, ℤ, sorted_entries,
  format_int,
}
use proofload_sh.Snapshots.{LatencySnapshot, Percentiles}
use proofload_sh.Export.{backslash, comma, equals, space, newline, with_op}
pub mod Reader

abbrev pub is_special : ℕ → Bool
is_special c = eqb c comma || eqb c equals || eqb c space

-- `escapeInfluxTag`
unfoldable pub escape_influx_tag : List ℕ → List ℕ
escape_influx_tag [] = []
escape_influx_tag (c ∷ cs) =
    let rest = escape_influx_tag cs in if is_special c then backslash ∷ c ∷ rest else c ∷ rest

unfoldable pub write_tags : List (String × String) → List ℕ
unfolding escape_influx_tag
write_tags [] = []
write_tags ((k, v) ∷ tags) =
    comma ∷ escape_influx_tag (codes k) ++ equals ∷ escape_influx_tag (codes v) ++ write_tags tags

-- `writeInfluxTags`
unfoldable pub write_influx_tags : String → Dict String String → List ℕ
unfolding write_tags with_op
write_influx_tags op labels = write_tags (sorted_entries "" (with_op op labels))

abbrev pub measurement : List ℕ
measurement = codes "proofload_latency"

module _ {F : Type 0} (format_float : F → List ℕ) where
  -- `i`
  integer_field : ℤ → List ℕ
  integer_field v = format_int v ++ codes "i"

  -- `writeInfluxFields`
  unfoldable pub write_influx_fields : LatencySnapshot F → List ℕ
  unfolding integer_field
  write_influx_fields s =
      let p = s.pct in
      codes "p50="
      ++ format_float p.p50
      ++ codes ",p90="
      ++ format_float p.p90
      ++ codes ",p95="
      ++ format_float p.p95
      ++ codes ",p99="
      ++ format_float p.p99
      ++ codes ",p999="
      ++ format_float p.p999
      ++ codes ",p9999="
      ++ format_float p.p9999
      ++ codes ",mean="
      ++ format_float p.mean
      ++ codes ",max="
      ++ format_float p.max
      ++ codes ",throughput="
      ++ format_float s.throughput
      ++ codes ",count="
      ++ integer_field p.count
      ++ codes ",in_flight="
      ++ integer_field s.in_flight
      ++ codes ",errors="
      ++ integer_field s.errors

  -- `writeInfluxLine`
  unfoldable pub write_influx_line : LatencySnapshot F → Dict String String → List ℕ
  unfolding write_influx_tags write_influx_fields
  write_influx_line s labels =
      measurement
      ++ (write_influx_tags s.op_type labels
          ++ (space ∷ (write_influx_fields s ++ (space ∷ (format_int s.t ++ newline ∷ [])))))

  unfoldable pub write_influx_lines : List (LatencySnapshot F) → Dict String String → List ℕ
  unfolding write_influx_line
  write_influx_lines [] labels = []
  write_influx_lines (s ∷ snaps) labels =
      write_influx_line s labels ++ write_influx_lines snaps labels
