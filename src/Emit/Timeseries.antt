-- ===== src/Emit/Timeseries.antt =====
-- core/emit/timeseries.go. The Parquet library and the JSON encoder are parameters.
use proofload_sh.Prelude.{
  ℕ, ◌≡◌, refl, ap, ◌∙◌, ◌/◌, Option, none, some, ◌>>=◌, List, [], ◌∷◌, ◌++◌, map, String, lookup,
  ℤ, pos, negsuc, ◌*ℤ◌,
}
use proofload_sh.Snapshots.{LatencySnapshot}
use proofload_sh.Emit.{path_eq, Disk, Call, System, Failure, write_encoded, after}
use proofload_sh.Emit.Visible.{Fresh}
use proofload_sh.Emit.Store.{Paths, write_encoded-read}

-- `time.Time.UnixMicro` of an instant in nanoseconds, rounded down, and `time.UnixMicro`
unfoldable pub unix_micro : ℤ → ℤ
unix_micro (pos n) = pos (n / 1000)
unix_micro (negsuc n) = negsuc (n / 1000)

unfoldable pub from_unix_micro : ℤ → ℤ
from_unix_micro t = t *ℤ pos 1000

-- `tsRow`
pub record TsRow (F : Type 0) : Type 0 where
  pub t_unix_micros : ℤ
  pub op : String
  pub throughput : F
  pub in_flight : ℤ
  pub errors : ℤ
  pub count : ℤ
  pub mean_ms : F
  pub p50_ms : F
  pub p90_ms : F
  pub p95_ms : F
  pub p99_ms : F
  pub p999_ms : F
  pub p9999_ms : F
  pub max_ms : F

module _ {F : Type 0} where
  -- `toRow`
  unfoldable pub to_row : LatencySnapshot F → TsRow F
  unfolding unix_micro
  to_row s =
      let p = s.pct in
      record {
        t_unix_micros = unix_micro s.t;
        op = s.op_type;
        throughput = s.throughput;
        in_flight = s.in_flight;
        errors = s.errors;
        count = p.count;
        mean_ms = p.mean;
        p50_ms = p.p50;
        p90_ms = p.p90;
        p95_ms = p.p95;
        p99_ms = p.p99;
        p999_ms = p.p999;
        p9999_ms = p.p9999;
        max_ms = p.max;
      }

  -- `fromRow`
  unfoldable pub from_row : TsRow F → LatencySnapshot F
  unfolding from_unix_micro
  from_row r = record {
    t = from_unix_micro r.t_unix_micros;
    op_type = r.op;
    throughput = r.throughput;
    in_flight = r.in_flight;
    errors = r.errors;
    pct = record {
      count = r.count;
      mean = r.mean_ms;
      p50 = r.p50_ms;
      p90 = r.p90_ms;
      p95 = r.p95_ms;
      p99 = r.p99_ms;
      p999 = r.p999_ms;
      p9999 = r.p9999_ms;
      max = r.max_ms;
    };
  }

  -- `WriteTimeseriesNDJSON`: every line, or the encoder's failure.
  pub encode_lines :
      (LatencySnapshot F → Option (List ℕ)) → List (LatencySnapshot F) → Option (List ℕ)
  encode_lines encode [] = some []
  encode_lines encode (s ∷ snaps) =
      encode s >>= λ line. encode_lines encode snaps >>= λ rest. some (line ++ rest)

  pub write_timeseries_ndjson :
      (LatencySnapshot F → Option (List ℕ))
      → System
      → Paths
      → List (LatencySnapshot F)
      → List Call × Option Failure
  unfolding encode_lines write_encoded
  write_timeseries_ndjson encode os p snaps =
      write_encoded os p.timeseries_ndjson (encode_lines encode snaps)

  -- `WriteTimeseriesParquet`
  unfoldable pub write_timeseries_parquet :
      (List (TsRow F) → Option (List ℕ))
      → System
      → Paths
      → List (LatencySnapshot F)
      → List Call × Option Failure
  unfolding to_row write_encoded
  write_timeseries_parquet write_rows os p snaps =
      write_encoded os p.timeseries_parquet (write_rows (map to_row snaps))

  -- `ReadTimeseriesParquet`
  unfoldable pub read_timeseries_parquet :
      (List ℕ → Option (List (TsRow F))) → Paths → Disk → Option (List (LatencySnapshot F))
  unfolding from_row
  read_timeseries_parquet read_rows p d = lookup p.timeseries_parquet d.files >>= λ data_.
      read_rows data_ >>= λ rows. some (map from_row rows)

  -- A snapshot whose instant is cut to the microsecond before it.
  abbrev pub to_micros : LatencySnapshot F → LatencySnapshot F
  to_micros s = record s { t = from_unix_micro (unix_micro s.t) }

  map-from_row :
      (snaps : List (LatencySnapshot F)) → map from_row (map to_row snaps) ≡ map to_micros snaps
  unfolding to_row from_row
  map-from_row [] = refl
  map-from_row (s ∷ snaps) = ap (λ l. to_micros s ∷ l) (map-from_row snaps)

  -- A time series that is written without a failure is read back whole and in order, each instant cut to
  -- the microsecond before it. The Parquet library reads back the rows of the series, and the temporary file is
  -- a new one beside the destination.
  pub write_timeseries_parquet-read :
      (write_rows : List (TsRow F) → Option (List ℕ)) (read_rows : List ℕ → Option (List (TsRow F)))
      (os : System) (p : Paths) (snaps : List (LatencySnapshot F)) (d : Disk)
      → ((b : List ℕ)
          → write_rows (map to_row snaps) ≡ some b
          → read_rows b ≡ some (map to_row snaps))
      → Fresh os p.timeseries_parquet d
      → (write_timeseries_parquet write_rows os p snaps).1 ≡ none
      → read_timeseries_parquet read_rows p
          (after (write_timeseries_parquet write_rows os p snaps).0 d)
        ≡ some (map to_micros snaps)
  unfolding write_timeseries_parquet read_timeseries_parquet
  write_timeseries_parquet-read write_rows read_rows os p snaps d round fresh ok =
      let decode = λ (data_ : List ℕ). read_rows data_ >>= λ rows. some (map from_row rows) in
      (write_encoded-read decode os p.timeseries_parquet (write_rows (map to_row snaps))
        (map to_micros snaps) d
        (λ b e.
          ap (λ o. o >>= λ rows. some (map from_row rows)) (round b e)
          ∙ ap some (map-from_row snaps))
        fresh ok).0
