-- ===== src/Emit/Examples.antt =====
-- The theorems on the artifacts at a concrete disk.
use proofload_sh.Prelude.{
  ℕ, ◌≡◌, ◌≢◌, refl, sym, subst, ◌∙◌, arith, some_injective, if◌then◌else◌, eq_codes, eq_names,
  eq_names_iff, true, false, Option, none, some, List, [], ◌∷◌, map, String, lookup, codes, pos,
}
use proofload_sh.Snapshots.{LatencySnapshot}
use proofload_sh.Emit.{
  FilePath, path_eq, Disk, System, write_encoded, write_atomic, write_and_sync, place, after,
  join_path, dir_of,
}
use proofload_sh.Emit.Visible.{
  Always, OldOrNew, Fresh, Ended, write_atomic-Always, write_atomic-Ended,
}
use proofload_sh.Emit.Store.{layout}
use proofload_sh.Emit.Timeseries.{
  TsRow, to_row, unix_micro, write_timeseries_parquet, read_timeseries_parquet, to_micros,
  write_timeseries_parquet-read,
}

-- A disk with a summary, and a system on which a write stops after two bytes.
abbrev summary_path : FilePath
summary_path = "base" ∷ "results" ∷ "redis" ∷ "run1" ∷ "summary.json" ∷ []

abbrev one_file : Disk
one_file = record { files = (summary_path, codes "{}") ∷ []; open_files = [] }

abbrev short_of_space : System
short_of_space = record {
  makes_dir = true;
  temp_name = some ".summary.json.tmp-1";
  short_write = some 2;
  syncs = true;
  closes = true;
  renames = true;
  removes = true;
}

abbrev sound : System
sound = record short_of_space { short_write = none }

-- The name of the temporary file is on no file of the disk, and is not the destination's.
temp-Fresh :
    (os : System) (path : FilePath) (d : Disk) (temp : String)
    → os.temp_name ≡ some temp
    → lookup (join_path (dir_of path) temp) d.files ≡ none
    → eq_names (join_path (dir_of path) temp) path ≡ false
    → Fresh os path d
temp-Fresh os path d temp e free apart name n =
    let same = some_injective temp name (sym e ∙ n) in
    subst
      (λ i.
        (lookup (join_path (dir_of path) i) d.files ≡ none) × (join_path (dir_of path) i ≢ path))
      same (free, λ h. ground (arith, h, apart, eq_names_iff (join_path (dir_of path) temp) path))

summary-Fresh : Fresh short_of_space summary_path one_file
unfolding join_path dir_of lookup
summary-Fresh = temp-Fresh short_of_space summary_path one_file ".summary.json.tmp-1" refl refl refl

write_atomic-Always_example :
    Always
      (OldOrNew summary_path (codes "{1}") one_file)
      (write_atomic short_of_space summary_path (codes "{1}")).0
      one_file
write_atomic-Always_example =
    write_atomic-Always short_of_space summary_path (codes "{1}") one_file summary-Fresh

write_atomic-Ended_example :
    Ended
      (some ".summary.json.tmp-1")
      true
      summary_path
      (codes "{1}")
      one_file
      (write_atomic short_of_space summary_path (codes "{1}"))
write_atomic-Ended_example =
    write_atomic-Ended short_of_space summary_path (codes "{1}") one_file summary-Fresh

abbrev read_snapshot : LatencySnapshot ℕ
read_snapshot = record {
  t = pos 1234567;
  op_type = "read";
  throughput = 2;
  in_flight = pos 1;
  errors = pos 0;
  pct = record {
    count = pos 2;
    mean = 7;
    p50 = 5;
    p90 = 9;
    p95 = 9;
    p99 = 9;
    p999 = 9;
    p9999 = 9;
    max = 9;
  };
}

abbrev one_snapshot : List (LatencySnapshot ℕ)
one_snapshot = read_snapshot ∷ []

-- A library for files of one row: the rows of that series are the bytes of its only file.
abbrev write_one : List (TsRow ℕ) → Option (List ℕ)
write_one rows = some (codes "PAR1")

read_one : List ℕ → Option (List (TsRow ℕ))
unfolding to_row unix_micro
read_one b = if eq_codes b (codes "PAR1") then some (map to_row one_snapshot) else none

read_one-write_one :
    (b : List ℕ)
    → write_one (map to_row one_snapshot) ≡ some b
    → read_one b ≡ some (map to_row one_snapshot)
unfolding read_one
read_one-write_one b e =
    subst (λ c. read_one c ≡ some (map to_row one_snapshot)) (some_injective (codes "PAR1") b e)
      refl

series-Fresh : Fresh sound ((layout ("base" ∷ []) "redis" "run1").timeseries_parquet) one_file
unfolding layout join_path dir_of lookup
series-Fresh =
    temp-Fresh sound ((layout ("base" ∷ []) "redis" "run1").timeseries_parquet) one_file
      ".summary.json.tmp-1" refl refl refl

series_written :
    (write_timeseries_parquet write_one sound (layout ("base" ∷ []) "redis" "run1") one_snapshot).1
    ≡ none
unfolding write_timeseries_parquet write_encoded write_atomic write_and_sync place
series_written = refl

write_timeseries_parquet-read_example :
    let p = layout ("base" ∷ []) "redis" "run1" in
    read_timeseries_parquet read_one p
      (after (write_timeseries_parquet write_one sound p one_snapshot).0 one_file)
    ≡ some (map to_micros one_snapshot)
write_timeseries_parquet-read_example =
    write_timeseries_parquet-read write_one read_one sound (layout ("base" ∷ []) "redis" "run1")
      one_snapshot one_file read_one-write_one series-Fresh series_written
