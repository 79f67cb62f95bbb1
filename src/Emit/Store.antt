-- ===== src/Emit/Store.antt =====
-- core/emit/layout.go and core/emit/store.go. `encoding/json` is a parameter: an encoder and a decoder of each
-- kind of artifact.
use proofload_sh.Prelude.{
  ℕ, ◌≡◌, ◌≢◌, refl, ap, ◌∙◌, arith, Bool, false, Option, none, some, ◌>>=◌, List, [], ◌∷◌, ◌++◌,
  String, ◌==◌, string_eq, lookup, eq_names, eq_names_iff,
}
use proofload_sh.Emit.{
  FilePath, path_eq, join_path, Disk, Call, System, Failure, write_atomic, write_encoded, after,
}
use proofload_sh.Emit.Visible.{Fresh, Ended, write_atomic-Ended}

-- `Paths`
pub record Paths : Type 0 where
  pub dir : FilePath
  pub manifest : FilePath
  pub summary : FilePath
  pub timeseries_ndjson : FilePath
  pub timeseries_parquet : FilePath
  pub hlog : FilePath
  pub verify_json : FilePath
  pub server_stats : FilePath

-- `Layout`
unfoldable pub layout : FilePath → String → String → Paths
unfolding join_path
layout base target id =
    let dir = base ++ "results" ∷ target ∷ id ∷ [] in
    record {
      dir = dir;
      manifest = join_path dir "manifest.json";
      summary = join_path dir "summary.json";
      timeseries_ndjson = join_path dir "timeseries.ndjson";
      timeseries_parquet = join_path dir "timeseries.parquet";
      hlog = join_path dir "latency.hlog";
      verify_json = join_path dir "verify.json";
      server_stats = join_path dir "server_stats.json";
    }

pub record Codec (V : Type 0) : Type 0 where
  pub marshal : V → Option (List ℕ)
  pub unmarshal : List ℕ → Option V

-- What is documented of a codec: what is encoded is decoded.
abbrev pub RoundTrips : {V : Type 0} → Codec V → Type 0
RoundTrips codec = (v : _) (b : List ℕ) → codec.marshal v ≡ some b → codec.unmarshal b ≡ some v

module _ {V : Type 0} (codec : Codec V) where
  -- `writeJSON`
  unfoldable pub write_json : System → FilePath → V → List Call × Option Failure
  unfolding write_encoded
  write_json os path v = write_encoded os path (codec.marshal v)

  -- `readJSON`: `none` is an error.
  unfoldable pub read_json : FilePath → Disk → Option V
  read_json path d = lookup path d.files >>= codec.unmarshal

  -- `WriteManifest`, `WriteSummary` and `WriteVerify`
  unfoldable pub write_manifest : System → Paths → V → List Call × Option Failure
  unfolding write_json
  write_manifest os p v = write_json os p.manifest v

  unfoldable pub write_summary : System → Paths → V → List Call × Option Failure
  unfolding write_json
  write_summary os p v = write_json os p.summary v

  unfoldable pub write_verify : System → Paths → V → List Call × Option Failure
  unfolding write_json
  write_verify os p v = write_json os p.verify_json v

  unfoldable pub read_manifest : Paths → Disk → Option V
  unfolding read_json
  read_manifest p d = read_json p.manifest d

  unfoldable pub read_summary : Paths → Disk → Option V
  unfolding read_json
  read_summary p d = read_json p.summary d

  unfoldable pub read_verify : Paths → Disk → Option V
  unfolding read_json
  read_verify p d = read_json p.verify_json d

read-Ended :
    {V : Type 0} (unmarshal : List ℕ → Option V) (temp : Option String) (removes : Bool)
    (path : FilePath) (bytes : List ℕ) (v : V) (d : Disk) (r : List Call × Option Failure)
    → unmarshal bytes ≡ some v
    → Ended temp removes path bytes d r
    → r.1 ≡ none
    → ((lookup path (after r.0 d).files >>= unmarshal) ≡ some v)
      × ((p : FilePath) → p ≢ path → lookup p (after r.0 d).files ≡ lookup p d.files)
read-Ended unmarshal temp removes path bytes v d (calls, some e) u h g = cc
read-Ended unmarshal temp removes path bytes v d (calls, none) u h g =
    let here : lookup path (after calls d).files ≡ some bytes =
      ground (arith, h path, path_eq.beq_iff path path) in
    (
      ap (λ o. o >>= unmarshal) here ∙ u,
      λ p apart. ground (arith, h p, apart, path_eq.beq_iff path p),
    )

-- A write that reports no failure can be read back, and no other file changed.
pub write_encoded-read :
    {V : Type 0} (unmarshal : List ℕ → Option V) (os : System) (path : FilePath)
    (encoded : Option (List ℕ)) (v : V) (d : Disk)
    → ((b : List ℕ) → encoded ≡ some b → unmarshal b ≡ some v)
    → Fresh os path d
    → (write_encoded os path encoded).1 ≡ none
    → let later = after (write_encoded os path encoded).0 d in
      ((lookup path later.files >>= unmarshal) ≡ some v)
      × ((p : FilePath) → p ≢ path → lookup p later.files ≡ lookup p d.files)
unfolding write_encoded
write_encoded-read unmarshal os path none v d round fresh ok = cc
write_encoded-read unmarshal os path (some bytes) v d round fresh ok =
    read-Ended unmarshal os.temp_name os.removes path bytes v d (write_atomic os path bytes)
      (round bytes refl) (write_atomic-Ended os path bytes d fresh) ok

eq_names-join_path :
    (dir : FilePath) (a b : String) → eq_names (join_path dir a) (join_path dir b) ≡ (a == b)
unfolding join_path
eq_names-join_path [] a b = ground arith
eq_names-join_path (s ∷ dir) a b = ground (arith, eq_names-join_path dir a b, string_eq.beq_iff s s)

pub join_apart :
    (dir : FilePath) (a b : String) → (a == b) ≡ false → join_path dir a ≢ join_path dir b
join_apart dir a b h = λ e.
    ground
      (arith, h, e, eq_names-join_path dir a b, eq_names_iff (join_path dir a) (join_path dir b))

-- A manifest that is written without a failure is read back, and reading any other artifact of the run
-- gives what it gave before. The encoder's text is decoded to the value it was made from, and the
-- temporary file is a new one beside the manifest.
pub write_manifest-read :
    {V W : Type 0} (codec : Codec V) (other : Codec W) (os : System) (base : FilePath)
    (target id : String) (v : V) (d : Disk)
    → RoundTrips codec
    → Fresh os (layout base target id).manifest d
    → (write_manifest codec os (layout base target id) v).1 ≡ none
    → let p = layout base target id in
      let later = after (write_manifest codec os p v).0 d in
      (read_manifest codec p later ≡ some v)
      × (read_summary other p later ≡ read_summary other p d)
      × (read_verify other p later ≡ read_verify other p d)
unfolding write_manifest write_json read_manifest read_summary read_verify read_json layout
write_manifest-read codec other os base target id v d round fresh ok =
    let p = layout base target id in
    let wrote =
      write_encoded-read codec.unmarshal os p.manifest (codec.marshal v) v d (λ b e. round v b e)
        fresh ok in
    (
      wrote.0,
      ap (λ o. o >>= other.unmarshal)
          (wrote.1 p.summary (join_apart p.dir "summary.json" "manifest.json" refl)),
      ap (λ o. o >>= other.unmarshal)
          (wrote.1 p.verify_json (join_apart p.dir "verify.json" "manifest.json" refl)),
    )
