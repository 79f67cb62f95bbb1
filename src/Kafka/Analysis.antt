-- ===== src/Kafka/Analysis.antt =====
-- targets/kafka/kafkadriver/verify.go: the drain of a topic and the analysis of its log. What the client
-- answers to a poll is an argument. Go leaves the order of a map's keys open; `by_key` keeps them in the
-- order of their first records. The example texts of an anomaly, at most ten, are left out.
pub mod Tally
pub mod Ordering
use proofload_sh.Prelude.{
  ℕ, Bool, true, false, not, ◌&&◌, Option, none, some, List, [], ◌∷◌, ◌++◌, if◌then◌else◌, ℤ, pos,
  ltb_ℤ, eqb_ℤ, length, Dict, lookup, insert, int_eq,
}
use proofload_sh.Prelude.Sort.{sort_stable}
use proofload_sh.Machine.{add64, sub64}
use proofload_sh.Verify.Report.{VerifyReport, Anomaly, pass, fail, unknown, kafka_log, empty_report}
use proofload_sh.Kafka.{RecordHeader, seq_from_headers}

-- `logRecord`
pub record LogRecord : Type 0 where
  pub partition : ℤ
  pub offset : ℤ
  pub key : ℤ
  pub seq : ℤ

-- A fetched record: `none` is a key that `keyFromBytes` refuses.
pub record Fetched : Type 0 where
  pub partition : ℤ
  pub offset : ℤ
  pub key : Option ℤ
  pub headers : List RecordHeader

-- A poll: the context has ended, the poll failed or timed out, or it returned records.
pub data Poll : Type 0 where
  ended failed : Poll
  fetched : List Fetched → Poll

-- What `drainTopic` returns: the records, with an error if the context ended.
pub record Drained : Type 0 where
  pub records : List LogRecord
  pub interrupted : Bool

log_record : Fetched → Option ℤ → Option ℤ → List LogRecord
log_record r (some key) (some seq) =
    record { partition = r.partition; offset = r.offset; key = key; seq = seq } ∷ []
log_record r _ _ = []

pub log_records : List Fetched → List LogRecord
unfolding log_record
log_records [] = []
log_records (r ∷ rs) = log_record r r.key (seq_from_headers r.headers) ++ log_records rs

-- `drainTopic`: `none` is a drain that has not ended with these polls.
pub drain_topic : List Poll → List LogRecord → Option Drained
unfolding log_records
drain_topic [] out = none
drain_topic (ended ∷ ps) out = some (record { records = out; interrupted = true })
drain_topic (failed ∷ ps) out = some (record { records = out; interrupted = false })
drain_topic (fetched [] ∷ ps) out = some (record { records = out; interrupted = false })
drain_topic (fetched (r ∷ rs) ∷ ps) out = drain_topic ps (out ++ log_records (r ∷ rs))

-- Records in the order of the log: by partition, and by offset within one.
pub earlier : LogRecord → LogRecord → Bool
earlier a b =
    if not (eqb_ℤ a.partition b.partition)
    then ltb_ℤ a.partition b.partition
    else ltb_ℤ a.offset b.offset

-- The maps and the counter of the first loop of `analyzeLog`.
pub record Seen : Type 0 where
  pub last_seq : Dict ℤ ℤ
  pub seqs_by_key : Dict ℤ (List ℤ)
  pub ordering : ℤ

abbrev pub decreases : Option ℤ → ℤ → Bool
decreases none seq = false
decreases (some last) seq = ltb_ℤ seq last

abbrev pub or_empty : Option (List ℤ) → List ℤ
or_empty none = []
or_empty (some seqs) = seqs

pub observe : LogRecord → Seen → Seen
observe r s = record {
  last_seq = insert r.key r.seq s.last_seq;
  seqs_by_key = insert r.key (or_empty (lookup r.key s.seqs_by_key) ++ r.seq ∷ []) s.seqs_by_key;
  ordering =
      if decreases (lookup r.key s.last_seq) r.seq then add64 s.ordering (pos 1) else s.ordering;
}

pub observe_all : List LogRecord → Seen → Seen
observe_all [] s = s
observe_all (r ∷ rs) s = observe_all rs (observe r s)

-- The loop over the sequence numbers of a key: its set of numbers, the smallest and the largest.
pub record Range : Type 0 where
  pub uniq : Dict ℤ Bool
  pub smallest : ℤ
  pub largest : ℤ

pub widen : List ℤ → Range → Range
widen [] r = r
widen (s ∷ ss) r = widen ss (record {
  uniq = insert s true r.uniq;
  smallest = if ltb_ℤ s r.smallest then s else r.smallest;
  largest = if ltb_ℤ r.largest s then s else r.largest;
})

-- The gaps and the repeats of one key, with `first` its first number.
pub key_tally : ℤ → List ℤ → ℤ × ℤ
unfolding widen
key_tally first rest =
    let seqs = first ∷ rest in
    let r = widen seqs (record { uniq = []; smallest = first; largest = first }) in
    (
      sub64 (add64 (sub64 r.largest r.smallest) (pos 1)) (pos (length r.uniq)),
      sub64 (pos (length seqs)) (pos (length r.uniq)),
    )

abbrev pub add_positive : ℤ → ℤ → ℤ
add_positive total n = if ltb_ℤ (pos 0) n then add64 total n else total

-- The loop over the keys: the lost and the duplicated messages. A key with no numbers does not occur, and
-- Go would panic on it.
pub tally_keys : Dict ℤ (List ℤ) → ℤ × ℤ → ℤ × ℤ
unfolding key_tally
tally_keys [] t = t
tally_keys ((k, []) ∷ ks) t = tally_keys ks t
tally_keys ((k, first ∷ rest) ∷ ks) (lost, dup) =
    let (gaps, repeats) = key_tally first rest in
    tally_keys ks (add_positive lost gaps, add_positive dup repeats)

anomaly_if : ℤ → Anomaly → List Anomaly
anomaly_if n a = if ltb_ℤ (pos 0) n then a ∷ [] else []

-- `buildAnomalies`
pub build_anomalies : (lost dup ordering : ℤ) → List Anomaly
unfolding anomaly_if
build_anomalies lost dup ordering =
    anomaly_if lost (record { kind = "message-loss"; detail = lost ∷ [] })
    ++ (anomaly_if dup (record { kind = "duplication"; detail = dup ∷ [] })
        ++ anomaly_if ordering (record { kind = "ordering"; detail = ordering ∷ [] }))

abbrev pub nothing_seen : Seen
nothing_seen = record { last_seq = []; seqs_by_key = []; ordering = pos 0 }

-- `analyzeLog`
pub analyze_log : List LogRecord → VerifyReport
unfolding observe_all tally_keys build_anomalies
analyze_log [] = record empty_report { model = kafka_log; checked = pos 0; verdict = some unknown }
analyze_log (r ∷ rs) =
    let seen = observe_all (sort_stable earlier (r ∷ rs)) nothing_seen in
    let (lost, dup) = tally_keys seen.seqs_by_key (pos 0, pos 0) in
    record empty_report {
      model = kafka_log;
      checked = pos (length (r ∷ rs));
      lost = lost;
      duplicated = dup;
      ordering_viol = seen.ordering;
      anomalies = build_anomalies lost dup seen.ordering;
      verdict = some (
          if eqb_ℤ lost (pos 0) && eqb_ℤ dup (pos 0) && eqb_ℤ seen.ordering (pos 0)
          then pass
          else fail);
    }
