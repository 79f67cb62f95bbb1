-- ===== src/Kafka/Examples.antt =====
-- The theorems on the records for a batch of three, and on the analysis for a short log.
use proofload_sh.Provision.Text.{trim_space, trim_left, trim_right}
use proofload_sh.Kafka.Settings.{
  DriverConfig, text, number, ack_leader, resolve, resolved_with, parse_acks,
}
use proofload_sh.Kafka.Settings.Durable.{IsDurable, resolve-IsDurable}
use proofload_sh.Prelude.{
  refl, Bool, ℕ, suc, List, ◌-◌, ◌≡◌, arith, [], ◌∷◌, map, length, some, pos, negsuc,
}
use proofload_sh.Prelude.Count.{count}
use proofload_sh.Prelude.Sort.{tally, Sorted}
use proofload_sh.Kafka.Analysis.{LogRecord, key_tally, analyze_log}
use proofload_sh.Kafka.Analysis.Tally.{IsRange, missing, occurs, key_tally-exact}
use proofload_sh.Kafka.Analysis.Ordering.{InLogOrder, violations, analyze_log-ordering}
use proofload_sh.Kafka.{seq_from_headers, record_from, batch_record_at}
use proofload_sh.Kafka.Header.{seq_from_headers-batch}

seq_from_headers-batch_example :
    (seq_from_headers (record_from "t" (pos 4) (negsuc 2) (7 ∷ [])).headers ≡ some (negsuc 2))
    × (seq_from_headers (batch_record_at "t" (pos 4) (negsuc 2) (7 ∷ []) (pos 1) (pos 3)).headers
        ≡ some (negsuc 2))
seq_from_headers-batch_example =
    seq_from_headers-batch "t" (pos 4) (negsuc 2) (pos 1) (pos 3) (7 ∷ []) (omega arith)

-- Sequence numbers with one gap and one repeat.
abbrev numbers : List ℕ
numbers = 3 ∷ 5 ∷ 3 ∷ []

key_tally-exact_example :
    (lo hi : ℕ) × IsRange numbers lo hi
    × ((key_tally (pos 3) (map pos (5 ∷ 3 ∷ []))).0 ≡ pos (count (missing lo numbers) (suc hi)))
    × ((key_tally (pos 3) (map pos (5 ∷ 3 ∷ []))).1
        ≡ pos (length numbers - count (λ k. occurs k numbers) (suc hi)))
key_tally-exact_example =
    key_tally-exact 3 (5 ∷ 3 ∷ []) (omega arith, (omega arith, (omega arith, tt))) (omega arith)

abbrev record_a : LogRecord
record_a = record { partition = pos 0; offset = pos 1; key = pos 7; seq = pos 1 }

abbrev record_b : LogRecord
record_b = record { partition = pos 0; offset = pos 0; key = pos 7; seq = pos 4 }

-- The record at the later offset has the smaller sequence number.
analyze_log-ordering_example :
    (log : List LogRecord) × ((test : LogRecord → Bool)
      → tally test log ≡ tally test (record_a ∷ record_b ∷ []))
    × Sorted InLogOrder log
    × ((analyze_log (record_a ∷ record_b ∷ [])).ordering_viol ≡ pos (violations [] log))
analyze_log-ordering_example = analyze_log-ordering record_a (record_b ∷ []) (omega arith)

-- A transaction at a level that acknowledges less than all.
abbrev weak_transaction : DriverConfig
weak_transaction = record {
  endpoints = [];
  consistency = " ACKS=1 ";
  nodes = record { id = "a"; client = "a:9092" } ∷ record { id = "b"; client = "" } ∷ [];
  replication_factor = pos 2;
  params = ("transactional_id", text "t1") ∷ ("batch_size", number (pos 0)) ∷ [];
}

weak_resolves : resolve weak_transaction ≡ some (resolved_with weak_transaction ack_leader)
unfolding resolve parse_acks trim_space trim_left trim_right
weak_resolves = refl

resolve-IsDurable_example : IsDurable (resolved_with weak_transaction ack_leader)
resolve-IsDurable_example =
    resolve-IsDurable weak_transaction (resolved_with weak_transaction ack_leader) weak_resolves
