-- ===== src/Kafka.antt =====
-- targets/kafka/kafkadriver/record.go: the keys and the sequence header of the records that the Kafka target
-- produces. `strconv` is the only part left out: a key is the number that its decimal text stands for.
pub mod Header
pub mod Batch
pub mod Analysis
pub mod Settings
pub mod Examples
use proofload_sh.Prelude.{
  ℕ, zero, suc, ◌+◌, ◌-◌, ◌*◌, ◌/◌, ◌%◌, ◌^◌, Bool, ◌||◌, Option, none, some, List, [], ◌∷◌,
  if◌then◌else◌, ℤ, pos, negsuc, ltb, eqb, length, String, ◌==◌, string_eq,
}
use proofload_sh.Machine.{two63, two64, add64, mul64}

-- The conversions between `int64` and `uint64`.
pub unsigned : ℤ → ℕ
unsigned (pos n) = n % two64
unsigned (negsuc n) = two64 - 1 - n % two64

pub signed : ℕ → ℤ
signed u = if ltb u two63 then pos u else negsuc (two64 - 1 - u)

-- `binary.BigEndian.PutUint64`: the last k bytes of a number, the highest first.
pub big_endian : ℕ → ℕ → List ℕ
big_endian zero n = []
big_endian (suc k) n = n / 256 ^ k % 256 ∷ big_endian k n

-- `binary.BigEndian.Uint64`
pub from_big_endian : ℕ → List ℕ → ℕ
from_big_endian acc [] = acc
from_big_endian acc (b ∷ bs) = from_big_endian (acc * 256 + b) bs

-- `encodeSeq`
pub encode_seq : ℤ → List ℕ
unfolding unsigned big_endian
encode_seq seq = big_endian 8 (unsigned seq)

-- `decodeSeq`: `none` is the error for a header of the wrong width.
pub decode_seq : List ℕ → Option ℤ
unfolding signed from_big_endian
decode_seq b = if eqb (length b) 8 then some (signed (from_big_endian 0 b)) else none

pub record RecordHeader : Type 0 where
  pub name : String
  pub content : List ℕ

abbrev pub seq_header_key : String
seq_header_key = "pl-seq"

-- `seqFromHeaders`: `none` is either error.
pub seq_from_headers : List RecordHeader → Option ℤ
unfolding decode_seq
seq_from_headers [] = none
seq_from_headers (h ∷ hs) =
    let rest = seq_from_headers hs in
    if h.name == seq_header_key then decode_seq h.content else rest

-- A record of Kafka, with its key as a number.
pub record Record : Type 0 where
  pub topic : String
  pub key : ℤ
  pub content : List ℕ
  pub headers : List RecordHeader

-- `recordFrom`, from the fields of the operation.
pub record_from : String → (key seq : ℤ) → List ℕ → Record
unfolding encode_seq
record_from topic key seq content = record {
  topic = topic;
  key = key;
  content = content;
  headers = record { name = seq_header_key; content = encode_seq seq } ∷ [];
}

-- `batchRecordAt`: record i of a batch.
pub batch_record_at : String → (key seq : ℤ) → List ℕ → (i batch : ℤ) → Record
unfolding encode_seq
batch_record_at topic key seq content i batch = record {
  topic = topic;
  key = add64 (mul64 key batch) i;
  content = content;
  headers = record { name = seq_header_key; content = encode_seq seq } ∷ [];
}

-- `isProduce`, `isConsume`, `isProduceBatch`
abbrev pub is_produce : String → Bool
is_produce t = t == "produce" || t == "w"

abbrev pub is_consume : String → Bool
is_consume t = t == "consume" || t == "r"

abbrev pub is_produce_batch : String → Bool
is_produce_batch t = t == "produce_batch" || t == "wb"
