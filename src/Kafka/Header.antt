-- ===== src/Kafka/Header.antt =====
-- The sequence header round-trips.
use native.Mathlib.Nat.{div-add-mod, div-div-eq-div-mul, pow-succ'}
use proofload_sh.Prelude.{
  ℕ, zero, suc, ◌+◌, ◌*◌, ◌/◌, ◌%◌, ◌^◌, ◌<◌, ◌≡◌, ap, ◌∙◌, arith, List, some, ℤ, pos, negsuc,
  String, string_eq,
}
use proofload_sh.Machine.{two64, InInt64}
use proofload_sh.Kafka.{
  unsigned, signed, big_endian, from_big_endian, encode_seq, decode_seq, seq_from_headers,
  record_from, batch_record_at,
}

signed-unsigned : (i : ℤ) → InInt64 i → signed (unsigned i) ≡ i
unfolding signed unsigned
signed-unsigned (pos n) h = ground arith
signed-unsigned (negsuc n) h = ground arith

spread : (a q r : ℕ) → a * (256 * q + r) ≡ a * 256 * q + r * a
spread a q r = grind arith

-- The digit of base 256 above a weight, and what is below it.
mod_split : (a n : ℕ) → n % (a * 256) ≡ (n / a % 256) * a + n % a
mod_split a n =
    let nested = ap (λ q. a * 256 * q) (div-div-eq-div-mul n a 256) in
    let digit = ap (λ m. a * m) (div-add-mod (n / a) 256) in
    omega (
      arith,
      nested,
      digit,
      div-add-mod n (a * 256),
      div-add-mod n a,
      spread a (n / a / 256) (n / a % 256),
    )

step_up : (acc d w : ℕ) → (acc * 256 + d) * w ≡ acc * (w * 256) + d * w
step_up acc d w = grind arith

from_big_endian-big_endian :
    (k n acc : ℕ) → from_big_endian acc (big_endian k n) ≡ acc * 256 ^ k + n % 256 ^ k
unfolding from_big_endian big_endian
from_big_endian-big_endian zero n acc = omega arith
from_big_endian-big_endian (suc k) n acc =
    let up : 256 ^ suc k ≡ 256 ^ k * 256 = omega (arith, pow-succ' 256 k) in
    from_big_endian-big_endian k n (acc * 256 + n / 256 ^ k % 256)
    ∙ rw up (omega (arith, mod_split (256 ^ k) n, step_up acc (n / 256 ^ k % 256) (256 ^ k)))

unsigned_lt : (i : ℤ) → unsigned i < two64
unfolding unsigned
unsigned_lt (pos n) = omega arith
unsigned_lt (negsuc n) = omega arith

decode-encode : (seq : ℤ) → InInt64 seq → decode_seq (encode_seq seq) ≡ some seq
unfolding decode_seq encode_seq big_endian
decode-encode seq h =
    let whole : from_big_endian 0 (big_endian 8 (unsigned seq)) ≡ unsigned seq =
      from_big_endian-big_endian 8 (unsigned seq) 0 ∙ omega (arith, unsigned_lt seq) in
    ap some (ap signed whole ∙ signed-unsigned seq h)

-- The verifier reads back from a produced record, batched or not, the sequence number of its operation, if
-- that is an int64.
pub seq_from_headers-batch :
    (topic : String) (key seq i batch : ℤ) (content : List ℕ)
    → InInt64 seq
    → (seq_from_headers (record_from topic key seq content).headers ≡ some seq)
      × (seq_from_headers (batch_record_at topic key seq content i batch).headers ≡ some seq)
unfolding seq_from_headers record_from batch_record_at
seq_from_headers-batch topic key seq i batch content h = (decode-encode seq h, decode-encode seq h)
