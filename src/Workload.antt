-- ===== src/Workload.antt =====
-- core/workload: the operation stream of one load goroutine (generator.go, keydist.go, value.go).
-- The draws of the random generators are arguments: `IntN` and `Int64N` return a number below their
-- bound, and `Zipf.Uint64` one below the span. A payload's bytes come from a stream of 64-bit words,
-- a parameter. The Zipf exponent, a float, only shapes the draws and is left out.
pub mod Accepted
pub mod Partition
pub mod Mix
pub mod Keys
pub mod Sequence
pub mod Ownership
pub mod Payload
pub mod Examples
use proofload_sh.Prelude.{
  ℕ, zero, suc, ◌+◌, ◌-◌, ◌*◌, ◌/◌, ◌%◌, ◌^◌, Bool, true, false, not, ◌||◌, Option, none, some,
  List, [], ◌∷◌, ◌++◌, map, String, ltb, leb, ◌==◌, if◌then◌else◌, string_eq, int_eq, codes,
  eq_codes, lower, ℤ, pos, negsuc, ltb_ℤ, leb_ℤ, length, take, ◌≡◌, refl, Dict, lookup, insert,
}
use proofload_sh.Machine.{add64, sub64, mul64, div64, rem64}

pub record OpSpec : Type 0 where
  pub type : String
  pub weight : ℤ

-- A value of the workload's parameters; only a Boolean is told apart.
pub data Param : Type 0 where
  flag : Bool → Param
  other : Param

-- The fields of domain.Workload that the generator reads.
pub record Workload : Type 0 where
  pub operations : List OpSpec
  pub key_space : ℤ
  pub key_dist : String
  pub value_size : ℤ
  pub params : Dict String Param

-- domain.Operation
pub record Operation : Type 0 where
  pub type : String
  pub key : ℤ
  pub value : List ℕ
  pub seq : ℤ

pub record Factory : Type 0 where
  pub workload : Workload
  pub worker_id : ℤ
  pub stride : ℤ
  pub base : ℤ
  pub local_space : ℤ
  pub cum : List ℤ
  pub total : ℤ

pub data Error : Type 0 where
  no_operations : Error
  bad_worker_count bad_worker_id bad_key_space bad_weight owns_no_keys : ℤ → Error

pub data Result {ℓ} (A : Type ℓ) : Type ℓ where
  ok : A → Result A
  err : Error → Result A

infixl 5 ◌>>=◌
abbrev pub ◌>>=◌ {ℓ κ} : {A : Type ℓ} {B : Type κ} → Result A → (A → Result B) → Result B
err why >>= k = err why
ok x >>= k = k x

-- A successful chain has a successful first part.
pub bind-ok {ℓ κ} :
    {A : Type ℓ} {B : Type κ} (part : Result A) (k : A → Result B) {y : B}
    → (part >>= k) ≡ ok y
    → (x : A) × (part ≡ ok x) × (k x ≡ ok y)
bind-ok (err why) k h = cc
bind-ok (ok x) k h = (x, refl, h)

abbrev pub flag_of : Option Param → Bool
flag_of (some (flag b)) = b
flag_of _ = false

pub param_bool : Dict String Param → String → Bool
param_bool p key = flag_of (lookup key p)

pub record Slice : Type 0 where
  pub stride : ℤ
  pub base : ℤ
  pub keys : ℤ

-- The stride, base and key count of a worker.
pub partition : Workload → ℤ → ℤ → Slice
partition w worker_id worker_count =
    if param_bool w.params "shared_keys"
    then record { stride = pos 1; base = pos 0; keys = w.key_space }
    else if leb_ℤ w.key_space worker_id
    then record { stride = worker_count; base = worker_id; keys = pos 0 }
    else record {
      stride = worker_count;
      base = worker_id;
      keys = div64 (sub64 (add64 (sub64 w.key_space worker_id) worker_count) (pos 1)) worker_count;
    }

-- The running totals of the weights.
pub cumulate : List OpSpec → ℤ → Result (List ℤ × ℤ)
cumulate [] total = ok ([], total)
cumulate (op ∷ ops) total =
    let rest = cumulate ops (add64 total op.weight) in
    let taken = rest >>= λ (r : List ℤ × ℤ). ok (add64 total op.weight ∷ r.0, r.1) in
    if leb_ℤ op.weight (pos 0) then err (bad_weight op.weight) else taken

factory_of : Workload → ℤ → Slice → List ℤ × ℤ → Result Factory
factory_of w worker_id s c =
    if ltb_ℤ s.keys (pos 1)
    then err (owns_no_keys worker_id)
    else ok (record {
      workload = w;
      worker_id = worker_id;
      stride = s.stride;
      base = s.base;
      local_space = s.keys;
      cum = c.0;
      total = c.1;
    })

abbrev pub is_empty {ℓ} : {A : Type ℓ} → List A → Bool
is_empty [] = true
is_empty (x ∷ xs) = false

-- `New`
pub new : Workload → ℤ → ℤ → Result Factory
unfolding factory_of
new w worker_id worker_count =
    if is_empty w.operations
    then err no_operations
    else if ltb_ℤ worker_count (pos 1)
    then err (bad_worker_count worker_count)
    else if ltb_ℤ worker_id (pos 0) || leb_ℤ worker_count worker_id
    then err (bad_worker_id worker_id)
    else if ltb_ℤ w.key_space (pos 1)
    then err (bad_key_space w.key_space)
    else (cumulate w.operations (pos 0) >>= λ (c : List ℤ × ℤ).
        factory_of w worker_id (partition w worker_id worker_count) c)

-- keydist.go: the state of each key generator.
pub data KeyGen : Type 0 where
  const_keys : KeyGen
  uniform_keys zipf_keys : (span : ℤ) → KeyGen
  sequential_keys : (span cur : ℤ) → KeyGen
  latest_keys : (span head : ℤ) → KeyGen

pub new_key_gen : String → ℤ → KeyGen
new_key_gen dist span =
    if leb_ℤ span (pos 1)
    then const_keys
    else if dist == "zipfian"
    then zipf_keys span
    else if dist == "latest"
    then latest_keys span (pos 1)
    else if dist == "sequential"
    then sequential_keys span (pos 0)
    else uniform_keys span

-- `next`, with the value that the random generator draws.
pub next_key : ℤ → KeyGen → ℤ × KeyGen
next_key draw const_keys = (pos 0, const_keys)
next_key draw (uniform_keys span) = (draw, uniform_keys span)
next_key draw (zipf_keys span) = (draw, zipf_keys span)
next_key draw (sequential_keys span cur) =
    (rem64 cur span, sequential_keys span (add64 cur (pos 1)))
next_key draw (latest_keys span head) =
    let head' = if ltb_ℤ head span then add64 head (pos 1) else head in
    let off = if leb_ℤ head' draw then sub64 head' (pos 1) else draw in
    (sub64 (sub64 head' (pos 1)) off, latest_keys span head')

abbrev last_type : List OpSpec → String → String
last_type [] d = d
last_type (op ∷ ops) d = last_type ops op.type

-- The first operation whose running total exceeds the draw; the last one if none does.
pub pick : List ℤ → List OpSpec → ℤ → String → String
pick [] ops x d = d
pick (c ∷ cs) [] x d = d
pick (c ∷ cs) (op ∷ ops) x d = let rest = pick cs ops x d in if ltb_ℤ x c then op.type else rest

pub pick_op : Factory → ℤ → String
pick_op f x = pick f.cum f.workload.operations x (last_type f.workload.operations "")

read_ops : List String
read_ops = "read" ∷ "get" ∷ "scan" ∷ "count" ∷ "query" ∷ []

abbrev any_codes : List ℕ → List String → Bool
any_codes t [] = false
any_codes t (s ∷ ss) = eq_codes t (codes s) || any_codes t ss

pub is_write : String → Bool
unfolding read_ops
is_write t = not (any_codes (map lower (codes t)) read_ops)

-- The eight bytes of a word, the lowest first.
pub le_bytes : ℕ → ℕ → List ℕ
le_bytes zero u = []
le_bytes (suc k) u = u % 256 ∷ le_bytes k (u / 256)

-- The words of the payload from word `i` on; `size` bytes are left, and the last word may be cut.
pub fill : (ℕ → ℕ) → ℕ → ℕ → ℕ → List ℕ
unfolding le_bytes
fill stream zero i size = []
fill stream (suc fuel) i size =
    let rest = fill stream fuel (suc i) (size - 8) in
    let whole = le_bytes 8 (stream i) ++ rest in
    if leb 8 size then whole else if ltb 0 size then take size (le_bytes 8 (stream i)) else []

abbrev pub count_of : ℤ → ℕ
count_of (pos n) = n
count_of (negsuc n) = 0

-- `Value`. `stream key` are the words of the generator that is seeded with the key.
pub value : (ℤ → ℕ → ℕ) → ℤ → ℤ → List ℕ
value stream key size =
    if leb_ℤ size (pos 0) then [] else fill (stream key) (count_of size) 0 (count_of size)

pub record Generator : Type 0 where
  pub factory : Factory
  pub keys : KeyGen
  pub seq_of : Dict ℤ ℤ

-- `Factory.Generator`
pub generator : Factory → Generator
generator f = record {
  factory = f;
  keys = new_key_gen f.workload.key_dist f.local_space;
  seq_of = [];
}

abbrev pub or_zero : Option ℤ → ℤ
or_zero none = pos 0
or_zero (some n) = n

-- `Next`, with the draw for the operation type and the draw for the key.
pub next : (ℤ → ℕ → ℕ) → ℤ → ℤ → Generator → Operation × Generator
next stream type_draw key_draw g =
    let f = g.factory in
    let op = pick_op f type_draw in
    let drawn = next_key key_draw g.keys in
    let key = add64 (mul64 drawn.0 f.stride) f.base in
    let seq = add64 (or_zero (lookup key g.seq_of)) (pos 1) in
    let payload = if is_write op then value stream key f.workload.value_size else [] in
    (
      record { type = op; key = key; value = payload; seq = seq },
      record g { keys = drawn.1; seq_of = insert key seq g.seq_of },
    )
