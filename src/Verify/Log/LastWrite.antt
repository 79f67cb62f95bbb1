-- ===== src/Verify/Log/LastWrite.antt =====
-- The log keeps, for each key, the last of the records with the highest sequence number.
use proofload_sh.Prelude.{
  ℕ, suc, ◌≡◌, ◌≢◌, refl, subst, sym, ◌∙◌, ap, arith, Bool, Option, none, some, List, [], ◌∷◌, All,
  if◌then◌else◌, int_eq, ◌==◌, ◌⊎◌, inl, inr, ℤ, ◌≤ℤ◌, leb_ℤ, Dict, lookup, lookup-insert,
  Bool-cases, pos_part, neg_part, ◌<◌, ◌+◌,
}
use proofload_sh.Verify.Log.{
  WriteRecord, Line, blank, malformed, written, ok, replaces, keep_record, scan, read_log,
}

-- The records of a file.
abbrev pub records : List Line → List WriteRecord
records [] = []
records (blank ∷ ls) = records ls
records (malformed ∷ ls) = records ls
records (written r ∷ ls) = r ∷ records ls

abbrev ◌<ℤ◌ : ℤ → ℤ → Type 0
◌<ℤ◌ a b = pos_part a + neg_part b < pos_part b + neg_part a

-- `w` is the record of key k that counts among records: it is one of them, no record of the key before
-- it has a higher sequence number, and every record of the key after it has a lower one.
pub data IsLast (k : ℤ) (w : WriteRecord) : List WriteRecord → Type 0 where
  this :
      {rs : List WriteRecord}
      → w.key ≡ k
      → All (λ r. (r.key ≢ k) ⊎ (◌<ℤ◌ r.seq w.seq)) rs
      → IsLast k w (w ∷ rs)
  later :
      {r : WriteRecord} {rs : List WriteRecord}
      → (r.key ≢ k) ⊎ (r.seq ≤ℤ w.seq)
      → IsLast k w rs
      → IsLast k w (r ∷ rs)

-- What the map says of a key: no record, or the one that counts.
pub data Held (k : ℤ) (rs : List WriteRecord) : Option WriteRecord → Type 0 where
  absent : All (λ r. r.key ≢ k) rs → Held k rs none
  last : {w : WriteRecord} → IsLast k w rs → Held k rs (some w)

-- One key's entry, followed through the records.
follow : ℤ → Option WriteRecord → List WriteRecord → Option WriteRecord
follow k cur [] = cur
follow k cur (r ∷ rs) =
    follow k (if r.key == k then (if replaces r cur then some r else cur) else cur) rs

lookup-keep_record :
    (k : ℤ) (r : WriteRecord) (m : Dict ℤ WriteRecord)
    → lookup k (keep_record r m) ≡ (
        if r.key == k then (if replaces r (lookup k m) then some r else lookup k m) else lookup k m)
unfolding keep_record
lookup-keep_record k r m = elim (Bool-cases (r.key == k)) [
  | inl e ↦
      let same : r.key ≡ k = (int_eq.beq_iff r.key k).0 e in
      ground (arith, lookup-insert r.key k r m, e, ap (λ j. lookup j m) same)
  | inr e ↦ ground (arith, lookup-insert r.key k r m, e)
]

scan-follow :
    (k : ℤ) (failed : Bool) (n : ℕ) (ls : List Line) (m : Dict ℤ WriteRecord)
    {d : Dict ℤ WriteRecord}
    → scan failed n ls m ≡ ok d
    → lookup k d ≡ follow k (lookup k m) (records ls)
unfolding scan follow
scan-follow k failed n [] m h = ground arith
scan-follow k failed n (blank ∷ ls) m h = scan-follow k failed (suc n) ls m h
scan-follow k failed n (malformed ∷ ls) m h = cc
scan-follow k failed n (written r ∷ ls) m h =
    scan-follow k failed (suc n) ls (keep_record r m) h
    ∙ ap (λ c. follow k c (records ls)) (lookup-keep_record k r m)

-- What comes of a record c that is held: it stays, or a later record counts.
abbrev Outcome : ℤ → WriteRecord → List WriteRecord → WriteRecord → Type 0
Outcome k c rs w =
    ((w ≡ c) × All (λ r. (r.key ≢ k) ⊎ (◌<ℤ◌ r.seq c.seq)) rs) ⊎ ((c.seq ≤ℤ w.seq) × IsLast k w rs)

skip_other :
    (k : ℤ) (c r w : WriteRecord) (rs : List WriteRecord)
    → r.key ≢ k
    → Outcome k c rs w
    → Outcome k c (r ∷ rs) w
skip_other k c r w rs ne (inl (e, a)) = inl (e, (inl ne, a))
skip_other k c r w rs ne (inr (le, l)) = inr (le, later (inl ne) l)

skip_older :
    (k : ℤ) (c r w : WriteRecord) (rs : List WriteRecord)
    → ◌<ℤ◌ r.seq c.seq
    → Outcome k c rs w
    → Outcome k c (r ∷ rs) w
skip_older k c r w rs lt (inl (e, a)) = inl (e, (inr lt, a))
skip_older k c r w rs lt (inr (le, l)) = inr (le, later (inr (omega arith)) l)

take_newer :
    (k : ℤ) (r w : WriteRecord) (rs : List WriteRecord)
    → r.key ≡ k
    → Outcome k r rs w
    → IsLast k w (r ∷ rs) × (r.seq ≤ℤ w.seq)
take_newer k r w rs e (inl (same, a)) = (
  subst (λ x. IsLast k x (r ∷ rs)) (sym same) (this e a),
  subst (λ x. r.seq ≤ℤ x.seq) (sym same) (omega arith),
)
take_newer k r w rs e (inr (le, l)) = (later (inr le) l, le)

follow-some :
    (k : ℤ) (c : WriteRecord) (rs : List WriteRecord)
    → (w : WriteRecord) × (follow k (some c) rs ≡ some w) × Outcome k c rs w
unfolding follow
follow-some k c [] = (c, refl, inl (refl, tt))
follow-some k c (r ∷ rs) = elim (Bool-cases (r.key == k)) [
  | inr other ↦
      let ih = follow-some k c rs in
      rw other
        (ih.0, ih.1, skip_other k c r ih.0 rs (λ e. cc ((int_eq.beq_iff r.key k).1 e, other)) ih.2)
  | inl same ↦ elim (Bool-cases (leb_ℤ c.seq r.seq)) [
    | inl newer ↦
        let ih = follow-some k r rs in
        let t = take_newer k r ih.0 rs ((int_eq.beq_iff r.key k).0 same) ih.2 in
        rw (same, newer) (ih.0, ih.1, inr (ground arith, t.0))
    | inr older ↦
        let ih = follow-some k c rs in
        rw (same, older) (ih.0, ih.1, skip_older k c r ih.0 rs (ground arith) ih.2)
  ]
]

skip-Held :
    (k : ℤ) (r : WriteRecord) (rs : List WriteRecord) {o : Option WriteRecord}
    → r.key ≢ k
    → Held k rs o
    → Held k (r ∷ rs) o
skip-Held k r rs ne (absent a) = absent (ne, a)
skip-Held k r rs ne (last l) = last (later (inl ne) l)

follow-none : (k : ℤ) (rs : List WriteRecord) → Held k rs (follow k none rs)
unfolding follow
follow-none k [] = absent tt
follow-none k (r ∷ rs) = elim (Bool-cases (r.key == k)) [
  | inr other ↦
      rw other (skip-Held k r rs (λ e. cc ((int_eq.beq_iff r.key k).1 e, other)) (follow-none k rs))
  | inl same ↦
      let w = follow-some k r rs in
      rw (same, w.1) (last (take_newer k r w.0 rs ((int_eq.beq_iff r.key k).0 same) w.2).0)
]

-- When the log is read without an error, the map has an entry for exactly the keys that were written;
-- the entry of a key is a record of the file for it that no record of the key exceeds in sequence number,
-- and the last such in the file.
pub read_log-Held :
    (failed : Bool) (ls : List Line) (k : ℤ) {d : Dict ℤ WriteRecord}
    → read_log failed ls ≡ ok d
    → Held k (records ls) (lookup k d)
unfolding read_log lookup
read_log-Held failed ls k h =
    subst (Held k (records ls)) (sym (scan-follow k failed 1 ls [] h)) (follow-none k (records ls))
