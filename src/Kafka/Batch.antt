-- ===== src/Kafka/Batch.antt =====
-- The records of batches have distinct keys.
use native.Mathlib.Nat.{mul-add-div_right, div-eq_of_lt, mod-eq_of_lt, mul-add-mod_self_right}
use proofload_sh.Prelude.{
  ℕ, ◌+◌, ◌*◌, ◌/◌, ◌%◌, ◌<◌, ◌≡◌, ap, sym, ◌∙◌, arith, List, ℤ, pos, String, pos_part,
}
use proofload_sh.Machine.{two63, add64-pos, mul64-pos}
use proofload_sh.Kafka.{batch_record_at}

quotient : (k i batch : ℕ) → i < batch → (k * batch + i) / batch ≡ k
quotient k i batch h = mul-add-div_right (omega arith) k i ∙ omega (arith, div-eq_of_lt h)

remainder : (k i batch : ℕ) → i < batch → (k * batch + i) % batch ≡ i
remainder k i batch h = mul-add-mod_self_right k batch i ∙ mod-eq_of_lt h

batch_key :
    (topic : String) (key seq : ℤ) (content : List ℕ) (k i batch : ℕ)
    → k * batch + i < two63
    → (batch_record_at topic (pos k) seq content (pos i) (pos batch)).key ≡ pos (k * batch + i)
unfolding batch_record_at
batch_key topic key seq content k i batch h =
    rw (mul64-pos k batch (omega arith)) (add64-pos (k * batch) i h)

-- Two records of batches of one size have the same key only if they are the same place of the same
-- operation key, whatever their values and sequence numbers, if the keys are not negative and no key
-- overflows: no batch runs into the keys of the next operation.
pub batch_record_at-distinct :
    (topic : String) (seq seq' : ℤ) (content content' : List ℕ) (k l i j batch : ℕ)
    → i < batch
    → j < batch
    → k * batch + i < two63
    → l * batch + j < two63
    → (batch_record_at topic (pos k) seq content (pos i) (pos batch)).key
      ≡ (batch_record_at topic (pos l) seq' content' (pos j) (pos batch)).key
    → (k ≡ l) × (i ≡ j)
batch_record_at-distinct topic seq seq' content content' k l i j batch bi bj fk fl h =
    let same : k * batch + i ≡ l * batch + j = ap pos_part (
      sym (batch_key topic (pos k) seq content k i batch fk)
      ∙ h
      ∙ batch_key topic (pos l) seq' content' l j batch fl) in
    (
      sym (quotient k i batch bi) ∙ ap (λ n. n / batch) same ∙ quotient l j batch bj,
      sym (remainder k i batch bi) ∙ ap (λ n. n % batch) same ∙ remainder l j batch bj,
    )
