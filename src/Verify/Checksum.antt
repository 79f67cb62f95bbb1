-- ===== src/Verify/Checksum.antt =====
-- core/verify/checksum.go: FNV-1a over 64 bits, as `hash/fnv` computes it.
use Prim.Native.Nat.{bit_xor}
use proofload_sh.Prelude.{ℕ, ◌*◌, ◌%◌, List, [], ◌∷◌}
use proofload_sh.Machine.{two64}

fnv_step : ℕ → ℕ → ℕ
fnv_step h b = bit_xor h b * 1099511628211 % two64

fnv : ℕ → List ℕ → ℕ
fnv h [] = h
fnv h (b ∷ bs) = fnv (fnv_step h b) bs

-- `Checksum`
unfoldable pub checksum : List ℕ → ℕ
unfolding fnv fnv_step
checksum b = fnv 14695981039346656037 b
