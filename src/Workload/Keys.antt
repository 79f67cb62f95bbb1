-- ===== src/Workload/Keys.antt =====
-- Every key generator stays inside its span.
use native.Mathlib.Nat.{mod-lt}
use proofload_sh.Prelude.{
  ℕ, suc, ◌+◌, ◌-◌, ◌≤◌, ◌<◌, ◌≡◌, refl, arith, Bool, true, false, ltb, leb, if◌then◌else◌, pos,
  ltb_ℤ, leb_ℤ, String, Bool-cases, inl, inr, ◌==◌, string_eq,
}
use proofload_sh.Machine.{two63, add64, add64-pos, sub64, sub64-pos, rem64-pos}
use proofload_sh.Workload.{
  KeyGen, const_keys, uniform_keys, zipf_keys, sequential_keys, latest_keys, new_key_gen, next_key,
}

-- A generator over `span` keys that can make `calls` more calls before a counter wraps around.
pub data IsKeyGen (span calls : ℕ) : KeyGen → Type 0 where
  const : 0 < span → IsKeyGen span calls const_keys
  uniform : IsKeyGen span calls (uniform_keys (pos span))
  zipf : IsKeyGen span calls (zipf_keys (pos span))
  sequential :
      (cur : ℕ) → cur + calls < two63 → IsKeyGen span calls (sequential_keys (pos span) (pos cur))
  latest :
      (head : ℕ) → 0 < head → head ≤ span → IsKeyGen span calls (latest_keys (pos span) (pos head))

-- The generator that `newKeyGen` builds, for any name of a distribution.
pub new_key_gen-IsKeyGen :
    (dist : String) (span calls : ℕ)
    → 0 < span
    → calls < two63
    → IsKeyGen span calls (new_key_gen dist (pos span))
unfolding new_key_gen
new_key_gen-IsKeyGen dist span calls p b = elim (Bool-cases (leb_ℤ (pos span) (pos 1))) [
  | inl one ↦ rw one (const p)
  | inr more ↦ rw more (pick (dist == "zipfian") (dist == "latest") (dist == "sequential"))
]
  where
    pick :
        (z l s : Bool)
        → IsKeyGen span calls (
            if z
            then zipf_keys (pos span)
            else if l
            then latest_keys (pos span) (pos 1)
            else if s
            then sequential_keys (pos span) (pos 0)
            else uniform_keys (pos span))
    pick true l s = zipf
    pick false true s = latest 1 (omega arith) p
    pick false false true = sequential 0 (omega arith)
    pick false false false = uniform

-- The head of the latest keys after one more insertion, and the offset back from it.
abbrev grow : ℕ → ℕ → ℕ
grow head span = if ltb head span then head + 1 else head

abbrev back : ℕ → ℕ → ℕ
back head draw = if leb head draw then head - 1 else draw

grow_eq :
    (head span : ℕ)
    → span < two63
    → (if ltb_ℤ (pos head) (pos span) then add64 (pos head) (pos 1) else pos head)
      ≡ pos (grow head span)
grow_eq head span b = ground (arith, add64-pos head 1)

back_eq :
    (head draw : ℕ)
    → 0 < head
    → head < two63
    → (if leb_ℤ (pos head) (pos draw) then sub64 (pos head) (pos 1) else pos draw)
      ≡ pos (back head draw)
back_eq head draw p b = ground (arith, sub64-pos head 1)

grow_bounds :
    (head span : ℕ) → 0 < head → head ≤ span → (0 < grow head span) × (grow head span ≤ span)
grow_bounds head span p h = ground arith

back_bound : (head draw : ℕ) → 0 < head → back head draw ≤ head - 1
back_bound head draw p = ground arith

latest_key :
    (span head draw : ℕ)
    → span < two63
    → 0 < head
    → head ≤ span
    → (next_key (pos draw) (latest_keys (pos span) (pos head))).0
      ≡ pos (grow head span - 1 - back (grow head span) draw)
unfolding next_key
latest_key span head draw b p h =
    let g = grow_bounds head span p h in
    rw
      (
        grow_eq head span b,
        back_eq (grow head span) draw g.0 (omega arith),
        sub64-pos (grow head span) 1 g.0 (omega arith),
      )
      (sub64-pos (grow head span - 1) (back (grow head span) draw)
        (back_bound (grow head span) draw g.0) (omega arith))

-- A draw below the span gives a key below the span, and the generator stays well formed.
pub next_key_in_span :
    (span calls draw : ℕ) {g : KeyGen}
    → span < two63
    → draw < span
    → IsKeyGen span (suc calls) g
    → (k : ℕ) × ((next_key (pos draw) g).0 ≡ pos k)
      × (k < span)
      × IsKeyGen span calls (next_key (pos draw) g).1
unfolding next_key
next_key_in_span span calls draw b d (const p) = (0, refl, p, const p)
next_key_in_span span calls draw b d uniform = (draw, refl, d, uniform)
next_key_in_span span calls draw b d zipf = (draw, refl, d, zipf)
next_key_in_span span calls draw b d (sequential cur h) = (
  _,
  rem64-pos cur span (omega arith),
  mod-lt cur (omega arith),
  rw (add64-pos cur 1 (omega arith)) (sequential (cur + 1) (omega arith)),
)
next_key_in_span span calls draw b d (latest head p h) =
    let g = grow_bounds head span p h in
    (
      _,
      latest_key span head draw b p h,
      omega arith,
      rw (grow_eq head span b) (latest (grow head span) g.0 g.1),
    )
