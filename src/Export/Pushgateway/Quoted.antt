-- ===== src/Export/Pushgateway/Quoted.antt =====
-- What a reader of the exposition format finds between the quotes of a label.
use proofload_sh.Prelude.{
  ℕ, ◌≡◌, refl, arith, Bool, true, false, List, [], ◌∷◌, ◌++◌, if◌then◌else◌, eqb,
}
use proofload_sh.Export.{backslash, quote, newline}
use proofload_sh.Export.Pushgateway.{escape_prom_label_value}

abbrev cons_left : ℕ → List ℕ × List ℕ → List ℕ × List ℕ
cons_left c p = (c ∷ p.0, p.1)

-- The value up to the quote that ends it, its escapes undone, and what follows that quote.
pub read_value : (escaped : Bool) → List ℕ → List ℕ × List ℕ
read_value escaped [] = ([], [])
read_value true (c ∷ cs) = cons_left (if eqb c 110 then newline else c) (read_value false cs)
read_value false (c ∷ cs) = elim (eqb c quote) [
  | true ↦ ([], cs)
  | false ↦ elim (eqb c backslash) [
    | true ↦ read_value true cs
    | false ↦ cons_left c (read_value false cs)
  ]
]

-- A reader takes from between the quotes the value that was put there, whatever the value holds, and the
-- text after it is left as it was.
pub read_value-escape_prom_label_value :
    (value rest : List ℕ)
    → read_value false (escape_prom_label_value value ++ quote ∷ rest) ≡ (value, rest)
unfolding read_value escape_prom_label_value
read_value-escape_prom_label_value [] rest = refl
read_value-escape_prom_label_value (c ∷ value) rest =
    let more = read_value-escape_prom_label_value value rest in ground (arith, more)
