-- ===== src/Verify/Register/Operations.antt =====
-- core/verify/porcupine.go: the operations that the events of a history stand for.
use proofload_sh.Prelude.{
  ◌≡◌, refl, ap, ◌∙◌, Bool, true, false, List, [], ◌∷◌, ◌++◌, map, if◌then◌else◌, keep,
}
use proofload_sh.Verify.History.{Event, Family, read, write, append, other}
use proofload_sh.Verify.Register.{Operation, register_op, register_ops}

abbrev pub is_write : Event → Bool
is_write e = elim (e.family) [ write ↦ true | read ↦ false | append ↦ false | other ↦ false ]

abbrev pub on_register : Event → Bool
on_register e = elim (e.family) [ write ↦ true | read ↦ true | append ↦ false | other ↦ false ]

-- An event as an operation on a register: a write has an input and a read an output, within the event's times.
abbrev pub as_operation : Event → Operation
as_operation e = record {
  client_id = e.process;
  input = record { write = is_write e; key = e.key; value = if is_write e then e.w_val else 0 };
  output = if is_write e then 0 else e.r_val;
  call = e.invoke;
  return = e.complete;
}

register_op-map :
    (e : Event) (f : Family)
    → e.family ≡ f
    → (rest : List Event)
    → register_op e f ++ map as_operation (keep on_register rest)
      ≡ map as_operation (keep on_register (e ∷ rest))
unfolding register_op
register_op-map e write h rest = rw h refl
register_op-map e read h rest = rw h refl
register_op-map e append h rest = rw h refl
register_op-map e other h rest = rw h refl

pub register_ops-map : (es : List Event) → register_ops es ≡ map as_operation (keep on_register es)
unfolding register_ops
register_ops-map [] = refl
register_ops-map (e ∷ es) =
    ap (λ os. register_op e e.family ++ os) (register_ops-map es)
    ∙ register_op-map e e.family refl es
