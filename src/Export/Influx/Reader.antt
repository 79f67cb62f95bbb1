-- ===== src/Export/Influx/Reader.antt =====
-- What a reader of the line protocol finds in the tags of a line.
use proofload_sh.Prelude.{
  ℕ, zero, suc, ◌≤◌, ◌≡◌, ◌≢◌, refl, ap, ◌∙◌, arith, Bool, true, false, List, [], ◌∷◌, ◌++◌, map,
  if◌then◌else◌, ◌||◌, eqb, All, String, Dict, codes, sorted_entries, length, format_int,
}
use mathlib.Core.List.{append_assoc}
use proofload_sh.Export.{backslash, comma, equals, space, newline, with_op}
use proofload_sh.Prelude.Names.{sorted_entries-All}
use proofload_sh.Export.Tags.{with_labels-All}
use proofload_sh.Snapshots.{LatencySnapshot}
use proofload_sh.Export.Influx.{
  is_special, escape_influx_tag, write_tags, write_influx_tags, write_influx_line,
  write_influx_fields, measurement,
}

-- The text up to the first line break, which no backslash can escape, or to the first special character
-- that none precedes, its escapes undone, and what follows it.
abbrev cons_left : ℕ → List ℕ × List ℕ → List ℕ × List ℕ
cons_left c p = (c ∷ p.0, p.1)

pub read_token : (escaped : Bool) → List ℕ → List ℕ × List ℕ
read_token false [] = ([], [])
read_token true [] = (backslash ∷ [], [])
read_token true (c ∷ cs) =
    let rest = cons_left c (read_token false cs) in
    if eqb c newline
    then (backslash ∷ [], c ∷ cs)
    else if is_special c
    then rest
    else cons_left backslash rest
read_token false (c ∷ cs) = elim (is_special c || eqb c newline) [
  | true ↦ ([], c ∷ cs)
  | false ↦ elim (eqb c backslash) [
    | true ↦ read_token true cs
    | false ↦ cons_left c (read_token false cs)
  ]
]

abbrev rest_of : List ℕ → List ℕ
rest_of [] = []
rest_of (c ∷ cs) = cs

-- A tag and those after it, or none when its key or its value is empty.
abbrev add_tag :
    (key value text : List ℕ) → List (List ℕ × List ℕ) × List ℕ → List (List ℕ × List ℕ) × List ℕ
add_tag [] value text more = ([], text)
add_tag (k ∷ ks) [] text more = ([], text)
add_tag (k ∷ ks) (v ∷ vs) text more = ((k ∷ ks, v ∷ vs) ∷ more.0, more.1)

-- The tags that a text begins with, n at most: each a comma, a key, an equals sign and a value, neither of
-- them empty.
pub read_tags : ℕ → List ℕ → List (List ℕ × List ℕ) × List ℕ
unfolding read_token
read_tags zero text = ([], text)
read_tags (suc n) [] = ([], [])
read_tags (suc n) (c ∷ cs) = elim (eqb c comma) [
  | false ↦ ([], c ∷ cs)
  | true ↦
      let key = read_token false cs in
      let value = read_token false (rest_of key.1) in
      let more = read_tags n value.1 in add_tag key.0 value.0 (c ∷ cs) more
]

-- A text without a backslash or a line break.
abbrev pub Plain : List ℕ → Type 0
Plain = All (λ c. (c ≢ backslash) × (c ≢ newline))

abbrev pub IsFilled : List ℕ → Type 0
IsFilled [] = ⊥
IsFilled (c ∷ cs) = Unit

add_tag-filled :
    (key value text : List ℕ) (more : List (List ℕ × List ℕ) × List ℕ)
    → IsFilled key
    → IsFilled value
    → add_tag key value text more ≡ ((key, value) ∷ more.0, more.1)
add_tag-filled [] value text more h g = absurd h
add_tag-filled (k ∷ ks) [] text more h g = absurd g
add_tag-filled (k ∷ ks) (v ∷ vs) text more h g = refl

-- A text at which a token ends: nothing, or a special character first.
abbrev Stops : List ℕ → Type 0
Stops [] = Unit
Stops (c ∷ cs) = is_special c ≡ true

read_token-escape_influx_tag :
    (s rest : List ℕ)
    → Plain s
    → Stops rest
    → read_token false (escape_influx_tag s ++ rest) ≡ (s, rest)
unfolding read_token escape_influx_tag
read_token-escape_influx_tag [] [] h k = refl
read_token-escape_influx_tag [] (sep ∷ rest) h k = ground (arith, k)
read_token-escape_influx_tag (c ∷ s) rest h k =
    let more = read_token-escape_influx_tag s rest h.1 k in ground (arith, more, h.0.0, h.0.1)

-- The tags as they are written and read: code points.
abbrev pub as_codes : String × String → List ℕ × List ℕ
as_codes (k, v) = (codes k, codes v)

-- A tag whose name and value are plain and not empty.
abbrev pub PlainTag : String × String → Type 0
PlainTag (k, v) = (Plain (codes k) × IsFilled (codes k)) × (Plain (codes v) × IsFilled (codes v))

write_tags-Stops :
    (tags : List (String × String)) (rest : List ℕ) → Stops (write_tags tags ++ space ∷ rest)
unfolding write_tags
write_tags-Stops [] rest = refl
write_tags-Stops (t ∷ tags) rest = refl

-- A tag that is written is read, and the reader goes on after it.
read_tags-tag :
    (n : ℕ) (k v : String) (rest : List ℕ)
    → PlainTag (k, v)
    → Stops rest
    → read_tags
        (suc n)
        (comma ∷ (escape_influx_tag (codes k) ++ (equals ∷ (escape_influx_tag (codes v) ++ rest))))
      ≡ ((codes k, codes v) ∷ (read_tags n rest).0, (read_tags n rest).1)
unfolding read_tags
read_tags-tag n k v rest plain stops =
    let value = escape_influx_tag (codes v) ++ rest in
    let text = escape_influx_tag (codes k) ++ (equals ∷ value) in
    rw
      (
        read_token-escape_influx_tag (codes k) (equals ∷ value) plain.0.0 refl,
        read_token-escape_influx_tag (codes v) rest plain.1.0 stops,
      )
      (add_tag-filled (codes k) (codes v) (comma ∷ text) (read_tags n rest) plain.0.1 plain.1.1)

read_tags-write_tags :
    (n : ℕ) (tags : List (String × String)) (rest : List ℕ)
    → length tags ≤ n
    → All PlainTag tags
    → read_tags n (write_tags tags ++ space ∷ rest) ≡ (map as_codes tags, space ∷ rest)
unfolding read_tags write_tags
read_tags-write_tags zero [] rest n_enough plain = refl
read_tags-write_tags (suc n) [] rest n_enough plain = refl
read_tags-write_tags zero (t ∷ tags) rest n_enough plain = absurd (omega (arith, n_enough))
read_tags-write_tags (suc n) ((k, v) ∷ tags) rest n_enough plain =
    let more = read_tags-write_tags n tags rest (omega (arith, n_enough)) plain.1 in
    let text : List ℕ = write_tags tags ++ space ∷ rest in
    let tag : List ℕ = escape_influx_tag (codes k) ++ (equals ∷ escape_influx_tag (codes v)) in
    let together : tag ++ write_tags tags ++ space ∷ rest
        ≡ escape_influx_tag (codes k) ++ (equals ∷ (escape_influx_tag (codes v) ++ text)) =
      append_assoc tag (write_tags tags) (space ∷ rest)
      ∙ append_assoc (escape_influx_tag (codes k)) (equals ∷ escape_influx_tag (codes v)) text in
    ap (λ t. read_tags (suc n) (comma ∷ t)) together
    ∙ read_tags-tag n k v text plain.0 (write_tags-Stops tags rest)
    ∙ ap (λ r. ((codes k, codes v) ∷ r.0, r.1)) more

op-Plain : Plain (codes "op")
op-Plain = ground arith

measurement-Plain : Plain measurement
measurement-Plain = ground arith

with_op-Plain :
    (op : String) (labels : Dict String String)
    → Plain (codes op)
    → IsFilled (codes op)
    → All PlainTag labels
    → All PlainTag (sorted_entries "" (with_op op labels))
unfolding with_op
with_op-Plain op labels h filled g =
    sorted_entries-All PlainTag "" (with_op op labels)
      (with_labels-All PlainTag (("op", op) ∷ []) labels (((op-Plain, tt), (h, filled)), tt) g)

-- The measurement, the tags, n at most, and what follows them.
pub read_series : ℕ → List ℕ → List ℕ × (List (List ℕ × List ℕ) × List ℕ)
unfolding read_token read_tags
read_series n text = let name = read_token false text in (name.0, read_tags n name.1)

read_token-measurement :
    (text : List ℕ) → Stops text → read_token false (measurement ++ text) ≡ (measurement, text)
unfolding escape_influx_tag
read_token-measurement text h = read_token-escape_influx_tag measurement text measurement-Plain h

-- Reading a line gives the measurement, every tag with its name and its value, in the order of the
-- names, and then the fields and the time, whatever commas, equals signs and spaces the labels hold. The
-- labels and the operation have no backslash and no line break and are not empty, and the reader takes as
-- many tags as there are.
pub read_series-write_influx_line :
    {F : Type 0} (format_float : F → List ℕ) (n : ℕ) (s : LatencySnapshot F)
    (labels : Dict String String)
    → length (sorted_entries "" (with_op s.op_type labels)) ≤ n
    → Plain (codes s.op_type)
    → IsFilled (codes s.op_type)
    → All PlainTag labels
    → read_series n (write_influx_line format_float s labels) ≡ (
      measurement,
      (
        map as_codes (sorted_entries "" (with_op s.op_type labels)),
        space ∷ (write_influx_fields format_float s ++ (space ∷ (format_int s.t ++ newline ∷ []))),
      ),
    )
unfolding read_series write_influx_line write_influx_tags
read_series-write_influx_line format_float n s labels n_enough op_plain op_filled plain =
    let tags = sorted_entries "" (with_op s.op_type labels) in
    let rest = write_influx_fields format_float s ++ (space ∷ (format_int s.t ++ newline ∷ [])) in
    let text = write_tags tags ++ space ∷ rest in
    ap (λ p. (p.0, read_tags n p.1)) (read_token-measurement text (write_tags-Stops tags rest))
    ∙ ap (λ r. (measurement, r))
        (read_tags-write_tags n tags rest n_enough
          (with_op-Plain s.op_type labels op_plain op_filled plain))
