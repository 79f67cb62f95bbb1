-- ===== src/Metrics/Codec.antt =====
-- The codec of a recorder: what a worker encodes, the coordinator decodes with the same totals.
use proofload_sh.Prelude.{
  ℕ, ◌<◌, ◌≡◌, refl, ◌∙◌, subst, some_injective, bind-some, arith, some, [], ◌∷◌, String, Dict,
}
use proofload_sh.Machine.{two63}
use proofload_sh.Metrics.{
  Histograms, CountLaws, Recorder, Local, Envelope, collect, figures_of, encode_ops, decode_ops,
  encode, decode,
}
use proofload_sh.Metrics.Sinks.{Sound, collect-totals}

-- What the library documents of its encoding: a histogram that it encodes is decoded with its range and its
-- count.
pub record CodecLaws (lib : Histograms) : Type 0 where
  pub decode_encode :
      (h : lib.Hist) (s : String)
      → lib.encode_hist h ≡ some s
      → (k : lib.Hist) × (lib.decode_hist s ≡ some k)
        × (lib.total_count k ≡ lib.total_count h)
        × ((lib.export k).highest ≡ (lib.export h).highest)

module _ (lib : Histograms) (laws : CountLaws lib) (codec : CodecLaws lib) where
  open lib use {Hist, total_count, export, encode_hist, decode_hist}

  decode_ops-encode_ops :
      (ops : Dict String Hist) (texts : Dict String String)
      → encode_ops lib ops ≡ some texts
      → (back : Dict String Hist) × (decode_ops lib texts ≡ some back)
  unfolding encode_ops decode_ops
  decode_ops-encode_ops [] texts e =
      subst (λ (t : Dict String String). (back : Dict String Hist) × (decode_ops lib t ≡ some back))
        (some_injective [] texts e) ([], refl)
  decode_ops-encode_ops ((op, h) ∷ ops) texts e =
      let (s, made, e1) = bind-some (encode_hist h) _ texts e in
      let (rest, others, e2) = bind-some (encode_ops lib ops) _ texts e1 in
      let (k, back, _, _) = codec.decode_encode h s made in
      let (ks, backs) = decode_ops-encode_ops ops rest others in
      subst (λ (t : Dict String String). (back : Dict String Hist) × (decode_ops lib t ≡ some back))
        (some_injective ((op, s) ∷ rest) texts e2) ((op, k) ∷ ks, ground (arith, back, backs))

  -- What a recorder encodes is decoded, and the recorder that it gives counts the same operations and errors
  -- in the same range.
  pub decode-encode :
      (r : Recorder Hist) (n e : ℕ) (env : Envelope)
      → Sound lib laws r n e
      → e < two63
      → encode lib r ≡ some env
      → (q : Recorder Hist) × (decode lib env ≡ some q) × (q.high ≡ r.high) × Sound lib laws q n e
  unfolding encode decode
  decode-encode r n e env s b made =
      let m = collect lib r in
      let totals = collect-totals lib laws r n e s b in
      let (overall, done, e1) = bind-some (encode_hist m.overall) _ env made in
      let (ops, each, e2) = bind-some (encode_ops lib m.by_op) _ env e1 in
      let (h, back, count, range) = codec.decode_encode m.overall overall done in
      let (by_op, backs) = decode_ops-encode_ops m.by_op ops each in
      let sink : Local Hist = record {
        high = r.high;
        sig = figures_of r.sig;
        overall = h;
        by_op = by_op;
        err_by_op = m.err_by_op;
        err_total = m.err_total;
      } in
      let q : Recorder Hist = record {
        high = r.high;
        sig = figures_of r.sig;
        locals = sink ∷ [];
        prev_snap = [];
        prev_err = [];
      } in
      let sound : Sound lib laws q n e = record {
        range = s.range;
        sinks = ((refl, range ∙ totals.0, ground (arith, totals.2)), tt);
        total = omega (arith, count, totals.1);
        failed = ground (arith, totals.2);
      } in
      subst
        (λ (v : Envelope).
          (q : Recorder Hist) × (decode lib v ≡ some q) × (q.high ≡ r.high) × Sound lib laws q n e)
        (some_injective _ env e2) (q, ground (arith, back, backs), refl, sound)
