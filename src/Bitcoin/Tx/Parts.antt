-- ===== src/Bitcoin/Tx/Parts.antt =====
-- What the readers of the parts of a transaction take from its wire format.
use relay_settlement.Common.{
  ℕ, ◌^◌, ◌<◌, ◌≡◌, refl, sym, ap, Bool, true, false, not, List, [], ◌∷◌, ◌++◌, append_assoc,
  append-nil, map, length, All, arith, lt→ltb, ◌==◌, if◌then◌else◌, subst,
}
use relay_settlement.Bitcoin.Reader
use relay_settlement.Bitcoin.Reader.{
  Error, Reader, Parse, pure, ◌>>=◌, ◌>>◌, unless, bytes_n, u8, u32, u64, max_safe_integer,
}
use relay_settlement.Bitcoin.Reader.Reads.{
  Reads, Reads-bytes_n, Reads-pure, Reads-bind, Reads-last, Reads-unless, Reads-eq,
}
use relay_settlement.Bitcoin.Reader.Words.{Reads-u32, Reads-u64, Reads-var_int, var_int-zero}
use relay_settlement.Bitcoin.Codec.{concat, u32_le, u64_le, var_int}
use relay_settlement.Bitcoin.Tx.{
  TxInput, TxOutput, repeat, array_from, read_input, read_output, skip_witness, read_rest, output,
}
use relay_settlement.Bitcoin.Tx.Encode.{
  Spent, input_of, encode_input, IsInput, IsOutput, Wire, IsWire, tx_of, outputs_part,
  empty_witnesses,
}

module _ {ℓ κ} {A : Type ℓ} {B : Type κ} (m : Parse A) (encode : B → List ℕ) (value : B → A) where
  Reads-repeat :
      (bs : List B)
      → All (λ b. Reads m (encode b) (value b)) bs
      → Reads (repeat (length bs) m) (concat (map encode bs)) (map value bs)
  unfolding repeat concat
  Reads-repeat [] h = Reads-pure []
  Reads-repeat (b ∷ bs) h =
      Reads-bind m _ (encode b) (concat (map encode bs)) (value b) (map value (b ∷ bs)) h.0 (
        Reads-last (repeat (length bs) m) _ (concat (map encode bs)) (map value bs) _
          (Reads-repeat bs h.1) (Reads-pure (map value (b ∷ bs))))

  Reads-array_from :
      (bs : List B)
      → length bs < 2 ^ 32
      → All (λ b. Reads m (encode b) (value b)) bs
      → Reads (array_from (length bs) m) (concat (map encode bs)) (map value bs)
  unfolding array_from
  Reads-array_from bs fits h = rw (lt→ltb (length bs) (2 ^ 32) fits) (Reads-repeat bs h)

encode_input_lem :
    (i : TxInput) (s : List ℕ)
    → i.txid ++ (u32_le i.index ++ (var_int (length s) ++ (s ++ u32_le i.sequence)))
      ≡ encode_input (i, s)
unfolding encode_input concat
encode_input_lem i s = simp (append_assoc, append-nil)

Reads-read_input : (s : Spent) → IsInput s → Reads read_input (encode_input s) (input_of s)
unfolding read_input
Reads-read_input (i, s) (len, index, sequence, size) =
    Reads-eq read_input i (encode_input_lem i s) (
      Reads-bind (bytes_n 32) _ i.txid _ i.txid i (rw len at (Reads-bytes_n i.txid)) (
        Reads-bind u32 _ (u32_le i.index) _ i.index i (Reads-u32 i.index index) (
          Reads-bind Reader.var_int _ (var_int (length s)) _ (length s) i
            (Reads-var_int (length s) size)
            (Reads-bind (bytes_n (length s)) _ s _ s i (Reads-bytes_n s) (
              Reads-last u32 _ (u32_le i.sequence) i.sequence i (Reads-u32 i.sequence sequence)
                (Reads-pure i))))))

output_lem : (o : TxOutput) → u64_le o.value ++ (var_int (length o.script) ++ o.script) ≡ output o
unfolding output
output_lem o = simp append-nil

Reads-read_output : (o : TxOutput) → IsOutput o → Reads read_output (output o) o
unfolding read_output
Reads-read_output o (value, size) = Reads-eq read_output o (output_lem o) (
    Reads-bind u64 _ (u64_le o.value) _ o.value o (Reads-u64 o.value value) (
      Reads-bind Reader.var_int _ (var_int (length o.script)) _ (length o.script) o
        (Reads-var_int (length o.script) size)
        (Reads-last (bytes_n (length o.script)) _ o.script o.script o (Reads-bytes_n o.script)
          (Reads-pure o))))

inputs_read :
    (ss : List Spent)
    → All IsInput ss
    → All (λ s. Reads read_input (encode_input s) (input_of s)) ss
inputs_read [] h = tt
inputs_read (s ∷ ss) h = (Reads-read_input s h.0, inputs_read ss h.1)

outputs_read : (os : List TxOutput) → All IsOutput os → All (λ o. Reads read_output (output o) o) os
outputs_read [] h = tt
outputs_read (o ∷ os) h = (Reads-read_output o h.0, outputs_read os h.1)

map_same {ℓ} : {A : Type ℓ} (xs : List A) → map (λ x. x) xs ≡ xs
map_same [] = refl
map_same (x ∷ xs) = ap (λ t. x ∷ t) (map_same xs)

not_zero : (n : ℕ) → 0 < n → not (n == 0) ≡ true
not_zero n h = ground arith

Reads-skip_witness : (ss : List Spent) → Reads (skip_witness (length ss)) (empty_witnesses ss) tt
unfolding skip_witness
Reads-skip_witness [] = Reads-pure tt
Reads-skip_witness (s ∷ ss) =
    Reads-bind Reader.var_int _ (0 ∷ []) (empty_witnesses ss) 0 tt
      (Reads-eq Reader.var_int 0 var_int-zero (Reads-var_int 0 (omega arith)))
      (Reads-unless true Error.witness_not_empty (skip_witness (length ss)) (empty_witnesses ss) tt
        refl (Reads-skip_witness ss))

-- The witnesses that a transaction of either format has on the wire.
abbrev pub witnesses : Bool → Wire → List ℕ
witnesses true w = empty_witnesses w.spent
witnesses false w = []

Reads-witnesses :
    (has_witness : Bool) (w : Wire)
    → Reads
        (if has_witness then skip_witness (length w.spent) else pure tt)
        (witnesses has_witness w)
        tt
Reads-witnesses true w = Reads-skip_witness w.spent
Reads-witnesses false w = Reads-pure tt

module _ (w : Wire) (h : IsWire w) where
  Reads-outputs :
      Reads (array_from (length w.outputs) read_output) (concat (map output w.outputs)) w.outputs
  Reads-outputs =
      subst
        (λ t. Reads (array_from (length w.outputs) read_output) (concat (map output w.outputs)) t)
        (map_same w.outputs)
        (Reads-array_from read_output output (λ o. o) w.outputs h.output_count
          (outputs_read w.outputs h.outputs))

  Reads-tail :
      (has_witness : Bool)
      → Reads
          (do
            if has_witness then skip_witness (length w.spent) else pure tt
            locktime ← u32
            pure (record {
              version = w.version;
              inputs = map input_of w.spent;
              outputs = w.outputs;
              locktime = locktime;
            }))
          (witnesses has_witness w ++ u32_le w.locktime)
          (tx_of w)
  Reads-tail has_witness =
      Reads-bind _ _ (witnesses has_witness w) (u32_le w.locktime) tt (tx_of w)
        (Reads-witnesses has_witness w)
        (Reads-last u32 _ (u32_le w.locktime) w.locktime (tx_of w) (Reads-u32 w.locktime h.locktime)
          (Reads-pure (tx_of w)))

  pub Reads-read_rest :
      (has_witness : Bool)
      → Reads
          (read_rest w.version has_witness (length w.spent))
          (concat (map encode_input w.spent)
            ++ (outputs_part w ++ (witnesses has_witness w ++ u32_le w.locktime)))
          (tx_of w)
  unfolding read_rest
  Reads-read_rest has_witness =
      Reads-unless (not (length w.spent == 0)) Error.no_inputs _ _ (tx_of w)
        (not_zero (length w.spent) h.some_input)
        (Reads-bind _ _ (concat (map encode_input w.spent)) _ (map input_of w.spent) (tx_of w)
          (Reads-array_from read_input encode_input input_of w.spent h.input_count
            (inputs_read w.spent h.spent))
          (Reads-eq _ (tx_of w) (sym (append_assoc (var_int (length w.outputs)) _ _)) (
            Reads-bind Reader.var_int _ (var_int (length w.outputs)) _ (length w.outputs) (tx_of w)
              (Reads-var_int (length w.outputs) (omega (arith, h.output_count)))
              (Reads-unless (not (length w.outputs == 0)) Error.no_outputs _ _ (tx_of w)
                (not_zero (length w.outputs) h.some_output)
                (Reads-bind _ _ (concat (map output w.outputs)) _ w.outputs (tx_of w) Reads-outputs
                  (Reads-tail has_witness))))))
