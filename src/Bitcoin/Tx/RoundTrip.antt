-- ===== src/Bitcoin/Tx/RoundTrip.antt =====
-- `parseTx` on the two wire formats of a transaction.
use relay_settlement.Common.{
  and_then, ℕ, zero, suc, ◌≤◌, ◌<◌, ◌≡◌, refl, sym, ap, true, false, List, [], ◌∷◌, ◌++◌,
  append_assoc, append-nil, length, arith, ok, err, ◌==◌,
}
use relay_settlement.Bitcoin.Reader
use relay_settlement.Bitcoin.Reader.{Error, Reader, max_safe_integer, Parse, pure, ◌>>=◌, u8, u32}
use relay_settlement.Bitcoin.Reader.Reads.{
  Reads, Reads-pure, Reads-bind, Reads-unless, Reads-eq, end-At, end_trailing,
}
use relay_settlement.Bitcoin.Reader.Words.{Reads-u8, Reads-u32, Reads-var_int, var_int-zero}
use relay_settlement.Bitcoin.Codec.{u32_le, var_int}
use relay_settlement.Bitcoin.Tx.{ParsedTx, read_count, read_body, parse_bytes}
use relay_settlement.Bitcoin.Tx.Encode.{Wire, IsWire, tx_of, encode_legacy, encode_segwit}
use relay_settlement.Bitcoin.Tx.Parts.{Reads-read_rest}

read_count_pos : (n : ℕ) → 0 < n → read_count n ≡ pure n
unfolding read_count
read_count_pos zero h = absurd (omega arith)
read_count_pos (suc n) h = refl

pos_eq_zero : (n : ℕ) → 0 < n → (n == 0) ≡ false
pos_eq_zero n h = ground arith

-- The flag behind the marker, and then the count.
Reads-flag : (n : ℕ) → n ≤ max_safe_integer → Reads (read_count zero) (1 ∷ var_int n) n
unfolding read_count
Reads-flag n h =
    Reads-bind u8 _ (1 ∷ []) (var_int n) 1 n (Reads-u8 1)
      (Reads-unless true Error.bad_marker Reader.var_int (var_int n) n refl (Reads-var_int n h))

module _ (w : Wire) (h : IsWire w) where
  Reads-legacy : Reads read_body (encode_legacy w) (tx_of w)
  unfolding read_body encode_legacy
  Reads-legacy =
      Reads-bind u32 _ (u32_le w.version) _ w.version (tx_of w) (Reads-u32 w.version h.version) (
        Reads-eq _ (tx_of w) (sym (append_assoc (var_int (length w.spent)) _ _)) (
          Reads-bind Reader.var_int _ (var_int (length w.spent)) _ (length w.spent) (tx_of w)
            (Reads-var_int (length w.spent) (omega (arith, h.input_count)))
            (rw
              (
                read_count_pos (length w.spent) h.some_input,
                pos_eq_zero (length w.spent) h.some_input,
              )
              (Reads-bind (pure (length w.spent)) _ [] _ (length w.spent) (tx_of w)
                (Reads-pure (length w.spent)) (Reads-read_rest w h false)))))

  Reads-segwit : Reads read_body (encode_segwit w) (tx_of w)
  unfolding read_body encode_segwit
  Reads-segwit =
      Reads-bind u32 _ (u32_le w.version) _ w.version (tx_of w) (Reads-u32 w.version h.version) (
        Reads-bind Reader.var_int _ (0 ∷ []) _ 0 (tx_of w)
          (Reads-eq Reader.var_int 0 var_int-zero (Reads-var_int 0 (omega arith)))
          (Reads-eq _ (tx_of w)
            (ap (λ t. 1 ∷ t) (sym (append_assoc (var_int (length w.spent)) _ _)))
            (Reads-bind (read_count 0) _ (1 ∷ var_int (length w.spent)) _ (length w.spent) (tx_of w)
              (Reads-flag (length w.spent) (omega (arith, h.input_count)))
              (Reads-read_rest w h true))))

-- The whole input is read, or else it is refused for what follows the transaction.
parse_bytes-Reads : (xs : List ℕ) (tx : ParsedTx) → Reads read_body xs tx → parse_bytes xs ≡ ok tx
unfolding parse_bytes and_then
parse_bytes-Reads xs tx h =
    let r : Reader = record { bytes = xs; offset = 0 } in
    let (s, e, at_end) =
      h.at r [] (record { ahead = sym (append-nil xs); within = ground (arith, append-nil xs) }) in
    rw (e, end-At s at_end)

parse_bytes_trailing :
    (xs : List ℕ) (x : ℕ) (rest : List ℕ) (tx : ParsedTx)
    → Reads read_body xs tx
    → parse_bytes (xs ++ (x ∷ rest)) ≡ err Error.trailing_bytes
unfolding parse_bytes and_then
parse_bytes_trailing xs x rest tx h =
    let r : Reader = record { bytes = xs ++ (x ∷ rest); offset = 0 } in
    let (s, e, more) = h.at r (x ∷ rest) (record { ahead = refl; within = omega arith }) in
    rw (e, end_trailing s x rest more)

module _ (w : Wire) (h : IsWire w) where
  -- Every transaction whose fields fit the wire format is read back from the format without
  -- witnesses and from the format with empty witnesses.
  pub parse_bytes-encode :
      (parse_bytes (encode_legacy w) ≡ ok (tx_of w))
      × (parse_bytes (encode_segwit w) ≡ ok (tx_of w))
  parse_bytes-encode = (
    parse_bytes-Reads (encode_legacy w) (tx_of w) (Reads-legacy w h),
    parse_bytes-Reads (encode_segwit w) (tx_of w) (Reads-segwit w h),
  )

  -- Bytes behind such a transaction, in either format, are refused.
  pub parse_bytes-encode_trailing :
      (x : ℕ) (rest : List ℕ)
      → (parse_bytes (encode_legacy w ++ (x ∷ rest)) ≡ err Error.trailing_bytes)
        × (parse_bytes (encode_segwit w ++ (x ∷ rest)) ≡ err Error.trailing_bytes)
  parse_bytes-encode_trailing x rest = (
    parse_bytes_trailing (encode_legacy w) x rest (tx_of w) (Reads-legacy w h),
    parse_bytes_trailing (encode_segwit w) x rest (tx_of w) (Reads-segwit w h),
  )
