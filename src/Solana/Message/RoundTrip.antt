-- ===== src/Solana/Message/RoundTrip.antt =====
-- `parseSolanaCompiledMessage` on the wire format of a message, with and without a version.
use relay_settlement.Common.{
  ℕ, ◌≡◌, ◌<◌, ◌∙◌, subst, List, [], ◌∷◌, ◌++◌, true, arith, bit_and, ok, length, All, lt→ltb, ◌==◌,
  and_then,
}
use relay_settlement.Solana.Reader.{pure, ◌>>=◌, read, read_byte, skip, read_short_u16, repeat}
use relay_settlement.Solana.Reader.Reads.{
  Reads, Reads-read, Reads-skip, Reads-read_byte, Reads-pure, Reads-bind, Reads-last, encode_all,
  Reads-repeat, encode_short_u16, Reads-encode_short_u16, top_bit,
}
use relay_settlement.Solana.Message.{
  Instruction, Message, pubkey_len, read_instruction, read_version, read_message, parse_message,
}

-- A message with the parts that the parser passes over.
pub record Wire : Type 0 where
  pub message : Message
  pub read_only : List ℕ
  pub blockhash : List ℕ
  pub lookups : List ℕ

pub record IsInstruction (i : Instruction) : Type 0 where
  pub accounts : length i.account_indexes < 65536
  pub args : length i.args < 65536

pub record IsWire (w : Wire) : Type 0 where
  pub signers : w.message.num_required_signatures < 128
  pub read_only : length w.read_only ≡ 2
  pub keys : All (λ k. length k ≡ pubkey_len) w.message.static_account_keys
  pub key_count : length w.message.static_account_keys < 65536
  pub blockhash : length w.blockhash ≡ 32
  pub instructions : All IsInstruction w.message.instructions
  pub instruction_count : length w.message.instructions < 65536

unfoldable pub encode_instruction : Instruction → List ℕ
unfolding encode_short_u16
encode_instruction i =
    i.program_id_index
    ∷ (encode_short_u16 (length i.account_indexes)
        ++ (encode_all (λ b. b ∷ []) i.account_indexes
            ++ (encode_short_u16 (length i.args) ++ i.args)))

unfoldable pub encode_message : Wire → List ℕ
unfolding encode_instruction
encode_message w =
    w.message.num_required_signatures
    ∷ (w.read_only
        ++ (encode_short_u16 (length w.message.static_account_keys)
            ++ (encode_all (λ k. k) w.message.static_account_keys
                ++ (w.blockhash
                    ++ (encode_short_u16 (length w.message.instructions)
                        ++ encode_all encode_instruction w.message.instructions)))))

bytes_read : (bs : List ℕ) → All (λ b. Reads read_byte (b ∷ []) b) bs
bytes_read [] = tt
bytes_read (b ∷ bs) = (Reads-read_byte b, bytes_read bs)

Reads-instruction :
    (i : Instruction) → IsInstruction i → Reads read_instruction (encode_instruction i) i
unfolding read_instruction encode_instruction
Reads-instruction i h =
    Reads-bind read_byte _ (i.program_id_index ∷ []) _ i.program_id_index i
      (Reads-read_byte i.program_id_index)
      (Reads-bind read_short_u16 _ (encode_short_u16 (length i.account_indexes)) _
        (length i.account_indexes) i (Reads-encode_short_u16 (length i.account_indexes) h.accounts)
        (Reads-bind (repeat (length i.account_indexes) read_byte) _
          (encode_all (λ b. b ∷ []) i.account_indexes) _ i.account_indexes i
          (Reads-repeat (λ b. b ∷ []) read_byte i.account_indexes (bytes_read i.account_indexes))
          (Reads-bind read_short_u16 _ (encode_short_u16 (length i.args)) i.args (length i.args) i
            (Reads-encode_short_u16 (length i.args) h.args)
            (Reads-last (read (length i.args)) _ i.args i.args i (Reads-read i.args)
              (Reads-pure i)))))

keys_read :
    (ks : List (List ℕ))
    → All (λ k. length k ≡ pubkey_len) ks
    → All (λ k. Reads (read pubkey_len) k k) ks
keys_read [] h = tt
keys_read (k ∷ ks) h = (subst (λ n. Reads (read n) k k) h.0 (Reads-read k), keys_read ks h.1)

instructions_read :
    (is : List Instruction)
    → All IsInstruction is
    → All (λ i. Reads read_instruction (encode_instruction i) i) is
instructions_read [] h = tt
instructions_read (i ∷ is) h = (Reads-instruction i h.0, instructions_read is h.1)

module _ (w : Wire) (h : IsWire w) where
  Reads-message : Reads read_message (encode_message w) w.message
  unfolding read_message encode_message
  Reads-message =
      let m = w.message in
      let keys = m.static_account_keys in
      let is' = m.instructions in
      Reads-bind read_byte _ (m.num_required_signatures ∷ []) _ m.num_required_signatures m
        (Reads-read_byte m.num_required_signatures)
        (Reads-bind (skip 2) _ w.read_only _ tt m
          (subst (λ n. Reads (skip n) w.read_only tt) h.read_only (Reads-skip w.read_only))
          (Reads-bind read_short_u16 _ (encode_short_u16 (length keys)) _ (length keys) m
            (Reads-encode_short_u16 (length keys) h.key_count)
            (Reads-bind (repeat (length keys) (read pubkey_len)) _ (encode_all (λ k. k) keys) _ keys
              m (Reads-repeat (λ k. k) (read pubkey_len) keys (keys_read keys h.keys))
              (Reads-bind (skip 32) _ w.blockhash _ tt m
                (subst (λ n. Reads (skip n) w.blockhash tt) h.blockhash (Reads-skip w.blockhash))
                (Reads-bind read_short_u16 _ (encode_short_u16 (length is')) _ (length is') m
                  (Reads-encode_short_u16 (length is') h.instruction_count)
                  (Reads-last (repeat (length is') read_instruction) _
                    (encode_all encode_instruction is') is' m
                    (Reads-repeat encode_instruction read_instruction is'
                      (instructions_read is' h.instructions))
                    (Reads-pure m)))))))

  legacy : parse_message (encode_message w ++ w.lookups) ≡ ok w.message
  unfolding parse_message encode_message and_then
  legacy =
      let low : (bit_and w.message.num_required_signatures 0x80 == 0) ≡ true =
        top_bit w.message.num_required_signatures (omega (arith, h.signers))
        ∙ lt→ltb w.message.num_required_signatures 128 h.signers in
      rw (low, Reads-message w.lookups)

  versioned : parse_message (128 ∷ (encode_message w ++ w.lookups)) ≡ ok w.message
  unfolding parse_message read_version ◌>>=◌ read_byte pure and_then
  versioned = rw (Reads-message w.lookups)

  -- A message that fits the wire format is read back from its legacy bytes and from its bytes with
  -- the marker of version 0, whatever address lookups follow.
  pub parse_message-encode :
      (parse_message (encode_message w ++ w.lookups) ≡ ok w.message)
      × (parse_message (128 ∷ (encode_message w ++ w.lookups)) ≡ ok w.message)
  parse_message-encode = (legacy, versioned)
