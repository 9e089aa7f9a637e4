-- ===== src/Bitcoin/Scripts.antt =====
-- Output scripts in transaction.ts: the script that an encoded address pays, the text of an
-- OP_RETURN output, and the depositor that such a text names.
pub mod Depositor
use relay_settlement.Common.{
  ℕ, zero, suc, ◌+◌, ◌-◌, ◌%◌, ◌≡◌, List, [], ◌∷◌, ◌++◌, Bool, true, false, ◌&&◌, ◌||◌, not, Option,
  none, some, Result, ok, err, length, take, drop, get_or, ltb, leb, ◌==◌, if◌then◌else◌, and_then,
}
use relay_settlement.Host.{Text, Host, starts_with}
use relay_settlement.Bitcoin.Reader.{Error}
use relay_settlement.Bitcoin.Codec.{concat}
use relay_settlement.Bitcoin.Tx.{hex_to_bytes}

-- `bytes.slice(from, to)`.
abbrev pub slice : ℕ → ℕ → List ℕ → List ℕ
slice from to bytes = take (to - from) (drop from bytes)

unfoldable pub legacy_script : List ℕ → Result Error (List ℕ)
unfolding concat
legacy_script payload =
    if (length payload == 21) && (get_or payload 0 0 == 0x00)
    then ok (concat ((0x76 ∷ 0xa9 ∷ 0x14 ∷ []) ∷ drop 1 payload ∷ (0x88 ∷ 0xac ∷ []) ∷ []))
    else if (length payload == 21) && (get_or payload 0 0 == 0x05)
    then ok (concat ((0xa9 ∷ 0x14 ∷ []) ∷ drop 1 payload ∷ (0x87 ∷ []) ∷ []))
    else err Error.bad_legacy_address

-- A number in `new Uint8Array` is taken modulo 256.
unfoldable pub witness_script : List ℕ → Result Error (List ℕ)
unfolding concat
witness_script encoded =
    if ltb (length encoded) 3 || ltb 16 (get_or encoded 0 0)
    then err Error.bad_address
    else let version_op = if get_or encoded 0 0 == 0 then 0x00 else 0x50 + get_or encoded 0 0 in
      let program = drop 1 encoded in
      ok (concat ((version_op ∷ (length program % 256) ∷ []) ∷ program ∷ []))

-- An empty array has no first byte, and `undefined` is no discriminator.
unfoldable pub script_of_bytes : List ℕ → Result Error (List ℕ)
unfolding legacy_script witness_script
script_of_bytes [] = err Error.bad_address
script_of_bytes (b ∷ payload) =
    if b == 0xff then legacy_script payload else witness_script (b ∷ payload)

-- The source returns an array of one script.
unfoldable pub address_scripts : Host → Text → Result Error (List (List ℕ))
unfolding script_of_bytes hex_to_bytes
address_scripts host encoded_hex =
    and_then (hex_to_bytes host.noble_hex_to_bytes encoded_hex)
      λ encoded. and_then (script_of_bytes encoded) λ script. ok (script ∷ [])

-- A length byte that is not there adds nothing to the slice.
unfoldable pub op_return_data : List ℕ → Option (List ℕ)
op_return_data script =
    if not (get_or script 0 0 == 0x6a) || ltb (length script) 2
    then none
    else if leb (get_or script 1 0) 75
    then some (slice 2 (2 + get_or script 1 0) script)
    else if get_or script 1 0 == 0x4c
    then some (slice 3 (3 + get_or script 2 0) script)
    else none

unfoldable pub op_return : Host → List ℕ → Option Text
unfolding op_return_data
op_return host script = elim (op_return_data script) [
  | none ↦ none
  | some bytes ↦ some (host.decode_utf8 bytes)
]

-- The longest run without `|`, and what stands behind it.
unfoldable pub span_to_bar : Text → Text × Text
span_to_bar [] = ([], [])
span_to_bar (c ∷ cs) =
    let (run, rest) = span_to_bar cs in if c == b'|' then ([], c ∷ cs) else (c ∷ run, rest)

abbrev pub depositor_tag : Text
depositor_tag = b'|' ∷ b'd' ∷ b'e' ∷ b'p' ∷ b'o' ∷ b's' ∷ b'i' ∷ b't' ∷ b'o' ∷ b'r' ∷ b'=' ∷ []

-- The group needs a character, and a `|` behind it.
abbrev pub closed_run : Text × Text → Option Text
closed_run ([], rest) = none
closed_run (c ∷ run, []) = none
closed_run (c ∷ run, bar ∷ rest) = some (c ∷ run)

-- The pattern at the front of a text.
unfoldable pub match_depositor : Text → Option Text
unfolding span_to_bar starts_with
match_depositor text =
    if starts_with depositor_tag text then closed_run (span_to_bar (drop 11 text)) else none

-- `DEPOSITOR_RE.exec(metadata)?.[1]`: the pattern at the first place where it fits.
unfoldable pub find_depositor : Text → Option Text
unfolding match_depositor
find_depositor [] = none
find_depositor (c ∷ cs) =
    let rest = find_depositor cs in
    elim (match_depositor (c ∷ cs)) [ some group ↦ some group | none ↦ rest ]
