-- ===== src/Tron/Values.antt =====
-- Untyped values as TronWeb returns them, and the checks of common/tron/transaction.ts on them:
-- record, stringField, integerField, hexField and fixedHex. The errors are constructors; the texts
-- of the messages are left out.
use relay_settlement.Common.{
  ℕ, ◌≡◌, ◌≤◌, ◌*◌, [], ◌∷◌, Bool, true, false, ◌&&◌, ◌||◌, Result, ok, err, and_then, length, leb,
  ◌==◌, equal_bytes, if◌then◌else◌, arith,
}
use relay_settlement.Host.{Text}

pub data Error : Type 0 where
  not_hex_bytes not_object not_string not_integer not_hex wrong_length bad_decode contract_count
        contract_type permission_id type_url token_fields memo_or_scripts auths missing_times
        bad_encode not_canonical signature_length changed :
      Error
  address_encoding address_length address_prefix address_checksum not_address not_bytes32 : Error
  expired future_timestamp expiration_order expiration_window fee_limit no_transaction native_batch
        depository_mismatch bad_amount amount_mismatch bad_arguments data_mismatch purposes
        token_mismatch call_value owner_mismatch signing_failed :
      Error

-- A number is a whole number that is not negative, or any other.
mutual
  pub data Value : Type 0 where
    undefined null other : Value
    boolean : Bool → Value
    whole : ℕ → Value
    other_number : Value
    text : Text → Value
    array : Values → Value
    object : Fields → Value

  pub data Values : Type 0 where
    no_values : Values
    value : Value → Values → Values

  pub data Fields : Type 0 where
    no_fields : Fields
    field : Text → Value → Fields → Fields

-- `object.name`, undefined where it is missing.
unfoldable pub member : Text → Fields → Value
member name no_fields = undefined
member name (field key v rest) =
    let later = member name rest in if equal_bytes name key then v else later

unfoldable pub as_record : Value → Result Error Fields
as_record (object fields) = ok fields
as_record _ = err Error.not_object

unfoldable pub string_field : Value → Result Error Text
string_field (text t) = ok t
string_field _ = err Error.not_string

abbrev pub max_safe_integer : ℕ
max_safe_integer = 9007199254740991

unfoldable pub integer_field : Value → Result Error ℕ
integer_field (whole n) = if leb n max_safe_integer then ok n else err Error.not_integer
integer_field _ = err Error.not_integer

-- `[0-9a-f]`.
abbrev pub is_hex_digit : ℕ → Bool
is_hex_digit c = (leb b'0' c && leb c b'9') || (leb b'a' c && leb c b'f')

-- `/^(?:[0-9a-f]{2})*$/u`.
unfoldable pub is_hex : Text → Bool
is_hex [] = true
is_hex (a ∷ []) = false
is_hex (a ∷ b ∷ rest) = is_hex_digit a && (is_hex_digit b && is_hex rest)

module _ (to_lower_case : Text → Text) where
  unfoldable pub hex_field : Value → Result Error Text
  unfolding string_field is_hex
  hex_field v =
      and_then (string_field v)
        λ t. if is_hex (to_lower_case t) then ok (to_lower_case t) else err Error.not_hex

  unfoldable pub fixed_hex : Value → ℕ → Result Error Text
  unfolding hex_field
  fixed_hex v byte_length =
      and_then (hex_field v)
        λ t. if length t == byte_length * 2 then ok t else err Error.wrong_length

-- A field that is read as an integer is a safe integer.
pub integer_field-eq-ok :
    (v : Value) (n : ℕ) → integer_field v ≡ ok n → (v ≡ whole n) × (n ≤ max_safe_integer)
unfolding integer_field
integer_field-eq-ok (whole k) n h = ground arith
integer_field-eq-ok undefined n h = absurd (cc)
integer_field-eq-ok null n h = absurd (cc)
integer_field-eq-ok other n h = absurd (cc)
integer_field-eq-ok (boolean b) n h = absurd (cc)
integer_field-eq-ok other_number n h = absurd (cc)
integer_field-eq-ok (text t) n h = absurd (cc)
integer_field-eq-ok (array vs) n h = absurd (cc)
integer_field-eq-ok (object fs) n h = absurd (cc)
