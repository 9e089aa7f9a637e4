-- ===== src/Tron/Names.antt =====
-- The names of the fields of TronWeb's JSON.
use relay_settlement.Common.{[], ◌∷◌}
use relay_settlement.Host.{Text}

abbrev pub contract_key : Text
contract_key = b'c' ∷ b'o' ∷ b'n' ∷ b't' ∷ b'r' ∷ b'a' ∷ b'c' ∷ b't' ∷ []

abbrev pub type_key : Text
type_key = b't' ∷ b'y' ∷ b'p' ∷ b'e' ∷ []

abbrev pub permission_key : Text
permission_key =
    b'P' ∷ b'e' ∷ b'r' ∷ b'm' ∷ b'i' ∷ b's' ∷ b's' ∷ b'i' ∷ b'o' ∷ b'n' ∷ b'_' ∷ b'i' ∷ b'd' ∷ []

abbrev pub parameter_key : Text
parameter_key = b'p' ∷ b'a' ∷ b'r' ∷ b'a' ∷ b'm' ∷ b'e' ∷ b't' ∷ b'e' ∷ b'r' ∷ []

abbrev pub type_url_key : Text
type_url_key = b't' ∷ b'y' ∷ b'p' ∷ b'e' ∷ b'_' ∷ b'u' ∷ b'r' ∷ b'l' ∷ []

abbrev pub value_key : Text
value_key = b'v' ∷ b'a' ∷ b'l' ∷ b'u' ∷ b'e' ∷ []

abbrev pub call_token_value_key : Text
call_token_value_key =
    b'c' ∷ b'a' ∷ b'l' ∷ b'l' ∷ b'_' ∷ b't' ∷ b'o' ∷ b'k' ∷ b'e' ∷ b'n' ∷ b'_' ∷ b'v' ∷ b'a' ∷ b'l'
    ∷ b'u' ∷ b'e' ∷ []

abbrev pub token_id_key : Text
token_id_key = b't' ∷ b'o' ∷ b'k' ∷ b'e' ∷ b'n' ∷ b'_' ∷ b'i' ∷ b'd' ∷ []

abbrev pub data_key : Text
data_key = b'd' ∷ b'a' ∷ b't' ∷ b'a' ∷ []

abbrev pub scripts_key : Text
scripts_key = b's' ∷ b'c' ∷ b'r' ∷ b'i' ∷ b'p' ∷ b't' ∷ b's' ∷ []

abbrev pub auths_key : Text
auths_key = b'a' ∷ b'u' ∷ b't' ∷ b'h' ∷ b's' ∷ []

abbrev pub timestamp_key : Text
timestamp_key = b't' ∷ b'i' ∷ b'm' ∷ b'e' ∷ b's' ∷ b't' ∷ b'a' ∷ b'm' ∷ b'p' ∷ []

abbrev pub expiration_key : Text
expiration_key = b'e' ∷ b'x' ∷ b'p' ∷ b'i' ∷ b'r' ∷ b'a' ∷ b't' ∷ b'i' ∷ b'o' ∷ b'n' ∷ []

abbrev pub owner_address_key : Text
owner_address_key =
    b'o' ∷ b'w' ∷ b'n' ∷ b'e' ∷ b'r' ∷ b'_' ∷ b'a' ∷ b'd' ∷ b'd' ∷ b'r' ∷ b'e' ∷ b's' ∷ b's' ∷ []

abbrev pub contract_address_key : Text
contract_address_key =
    b'c' ∷ b'o' ∷ b'n' ∷ b't' ∷ b'r' ∷ b'a' ∷ b'c' ∷ b't' ∷ b'_' ∷ b'a' ∷ b'd' ∷ b'd' ∷ b'r' ∷ b'e'
    ∷ b's' ∷ b's' ∷ []

abbrev pub call_value_key : Text
call_value_key = b'c' ∷ b'a' ∷ b'l' ∷ b'l' ∷ b'_' ∷ b'v' ∷ b'a' ∷ b'l' ∷ b'u' ∷ b'e' ∷ []

abbrev pub fee_limit_key : Text
fee_limit_key = b'f' ∷ b'e' ∷ b'e' ∷ b'_' ∷ b'l' ∷ b'i' ∷ b'm' ∷ b'i' ∷ b't' ∷ []

abbrev pub ref_block_bytes_key : Text
ref_block_bytes_key =
    b'r' ∷ b'e' ∷ b'f' ∷ b'_' ∷ b'b' ∷ b'l' ∷ b'o' ∷ b'c' ∷ b'k' ∷ b'_' ∷ b'b' ∷ b'y' ∷ b't' ∷ b'e'
    ∷ b's' ∷ []

abbrev pub ref_block_hash_key : Text
ref_block_hash_key =
    b'r' ∷ b'e' ∷ b'f' ∷ b'_' ∷ b'b' ∷ b'l' ∷ b'o' ∷ b'c' ∷ b'k' ∷ b'_' ∷ b'h' ∷ b'a' ∷ b's' ∷ b'h'
    ∷ []
