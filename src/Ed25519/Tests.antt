-- ===== src/Ed25519/Tests.antt =====
-- A signature on the curve of two points.
use relay_settlement.Common.{◌≡◌, refl, List, [], ◌∷◌, ok, and_then, ◌++◌, ◌<◌, some, arith}
use relay_settlement.Bytes.{bytes_to_number_le, le_loop, number_to_bytes_le}
use relay_settlement.Ed25519.{modulo_order, sign_ed25519_bip32}
use relay_settlement.Ed25519.Verifies.{Verifies, nonce, sign_ed25519_bip32-Verifies}
use relay_settlement.Ed25519.Parity.{many, parity, parity_library, parity-IsCurve}

signs_nine :
    sign_ed25519_bip32 parity_library (9 ∷ []) (many 64 1) ≡ ok ((1 ∷ many 31 0) ++ many 32 0)
unfolding sign_ed25519_bip32 and_then modulo_order bytes_to_number_le number_to_bytes_le le_loop
signs_nine = refl

nonce_nine : 0 < nonce parity parity_library parity-IsCurve (9 ∷ []) (many 64 1)
unfolding modulo_order bytes_to_number_le
nonce_nine = omega arith

sign_ed25519_bip32-Verifies_example :
    (signature : List _) × (public_key : List _) × (sign_ed25519_bip32 parity_library
        (9 ∷ [])
        (many 64 1)
      ≡ ok signature)
    × (parity_library.get_public_key (many 64 1) ≡ some public_key)
    × Verifies parity parity_library (9 ∷ []) signature public_key
sign_ed25519_bip32-Verifies_example =
    sign_ed25519_bip32-Verifies parity parity_library parity-IsCurve (9 ∷ []) (many 64 1) nonce_nine
