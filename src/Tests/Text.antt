-- ===== src/Tests/Text.antt =====
-- Numbers and signatures at concrete inputs.
use crypto_con.Base.{◌≤◌, Bytes, codes, ◌++◌, ◌≡◌, length, All, arith}
use crypto_con.Utils.Number.{append_number}
use crypto_con.Utils.Number.Decimal.{IsDigit, value, append_number-decimal}
use crypto_con.Utils.Signing.{IsHex, read_hex, sign_hmac, sign_hmac_lem}
use crypto_con.Tests.Fixtures.{toy_digest}

append_number-decimal_example :
    (text : Bytes) × (append_number (codes "&orderId=") 42 ≡ codes "&orderId=" ++ text)
    × (length text ≤ 20)
    × All IsDigit text
    × (value text ≡ 42)
append_number-decimal_example = append_number-decimal (codes "&orderId=") 42 (omega arith)

sign_hmac_lem_example :
    (length (sign_hmac toy_digest (codes "k") (codes "m")) ≡ 64)
    × All IsHex (sign_hmac toy_digest (codes "k") (codes "m"))
    × (read_hex (sign_hmac toy_digest (codes "k") (codes "m"))
        ≡ toy_digest.hmac (codes "k") (codes "m"))
sign_hmac_lem_example = sign_hmac_lem toy_digest (codes "k") (codes "m")
