-- ===== src/Pipeline/Digest/Hex.antt =====
-- The hexadecimal text of a digest of src/pipeline.cpp is read back.
use autodngconverter.Base.{
  ℕ, ◌+◌, ◌-◌, ◌*◌, ◌/◌, ◌%◌, ◌<◌, ◌≡◌, refl, ap, [], ◌∷◌, arith, All, Bytes, length, ltb,
  if◌then◌else◌,
}
use autodngconverter.Pipeline.Digest.{hex_digit, to_hex}

-- The value of a digit, and the bytes of a text of digits.
abbrev digit_value : ℕ → ℕ
digit_value c = if ltb c b'a' then c - b'0' else c - b'a' + 10

abbrev pub from_hex : Bytes → Bytes
from_hex (c ∷ d ∷ s) = (digit_value c * 16 + digit_value d) ∷ from_hex s
from_hex _ = []

digit_value-hex_digit : (n : ℕ) → n < 16 → digit_value (hex_digit n) ≡ n
unfolding hex_digit
digit_value-hex_digit n h = ground arith

-- The text of bytes has two digits for each of them, and it stands for these bytes alone.
pub from_hex-to_hex :
    (bytes : Bytes)
    → All (λ b. b < 256) bytes
    → (from_hex (to_hex bytes) ≡ bytes) × (length (to_hex bytes) ≡ 2 * length bytes)
unfolding to_hex
from_hex-to_hex [] h = (refl, omega arith)
from_hex-to_hex (b ∷ bs) (h, hs) =
    let (e, l) = from_hex-to_hex bs hs in
    (
      rw
          (
            digit_value-hex_digit (b / 16) (omega arith),
            digit_value-hex_digit (b % 16) (omega arith),
            e,
          )
          (ap (◌∷ bs) (omega arith)),
      omega arith,
    )
