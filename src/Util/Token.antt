-- ===== src/Util/Token.antt =====
-- `random_token` and `secure_random_token` of src/util.cpp, for POSIX. The random source of the library
-- gives the draws by their number; `/dev/urandom` gives bytes, or none if it cannot be opened.
use autodngconverter.Base.{
  ℕ, zero, suc, ◌+◌, ◌*◌, ◌/◌, ◌%◌, ◌<◌, ◌≡◌, refl, true, ◌&&◌, ◌||◌, Option, none, some, [], ◌∷◌,
  arith, All, Bytes, codes, length, drop, leb, ◌==◌, if◌then◌else◌, if-Holds, ==_iff,
}
use mathlib.Core.Path.{subst}

-- The digit of a number below 16.
unfoldable pub hex : ℕ → ℕ
hex n = elim (drop n (codes "0123456789abcdef")) [ [] ↦ 0 | c ∷ s ↦ c ]

-- A number of draws, from one on.
unfoldable pub draws : ℕ → ℕ → (ℕ → ℕ) → Bytes
draws zero i draw = []
draws (suc n) i draw = hex (draw i) ∷ draws n (i + 1) draw

unfoldable pub random_token : (ℕ → ℕ) → Bytes
random_token draw = draws 16 0 draw

unfoldable pub hex_bytes : Bytes → Bytes
hex_bytes [] = []
hex_bytes (c ∷ s) = hex (c / 16) ∷ hex (c % 16) ∷ hex_bytes s

-- A short read falls back to the draws.
unfoldable pub secure_random_token : Option Bytes → (ℕ → ℕ) → Bytes
secure_random_token none draw = draws 64 0 draw
secure_random_token (some s) draw = if length s == 32 then hex_bytes s else draws 64 0 draw

-- A lower case hexadecimal digit.
abbrev pub IsHex : ℕ → Type 0
IsHex c = ((leb b'0' c && leb c b'9') || (leb b'a' c && leb c b'f')) ≡ true

-- A token with a number of digits.
abbrev pub IsToken : ℕ → Bytes → Type 0
IsToken n s = (length s ≡ n) × All IsHex s

digit_at :
    (s : Bytes) (n : ℕ)
    → All IsHex s
    → n < length s
    → IsHex (elim (drop n s) [ [] ↦ 0 | c ∷ t ↦ c ])
digit_at [] n a h = absurd (omega arith)
digit_at (c ∷ s) zero (a, rest) h = a
digit_at (c ∷ s) (suc n) (a, rest) h = digit_at s n rest (omega arith)

All-IsHex : All IsHex (codes "0123456789abcdef")
All-IsHex = (
  refl,
  (
    refl,
    (
      refl,
      (
        refl,
        (
          refl,
          (
            refl,
            (refl, (refl, (refl, (refl, (refl, (refl, (refl, (refl, (refl, (refl, tt)))))))))),
          ),
        ),
      ),
    ),
  ),
)

-- Every number below 16 has such a digit.
hex-IsHex : (n : ℕ) → n < 16 → IsHex (hex n)
unfolding hex
hex-IsHex n h = digit_at (codes "0123456789abcdef") n All-IsHex h

draws-IsToken : (n i : ℕ) (draw : ℕ → ℕ) → ((i : ℕ) → draw i < 16) → IsToken n (draws n i draw)
unfolding draws
draws-IsToken zero i draw h = (omega arith, tt)
draws-IsToken (suc n) i draw h =
    let (l, a) = draws-IsToken n (i + 1) draw h in (omega arith, (hex-IsHex (draw i) (h i), a))

hex_bytes-IsToken : (s : Bytes) → All (λ c. c < 256) s → IsToken (2 * length s) (hex_bytes s)
unfolding hex_bytes
hex_bytes-IsToken [] h = (omega arith, tt)
hex_bytes-IsToken (c ∷ s) (h, hs) =
    let (l, a) = hex_bytes-IsToken s hs in
    (omega arith, (hex-IsHex (c / 16) (omega arith), (hex-IsHex (c % 16) (omega arith), a)))

-- What `/dev/urandom` gives is bytes.
abbrev pub AreBytes : Option Bytes → Type 0
AreBytes none = Unit
AreBytes (some s) = All (λ c. c < 256) s

-- A token has 16 hexadecimal digits, and a secure one has 64, whether or not `/dev/urandom` gives its 32
-- bytes.
pub tokens-AreTokens :
    (urandom : Option Bytes) (draw : ℕ → ℕ)
    → AreBytes urandom
    → ((i : ℕ) → draw i < 16)
    → IsToken 16 (random_token draw) × IsToken 64 (secure_random_token urandom draw)
unfolding random_token secure_random_token
tokens-AreTokens none draw b h = (draws-IsToken 16 0 draw h, draws-IsToken 64 0 draw h)
tokens-AreTokens (some s) draw b h = (
  draws-IsToken 16 0 draw h,
  if-Holds (IsToken 64) (length s == 32) _ _
      (λ e.
        let l = (==_iff (length s) 32).0 e in
        subst (λ n. IsToken (2 * n) (hex_bytes s)) l (hex_bytes-IsToken s b))
      (λ _. draws-IsToken 64 0 draw h),
)
