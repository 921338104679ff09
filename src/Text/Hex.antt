-- ===== src/Text/Hex.antt =====
-- Bytes, and hexadecimal digits.
use bolt.Prelude.{
  ℕ, ◌<◌, ◌≤◌, ◌≡◌, refl, ◌⊎◌, Bool, true, ◌&&◌, ◌||◌, [], ◌∷◌, leb, All, arith, map,
}
use bolt.Proto.Std.{ascii_lower}
use bolt.Text.{Text}

abbrev pub IsBytes : Text → Type 0
IsBytes = All (λ c. c < 256)

-- Hexadecimal in lower case.
abbrev pub IsHex : Text → Type 0
IsHex = All (λ c. ((b'0' ≤ c) × (c ≤ b'9')) ⊎ ((b'a' ≤ c) × (c ≤ b'f')))

-- `u8::is_ascii_hexdigit`.
abbrev pub is_hex_digit : ℕ → Bool
is_hex_digit c =
    (leb b'0' c && leb c b'9') || (leb b'a' c && leb c b'f') || (leb b'A' c && leb c b'F')

abbrev pub all_hex : Text → Bool
all_hex [] = true
all_hex (c ∷ t) = is_hex_digit c && all_hex t

-- Digits of any case are those whose lower case is hexadecimal.
pub all_hex-lower : (t : Text) → IsHex (map ascii_lower t) → all_hex t ≡ true
all_hex-lower [] h = refl
all_hex-lower (c ∷ t) h = ground (arith, all_hex-lower t h.1, h.0)
