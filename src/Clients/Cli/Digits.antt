-- ===== src/Clients/Cli/Digits.antt =====
-- The hexadecimal digits that disk_cli.c prints of a block, read back.
use cs4440proj3_final.Prelude.{
  ℕ, zero, suc, ◌+◌, ◌*◌, ◌/◌, ◌%◌, ◌-◌, ◌<◌, ◌≡◌, refl, ap, Option, none, some, [], ◌∷◌, ◌++◌,
  Bytes, All, take, replicate, leb, ◌&&◌, if◌then◌else◌, arith,
}
use cs4440proj3_final.Clients.Cli.{hex_digit, hex}

-- what a digit from 0 to 9 or from a to f stands for
abbrev pub digit_value : ℕ → Option ℕ
digit_value c =
    if leb 48 c && leb c 57
    then some (c - 48)
    else if leb 97 c && leb c 102
    then some (c - 87)
    else none

abbrev with_byte : Option ℕ → Option ℕ → Option Bytes → Option Bytes
with_byte (some x) (some y) (some bytes) = some ((16 * x + y) ∷ bytes)
with_byte _ _ _ = none

-- The bytes that pairs of digits stand for; `none` for anything else.
unfoldable pub read_hex : Bytes → Option Bytes
read_hex [] = some []
read_hex (a ∷ []) = none
read_hex (a ∷ b ∷ digits) = with_byte (digit_value a) (digit_value b) (read_hex digits)

digit_value-hex_digit : (d : ℕ) → d < 16 → digit_value (hex_digit d) ≡ some d
digit_value-hex_digit d h = ground arith

pub read_hex-hex : (bytes : Bytes) → All (λ b. b < 256) bytes → read_hex (hex bytes) ≡ some bytes
unfolding read_hex hex
read_hex-hex [] h = refl
read_hex-hex (b ∷ bytes) h =
    let whole : 16 * (b / 16) + b % 16 ≡ b = omega arith in
    rw
      (
        digit_value-hex_digit (b / 16) (omega (arith, h.0)),
        digit_value-hex_digit (b % 16) (omega arith),
        read_hex-hex bytes h.1,
      )
      (ap (λ (k : ℕ). some (k ∷ bytes)) whole)

pub All-take :
    (n : ℕ) (bytes : Bytes) → All (λ b. b < 256) bytes → All (λ b. b < 256) (take n bytes)
All-take zero bytes h = tt
All-take (suc n) [] h = tt
All-take (suc n) (b ∷ bytes) h = (h.0, All-take n bytes h.1)

All-zeros : (n : ℕ) → All (λ b. b < 256) (replicate n 0)
All-zeros zero = tt
All-zeros (suc n) = (omega arith, All-zeros n)

pub All-padded :
    (n : ℕ) (bytes : Bytes) → All (λ b. b < 256) bytes → All (λ b. b < 256) (bytes ++ replicate n 0)
All-padded n [] h = All-zeros n
All-padded n (b ∷ bytes) h = (h.0, All-padded n bytes h.1)
