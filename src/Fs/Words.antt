-- ===== src/Fs/Words.antt =====
-- memcpy of integers to and from byte arrays, on the little-endian machines that the program is
-- written for.
use cs4440proj3_final.Prelude.{
  ℕ, zero, suc, ◌+◌, ◌*◌, ◌/◌, ◌%◌, ◌^◌, ◌<◌, ◌≡◌, refl, ap, List, [], ◌∷◌, ◌++◌, Bytes, length,
  take, drop, arith, length-append,
}

-- what uint32_t counts up to
abbrev pub u32_mod : ℕ
u32_mod = 2 ^ 32

-- the bytes of an integer of `k` bytes, the lowest first
unfoldable pub to_le : ℕ → ℕ → Bytes
to_le zero n = []
to_le (suc k) n = n % 256 ∷ to_le k (n / 256)

unfoldable pub of_le : Bytes → ℕ
of_le [] = 0
of_le (b ∷ bs) = b + 256 * of_le bs

pub length-to_le : (k n : ℕ) → length (to_le k n) ≡ k
unfolding to_le
length-to_le zero n = refl
length-to_le (suc k) n = ap suc (length-to_le k (n / 256))

-- An integer that fits is read back.
pub of_le-to_le_4 : (n : ℕ) → n < u32_mod → of_le (to_le 4 n) ≡ n
unfolding of_le to_le
of_le-to_le_4 n h = omega arith

pub of_le-to_le_8 : (n : ℕ) → n < 2 ^ 64 → of_le (to_le 8 n) ≡ n
unfolding of_le to_le
of_le-to_le_8 n h = omega arith

-- `n` words of four bytes
unfoldable pub words_of : ℕ → Bytes → List ℕ
words_of zero bytes = []
words_of (suc n) bytes = of_le (take 4 bytes) ∷ words_of n (drop 4 bytes)

unfoldable pub bytes_of : List ℕ → Bytes
bytes_of [] = []
bytes_of (w ∷ ws) = to_le 4 w ++ bytes_of ws

length-bytes_of : (ws : List ℕ) → length (bytes_of ws) ≡ 4 * length ws
unfolding bytes_of
length-bytes_of [] = omega arith
length-bytes_of (w ∷ ws) =
    omega (arith, length-append (to_le 4 w) (bytes_of ws), length-to_le 4 w, length-bytes_of ws)
