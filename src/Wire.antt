-- ===== src/Wire.antt =====
-- Integers in network byte order, and C strings: the `htons`, `htonl`, `ntohs` and `ntohl` of the
-- sources, with the casts to `uint16_t` and `uint32_t` written out.
use fine_db.Prelude.{
  ℕ, ◌+◌, ◌*◌, ◌/◌, ◌%◌, ◌^◌, ◌<◌, ◌≡◌, refl, [], ◌∷◌, Bytes, length, arith, ◌==◌, if◌then◌else◌,
}

-- The two bytes of `htons((uint16_t)n)`.
unfoldable pub htons : ℕ → Bytes
htons n = (n / 256 % 256) ∷ (n % 256) ∷ []

unfoldable pub htonl : ℕ → Bytes
htonl n = (n / 2 ^ 24 % 256) ∷ (n / 2 ^ 16 % 256) ∷ (n / 256 % 256) ∷ (n % 256) ∷ []

-- Of two bytes read from the network; other lengths do not occur.
unfoldable pub ntohs : Bytes → ℕ
ntohs (a ∷ b ∷ []) = a * 256 + b
ntohs _ = 0

unfoldable pub ntohl : Bytes → ℕ
ntohl (a ∷ b ∷ c ∷ d ∷ []) = a * 2 ^ 24 + b * 2 ^ 16 + c * 256 + d
ntohl _ = 0

pub ntohs-htons : (n : ℕ) → n < 2 ^ 16 → ntohs (htons n) ≡ n
unfolding ntohs htons
ntohs-htons n h = omega arith

pub ntohl-htonl : (n : ℕ) → n < 2 ^ 32 → ntohl (htonl n) ≡ n
unfolding ntohl htonl
ntohl-htonl n h = omega arith

pub length-htons : (n : ℕ) → length (htons n) ≡ 2
unfolding htons
length-htons n = refl

pub length-htonl : (n : ℕ) → length (htonl n) ≡ 4
unfolding htonl
length-htonl n = refl

-- A buffer read as a C string: what stands before the first zero byte.
unfoldable pub c_string : Bytes → Bytes
c_string [] = []
c_string (c ∷ cs) = let rest = c ∷ c_string cs in if c == 0 then [] else rest
