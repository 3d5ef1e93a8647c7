-- ===== src/Shared/IdempotencyKey.antt =====
-- Idempotency keys (src/shared/idempotency-key.ts). The uuid package's check of a UUIDv7 and SHA-256 of
-- a text's UTF-8 bytes are parameters; a browser without crypto.subtle has no SHA-256, and the derivation
-- throws a TypeError there.
pub mod Shape
use Prim.Native.Nat.{bit_and, bit_or}
use Prim.Native.Char.{Char}
use Prim.Native.String
use formspec_web.Common.{
  ℕ, zero, suc, ◌/◌, ◌%◌, String, Bool, not, List, [], ◌∷◌, map, Option, none, some, Result, ok,
  err, ◌>>◌, throw_if, digit_of,
}

-- `bytes[i]`, and 0 past the end, as in a new Uint8Array.
abbrev pub byte_at : List ℕ → ℕ → ℕ
byte_at [] i = 0
byte_at (b ∷ bs) zero = b
byte_at (b ∷ bs) (suc i) = byte_at bs i

-- `uuid.set(digest.subarray(0, 16))` in a new array of 16 bytes
abbrev pub first_16 : List ℕ → List ℕ
first_16 digest =
    map (byte_at digest) (0 ∷ 1 ∷ 2 ∷ 3 ∷ 4 ∷ 5 ∷ 6 ∷ 7 ∷ 8 ∷ 9 ∷ 10 ∷ 11 ∷ 12 ∷ 13 ∷ 14 ∷ 15 ∷ [])

-- `bytes[i] = f(bytes[i])`
abbrev pub modify : List ℕ → ℕ → (ℕ → ℕ) → List ℕ
modify [] i f = []
modify (b ∷ bs) zero f = f b ∷ bs
modify (b ∷ bs) (suc i) f = b ∷ modify bs i f

abbrev pub version_7 : ℕ → ℕ
version_7 b = bit_or (bit_and b 0x0f) 0x70

abbrev pub rfc_4122 : ℕ → ℕ
rfc_4122 b = bit_or (bit_and b 0x3f) 0x80

unfoldable pub hex_digit : ℕ → Char
hex_digit n = digit_of "f" "0123456789abcdef" n

-- `Array.from(bytes, (b) => b.toString(16).padStart(2, '0')).join('')`, of numbers below 256
abbrev pub hex : List ℕ → String
hex [] = ""
hex (b ∷ bs) = String.◌∷◌ (hex_digit (b / 16)) (String.◌∷◌ (hex_digit (b % 16)) (hex bs))

-- `s.slice(from)`
abbrev pub slice_from : String → ℕ → String
slice_from s zero = s
slice_from String.[] (suc n) = ""
slice_from (String.◌∷◌ c s) (suc n) = slice_from s n

-- The first `n` characters.
abbrev pub first : String → ℕ → String
first s zero = ""
first String.[] (suc n) = ""
first (String.◌∷◌ c s) (suc n) = String.◌∷◌ c (first s n)

abbrev pub join_dash : String → String → String
join_dash String.[] t = String.◌∷◌ "-" t
join_dash (String.◌∷◌ c s) t = String.◌∷◌ c (join_dash s t)

-- `${hex.slice(0, 8)}-${hex.slice(8, 12)}-...-${hex.slice(20)}`
abbrev pub formatted : String → String
formatted h = join_dash (first h 8) (
    join_dash (first (slice_from h 8) 4) (
      join_dash (first (slice_from h 12) 4)
        (join_dash (first (slice_from h 16) 4) (slice_from h 20))))

abbrev pub stamped : List ℕ → List ℕ
stamped digest = modify (modify (first_16 digest) 6 version_7) 8 rfc_4122

unfoldable pub assert_uuid_v7_idempotency_key : (String → Bool) → String → Result String (Unit {0})
assert_uuid_v7_idempotency_key is_uuid_v7 value =
    throw_if (not (is_uuid_v7 value)) "Expected idempotency-key to be a UUIDv7 value"

unfoldable pub derive_uuid_v7_from_string :
    (String → Bool) → Option (String → List ℕ) → String → String → Result String String
derive_uuid_v7_from_string is_uuid_v7 none base suffix = err "TypeError"
derive_uuid_v7_from_string is_uuid_v7 (some sha_256) base suffix =
    let text = formatted (hex (stamped (sha_256 (String.◌++◌ (String.◌++◌ base ":") suffix)))) in
    assert_uuid_v7_idempotency_key is_uuid_v7 text >> ok text
