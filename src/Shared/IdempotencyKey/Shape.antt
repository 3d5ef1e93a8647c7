-- ===== src/Shared/IdempotencyKey/Shape.antt =====
-- A derived key has the text of a UUIDv7.
use Prim.Native.Char.{Char, code}
use Prim.Native.String
use formspec_web.Common.{
  below, below_lem, some, digit_of, ℕ, zero, suc, ◌/◌, ◌<◌, String, ◌≡◌, refl, Bool, true, false,
  ◌&&◌, ◌||◌, List, [], ◌∷◌, ok, All, leb, ◌==◌, arith,
}
use formspec_web.Shared.IdempotencyKey.{
  byte_at, version_7, rfc_4122, digit_of, hex_digit, hex, formatted, stamped,
  assert_uuid_v7_idempotency_key, derive_uuid_v7_from_string,
}

unfoldable pub is_hex : Char → Bool
is_hex c = (leb b'0' (code c) && leb (code c) b'9') || (leb b'a' (code c) && leb (code c) b'f')

-- The classes of characters in the text of a UUIDv7 of variant 10.
pub data CharClass : Type 0 where
  any_hex dash seven eight_to_b : CharClass

abbrev pub is_of : CharClass → Char → Bool
is_of any_hex c = is_hex c
is_of dash c = code c == b'-'
is_of seven c = code c == b'7'
is_of eight_to_b c = code c == b'8' || code c == b'9' || code c == b'a' || code c == b'b'

abbrev pub fits : List CharClass → String → Bool
fits [] String.[] = true
fits [] (String.◌∷◌ c s) = false
fits (k ∷ ks) String.[] = false
fits (k ∷ ks) (String.◌∷◌ c s) = is_of k c && fits ks s

abbrev pub repeat : ℕ → List CharClass → List CharClass
repeat zero ks = ks
repeat (suc n) ks = any_hex ∷ repeat n ks

-- hhhhhhhh-hhhh-7hhh-Vhhh-hhhhhhhhhhhh
abbrev pub uuid_v7_text : List CharClass
uuid_v7_text =
    repeat 8 (
      dash
      ∷ repeat 4 (dash ∷ seven ∷ repeat 3 (dash ∷ eight_to_b ∷ repeat 3 (dash ∷ repeat 12 []))))

all_hex : String → Bool
all_hex String.[] = true
all_hex (String.◌∷◌ c s) = is_hex c && all_hex s

is_hex-digit_of : (s : String) (n : ℕ) → all_hex s ≡ true → is_hex (digit_of "f" s n) ≡ true
unfolding all_hex is_hex
is_hex-digit_of String.[] n h = refl
is_hex-digit_of (String.◌∷◌ c s) zero h = ground arith
is_hex-digit_of (String.◌∷◌ c s) (suc n) h = ground (arith, is_hex-digit_of s n)

digits_all_hex : all_hex "0123456789abcdef" ≡ true
unfolding all_hex is_hex
digits_all_hex = refl

is_hex-hex_digit : (n : ℕ) → is_hex (hex_digit n) ≡ true
unfolding hex_digit
is_hex-hex_digit n = is_hex-digit_of "0123456789abcdef" n digits_all_hex

seven_digit : below 256 (λ b. is_of seven (hex_digit (version_7 b / 16))) ≡ true
unfolding below hex_digit
seven_digit = refl

variant_digit : below 256 (λ b. is_of eight_to_b (hex_digit (rfc_4122 b / 16))) ≡ true
unfolding below hex_digit
variant_digit = refl

byte_at-lt : (digest : List ℕ) (i : ℕ) → All (λ b. b < 256) digest → byte_at digest i < 256
byte_at-lt [] i h = omega arith
byte_at-lt (b ∷ bs) zero (lt, h) = lt
byte_at-lt (b ∷ bs) (suc i) (lt, h) = byte_at-lt bs i h

derived_fits :
    (digest : List ℕ)
    → All (λ b. b < 256) digest
    → fits uuid_v7_text (formatted (hex (stamped digest))) ≡ true
derived_fits digest h =
    let at_6 = below_lem 256 (byte_at digest 6) _ seven_digit (byte_at-lt digest 6 h) in
    let at_8 = below_lem 256 (byte_at digest 8) _ variant_digit (byte_at-lt digest 8 h) in
    simp (is_hex-hex_digit, at_6, at_8)

-- In a browser that hashes: if the uuid package takes every text of the form hhhhhhhh-hhhh-7hhh-vhhh-hhhhhhhhhhhh for a UUIDv7,
-- h a lower-case hexadecimal digit and v one of 8, 9, a and b, and the digest's numbers are bytes, then
-- the derivation succeeds from any base and suffix, and its key has that form.
pub derive_uuid_v7-fits :
    (is_uuid_v7 : String → Bool) (sha_256 : String → List ℕ) (base suffix : String)
    → ((s : String) → fits uuid_v7_text s ≡ true → is_uuid_v7 s ≡ true)
    → ((s : String) → All (λ b. b < 256) (sha_256 s))
    → (key : String) × (derive_uuid_v7_from_string is_uuid_v7 (some sha_256) base suffix ≡ ok key)
      × (fits uuid_v7_text key ≡ true)
unfolding derive_uuid_v7_from_string assert_uuid_v7_idempotency_key
derive_uuid_v7-fits is_uuid_v7 sha_256 base suffix takes bytes =
    let shaped = derived_fits _ (bytes _) in
    (
      formatted (hex (stamped (sha_256 (String.◌++◌ (String.◌++◌ base ":") suffix)))),
      rw (takes _ shaped) refl,
      shaped,
    )
