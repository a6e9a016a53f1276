-- ===== src/Base32.antt =====
-- src/common/utils/totp.ts: the base32 codec. A character is its code point, a buffer the list of
-- its bytes. `value` is a 32-bit integer in JavaScript: the model keeps its bit pattern, and `<<`
-- drops what passes the 32nd bit.
pub mod RoundTrip
mod Tests
use mathlib.Core.Option
use time_flow_be.Prelude.{
  ℕ, zero, suc, ◌+◌, ◌-◌, ◌*◌, ◌/◌, ◌%◌, ◌^◌, bit_and, bit_or, Option, none, some, List, [], ◌∷◌,
  ◌++◌, map, Bool, ◌&&◌, ◌||◌, not, leb, ltb, ◌==◌, if◌then◌else◌, filter,
}

-- `BASE32_ALPHABET[i]`, which has A to Z and then 2 to 7.
unfoldable pub alphabet : ℕ → ℕ
alphabet i = if ltb i 26 then b'A' + i else b'2' + (i - 26)

-- `BASE32_ALPHABET.indexOf(char)`, with `none` for -1.
unfoldable pub index_of : ℕ → Option ℕ
index_of c =
    if leb b'A' c && leb c b'Z'
    then some (c - b'A')
    else if leb b'2' c && leb c b'7'
    then some (c - b'2' + 26)
    else none

-- `value << k` and `value >>> k` on bit patterns, for 0 ≤ k < 32.
abbrev pub shl : ℕ → ℕ → ℕ
shl value k = value * 2 ^ k % 2 ^ 32

abbrev pub shr : ℕ → ℕ → ℕ
shr value k = value / 2 ^ k

-- `while (bits >= 5)`: the characters that it appends, and `bits` after it. Each round takes five
-- bits, so as many rounds as there are bits are enough.
unfoldable pub emit : ℕ → ℕ → ℕ → List ℕ × ℕ
emit zero bits value = ([], bits)
emit (suc rounds) bits value =
    let more = emit rounds (bits - 5) value in
    if leb 5 bits
    then (alphabet (bit_and (shr value (bits - 5)) 31) ∷ more.0, more.1)
    else ([], bits)

unfoldable pub encode_from : ℕ → ℕ → List ℕ → List ℕ
encode_from bits value [] =
    if ltb 0 bits then alphabet (bit_and (shl value (5 - bits)) 31) ∷ [] else []
encode_from bits value (byte ∷ buf) =
    let value' = bit_or (shl value 8) byte in
    let (chars, bits') = emit (bits + 8) (bits + 8) value' in chars ++ encode_from bits' value' buf

unfoldable pub base32_encode : List ℕ → List ℕ
base32_encode buf = encode_from 0 0 buf

-- `toUpperCase`, on ASCII text.
unfoldable pub upper : ℕ → ℕ
upper c = if leb b'a' c && leb c b'z' then c - 32 else c

-- What `/[\s=-]/` matches in ASCII text.
unfoldable pub is_filler : ℕ → Bool
is_filler c = (leb 9 c && leb c 13) || c == b' ' || c == b'=' || c == b'-'

unfoldable pub clean : List ℕ → List ℕ
clean input = filter (λ c. not (is_filler c)) (map upper input)

-- `none` stands for the thrown 'Invalid base32 character'.
unfoldable pub decode_from : ℕ → ℕ → List ℕ → Option (List ℕ)
decode_from bits value [] = some []
decode_from bits value (char ∷ chars) = elim (index_of char) [
  | none ↦ none
  | some idx ↦
      let value' = bit_or (shl value 5) idx in
      let full = leb 8 (bits + 5) in
      let rest = decode_from (if full then bits + 5 - 8 else bits + 5) value' chars in
      if full then Option.map (λ out. bit_and (shr value' (bits + 5 - 8)) 255 ∷ out) rest else rest
]

unfoldable pub base32_decode : List ℕ → Option (List ℕ)
base32_decode input = decode_from 0 0 (clean input)
