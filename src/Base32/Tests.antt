-- ===== src/Base32/Tests.antt =====
-- The codec on the vectors of RFC 4648.
use time_flow_be.Prelude.{◌≡◌, refl, some, none, arith, [], ◌∷◌}
use time_flow_be.Base32.{
  alphabet, index_of, emit, encode_from, base32_encode, upper, is_filler, clean, decode_from,
  base32_decode,
}
use time_flow_be.Base32.RoundTrip.{decode-encode}

foobar : base32_encode (b'f' ∷ b'o' ∷ []) ≡ b'M' ∷ b'Z' ∷ b'X' ∷ b'Q' ∷ []
unfolding base32_encode encode_from emit alphabet
foobar = refl

foobar_back : base32_decode (b'm' ∷ b'Z' ∷ b' ' ∷ b'X' ∷ b'Q' ∷ b'=' ∷ []) ≡ some (b'f' ∷ b'o' ∷ [])
unfolding base32_decode decode_from index_of clean upper is_filler
foobar_back = refl

bad_character : base32_decode (b'A' ∷ b'1' ∷ []) ≡ none
unfolding base32_decode decode_from index_of clean upper is_filler
bad_character = refl

decode-encode_example : base32_decode (base32_encode (0 ∷ 255 ∷ 17 ∷ [])) ≡ some (0 ∷ 255 ∷ 17 ∷ [])
decode-encode_example =
    decode-encode (0 ∷ 255 ∷ 17 ∷ []) (omega arith, (omega arith, (omega arith, tt)))
