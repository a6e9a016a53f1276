-- ===== src/Base32/RoundTrip.antt =====
-- Decoding what was encoded gives the bytes back.
use mathlib.Core.Option
use time_flow_be.Prelude.{
  ℕ, zero, suc, ◌+◌, ◌-◌, ◌*◌, ◌%◌, ◌^◌, ◌≤◌, ◌<◌, ◌≡◌, refl, ap, ap₂, bit_and, bit_or, some, List,
  [], ◌∷◌, ◌++◌, true, false, leb, arith, All, All-append,
}
use time_flow_be.Prelude.Bits.{or_shifted_5, or_shifted_8, and_31, and_255}
use time_flow_be.Base32.{
  alphabet, index_of, shl, shr, emit, encode_from, base32_encode, upper, is_filler, clean,
  decode_from, base32_decode,
}

index_of-alphabet : (i : ℕ) → i < 32 → index_of (alphabet i) ≡ some i
unfolding index_of alphabet
index_of-alphabet i h = ground arith

-- Shifting a pattern in, without the bit operations.
shl_or_8 : (v b : ℕ) → b < 256 → bit_or (shl v 8) b ≡ v % 2 ^ 24 * 256 + b
shl_or_8 v b h = omega (
  arith,
  or_shifted_8 (v % 2 ^ 24) b h,
  ap (λ t. bit_or t b) (let e : v * 2 ^ 8 % 2 ^ 32 ≡ v % 2 ^ 24 * 256 = omega arith in e),
)

shl_or_5 : (v i : ℕ) → i < 32 → bit_or (shl v 5) i ≡ v % 2 ^ 27 * 32 + i
shl_or_5 v i h = omega (
  arith,
  or_shifted_5 (v % 2 ^ 27) i h,
  ap (λ t. bit_or t i) (let e : v * 2 ^ 5 % 2 ^ 32 ≡ v % 2 ^ 27 * 32 = omega arith in e),
)

-- One character of five bits read by the decoder, with fewer than 3 bits or with 3 and more pending.
decode_short :
    (d w i : ℕ) (cs : List ℕ)
    → i < 32
    → d < 3
    → decode_from d w (alphabet i ∷ cs) ≡ decode_from (d + 5) (w % 2 ^ 27 * 32 + i) cs
unfolding decode_from
decode_short d w i cs h k =
    let e : leb 8 (d + 5) ≡ false = ground arith in
    rw (index_of-alphabet i h, decode_from, e, shl_or_5 w i h)

decode_full :
    (d w i : ℕ) (cs : List ℕ)
    → i < 32
    → 3 ≤ d
    → decode_from d w (alphabet i ∷ cs)
      ≡ Option.map
          (λ out. shr (w % 2 ^ 27 * 32 + i) (d - 3) % 256 ∷ out)
          (decode_from (d - 3) (w % 2 ^ 27 * 32 + i) cs)
unfolding decode_from
decode_full d w i cs h k =
    let e : leb 8 (d + 5) ≡ true = ground arith in
    let t : d + 5 - 8 ≡ d - 3 = omega arith in
    rw (index_of-alphabet i h, decode_from, e, shl_or_5 w i h, t)
      (ap (λ x. Option.map (λ out. x ∷ out) (decode_from (d - 3) (w % 2 ^ 27 * 32 + i) cs))
        (and_255 (shr (w % 2 ^ 27 * 32 + i) (d - 3))))

-- The bits that the decoder is short of a byte while the encoder holds back `r` of them.
abbrev held : ℕ → ℕ
held zero = 0
held (suc r) = 7 - r

-- The byte that the two share.
abbrev pending : ℕ → ℕ → ℕ → List ℕ
pending zero v w = []
pending (suc r) v w = (w % 2 ^ (7 - r) * 2 ^ suc r + v % 2 ^ suc r) ∷ []

-- What the encoder hands on: five bits of its value.
five : (x : ℕ) → bit_and x 31 < 32
five x = omega (arith, and_31 x)

decode-encode_from :
    (r v w : ℕ) (bs : List ℕ)
    → r < 5
    → All (λ b. b < 256) bs
    → decode_from (held r) w (encode_from r v bs) ≡ some (pending r v w ++ bs)
unfolding encode_from emit
decode-encode_from zero v w [] h k = unfold decode_from in refl
decode-encode_from (suc zero) v w [] h k =
    let i = bit_and (shl v 4) 31 in
    rw (decode_full 7 w i [] (five _) (omega arith))
      (unfold decode_from in ap (λ x. some (x ∷ [])) (omega (arith, and_31 (shl v 4))))
decode-encode_from (suc (suc zero)) v w [] h k =
    let i = bit_and (shl v 3) 31 in
    rw (decode_full 6 w i [] (five _) (omega arith))
      (unfold decode_from in ap (λ x. some (x ∷ [])) (omega (arith, and_31 (shl v 3))))
decode-encode_from (suc (suc (suc zero))) v w [] h k =
    let i = bit_and (shl v 2) 31 in
    rw (decode_full 5 w i [] (five _) (omega arith))
      (unfold decode_from in ap (λ x. some (x ∷ [])) (omega (arith, and_31 (shl v 2))))
decode-encode_from (suc (suc (suc (suc zero)))) v w [] h k =
    let i = bit_and (shl v 1) 31 in
    rw (decode_full 4 w i [] (five _) (omega arith))
      (unfold decode_from in ap (λ x. some (x ∷ [])) (omega (arith, and_31 (shl v 1))))
decode-encode_from (suc (suc (suc (suc (suc r))))) v w [] h k = absurd (omega arith)
decode-encode_from zero v w (b ∷ bs) h (hb, k) =
    let v' = bit_or (shl v 8) b in
    let i1 = bit_and (shr v' 3) 31 in
    let w1 = w % 2 ^ 27 * 32 + i1 in
    let ih = decode-encode_from 3 v' w1 bs (omega arith) k in
    rw (decode_short 0 w i1 _ (five _) (omega arith), ih)
      (ap (λ x. some (x ∷ bs)) (omega (arith, shl_or_8 v b hb, and_31 (shr v' 3))))
decode-encode_from (suc zero) v w (b ∷ bs) h (hb, k) =
    let v' = bit_or (shl v 8) b in
    let i1 = bit_and (shr v' 4) 31 in
    let w1 = w % 2 ^ 27 * 32 + i1 in
    let ih = decode-encode_from 4 v' w1 bs (omega arith) k in
    rw (decode_full 7 w i1 _ (five _) (omega arith), ih)
      (ap₂ (λ x y. some (x ∷ y ∷ bs)) (omega (arith, shl_or_8 v b hb, and_31 (shr v' 4)))
        (omega (arith, shl_or_8 v b hb, and_31 (shr v' 4))))
decode-encode_from (suc (suc zero)) v w (b ∷ bs) h (hb, k) =
    let v' = bit_or (shl v 8) b in
    let i1 = bit_and (shr v' 5) 31 in
    let w1 = w % 2 ^ 27 * 32 + i1 in
    let i2 = bit_and (shr v' 0) 31 in
    let w2 = w1 % 2 ^ 27 * 32 + i2 in
    let ih = decode-encode_from 0 v' w2 bs (omega arith) k in
    rw
      (
        decode_full 6 w i1 _ (five _) (omega arith),
        decode_full 3 w1 i2 _ (five _) (omega arith),
        ih,
      )
      (ap₂ (λ x y. some (x ∷ y ∷ bs))
        (omega (arith, shl_or_8 v b hb, and_31 (shr v' 5), and_31 (shr v' 0)))
        (omega (arith, shl_or_8 v b hb, and_31 (shr v' 5), and_31 (shr v' 0))))
decode-encode_from (suc (suc (suc zero))) v w (b ∷ bs) h (hb, k) =
    let v' = bit_or (shl v 8) b in
    let i1 = bit_and (shr v' 6) 31 in
    let w1 = w % 2 ^ 27 * 32 + i1 in
    let i2 = bit_and (shr v' 1) 31 in
    let w2 = w1 % 2 ^ 27 * 32 + i2 in
    let ih = decode-encode_from 1 v' w2 bs (omega arith) k in
    rw
      (
        decode_full 5 w i1 _ (five _) (omega arith),
        decode_short 2 w1 i2 _ (five _) (omega arith),
        ih,
      )
      (ap₂ (λ x y. some (x ∷ y ∷ bs))
        (omega (arith, shl_or_8 v b hb, and_31 (shr v' 6), and_31 (shr v' 1)))
        (omega (arith, shl_or_8 v b hb, and_31 (shr v' 6), and_31 (shr v' 1))))
decode-encode_from (suc (suc (suc (suc zero)))) v w (b ∷ bs) h (hb, k) =
    let v' = bit_or (shl v 8) b in
    let i1 = bit_and (shr v' 7) 31 in
    let w1 = w % 2 ^ 27 * 32 + i1 in
    let i2 = bit_and (shr v' 2) 31 in
    let w2 = w1 % 2 ^ 27 * 32 + i2 in
    let ih = decode-encode_from 2 v' w2 bs (omega arith) k in
    rw
      (
        decode_full 4 w i1 _ (five _) (omega arith),
        decode_short 1 w1 i2 _ (five _) (omega arith),
        ih,
      )
      (ap₂ (λ x y. some (x ∷ y ∷ bs))
        (omega (arith, shl_or_8 v b hb, and_31 (shr v' 7), and_31 (shr v' 2)))
        (omega (arith, shl_or_8 v b hb, and_31 (shr v' 7), and_31 (shr v' 2))))
decode-encode_from (suc (suc (suc (suc (suc r))))) v w (b ∷ bs) h k = absurd (omega arith)

-- The alphabet has no lower-case letter and no filler, so cleaning keeps an encoded text.
IsSymbol : ℕ → Type 0
IsSymbol c = (upper c ≡ c) × (is_filler c ≡ false)

alphabet-IsSymbol : (i : ℕ) → i < 32 → IsSymbol (alphabet i)
unfolding IsSymbol alphabet upper is_filler
alphabet-IsSymbol i h = ground arith

emit-All-IsSymbol : (rounds bits value : ℕ) → All IsSymbol (emit rounds bits value).0
unfolding emit
emit-All-IsSymbol zero bits value = tt
emit-All-IsSymbol (suc rounds) bits value = ground (
  arith,
  alphabet-IsSymbol (bit_and (shr value (bits - 5)) 31) (five _),
  emit-All-IsSymbol rounds (bits - 5) value,
)

encode_from-All-IsSymbol :
    (bits value : ℕ) (buf : List ℕ) → All IsSymbol (encode_from bits value buf)
unfolding encode_from
encode_from-All-IsSymbol bits value [] =
    ground (arith, alphabet-IsSymbol (bit_and (shl value (5 - bits)) 31) (five _))
encode_from-All-IsSymbol bits value (byte ∷ buf) =
    let value' = bit_or (shl value 8) byte in
    All-append IsSymbol _ _ (emit-All-IsSymbol (bits + 8) (bits + 8) value')
      (encode_from-All-IsSymbol (emit (bits + 8) (bits + 8) value').1 value' buf)

clean_of_All-IsSymbol : (cs : List ℕ) → All IsSymbol cs → clean cs ≡ cs
unfolding clean IsSymbol
clean_of_All-IsSymbol [] h = refl
clean_of_All-IsSymbol (c ∷ cs) ((u, f), h) =
    rw (u, f) (ap (λ r. c ∷ r) (clean_of_All-IsSymbol cs h))

-- Decoding the base32 text of any buffer gives back its bytes, whatever its length, although the
-- encoder never masks its 32-bit accumulator. The hypothesis says that the buffer holds bytes.
pub decode-encode :
    (buf : List ℕ) → All (λ b. b < 256) buf → base32_decode (base32_encode buf) ≡ some buf
unfolding base32_decode base32_encode
decode-encode buf h =
    rw (clean_of_All-IsSymbol _ (encode_from-All-IsSymbol 0 0 buf))
      (decode-encode_from 0 0 0 buf (omega arith) h)
