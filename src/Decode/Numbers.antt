-- ===== src/Decode/Numbers.antt =====
-- decode.go: the numbers that `readUint` and `decodePointer` put together from bytes.
use traefik_plugin_ipgeoloca.Base.{
  ℕ, zero, suc, ◌+◌, ◌-◌, ◌*◌, ◌^◌, ◌%◌, ◌≤◌, ◌<◌, ◌≡◌, refl, ap, ◌∙◌, List, [], ◌∷◌, length, arith,
  All, bit_or, ◌==◌, if◌then◌else◌,
}
use native.Mathlib.Nat.{pow-suc}
use traefik_plugin_ipgeoloca.Base.Bits.{shl, bit_or-shl, or_bytes3, or_bytes4}
use traefik_plugin_ipgeoloca.Decode.{big_endian_from, big_endian, uint_loop, pointer_value}

abbrev pub IsOctet : ℕ → Type 0
IsOctet b = b < 256

byte_power : (a d : ℕ) → a + d ≡ 8 → 256 ^ a ≤ 2 ^ 64
byte_power a zero e = let e' : a ≡ 8 = omega arith in rw e' (omega arith)
byte_power a (suc d) e = omega (arith, pow-suc 256 a, byte_power (suc a) d (omega arith))

uint_loop-big_endian_from :
    (k d v : ℕ) (bs : List ℕ)
    → (k + length bs) + d ≡ 8
    → v < 256 ^ k
    → All IsOctet bs
    → uint_loop v bs ≡ big_endian_from v bs
unfolding uint_loop big_endian_from
uint_loop-big_endian_from k d v [] e h bytes = refl
uint_loop-big_endian_from k d v (b ∷ bs) e h (here, there) =
    let fits : v * 256 < 2 ^ 64 =
      omega (arith, pow-suc 256 k, byte_power (suc k) (length bs + d) (omega arith)) in
    let wrap : shl v 8 % 2 ^ 64 ≡ shl v 8 = omega (arith, fits) in
    let step : bit_or (shl v 8 % 2 ^ 64) b ≡ v * 256 + b =
      ap (λ t. bit_or t b) wrap ∙ bit_or-shl 8 v b here in
    rw step (
      uint_loop-big_endian_from (suc k) d (v * 256 + b) bs (omega arith)
        (omega (arith, pow-suc 256 k)) there)

rest_of : (n m : ℕ) → n ≤ m → (d : ℕ) × ((0 + n) + d ≡ m)
rest_of n m h = (m - n, omega arith)

-- The loop of `readUint` computes the big-endian value of up to eight bytes: no bit is shifted out.
pub uint_loop-big_endian :
    (bs : List ℕ) → length bs ≤ 8 → All IsOctet bs → uint_loop 0 bs ≡ big_endian bs
uint_loop-big_endian bs h bytes =
    let (d, e) = rest_of (length bs) 8 h in uint_loop-big_endian_from 0 d 0 bs e (omega arith) bytes

-- What is added to a pointer of one, two or three bytes.
unfoldable pub pointer_bias : ℕ → ℕ
pointer_bias n = if n == 1 then 0 else if n == 2 then 2048 else 526336

-- A pointer of one, two or three bytes is the big-endian value of its prefix and its bytes, plus
-- what the shorter pointers cover: 2048 for two bytes and 526336 for three.
pub pointer_value-big_endian :
    (prefix : ℕ) (b : List ℕ)
    → 0 < length b
    → length b ≤ 3
    → All IsOctet b
    → pointer_value (length b) prefix b ≡ big_endian (prefix ∷ b) + pointer_bias (length b)
unfolding pointer_value big_endian_from pointer_bias
pointer_value-big_endian prefix [] some_byte few bytes = absurd (omega arith)
pointer_value-big_endian prefix (x ∷ []) some_byte few (hx, _) =
    omega (arith, bit_or-shl 8 prefix x hx)
pointer_value-big_endian prefix (x ∷ y ∷ []) some_byte few (hx, (hy, _)) =
    omega (arith, or_bytes3 prefix x y hx hy)
pointer_value-big_endian prefix (x ∷ y ∷ z ∷ []) some_byte few (hx, (hy, (hz, _))) =
    omega (arith, or_bytes4 prefix (shl prefix 24) x y z refl hx hy hz)
pointer_value-big_endian prefix (x ∷ y ∷ z ∷ w ∷ b) some_byte few bytes = absurd (omega arith)
