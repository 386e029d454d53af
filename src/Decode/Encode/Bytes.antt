-- ===== src/Decode/Encode/Bytes.antt =====
-- Numbers as bytes, most significant first.
use traefik_plugin_ipgeoloca.Base.{
  ℕ, zero, suc, ◌+◌, ◌*◌, ◌/◌, ◌%◌, ◌^◌, ◌<◌, ◌≡◌, refl, List, [], ◌∷◌, ◌++◌, length, length-append,
  arith, All, All-append,
}
use native.Mathlib.Nat.{pow-suc}
use traefik_plugin_ipgeoloca.Decode.{big_endian_from, big_endian}
use traefik_plugin_ipgeoloca.Decode.Numbers.{IsOctet}

-- The low bytes of a number, `n` of them.
unfoldable pub to_bytes : ℕ → ℕ → List ℕ
to_bytes zero x = []
to_bytes (suc n) x = to_bytes n (x / 256) ++ (x % 256 ∷ [])

pub length-to_bytes : (n x : ℕ) → length (to_bytes n x) ≡ n
unfolding to_bytes
length-to_bytes zero x = refl
length-to_bytes (suc n) x =
    omega (arith, length-append (to_bytes n (x / 256)) (x % 256 ∷ []), length-to_bytes n (x / 256))

pub to_bytes-IsOctet : (n x : ℕ) → All IsOctet (to_bytes n x)
unfolding to_bytes
to_bytes-IsOctet zero x = tt
to_bytes-IsOctet (suc n) x =
    All-append IsOctet (to_bytes n (x / 256)) (x % 256 ∷ []) (to_bytes-IsOctet n (x / 256))
      (omega arith, tt)

big_endian_from-append :
    (v b : ℕ) (bs : List ℕ) → big_endian_from v (bs ++ (b ∷ [])) ≡ big_endian_from v bs * 256 + b
unfolding big_endian_from
big_endian_from-append v b [] = refl
big_endian_from-append v b (c ∷ bs) = big_endian_from-append (v * 256 + c) b bs

pub big_endian-to_bytes : (n x : ℕ) → x < 256 ^ n → big_endian (to_bytes n x) ≡ x
unfolding to_bytes big_endian_from
big_endian-to_bytes zero x h = omega (arith, h)
big_endian-to_bytes (suc n) x h = omega (
  arith,
  big_endian_from-append 0 (x % 256) (to_bytes n (x / 256)),
  big_endian-to_bytes n (x / 256) (omega (arith, h, pow-suc 256 n)),
)
