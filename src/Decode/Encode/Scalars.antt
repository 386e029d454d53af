-- ===== src/Decode/Encode/Scalars.antt =====
-- decode.go: `decode` on the values that hold no others, as an encoder writes them.
use traefik_plugin_ipgeoloca.Base.{
  ℕ, zero, suc, ◌+◌, ◌-◌, ◌^◌, ◌%◌, ◌≤◌, ◌<◌, ◌≡◌, refl, sym, ap, ◌∙◌, List, [], Bool, true, false,
  ltb, ◌==◌, length, length-append, ok, arith,
}
use mathlib.Core.Path.{subst}
use mathlib.Core.List.{append-nil}
use traefik_plugin_ipgeoloca.Base.Text.{Str}
use traefik_plugin_ipgeoloca.Base.Int.{ℤ, pos, negsuc, int32}
use traefik_plugin_ipgeoloca.Source.{Source}
use traefik_plugin_ipgeoloca.Value.{
  Value, Items, Entries, Float, nil, str, bytes, float, uint, int, bool, object, array, empty, item,
  end, entry, from_bits64, from_bits32,
}
use traefik_plugin_ipgeoloca.Value.Distinct.{push}
use traefik_plugin_ipgeoloca.Decode.{
  max_value_size, uint_loop, read_uint, type_string, type_double, type_bytes, type_int32,
  type_uint64, type_end_marker, type_bool, type_float,
}
use traefik_plugin_ipgeoloca.Decode.Values.{decode_payload, decode_value, decode_at}
use traefik_plugin_ipgeoloca.Decode.Numbers.{uint_loop-big_endian}
use traefik_plugin_ipgeoloca.Decode.Encode.{
  encode_header, encode_float, int_bits, count_items, count_entries, encode,
}
use traefik_plugin_ipgeoloca.Decode.Encode.Bytes.{
  to_bytes, length-to_bytes, to_bytes-IsOctet, big_endian-to_bytes,
}
use traefik_plugin_ipgeoloca.Decode.Encode.Spells.{Spells, Spells-right, Spells-all}
use traefik_plugin_ipgeoloca.Decode.Encode.Headers.{decode_value-encode_header}
use traefik_plugin_ipgeoloca.Decode.Encode.Sizes.{IsSize}

abbrev FitsFloat : Float → Type 0
FitsFloat (from_bits64 n) = n < 256 ^ 8
FitsFloat (from_bits32 n) = n < 256 ^ 4

abbrev FitsInt : ℤ → Type 0
FitsInt (pos n) = n < 2 ^ 31
FitsInt (negsuc n) = n < 2 ^ 31

-- A value of the format: its numbers have their widths, its sizes can be written, and it is nested
-- at most `room` levels below itself.
abbrev mutual
  pub Fits : ℕ → Value → Type 0
  Fits room nil = Unit
  Fits room (str s) = IsSize (length s)
  Fits room (bytes b) = IsSize (length b)
  Fits room (float x) = FitsFloat x
  Fits room (uint n) = n < 256 ^ 8
  Fits room (int n) = FitsInt n
  Fits room (bool b) = Unit
  Fits room (object es) = IsSize (count_entries es) × FitsEntries room es
  Fits room (array xs) = IsSize (count_items xs) × FitsItems room xs

  pub FitsItems : ℕ → Items → Type 0
  FitsItems room empty = Unit
  FitsItems zero (item x xs) = ⊥
  FitsItems (suc room) (item x xs) = Fits room x × FitsItems (suc room) xs

  pub FitsEntries : ℕ → Entries → Type 0
  FitsEntries room end = Unit
  FitsEntries zero (entry k v es) = ⊥
  FitsEntries (suc room) (entry k v es) =
      IsSize (length k) × Fits room v × FitsEntries (suc room) es

int32-int_bits : (n : ℤ) → FitsInt n → int32 (int_bits n) ≡ n
unfolding int32 int_bits
int32-int_bits (pos n) h = ground (arith, h)
int32-int_bits (negsuc n) h =
    let bits : ℕ = 2 ^ 32 - (n + 1) in
    let wrap : bits % 2 ^ 32 ≡ bits = omega (arith, h) in
    let high : ltb bits (2 ^ 31) ≡ false = ground (arith, h) in
    rw (int32, wrap, high) (ap negsuc (omega (arith, h)))

int_bits-lt : (n : ℤ) → FitsInt n → int_bits n < 256 ^ 4
unfolding int_bits
int_bits-lt (pos n) h = omega (arith, h)
int_bits-lt (negsuc n) h = omega (arith, h)

module _ (src : Source) (base : ℕ) where
  read_uint-to_bytes :
      (off n x : ℕ)
      → 0 < n
      → n ≤ 8
      → x < 256 ^ n
      → Spells src off (to_bytes n x)
      → read_uint src off n ≡ ok x
  unfolding read_uint
  read_uint-to_bytes off n x some_byte few h spelled =
      let read = Spells-all src off n (to_bytes n x) spelled (length-to_bytes n x) in
      let number : uint_loop 0 (to_bytes n x) ≡ x =
        uint_loop-big_endian (to_bytes n x) (omega (arith, length-to_bytes n x, few))
          (to_bytes-IsOctet n x)
        ∙ big_endian-to_bytes n x h in
      let narrow : ltb 8 n ≡ false = ground (arith, few) in
      let present : (n == 0) ≡ false = ground (arith, some_byte) in
      rw (read_uint, narrow, present, read) (ap ok number)

  -- What decoding is for one value.
  abbrev pub IsRead : ℕ → Value → ℕ → Type 0
  IsRead room v off =
      decode_value src base push (decode_at src base push room) off
      ≡ ok (v, off + length (encode v))

  module _ (room off : ℕ) where
    pub str-IsRead :
        (s : Str) → IsSize (length s) → Spells src off (encode (str s)) → IsRead room (str s) off
    unfolding encode decode_payload
    str-IsRead s fits h =
        let header = encode_header type_string (length s) in
        let payload =
          Spells-all src (off + length header) (length s) s (Spells-right src off header s h)
            refl in
        let small : ltb max_value_size (length s) ≡ false = ground (arith, fits) in
        decode_value-encode_header src base push (decode_at src base push room) type_string
          (length s) off s (omega arith) fits h
        ∙ rw (decode_payload, small, payload)
            (ap (λ n. ok (str s, n)) (omega (arith, length-append header s)))

    pub bytes-IsRead :
        (b : List ℕ)
        → IsSize (length b)
        → Spells src off (encode (bytes b))
        → IsRead room (bytes b) off
    unfolding encode decode_payload
    bytes-IsRead b fits h =
        let header = encode_header type_bytes (length b) in
        let payload =
          Spells-all src (off + length header) (length b) b (Spells-right src off header b h)
            refl in
        let small : ltb max_value_size (length b) ≡ false = ground (arith, fits) in
        decode_value-encode_header src base push (decode_at src base push room) type_bytes
          (length b) off b (omega arith) fits h
        ∙ rw (decode_payload, small, payload)
            (ap (λ n. ok (bytes b, n)) (omega (arith, length-append header b)))

    pub uint-IsRead :
        (x : ℕ) → x < 256 ^ 8 → Spells src off (encode (uint x)) → IsRead room (uint x) off
    unfolding encode decode_payload
    uint-IsRead x fits h =
        let header = encode_header type_uint64 8 in
        let payload =
          read_uint-to_bytes (off + length header) 8 x (omega arith) (omega arith) fits
            (Spells-right src off header (to_bytes 8 x) h) in
        decode_value-encode_header src base push (decode_at src base push room) type_uint64 8 off
          (to_bytes 8 x) (omega arith) (omega arith) h
        ∙ rw (decode_payload, payload)
            (ap (λ n. ok (uint x, n))
              (omega (arith, length-append header (to_bytes 8 x), length-to_bytes 8 x)))

    pub int-IsRead : (n : ℤ) → FitsInt n → Spells src off (encode (int n)) → IsRead room (int n) off
    unfolding encode decode_payload
    int-IsRead n fits h =
        let header = encode_header type_int32 4 in
        let bits = int_bits n in
        let payload =
          read_uint-to_bytes (off + length header) 4 bits (omega arith) (omega arith)
            (int_bits-lt n fits) (Spells-right src off header (to_bytes 4 bits) h) in
        decode_value-encode_header src base push (decode_at src base push room) type_int32 4 off
          (to_bytes 4 bits) (omega arith) (omega arith) h
        ∙ rw (decode_payload, payload, int32-int_bits n fits)
            (ap (λ m. ok (int n, m))
              (omega (arith, length-append header (to_bytes 4 bits), length-to_bytes 4 bits)))

    pub double-IsRead :
        (x : ℕ)
        → x < 256 ^ 8
        → Spells src off (encode (float (from_bits64 x)))
        → IsRead room (float (from_bits64 x)) off
    unfolding encode encode_float decode_payload
    double-IsRead x fits h =
        let header = encode_header type_double 8 in
        let bs = to_bytes 8 x in
        let payload =
          Spells-all src (off + length header) 8 bs (Spells-right src off header bs h)
            (length-to_bytes 8 x) in
        decode_value-encode_header src base push (decode_at src base push room) type_double 8 off bs
          (omega arith) (omega arith) h
        ∙ rw (decode_payload, payload, big_endian-to_bytes 8 x fits)
            (ap (λ m. ok (float (from_bits64 x), m))
              (omega (arith, length-append header bs, length-to_bytes 8 x)))

    pub float-IsRead :
        (x : ℕ)
        → x < 256 ^ 4
        → Spells src off (encode (float (from_bits32 x)))
        → IsRead room (float (from_bits32 x)) off
    unfolding encode encode_float decode_payload
    float-IsRead x fits h =
        let header = encode_header type_float 4 in
        let bs = to_bytes 4 x in
        let payload =
          Spells-all src (off + length header) 4 bs (Spells-right src off header bs h)
            (length-to_bytes 4 x) in
        decode_value-encode_header src base push (decode_at src base push room) type_float 4 off bs
          (omega arith) (omega arith) h
        ∙ rw (decode_payload, payload, big_endian-to_bytes 4 x fits)
            (ap (λ m. ok (float (from_bits32 x), m))
              (omega (arith, length-append header bs, length-to_bytes 4 x)))

    pub bool-IsRead : (b : Bool) → Spells src off (encode (bool b)) → IsRead room (bool b) off
    unfolding encode decode_payload
    bool-IsRead true h =
        decode_value-encode_header src base push (decode_at src base push room) type_bool 1 off []
          (omega arith) (omega arith)
          (subst (Spells src off) (sym (append-nil (encode_header type_bool 1))) h)
    bool-IsRead false h =
        decode_value-encode_header src base push (decode_at src base push room) type_bool 0 off []
          (omega arith) (omega arith)
          (subst (Spells src off) (sym (append-nil (encode_header type_bool 0))) h)

    pub nil-IsRead : Spells src off (encode nil) → IsRead room nil off
    unfolding encode decode_payload
    nil-IsRead h =
        decode_value-encode_header src base push (decode_at src base push room) type_end_marker 0
          off [] (omega arith) (omega arith)
          (subst (Spells src off) (sym (append-nil (encode_header type_end_marker 0))) h)
