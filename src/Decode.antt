-- ===== src/Decode.antt =====
-- decode.go: the decoder of the MMDB data section. `room` is what is left of the depth,
-- maxDecodeDepth + 1 - depth: the source's own guard, so it is no artificial fuel.
pub mod Values
pub mod Seek
pub mod SkipDecode
pub mod SeekDecode
pub mod Depth
pub mod Numbers
pub mod Agree
pub mod Encode
use traefik_plugin_ipgeoloca.Base.{
  ℕ, zero, suc, ◌+◌, ◌-◌, ◌*◌, ◌/◌, ◌%◌, ◌^◌, bit_and, bit_or, List, [], ◌∷◌, Option, none, some,
  Bool, true, false, not, ltb, ◌==◌, ◌||◌, if◌then◌else◌, get_or, Result, ok, err, ◌>>=◌,
}
use traefik_plugin_ipgeoloca.Base.Bits.{shl}
use traefik_plugin_ipgeoloca.Base.Text.{Str, str_eq}
use traefik_plugin_ipgeoloca.Base.Int.{int32}
use traefik_plugin_ipgeoloca.Source.{
  Source, Error, out_of_range, depth_exceeded, seek_depth_exceeded, skip_depth_exceeded, too_large,
  bad_double, bad_float, uint_too_large, key_not_string, unknown_type,
}
use traefik_plugin_ipgeoloca.Value.{
  Value, Items, Entries, nil, str, bytes, float, uint, int, bool, object, array, empty, end,
  from_bits64, from_bits32, put, append,
}

abbrev pub type_pointer : ℕ
type_pointer = 1

abbrev pub type_string : ℕ
type_string = 2

abbrev pub type_double : ℕ
type_double = 3

abbrev pub type_bytes : ℕ
type_bytes = 4

abbrev pub type_uint16 : ℕ
type_uint16 = 5

abbrev pub type_uint32 : ℕ
type_uint32 = 6

abbrev pub type_map : ℕ
type_map = 7

abbrev pub type_int32 : ℕ
type_int32 = 8

abbrev pub type_uint64 : ℕ
type_uint64 = 9

abbrev pub type_uint128 : ℕ
type_uint128 = 10

abbrev pub type_array : ℕ
type_array = 11

abbrev pub type_container : ℕ
type_container = 12

abbrev pub type_end_marker : ℕ
type_end_marker = 13

abbrev pub type_bool : ℕ
type_bool = 14

abbrev pub type_float : ℕ
type_float = 15

abbrev pub max_decode_depth : ℕ
max_decode_depth = 64

abbrev pub max_value_size : ℕ
max_value_size = 33554432

-- binary.BigEndian.Uint16, Uint32 and Uint64: the value of the bytes, most significant first.
unfoldable pub big_endian_from : ℕ → List ℕ → ℕ
big_endian_from v [] = v
big_endian_from v (b ∷ bs) = big_endian_from (v * 256 + b) bs

abbrev pub big_endian : List ℕ → ℕ
big_endian bs = big_endian_from 0 bs

-- `v = v<<8 | uint64(b[i])` over the buffer.
unfoldable pub uint_loop : ℕ → List ℕ → ℕ
uint_loop v [] = v
uint_loop v (b ∷ bs) = uint_loop (bit_or (shl v 8 % 2 ^ 64) b) bs

-- The pointer that `prefix`, the control byte's low bits, and the buffer spell.
unfoldable pub pointer_value : ℕ → ℕ → List ℕ → ℕ
pointer_value pointer_size prefix b =
    if pointer_size == 1
    then bit_or (shl prefix 8) (get_or b 0 0)
    else if pointer_size == 2
    then bit_or (bit_or (shl prefix 16) (shl (get_or b 0 0) 8)) (get_or b 1 0) + 2048
    else if pointer_size == 3
    then bit_or (bit_or (bit_or (shl prefix 24) (shl (get_or b 0 0) 16)) (shl (get_or b 1 0) 8))
        (get_or b 2 0)
      + 526336
    else big_endian b

-- `rawKey.(string)`
unfoldable pub as_key : ℕ → Value → Result Error Str
as_key cur (str s) = ok s
as_key cur _ = err (key_not_string cur)

module _ (src : Source) where
  -- `ctrlBuf[0]` after `at(off, 1)`
  unfoldable pub byte_at : ℕ → Result Error ℕ
  byte_at off = do buf ← src.at off 1; ok (get_or buf 0 0)

  unfoldable pub decode_size : ℕ → ℕ → Result Error (ℕ × ℕ)
  decode_size size off =
      if ltb size 29
      then ok (size, off)
      else if size == 29
      then (do b ← byte_at off; ok (29 + b, off + 1))
      else if size == 30
      then (do b ← src.at off 2; ok (285 + big_endian b, off + 2))
      else (do
        b ← src.at off 3
        ok (
          65821 + bit_or (bit_or (shl (get_or b 0 0) 16) (shl (get_or b 1 0) 8)) (get_or b 2 0),
          off + 3,
        ))

  -- The extended type byte that follows a control byte of type 0.
  unfoldable pub extended_type : ℕ → ℕ → Result Error (ℕ × ℕ)
  extended_type value_type off =
      if value_type == 0
      then (do ext ← byte_at off; ok (ext + 7, off + 1))
      else ok (value_type, off)

  -- What `decode`, `seek` and `skip` all do behind a control byte that is no pointer: the type, the
  -- size and the offset of the payload.
  unfoldable pub type_and_size : ℕ → ℕ → Result Error (ℕ × ℕ × ℕ)
  type_and_size ctrl off = do
    (value_type, off') ← extended_type (ctrl / 32) off
    (size, off'') ← decode_size (bit_and ctrl 0x1f) off'
    ok (value_type, size, off'')

  unfoldable pub read_uint : ℕ → ℕ → Result Error ℕ
  read_uint off size =
      if ltb 8 size
      then err (uint_too_large size)
      else if size == 0
      then ok 0
      else (do b ← src.at off size; ok (uint_loop 0 b))

  module _ (base : ℕ) where
    unfoldable pub decode_pointer : ℕ → ℕ → Result Error (ℕ × ℕ)
    decode_pointer ctrl off =
        let pointer_size = bit_and (ctrl / 8) 0x3 + 1 in
        do
          b ← src.at off pointer_size
          ok (base + pointer_value pointer_size (bit_and ctrl 0x7) b, off + pointer_size)
