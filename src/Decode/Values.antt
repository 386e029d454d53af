-- ===== src/Decode/Values.antt =====
-- decode.go, `decode`: one value, and the offset behind it.
use traefik_plugin_ipgeoloca.Base.{
  ℕ, zero, suc, ◌+◌, ◌-◌, ◌/◌, not, ltb, ◌==◌, ◌||◌, if◌then◌else◌, Result, ok, err, ◌>>=◌,
}
use traefik_plugin_ipgeoloca.Base.Text.{Str}
use traefik_plugin_ipgeoloca.Base.Int.{int32}
use traefik_plugin_ipgeoloca.Source.{
  Source, Error, depth_exceeded, too_large, bad_double, bad_float, unknown_type,
}
use traefik_plugin_ipgeoloca.Value.{
  Value, Items, Entries, nil, str, bytes, float, uint, int, bool, object, array, empty, end,
  from_bits64, from_bits32, put, append,
}
use traefik_plugin_ipgeoloca.Decode.{
  type_pointer, type_string, type_double, type_bytes, type_uint16, type_uint32, type_map,
  type_int32, type_uint64, type_uint128, type_array, type_container, type_end_marker, type_bool,
  type_float, max_decode_depth, max_value_size, big_endian, as_key, byte_at, type_and_size,
  read_uint, decode_pointer,
}

-- `out[key] = value`; the code's is `put`.
abbrev pub Store : Type 0
Store = Str → Value → Entries → Entries

-- The loops of the map and the array case; `rec` is `decode` one level down.
unfoldable pub decode_map :
    Store → (ℕ → Result Error (Value × ℕ)) → ℕ → ℕ → Entries → Result Error (Value × ℕ)
decode_map store rec zero cur out = ok (object out, cur)
decode_map store rec (suc n) cur out = do
  (raw_key, next) ← rec cur
  key ← as_key cur raw_key
  (value, next') ← rec next
  decode_map store rec n next' (store key value out)

unfoldable pub decode_array :
    (ℕ → Result Error (Value × ℕ)) → ℕ → ℕ → Items → Result Error (Value × ℕ)
decode_array rec zero cur out = ok (array out, cur)
decode_array rec (suc n) cur out = do
  (value, next) ← rec cur
  decode_array rec n next (append out value)

module _ (src : Source) where
  -- The `switch` on the type, with the payload at `off`.
  unfoldable pub decode_payload :
      Store → (ℕ → Result Error (Value × ℕ)) → ℕ → ℕ → ℕ → Result Error (Value × ℕ)
  decode_payload store rec value_type size off =
      if value_type == type_string
      then (if ltb max_value_size size
          then err (too_large size)
          else (do b ← src.at off size; ok (str b, off + size)))
      else if value_type == type_bytes
      then (if ltb max_value_size size
          then err (too_large size)
          else (do b ← src.at off size; ok (bytes b, off + size)))
      else if value_type == type_double
      then (if not (size == 8)
          then err (bad_double size)
          else (do b ← src.at off 8; ok (float (from_bits64 (big_endian b)), off + 8)))
      else if value_type == type_float
      then (if not (size == 4)
          then err (bad_float size)
          else (do b ← src.at off 4; ok (float (from_bits32 (big_endian b)), off + 4)))
      else if value_type == type_uint16 || value_type == type_uint32 || value_type == type_uint64
      then (do v ← read_uint src off size; ok (uint v, off + size))
      else if value_type == type_int32
      then (do v ← read_uint src off size; ok (int (int32 v), off + size))
      else if value_type == type_uint128
      then (do b ← src.at off size; ok (bytes b, off + size))
      else if value_type == type_bool
      then ok (bool (not (size == 0)), off)
      else if value_type == type_map
      then decode_map store rec size off end
      else if value_type == type_array
      then decode_array rec size off empty
      else if value_type == type_container || value_type == type_end_marker
      then ok (nil, off)
      else err (unknown_type value_type off)

  module _ (base : ℕ) where
    -- One value at `off`; `rec` decodes one level down.
    unfoldable pub decode_value :
        Store → (ℕ → Result Error (Value × ℕ)) → ℕ → Result Error (Value × ℕ)
    decode_value store rec off = do
      ctrl ← byte_at src off
      if ctrl / 32 == type_pointer
          then (do
            (target, next) ← decode_pointer src base ctrl (off + 1)
            (value, _) ← rec target
            ok (value, next))
          else (do
            (value_type, size, off') ← type_and_size src ctrl (off + 1)
            decode_payload store rec value_type size off')

    unfoldable pub decode_at : Store → ℕ → ℕ → Result Error (Value × ℕ)
    decode_at store zero off = err (depth_exceeded off)
    decode_at store (suc room) off = decode_value store (decode_at store room) off

    unfoldable pub decode : ℕ → ℕ → Result Error (Value × ℕ)
    decode off depth = decode_at put (max_decode_depth + 1 - depth) off
