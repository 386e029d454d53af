-- ===== src/Decode/Encode.antt =====
-- decode.go: `decode` on what an encoder of the format writes (mmdb_fixture_test.go has one), in
-- memory.
pub mod Bytes
pub mod Spells
pub mod Sizes
pub mod Headers
pub mod Scalars
pub mod RoundTrip
use traefik_plugin_ipgeoloca.Base.{
  ℕ, zero, suc, ◌+◌, ◌-◌, ◌*◌, ◌/◌, ◌%◌, ◌^◌, ◌≤◌, ◌<◌, ◌≡◌, List, [], ◌∷◌, ◌++◌, Bool, true, false,
  ltb, if◌then◌else◌, length, All,
}
use traefik_plugin_ipgeoloca.Base.Text.{Str}
use traefik_plugin_ipgeoloca.Base.Int.{ℤ, pos, negsuc}
use traefik_plugin_ipgeoloca.Value.{
  Value, Items, Entries, nil, str, bytes, float, uint, int, bool, object, array, empty, item, end,
  entry, from_bits64, from_bits32, Float,
}
use traefik_plugin_ipgeoloca.Decode.{
  type_string, type_double, type_bytes, type_map, type_int32, type_uint64, type_array,
  type_end_marker, type_bool, type_float,
}
use traefik_plugin_ipgeoloca.Decode.Encode.Bytes.{to_bytes}

-- The five low bits of a control byte, and the bytes that hold the rest of the size.
unfoldable pub size_code : ℕ → ℕ
size_code size =
    if ltb size 29 then size else if ltb size 285 then 29 else if ltb size 65821 then 30 else 31

unfoldable pub size_bytes : ℕ → List ℕ
size_bytes size =
    if ltb size 29
    then []
    else if ltb size 285
    then to_bytes 1 (size - 29)
    else if ltb size 65821
    then to_bytes 2 (size - 285)
    else to_bytes 3 (size - 65821)

-- The control byte, the extended type where the type needs one, and the size.
unfoldable pub encode_header : ℕ → ℕ → List ℕ
encode_header value_type size =
    (if ltb value_type 8
      then (value_type * 32 + size_code size) ∷ []
      else size_code size ∷ (value_type - 7) ∷ [])
    ++ size_bytes size

-- The bits of an int32.
unfoldable pub int_bits : ℤ → ℕ
int_bits (pos n) = n
int_bits (negsuc n) = 2 ^ 32 - (n + 1)

abbrev pub count_items : Items → ℕ
count_items empty = 0
count_items (item x xs) = suc (count_items xs)

abbrev pub count_entries : Entries → ℕ
count_entries end = 0
count_entries (entry k v es) = suc (count_entries es)

unfoldable pub encode_float : Float → List ℕ
encode_float (from_bits64 n) = encode_header type_double 8 ++ to_bytes 8 n
encode_float (from_bits32 n) = encode_header type_float 4 ++ to_bytes 4 n

mutual
  pub encode : Value → List ℕ
  encode nil = encode_header type_end_marker 0
  encode (str s) = encode_header type_string (length s) ++ s
  encode (bytes b) = encode_header type_bytes (length b) ++ b
  encode (float x) = encode_float x
  encode (uint n) = encode_header type_uint64 8 ++ to_bytes 8 n
  encode (int n) = encode_header type_int32 4 ++ to_bytes 4 (int_bits n)
  encode (bool b) = encode_header type_bool (if b then 1 else 0)
  encode (object es) = encode_header type_map (count_entries es) ++ encode_entries es
  encode (array xs) = encode_header type_array (count_items xs) ++ encode_items xs

  pub encode_items : Items → List ℕ
  encode_items empty = []
  encode_items (item x xs) = encode x ++ encode_items xs

  pub encode_entries : Entries → List ℕ
  encode_entries end = []
  encode_entries (entry k v es) =
      (encode_header type_string (length k) ++ k) ++ (encode v ++ encode_entries es)
