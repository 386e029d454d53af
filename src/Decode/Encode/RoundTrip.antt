-- ===== src/Decode/Encode/RoundTrip.antt =====
-- decode.go: `decode` on what an encoder writes.
use traefik_plugin_ipgeoloca.Base.{
  ℕ, zero, suc, ◌+◌, ◌≡◌, sym, ap, ◌∙◌, ◌++◌, length, length-append, ok, arith,
}
use traefik_plugin_ipgeoloca.Source.{Source}
use traefik_plugin_ipgeoloca.Value.{
  Value, Items, Entries, nil, str, bytes, float, uint, int, bool, object, array, empty, item, end,
  entry, from_bits64, from_bits32, append,
}
use traefik_plugin_ipgeoloca.Value.Distinct.{
  Distinct, push, join_entries, join_items, join_entries-end, join_items-empty, join-push,
  join-append,
}
use traefik_plugin_ipgeoloca.Decode.{as_key, type_map, type_array}
use traefik_plugin_ipgeoloca.Decode.Values.{
  decode_map, decode_array, decode_payload, decode_at, decode,
}
use traefik_plugin_ipgeoloca.Decode.Agree.{decode_at-push}
use traefik_plugin_ipgeoloca.Decode.Encode.{
  encode_header, count_items, count_entries, encode, encode_items, encode_entries,
}
use traefik_plugin_ipgeoloca.Decode.Encode.Spells.{Spells, Spells-left, Spells-right}
use traefik_plugin_ipgeoloca.Decode.Encode.Headers.{decode_value-encode_header}
use traefik_plugin_ipgeoloca.Decode.Encode.Scalars.{
  Fits, FitsItems, FitsEntries, IsRead, str-IsRead, bytes-IsRead, uint-IsRead, int-IsRead,
  double-IsRead, float-IsRead, bool-IsRead, nil-IsRead,
}

module _ (src : Source) (base : ℕ) where
  -- Every value that fits is read one level down.
  abbrev ReadsBelow : ℕ → Type 0
  ReadsBelow zero = Unit
  ReadsBelow (suc room) =
      (v : Value) (off : ℕ) → Fits room v → Spells src off (encode v) → IsRead src base room v off

  read_items :
      (room : ℕ) (xs out : Items) (off : ℕ)
      → ReadsBelow room
      → FitsItems room xs
      → Spells src off (encode_items xs)
      → decode_array (decode_at src base push room) (count_items xs) off out
        ≡ ok (array (join_items out xs), off + length (encode_items xs))
  unfolding decode_array encode decode_at
  read_items room empty out off below fits h =
      ap (λ l. ok (array l, off)) (sym (join_items-empty out))
      ∙ ap (λ n. ok (array (join_items out empty), n)) (omega arith)
  read_items zero (item x xs) out off below fits h = absurd fits
  read_items (suc room) (item x xs) out off below (fits, more) h =
      let first = below x off fits (Spells-left src off (encode x) (encode_items xs) h) in
      let rest =
        read_items (suc room) xs (append out x) (off + length (encode x)) below more
          (Spells-right src off (encode x) (encode_items xs) h) in
      rw (decode_array, first)
        (rest
          ∙ ap (λ l. ok (array l, off + length (encode x) + length (encode_items xs)))
              (join-append x out xs)
          ∙ ap (λ n. ok (array (join_items out (item x xs)), n))
              (omega (arith, length-append (encode x) (encode_items xs))))

  read_entries :
      (room : ℕ) (es out : Entries) (off : ℕ)
      → ReadsBelow room
      → FitsEntries room es
      → Spells src off (encode_entries es)
      → decode_map push (decode_at src base push room) (count_entries es) off out
        ≡ ok (object (join_entries out es), off + length (encode_entries es))
  unfolding decode_map encode decode_at as_key
  read_entries room end out off below fits h =
      ap (λ l. ok (object l, off)) (sym (join_entries-end out))
      ∙ ap (λ n. ok (object (join_entries out end), n)) (omega arith)
  read_entries zero (entry k v es) out off below fits h = absurd fits
  read_entries (suc room) (entry k v es) out off below (fits_key, fits, more) h =
      let key = encode (str k) in
      let after_key = off + length key in
      let after_value = after_key + length (encode v) in
      let tail = Spells-right src off key (encode v ++ encode_entries es) h in
      let first =
        below (str k) off fits_key (Spells-left src off key (encode v ++ encode_entries es) h) in
      let second =
        below v after_key fits (Spells-left src after_key (encode v) (encode_entries es) tail) in
      let rest =
        read_entries (suc room) es (push k v out) after_value below more
          (Spells-right src after_key (encode v) (encode_entries es) tail) in
      rw (decode_map, first, second)
        (rest
          ∙ ap (λ l. ok (object l, after_value + length (encode_entries es))) (join-push k v out es)
          ∙ ap (λ n. ok (object (join_entries out (entry k v es)), n))
              (omega (
                arith,
                length-append key (encode v ++ encode_entries es),
                length-append (encode v) (encode_entries es),
              )))

  value-IsRead :
      (room off : ℕ) (v : Value)
      → ReadsBelow room
      → Fits room v
      → Spells src off (encode v)
      → IsRead src base room v off
  unfolding encode decode_payload join_entries join_items
  value-IsRead room off nil below fits h = nil-IsRead src base room off h
  value-IsRead room off (str s) below fits h = str-IsRead src base room off s fits h
  value-IsRead room off (bytes b) below fits h = bytes-IsRead src base room off b fits h
  value-IsRead room off (float (from_bits64 x)) below fits h =
      double-IsRead src base room off x fits h
  value-IsRead room off (float (from_bits32 x)) below fits h =
      float-IsRead src base room off x fits h
  value-IsRead room off (uint x) below fits h = uint-IsRead src base room off x fits h
  value-IsRead room off (int n) below fits h = int-IsRead src base room off n fits h
  value-IsRead room off (bool b) below fits h = bool-IsRead src base room off b h
  value-IsRead room off (object es) below (sized, fits) h =
      let header = encode_header type_map (count_entries es) in
      decode_value-encode_header src base push (decode_at src base push room) type_map
        (count_entries es) off (encode_entries es) (omega arith) sized h
      ∙ read_entries room es end (off + length header) below fits
          (Spells-right src off header (encode_entries es) h)
      ∙ ap (λ n. ok (object es, n)) (omega (arith, length-append header (encode_entries es)))
  value-IsRead room off (array xs) below (sized, fits) h =
      let header = encode_header type_array (count_items xs) in
      decode_value-encode_header src base push (decode_at src base push room) type_array
        (count_items xs) off (encode_items xs) (omega arith) sized h
      ∙ read_items room xs empty (off + length header) below fits
          (Spells-right src off header (encode_items xs) h)
      ∙ ap (λ n. ok (array xs, n)) (omega (arith, length-append header (encode_items xs)))

  all-ReadsBelow : (room : ℕ) → ReadsBelow room
  all-ReadsBelow zero = tt
  all-ReadsBelow (suc room) = λ v off fits h. value-IsRead room off v (all-ReadsBelow room) fits h

  -- Whatever the source, a value that an encoder of the format has written at an offset is decoded to
  -- itself, and the offset returned is the one behind it: where no map repeats a key, sizes and
  -- numbers are in the range of the format, and nothing is nested deeper than 64 levels.
  pub decode-encode :
      (off : ℕ) (v : Value)
      → Distinct v
      → Fits 64 v
      → Spells src off (encode v)
      → decode src base off 0 ≡ ok (v, off + length (encode v))
  unfolding decode decode_at
  decode-encode off v distinct fits h =
      decode_at-push src base 65 off v (off + length (encode v))
        (value-IsRead 64 off v (all-ReadsBelow 64) fits h) distinct
