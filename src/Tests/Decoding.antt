-- ===== src/Tests/Decoding.antt =====
-- The decoder on small data sections.
use traefik_plugin_ipgeoloca.Base.{
  ℕ, true, ◌+◌, ◌++◌, length, arith, ◌≡◌, refl, List, [], ◌∷◌, ok, some,
}
use traefik_plugin_ipgeoloca.Base.Text.{codes}
use traefik_plugin_ipgeoloca.Base.Int.{negsuc}
use traefik_plugin_ipgeoloca.Source.{mem_source}
use traefik_plugin_ipgeoloca.Value.{
  array, item, empty, bool, int, put, object, entry, end, str, uint, Value,
}
use traefik_plugin_ipgeoloca.Decode.Values.{decode, decode_at}
use traefik_plugin_ipgeoloca.Decode.Seek.{seek, seek_at, skip}
use traefik_plugin_ipgeoloca.Decode.SkipDecode.{skip-decode}
use traefik_plugin_ipgeoloca.Decode.SeekDecode.{SeekFinds, seek_at-finds}
use traefik_plugin_ipgeoloca.Value.Distinct.{push, value_at, Distinct}
use traefik_plugin_ipgeoloca.Decode.Encode.{encode}
use traefik_plugin_ipgeoloca.Decode.Encode.Spells.{mem_source-Spells}
use traefik_plugin_ipgeoloca.Decode.Encode.Scalars.{Fits}
use traefik_plugin_ipgeoloca.Decode.Encode.RoundTrip.{decode-encode}
use traefik_plugin_ipgeoloca.Tests.Program.{decoder, reading}

-- {"a": "x", "b": {"c": 258}} behind one byte of padding
abbrev pub sample : List ℕ
sample = 0 ∷ 0xe2 ∷ 0x41 ∷ b'a' ∷ 0x41 ∷ b'x' ∷ 0x41 ∷ b'b' ∷ 0xe1 ∷ 0x41 ∷ b'c' ∷ 0xc2 ∷ 1 ∷ 2 ∷ []

decode-sample :
    decode (mem_source sample) 0 1 0
    ≡ ok (
      object (
          entry
            (codes "a")
            (str (codes "x"))
            (entry (codes "b") (object (entry (codes "c") (uint 258) end)) end)),
      14,
    )
unfolding decoder
decode-sample = refl

seek-sample : seek (mem_source sample) 0 1 (codes "b" ∷ codes "c" ∷ []) 0 ≡ ok (some 11)
unfolding decoder
seek-sample = refl

skip-sample : skip (mem_source sample) 1 0 ≡ ok 14
unfolding decoder
skip-sample = refl

abbrev sample_value : Value
sample_value = object (
    entry (codes "a") (str (codes "x"))
      (entry (codes "b") (object (entry (codes "c") (uint 258) end)) end))

abbrev distinct_sample : Distinct sample_value
unfolding decoder
distinct_sample = (refl, tt, (refl, (refl, tt, tt), tt))

pushed_sample : decode_at (mem_source sample) 0 push 65 1 ≡ ok (sample_value, 14)
unfolding decoder reading
pushed_sample = refl

skip-decode_example : skip (mem_source sample) 1 0 ≡ ok 14
skip-decode_example = skip-decode (mem_source sample) 0 1 0 sample_value 14 decode-sample

shallow_sample : decode_at (mem_source sample) 0 put 3 1 ≡ ok (sample_value, 14)
unfolding decoder reading
shallow_sample = refl

seek_at-finds_example :
    SeekFinds
      (mem_source sample)
      0
      65
      (value_at (codes "b" ∷ []) sample_value)
      (seek_at (mem_source sample) 0 65 (codes "b" ∷ []) 1)
seek_at-finds_example =
    seek_at-finds (mem_source sample) 0 65 (codes "b" ∷ []) 1 sample_value 14 pushed_sample
      distinct_sample

-- {"a": 1, "a": 2}: `decode` keeps the last binding, `seek` finds the first.
abbrev repeated : List ℕ
repeated = 0xe2 ∷ 0x41 ∷ b'a' ∷ 0xa1 ∷ 1 ∷ 0x41 ∷ b'a' ∷ 0xa1 ∷ 2 ∷ []

repeated_is_decoded :
    decode (mem_source repeated) 0 0 0 ≡ ok (object (entry (codes "a") (uint 2) end), 9)
unfolding decoder
repeated_is_decoded = refl

repeated_is_sought : seek (mem_source repeated) 0 0 (codes "a" ∷ []) 0 ≡ ok (some 3)
unfolding decoder
repeated_is_sought = refl

-- {"a": [7, true, -5], "b": "x"}, as the encoder writes it.
abbrev written : Value
written = object (
    entry (codes "a") (array (item (uint 7) (item (bool true) (item (int (negsuc 4)) empty))))
      (entry (codes "b") (str (codes "x")) end))

written-Distinct : Distinct written
unfolding decoder
written-Distinct = (refl, (tt, (tt, (tt, tt))), (refl, tt, tt))

written-Fits : Fits 64 written
written-Fits = (
  omega arith,
  (
    omega arith,
    (omega arith, (omega arith, (tt, (omega arith, tt)))),
    (omega arith, omega arith, tt),
  ),
)

decode-encode_example :
    decode (mem_source (codes "!" ++ (encode written ++ []))) 0 1 0
    ≡ ok (written, 1 + length (encode written))
decode-encode_example =
    decode-encode (mem_source (codes "!" ++ (encode written ++ []))) 0 1 written written-Distinct
      written-Fits (mem_source-Spells (codes "!") (encode written) [])
