-- ===== src/Reader/Records.antt =====
-- mmdb.go: reading a record at an offset, whole or at a path.
use traefik_plugin_ipgeoloca.Base.{
  ℕ, ◌-◌, List, Option, none, some, ltb, ◌==◌, if◌then◌else◌, Result, ok, err, ◌>>=◌,
}
use traefik_plugin_ipgeoloca.Base.Text.{Str}
use traefik_plugin_ipgeoloca.Source.{Source, Error, window_source}
use traefik_plugin_ipgeoloca.Value.{Value}
use traefik_plugin_ipgeoloca.Decode.Values.{decode}
use traefik_plugin_ipgeoloca.Decode.Seek.{seek}
use traefik_plugin_ipgeoloca.Reader.{Reader}
use traefik_plugin_ipgeoloca.Reader.Tree.{Ip, lookup_offset}

abbrev pub record_window : ℕ
record_window = 4096

-- `min(recordWindow, r.src.size() - offset)`, at least 0.
abbrev pub window_size : ℕ → ℕ → ℕ
window_size total offset =
    if ltb (total - offset) record_window then total - offset else record_window

module _ (r : Reader) where
  -- The block read up front, before the source.
  unfoldable pub with_window : ℕ → Result Error (List ℕ) → Source
  with_window offset (ok buf) = window_source offset buf r.src
  with_window offset (err e) = r.src

  unfoldable pub reader_source : ℕ → Source
  reader_source offset =
      let size = window_size r.src.size offset in
      if r.in_memory
      then r.src
      else if size == 0
      then r.src
      else with_window offset (r.src.at offset size)

  -- `lookupRecordAt`; a record that decodes is always found.
  unfoldable pub lookup_record_at : ℕ → Result Error Value
  lookup_record_at offset = do
    (value, _) ← decode (reader_source offset) r.data_base offset 0
    ok value

  -- `Value`: none is a path that the record does not have.
  unfoldable pub value : ℕ → List Str → Result Error (Option Value)
  value offset path = do
    target ← seek (reader_source offset) r.data_base offset path 0
    elim target [
      | none ↦ ok none
      | some at ↦ do (v, _) ← decode (reader_source offset) r.data_base at 0; ok (some v)
    ]

  unfoldable pub lookup_record : Option Ip → Result Error (Option Value)
  lookup_record ip = do
    offset ← lookup_offset r ip
    elim offset [ none ↦ ok none | some at ↦ do v ← lookup_record_at at; ok (some v) ]
