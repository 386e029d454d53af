-- ===== src/Reader/Strategies.antt =====
-- mmdb.go: reading a record through a window or not, whole or field by field.
use traefik_plugin_ipgeoloca.Base.{
  ℕ, ◌+◌, ◌≡◌, refl, sym, ◌∙◌, List, none, some, ◌==◌, Result, ok, err, Bool-cases, Option-cases,
  inl, inr,
}
use traefik_plugin_ipgeoloca.Base.Text.{Str}
use traefik_plugin_ipgeoloca.Source.{Error, mem_source}
use traefik_plugin_ipgeoloca.Source.Serves.{Serves, Serves-eq, window_source-Serves}
use traefik_plugin_ipgeoloca.Value.{Value}
use traefik_plugin_ipgeoloca.Value.Distinct.{push, Distinct, value_at}
use traefik_plugin_ipgeoloca.Decode.{max_decode_depth}
use traefik_plugin_ipgeoloca.Decode.Values.{decode_at, decode}
use traefik_plugin_ipgeoloca.Decode.Seek.{seek}
use traefik_plugin_ipgeoloca.Decode.Agree.{decode_at-push}
use traefik_plugin_ipgeoloca.Decode.SeekDecode.{seek_at-finds, value_at-Distinct}
use traefik_plugin_ipgeoloca.Reader.{Reader}
use traefik_plugin_ipgeoloca.Reader.Records.{
  window_size, with_window, reader_source, lookup_record_at, value,
}

module _ (r : Reader) (content : List ℕ) (serves : Serves r.src content) where
  with_window-Serves :
      (offset size : ℕ) (b : Result Error (List ℕ))
      → r.src.at offset size ≡ b
      → Serves (with_window r offset b) content
  unfolding with_window
  with_window-Serves offset size (ok buf) e =
      window_source-Serves content offset size serves (sym (serves.1 offset size) ∙ e)
  with_window-Serves offset size (err x) e = serves

  reader_source-Serves : (offset : ℕ) → Serves (reader_source r offset) content
  unfolding reader_source with_window
  reader_source-Serves offset =
      let size = window_size r.src.size offset in
      elim (Bool-cases r.in_memory) [
        | inl resident ↦ rw (resident, reader_source) serves
        | inr on_disk ↦ elim (Bool-cases (size == 0)) [
          | inl behind ↦ rw (on_disk, reader_source, behind) serves
          | inr window ↦
              rw (on_disk, reader_source, window)
                (with_window-Serves offset size (r.src.at offset size) refl)
        ]
      ]

  -- In a reader whose source serves the content of the file, a record at any offset is decoded as
  -- from the whole file in memory: neither the mode nor the window read up front is seen.
  pub reader_source-eq : (offset : ℕ) → reader_source r offset ≡ mem_source content
  reader_source-eq offset = Serves-eq content (reader_source-Serves offset)

-- The record at `offset` decodes to `v`, no map in it repeats a key.
pub record Holds (content : List ℕ) (base offset : ℕ) (v : Value) : Type 0 where
  pub next : ℕ
  pub decodes :
      decode_at (mem_source content) base push (max_decode_depth + 1) offset ≡ ok (v, next)
  pub distinct : Distinct v

decode-Holds :
    (content : List ℕ) (base offset : ℕ) (v : Value) (h : Holds content base offset v)
    → decode (mem_source content) base offset 0 ≡ ok (v, h.next)
unfolding decode
decode-Holds content base offset v h =
    decode_at-push (mem_source content) base (max_decode_depth + 1) offset v h.next h.decodes
      h.distinct

-- What `seek` finds, decoded again from depth 0, as `Value` does it.
seek-Holds :
    (content : List ℕ) (base offset : ℕ) (v : Value) (path : List Str) (w : Value)
    → Holds content base offset v
    → value_at path v ≡ some w
    → (target : ℕ) × (seek (mem_source content) base offset path 0 ≡ ok (some target))
      × Holds content base target w
unfolding seek
seek-Holds content base offset v path w h e =
    let (target, next, decodes, sought) = rw e at (
      seek_at-finds (mem_source content) base (max_decode_depth + 1) path offset v h.next h.decodes
        h.distinct) in
    (
      target,
      sought,
      record { next = next; decodes = decodes; distinct = value_at-Distinct path v h.distinct e },
    )

seek-none :
    (content : List ℕ) (base offset : ℕ) (v : Value) (path : List Str)
    → Holds content base offset v
    → value_at path v ≡ none
    → seek (mem_source content) base offset path 0 ≡ ok none
unfolding seek
seek-none content base offset v path h e = rw e at (
    seek_at-finds (mem_source content) base (max_decode_depth + 1) path offset v h.next h.decodes
      h.distinct)

module _ (r : Reader) (content : List ℕ) (serves : Serves r.src content) where
  -- In a reader whose source serves the content of the file, `lookupRecordAt` returns the record
  -- that the content holds at the offset, where that is a value in which no map repeats a key.
  pub lookup_record_at-Holds :
      (offset : ℕ) (v : Value)
      → Holds content r.data_base offset v
      → lookup_record_at r offset ≡ ok v
  unfolding lookup_record_at
  lookup_record_at-Holds offset v h =
      rw (reader_source-eq r content serves offset, decode-Holds content r.data_base offset v h)

  -- In a reader whose source serves the content of the file, and at an offset where the content
  -- holds a record in which no map repeats a key, `Value` answers for every path what the decoded
  -- record has there, with no error, in memory or on disk.
  pub value-Holds :
      (offset : ℕ) (path : List Str) (v : Value)
      → Holds content r.data_base offset v
      → value r offset path ≡ ok (value_at path v)
  unfolding value
  value-Holds offset path v h = elim (Option-cases (value_at path v)) [
    | inl e ↦ rw (
      reader_source-eq r content serves offset,
      value,
      e,
      seek-none content r.data_base offset v path h e,
    )
    | inr (w, e) ↦
        let (target, sought, held) = seek-Holds content r.data_base offset v path w h e in
        rw (reader_source-eq r content serves offset, value, e, sought)
          (rw (
            reader_source-eq r content serves offset,
            decode-Holds content r.data_base target w held,
          ))
  ]
