-- ===== src/Decode/SeekDecode.antt =====
-- decode.go: `seek` beside `decode`.
use traefik_plugin_ipgeoloca.Base.{
  ℕ, zero, suc, ◌+◌, ◌/◌, ◌==◌, ◌≡◌, refl, ap, ◌∙◌, List, [], ◌∷◌, Option, none, some, true, false,
  not, if◌then◌else◌, Result, ok, arith, Bool-cases, Option-cases, ◌⊎◌, inl, inr, >>=-eq-ok,
}
use mathlib.Core.Path.{subst}
use traefik_plugin_ipgeoloca.Base.Text.{Str, str_eq, str_eq_iff}
use traefik_plugin_ipgeoloca.Source.{Source, Error}
use traefik_plugin_ipgeoloca.Value.{Value, Entries, object, put, empty, end, entry, find}
use traefik_plugin_ipgeoloca.Value.Distinct.{
  push, Distinct, DistinctEntries, value_at, join_entries, join-push, find-join_none,
  find-entry_self, find-push_ne, find-Distinct,
}
use traefik_plugin_ipgeoloca.Decode.{
  as_key, byte_at, type_and_size, decode_pointer, type_pointer, type_map,
}
use traefik_plugin_ipgeoloca.Decode.Values.{decode_map, decode_payload, decode_value, decode_at}
use traefik_plugin_ipgeoloca.Decode.Seek.{seek_map, seek_value, seek_at, skip_at}
use traefik_plugin_ipgeoloca.Decode.Agree.{
  AgreesOnDistinct, decode_map_extends, decode_array_extends, as_key_distinct, decode_at-push,
}
use traefik_plugin_ipgeoloca.Decode.SkipDecode.{Follows, skip_at-decode_at}
use traefik_plugin_ipgeoloca.Decode.Depth.{decode_at-suc}

-- What the loop of `seek` does on a map with the entries `es`: it goes on at the value of the key,
-- or it reports that there is none.
abbrev LoopFinds :
    (ℕ → Result Error (Value × ℕ))
    → (ℕ → Result Error (Option ℕ))
    → Entries
    → Str
    → Result Error (Option ℕ)
    → Type 0
LoopFinds rec found es name r =
    ((find name es ≡ none) × (r ≡ ok none))
    ⊎ ((w : Value) × (find name es ≡ some w)
        × ((at next : ℕ) × (rec at ≡ ok (w, next)) × (r ≡ found at)))

module _ (rec dec : ℕ → Result Error (Value × ℕ)) (skip_rec : ℕ → Result Error ℕ)
    (agrees : AgreesOnDistinct rec dec) (follows : Follows rec skip_rec)
    (found : ℕ → Result Error (Option ℕ)) (name : Str) where
  seek_map-finds :
      (n cur : ℕ) (out es : Entries) (next : ℕ)
      → decode_map push rec n cur out ≡ ok (object es, next)
      → DistinctEntries es
      → find name out ≡ none
      → LoopFinds rec found es name (seek_map dec skip_rec found name n cur)
  unfolding decode_map seek_map
  seek_map-finds zero cur out es next h d new = let e : out ≡ es = cc h in inl (rw (← e) new, refl)
  seek_map-finds (suc n) cur out es next h d new =
      let ((raw, mid), e₁, h₁) = >>=-eq-ok (rec cur) _ h in
      let (key, e₂, h₂) = >>=-eq-ok (as_key cur raw) _ h₁ in
      let ((value, mid'), e₃, h₃) = >>=-eq-ok (rec mid) _ h₂ in
      let key_read = agrees cur raw mid e₁ (as_key_distinct cur raw key e₂) in
      elim (Bool-cases (str_eq key name)) [
        | inl same ↦
            let (more, e) =
              decode_map_extends rec n mid' (push key value out) (object es) next h₃ in
            let k : key ≡ name = (str_eq_iff key name).0 same in
            let e' : es ≡ join_entries out (entry key value more) =
              cc (e, join-push key value out more) in
            inr (
              value,
              ap (find name) e'
                  ∙ find-join_none name out (entry key value more) new
                  ∙ rw k (find-entry_self name value more),
              (mid, mid', e₃, rw (key_read, e₂, same)),
            )
        | inr other ↦
            rw (key_read, e₂, other, follows mid value mid' e₃)
              (seek_map-finds n mid' (push key value out) es next h₃ d
                (find-push_ne name key value out other new))
      ]

module _ (src : Source) (rec : ℕ → Result Error (Value × ℕ)) where
  decode_payload-map :
      (value_type size off : ℕ)
      → (value_type == type_map) ≡ true
      → decode_payload src push rec value_type size off ≡ decode_map push rec size off end
  unfolding decode_payload
  decode_payload-map value_type size off h = ground arith

  decode_payload_no_map :
      (value_type size off : ℕ) (v : Value) (next : ℕ) (name : Str) (path : List Str)
      → (value_type == type_map) ≡ false
      → decode_payload src push rec value_type size off ≡ ok (v, next)
      → value_at (name ∷ path) v ≡ none
  unfolding decode_payload value_at
  decode_payload_no_map value_type size off v next name path other h =
      ground (arith, decode_array_extends rec size off empty v next)

pub value_at-Distinct :
    (path : List Str) (v : Value) {w : Value} → Distinct v → value_at path v ≡ some w → Distinct w
unfolding value_at
value_at-Distinct [] v {w} d h = let e : v ≡ w = cc h in subst Distinct e d
value_at-Distinct (k ∷ path) (object es) d h = elim (Option-cases (find k es)) [
  | inl absent ↦ cc (rw (absent, value_at) at h)
  | inr (v, present) ↦
      value_at-Distinct path v (find-Distinct k es d present) (rw (present, value_at) at h)
]
value_at-Distinct (k ∷ path) _ d h = cc

find-end : (name : Str) → find name end ≡ none
unfolding find
find-end name = refl

module _ (src : Source) (base : ℕ) where
  -- The outcome of `seek` for a path that leads to `o` in the decoded record.
  abbrev pub SeekFinds : ℕ → Option Value → Result Error (Option ℕ) → Type 0
  SeekFinds room none r = r ≡ ok none
  SeekFinds room (some w) r =
      (target next : ℕ) × (decode_at src base push room target ≡ ok (w, next))
      × (r ≡ ok (some target))

  SeekFinds-suc :
      (room : ℕ) (o : Option Value) (r : Result Error (Option ℕ))
      → SeekFinds room o r
      → SeekFinds (suc room) o r
  SeekFinds-suc room none r h = h
  SeekFinds-suc room (some w) r (target, next, e, h) =
      (target, next, decode_at-suc src base push room target w next e, h)

  module _ (room : ℕ) (name : Str) (path : List Str)
      (again : (p : List Str) (o : ℕ) (w : Value) (n : ℕ)
        → decode_at src base push room o ≡ ok (w, n)
        → Distinct w
        → SeekFinds room (value_at p w) (seek_at src base room p o)) where
    seek_loop-finds :
        (es : Entries) (r : Result Error (Option ℕ))
        → DistinctEntries es
        → LoopFinds (decode_at src base push room) (seek_at src base room path) es name r
        → SeekFinds room (value_at (name ∷ path) (object es)) r
    unfolding value_at
    seek_loop-finds es r d (inl (absent, h)) = rw (absent, value_at) h
    seek_loop-finds es r d (inr (w, present, (at, next, e, h))) =
        rw (present, value_at, h) (again path at w next e (find-Distinct name es d present))

    seek_payload-finds :
        (value_type size off : ℕ) (v : Value) (next : ℕ)
        → decode_payload src push (decode_at src base push room) value_type size off ≡ ok (v, next)
        → Distinct v
        → SeekFinds room (value_at (name ∷ path) v) (
            if not (value_type == type_map)
            then ok none
            else seek_map
                (decode_at src base put room)
                (skip_at src room)
                (seek_at src base room path)
                name
                size
                off)
    seek_payload-finds value_type size off v next h d = elim (Bool-cases (value_type == type_map)) [
      | inl is_map ↦
          let h' = rw (decode_payload-map src _ value_type size off is_map) at h in
          let (es, e) = decode_map_extends _ size off end v next h' in
          rw (is_map, e)
            (seek_loop-finds _ _ (rw e at d) (
              seek_map-finds _ _ _ (decode_at-push src base room)
                (skip_at-decode_at src base push room) (seek_at src base room path) name size off
                end _ next (rw e at h') (rw e at d) (find-end name)))
      | inr other ↦
          rw (other, decode_payload_no_map src _ value_type size off v next name path other h)
    ]

  -- One level: `again` is right for the rest of the path.
  seek_value-finds :
      (room : ℕ) (name : Str) (path : List Str) (off : ℕ) (v : Value) (next : ℕ)
      → ((p : List Str) (o : ℕ) (w : Value) (n : ℕ)
          → decode_at src base push room o ≡ ok (w, n)
          → Distinct w
          → SeekFinds room (value_at p w) (seek_at src base room p o))
      → decode_value src base push (decode_at src base push room) off ≡ ok (v, next)
      → Distinct v
      → SeekFinds room (value_at (name ∷ path) v) (
          seek_value src base
            (decode_at src base put room)
            (skip_at src room)
            (seek_at src base room)
            name
            path
            off)
  unfolding decode_value seek_value
  seek_value-finds room name path off v next again h d =
      let (ctrl, e, h') = >>=-eq-ok (byte_at src off) _ h in
      rw (e, seek_value)
        (elim (Bool-cases (ctrl / 32 == type_pointer)) [
          | inl pointer ↦
              let ((target, next'), e₁, h₁) =
                >>=-eq-ok (decode_pointer src base ctrl (off + 1)) _ (rw pointer at h') in
              let ((value, rest), e₂, h₂) = >>=-eq-ok (decode_at src base push room target) _ h₁ in
              let same : value ≡ v = cc h₂ in
              rw (pointer, e₁)
                (again (name ∷ path) target v rest (e₂ ∙ ap (λ (u : Value). ok (u, rest)) same) d)
          | inr other ↦
              let ((value_type, size, off'), e₁, h₁) =
                >>=-eq-ok (type_and_size src ctrl (off + 1)) _ (rw other at h') in
              rw (other, e₁)
                (seek_payload-finds room name path again value_type size off' v next h₁ d)
        ])

  -- `seek` on a record that `decode` can read with the same room, in which no map repeats a key:
  -- for every path it finds an offset at which the value that the path has in the decoded record
  -- can be decoded, and reports absent exactly what that record lacks.
  pub seek_at-finds :
      (room : ℕ) (path : List Str) (off : ℕ) (v : Value) (next : ℕ)
      → decode_at src base push room off ≡ ok (v, next)
      → Distinct v
      → SeekFinds room (value_at path v) (seek_at src base room path off)
  unfolding decode_at seek_at value_at
  seek_at-finds zero path off v next h d = cc
  seek_at-finds (suc room) [] off v next h d = (off, next, h, refl)
  seek_at-finds (suc room) (name ∷ path) off v next h d =
      SeekFinds-suc room _ _ (seek_value-finds room name path off v next (seek_at-finds room) h d)
