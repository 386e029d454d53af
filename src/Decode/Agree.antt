-- ===== src/Decode/Agree.antt =====
-- decode.go: `decode` on records in which no map repeats a key.
use traefik_plugin_ipgeoloca.Base.{
  ℕ, zero, suc, ◌+◌, ◌/◌, ◌==◌, ◌≡◌, ap, ◌∙◌, Result, ok, arith, Bool-cases, inl, inr, >>=-eq-ok,
}
use traefik_plugin_ipgeoloca.Base.Text.{Str}
use traefik_plugin_ipgeoloca.Source.{Source, Error}
use traefik_plugin_ipgeoloca.Value.{
  Value, Items, Entries, object, array, append, put, empty, end, str, entry, item,
}
use traefik_plugin_ipgeoloca.Value.Distinct.{
  push, Distinct, DistinctEntries, DistinctItems, join_entries, join_items, join_entries-end,
  join_items-empty, join-push, join-append, put-push, middle_entry, middle_item,
}
use traefik_plugin_ipgeoloca.Decode.{as_key, byte_at, type_and_size, decode_pointer, type_pointer}
use traefik_plugin_ipgeoloca.Decode.Values.{
  decode_map, decode_array, decode_payload, decode_value, decode_at,
}

-- What is decoded so far is a part of the result.
module _ (rec : ℕ → Result Error (Value × ℕ)) where
  pub decode_map_extends :
      (n cur : ℕ) (out : Entries) (v : Value) (next : ℕ)
      → decode_map push rec n cur out ≡ ok (v, next)
      → (more : Entries) × (v ≡ object (join_entries out more))
  unfolding decode_map
  decode_map_extends zero cur out v next h = (end, rw join_entries-end (cc))
  decode_map_extends (suc n) cur out v next h =
      let ((raw, mid), e₁, h₁) = >>=-eq-ok (rec cur) _ h in
      let (key, e₂, h₂) = >>=-eq-ok (as_key cur raw) _ h₁ in
      let ((value, mid'), e₃, h₃) = >>=-eq-ok (rec mid) _ h₂ in
      let (more, e) = decode_map_extends n mid' (push key value out) v next h₃ in
      (entry key value more, e ∙ ap object (join-push key value out more))

  pub decode_array_extends :
      (n cur : ℕ) (out : Items) (v : Value) (next : ℕ)
      → decode_array rec n cur out ≡ ok (v, next)
      → (more : Items) × (v ≡ array (join_items out more))
  unfolding decode_array
  decode_array_extends zero cur out v next h = (empty, rw join_items-empty (cc))
  decode_array_extends (suc n) cur out v next h =
      let ((value, mid), e, h') = >>=-eq-ok (rec cur) _ h in
      let (more, e') = decode_array_extends n mid (append out value) v next h' in
      (item value more, e' ∙ ap array (join-append value out more))

pub as_key_distinct : (cur : ℕ) (v : Value) (key : Str) → as_key cur v ≡ ok key → Distinct v
unfolding as_key
as_key_distinct cur (str s) key h = tt
as_key_distinct cur _ key h = cc

-- `dec` reads the distinct values that `rec` reads.
abbrev pub AgreesOnDistinct :
    (ℕ → Result Error (Value × ℕ)) → (ℕ → Result Error (Value × ℕ)) → Type 0
AgreesOnDistinct rec dec =
    (off : ℕ) (v : Value) (next : ℕ) → rec off ≡ ok (v, next) → Distinct v → dec off ≡ ok (v, next)

module _ (rec dec : ℕ → Result Error (Value × ℕ)) (agrees : AgreesOnDistinct rec dec) where
  decode_map_agrees :
      (n cur : ℕ) (out : Entries) (v : Value) (next : ℕ)
      → decode_map push rec n cur out ≡ ok (v, next)
      → Distinct v
      → decode_map put dec n cur out ≡ ok (v, next)
  unfolding decode_map
  decode_map_agrees zero cur out v next h d = h
  decode_map_agrees (suc n) cur out v next h d =
      let ((raw, mid), e₁, h₁) = >>=-eq-ok (rec cur) _ h in
      let (key, e₂, h₂) = >>=-eq-ok (as_key cur raw) _ h₁ in
      let ((value, mid'), e₃, h₃) = >>=-eq-ok (rec mid) _ h₂ in
      let (more, e) = decode_map_extends rec n mid' (push key value out) v next h₃ in
      let d' : DistinctEntries (join_entries (push key value out) more) = rw e at d in
      let (new, dv) = middle_entry out more key value (rw join-push at d') in
      rw
        (
          agrees cur raw mid e₁ (as_key_distinct cur raw key e₂),
          e₂,
          agrees mid value mid' e₃ dv,
          put-push key value out new,
        )
        (decode_map_agrees n mid' (push key value out) v next h₃ d)

  decode_array_agrees :
      (n cur : ℕ) (out : Items) (v : Value) (next : ℕ)
      → decode_array rec n cur out ≡ ok (v, next)
      → Distinct v
      → decode_array dec n cur out ≡ ok (v, next)
  unfolding decode_array
  decode_array_agrees zero cur out v next h d = h
  decode_array_agrees (suc n) cur out v next h d =
      let ((value, mid), e, h') = >>=-eq-ok (rec cur) _ h in
      let (more, e') = decode_array_extends rec n mid (append out value) v next h' in
      let d' : DistinctItems (join_items (append out value) more) = rw e' at d in
      rw (agrees cur value mid e (middle_item out more value (rw join-append at d')))
        (decode_array_agrees n mid (append out value) v next h' d)

  module _ (src : Source) where
    decode_payload_agrees :
        (value_type size off : ℕ) (v : Value) (next : ℕ)
        → decode_payload src push rec value_type size off ≡ ok (v, next)
        → Distinct v
        → decode_payload src put dec value_type size off ≡ ok (v, next)
    unfolding decode_payload
    decode_payload_agrees value_type size off v next h d =
        ground
          (arith, decode_map_agrees size off end v next, decode_array_agrees size off empty v next)

    decode_value_agrees :
        (base off : ℕ) (v : Value) (next : ℕ)
        → decode_value src base push rec off ≡ ok (v, next)
        → Distinct v
        → decode_value src base put dec off ≡ ok (v, next)
    unfolding decode_value
    decode_value_agrees base off v next h d =
        let (ctrl, e, h') = >>=-eq-ok (byte_at src off) _ h in
        rw e (elim (Bool-cases (ctrl / 32 == type_pointer)) [
          | inl pointer ↦
              let ((target, next'), e₁, h₁) =
                >>=-eq-ok (decode_pointer src base ctrl (off + 1)) _ (rw pointer at h') in
              let ((value, rest), e₂, h₂) = >>=-eq-ok (rec target) _ h₁ in
              let same : value ≡ v = cc h₂ in
              rw (pointer, e₁, agrees target value rest e₂ (rw same d)) h₂
          | inr other ↦
              let ((value_type, size, off'), e₁, h₁) =
                >>=-eq-ok (type_and_size src ctrl (off + 1)) _ (rw other at h') in
              rw (other, e₁) (decode_payload_agrees value_type size off' v next h₁ d)
        ])

-- A record in which no map repeats a key is decoded to itself: where the bindings in the order of
-- the file are the value read, and no key repeats in them, the map that Go builds is that value.
pub decode_at-push :
    (src : Source) (base room off : ℕ) (v : Value) (next : ℕ)
    → decode_at src base push room off ≡ ok (v, next)
    → Distinct v
    → decode_at src base put room off ≡ ok (v, next)
unfolding decode_at
decode_at-push src base zero off v next h d = cc
decode_at-push src base (suc room) off v next h d =
    decode_value_agrees _ _ (decode_at-push src base room) src base off v next h d
