-- ===== src/Decode/Depth.antt =====
-- decode.go: decoding with more room for the depth.
use traefik_plugin_ipgeoloca.Base.{
  ℕ, zero, suc, ◌+◌, ◌-◌, ◌/◌, ◌==◌, ◌≤◌, ◌≡◌, Result, ok, arith, Bool-cases, inl, inr, >>=-eq-ok,
}
use traefik_plugin_ipgeoloca.Source.{Source, Error}
use traefik_plugin_ipgeoloca.Value.{Value, Items, Entries, append, empty, end}
use traefik_plugin_ipgeoloca.Decode.{as_key, byte_at, type_and_size, decode_pointer, type_pointer}
use traefik_plugin_ipgeoloca.Decode.Values.{
  Store, decode_map, decode_array, decode_payload, decode_value, decode_at,
}

-- `dec` reads what `rec` reads.
abbrev pub Extends : (ℕ → Result Error (Value × ℕ)) → (ℕ → Result Error (Value × ℕ)) → Type 0
Extends rec dec = (off : ℕ) (v : Value) (next : ℕ) → rec off ≡ ok (v, next) → dec off ≡ ok (v, next)

module _ (store : Store) (rec dec : ℕ → Result Error (Value × ℕ)) (extends : Extends rec dec) where
  decode_map_mono :
      (n cur : ℕ) (out : Entries) (v : Value) (next : ℕ)
      → decode_map store rec n cur out ≡ ok (v, next)
      → decode_map store dec n cur out ≡ ok (v, next)
  unfolding decode_map
  decode_map_mono zero cur out v next h = h
  decode_map_mono (suc n) cur out v next h =
      let ((raw, mid), e₁, h₁) = >>=-eq-ok (rec cur) _ h in
      let (key, e₂, h₂) = >>=-eq-ok (as_key cur raw) _ h₁ in
      let ((value, mid'), e₃, h₃) = >>=-eq-ok (rec mid) _ h₂ in
      rw (extends cur raw mid e₁, e₂, extends mid value mid' e₃)
        (decode_map_mono n mid' (store key value out) v next h₃)

  decode_array_mono :
      (n cur : ℕ) (out : Items) (v : Value) (next : ℕ)
      → decode_array rec n cur out ≡ ok (v, next)
      → decode_array dec n cur out ≡ ok (v, next)
  unfolding decode_array
  decode_array_mono zero cur out v next h = h
  decode_array_mono (suc n) cur out v next h =
      let ((value, mid), e, h') = >>=-eq-ok (rec cur) _ h in
      rw (extends cur value mid e) (decode_array_mono n mid (append out value) v next h')

  module _ (src : Source) where
    decode_payload_mono :
        (value_type size off : ℕ) (v : Value) (next : ℕ)
        → decode_payload src store rec value_type size off ≡ ok (v, next)
        → decode_payload src store dec value_type size off ≡ ok (v, next)
    unfolding decode_payload
    decode_payload_mono value_type size off v next h =
        ground (arith, decode_map_mono size off end v next, decode_array_mono size off empty v next)

    decode_value_mono :
        (base off : ℕ) (v : Value) (next : ℕ)
        → decode_value src base store rec off ≡ ok (v, next)
        → decode_value src base store dec off ≡ ok (v, next)
    unfolding decode_value
    decode_value_mono base off v next h =
        let (ctrl, e, h') = >>=-eq-ok (byte_at src off) _ h in
        rw e (elim (Bool-cases (ctrl / 32 == type_pointer)) [
          | inl pointer ↦
              let ((target, next'), e₁, h₁) =
                >>=-eq-ok (decode_pointer src base ctrl (off + 1)) _ (rw pointer at h') in
              let ((value, rest), e₂, h₂) = >>=-eq-ok (rec target) _ h₁ in
              rw (pointer, e₁, extends target value rest e₂) h₂
          | inr other ↦
              let ((value_type, size, off'), e₁, h₁) =
                >>=-eq-ok (type_and_size src ctrl (off + 1)) _ (rw other at h') in
              rw (other, e₁) (decode_payload_mono value_type size off' v next h₁)
        ])

module _ (src : Source) (base : ℕ) (store : Store) where
  pub decode_at-suc :
      (room : ℕ) → Extends (decode_at src base store room) (decode_at src base store (suc room))
  unfolding decode_at
  decode_at-suc zero off v next h = cc
  decode_at-suc (suc room) off v next h =
      decode_value_mono store _ _ (decode_at-suc room) src base off v next h

  decode_at-add :
      (k room : ℕ) → Extends (decode_at src base store room) (decode_at src base store (k + room))
  decode_at-add zero room off v next h = let e : zero + room ≡ room = omega arith in rw e h
  decode_at-add (suc k) room off v next h =
      let e : suc k + room ≡ suc (k + room) = omega arith in
      rw e (decode_at-suc (k + room) off v next (decode_at-add k room off v next h))

  -- What is read with little room for the depth is read with more, to the same value and offset.
  pub decode_at_mono :
      (room room' off : ℕ) (v : Value) (next : ℕ)
      → room ≤ room'
      → decode_at src base store room off ≡ ok (v, next)
      → decode_at src base store room' off ≡ ok (v, next)
  decode_at_mono room room' off v next le h =
      let e : room' ≡ (room' - room) + room = omega arith in
      rw e (decode_at-add (room' - room) room off v next h)
