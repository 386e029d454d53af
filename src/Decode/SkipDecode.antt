-- ===== src/Decode/SkipDecode.antt =====
-- decode.go: `skip` beside `decode`.
use traefik_plugin_ipgeoloca.Base.{
  ℕ, zero, suc, ◌+◌, ◌/◌, ◌==◌, bit_and, Bool-cases, ◌≡◌, Result, ok, arith, inl, inr, >>=-eq-ok,
}
use traefik_plugin_ipgeoloca.Source.{Source, Error}
use traefik_plugin_ipgeoloca.Value.{Value, Items, Entries, append, put, empty, end}
use traefik_plugin_ipgeoloca.Decode.{as_key, byte_at, type_and_size, decode_pointer, type_pointer}
use traefik_plugin_ipgeoloca.Decode.Values.{
  Store, decode_map, decode_array, decode_payload, decode_value, decode_at, decode,
}
use traefik_plugin_ipgeoloca.Decode.Seek.{
  skip_map, skip_array, skip_payload, skip_value, skip_at, skip,
}

decode_pointer-next :
    (src : Source) (base ctrl off target next : ℕ)
    → decode_pointer src base ctrl off ≡ ok (target, next)
    → next ≡ off + (bit_and (ctrl / 8) 0x3 + 1)
unfolding decode_pointer
decode_pointer-next src base ctrl off target next h = ground arith

-- `skip_rec` follows `rec`.
abbrev pub Follows : (ℕ → Result Error (Value × ℕ)) → (ℕ → Result Error ℕ) → Type 0
Follows rec skip_rec =
    (off : ℕ) (v : Value) (next : ℕ) → rec off ≡ ok (v, next) → skip_rec off ≡ ok next

module _ (store : Store) (rec : ℕ → Result Error (Value × ℕ)) (skip_rec : ℕ → Result Error ℕ)
    (follows : Follows rec skip_rec) where
  skip_map-decode_map :
      (n cur : ℕ) (out : Entries) (v : Value) (next : ℕ)
      → decode_map store rec n cur out ≡ ok (v, next)
      → skip_map skip_rec n cur ≡ ok next
  unfolding decode_map skip_map
  skip_map-decode_map zero cur out v next h = cc
  skip_map-decode_map (suc n) cur out v next h =
      let ((raw, mid), e₁, h₁) = >>=-eq-ok (rec cur) _ h in
      let (key, e₂, h₂) = >>=-eq-ok (as_key cur raw) _ h₁ in
      let ((value, mid'), e₃, h₃) = >>=-eq-ok (rec mid) _ h₂ in
      rw (follows cur raw mid e₁, follows mid value mid' e₃)
        (skip_map-decode_map n mid' (store key value out) v next h₃)

  skip_array-decode_array :
      (n cur : ℕ) (out : Items) (v : Value) (next : ℕ)
      → decode_array rec n cur out ≡ ok (v, next)
      → skip_array skip_rec n cur ≡ ok next
  unfolding decode_array skip_array
  skip_array-decode_array zero cur out v next h = cc
  skip_array-decode_array (suc n) cur out v next h =
      let ((value, mid), e, h') = >>=-eq-ok (rec cur) _ h in
      rw (follows cur value mid e) (skip_array-decode_array n mid (append out value) v next h')

  module _ (src : Source) where
    skip_payload-decode_payload :
        (value_type size off : ℕ) (v : Value) (next : ℕ)
        → decode_payload src store rec value_type size off ≡ ok (v, next)
        → skip_payload skip_rec value_type size off ≡ ok next
    unfolding decode_payload skip_payload
    skip_payload-decode_payload value_type size off v next h = ground (
      arith,
      skip_map-decode_map size off end v next,
      skip_array-decode_array size off empty v next,
    )

    skip_value-decode_value :
        (base off : ℕ) (v : Value) (next : ℕ)
        → decode_value src base store rec off ≡ ok (v, next)
        → skip_value src skip_rec off ≡ ok next
    unfolding decode_value skip_value
    skip_value-decode_value base off v next h =
        let (ctrl, e, h') = >>=-eq-ok (byte_at src off) _ h in
        rw (e, skip_value)
          (elim (Bool-cases (ctrl / 32 == type_pointer)) [
            | inl pointer ↦
                let ((target, next'), e', h'') =
                  >>=-eq-ok (decode_pointer src base ctrl (off + 1)) _ (rw pointer at h') in
                rw pointer
                  (ground (arith, h'', decode_pointer-next src base ctrl (off + 1) target next' e'))
            | inr other ↦
                let ((value_type, size, off'), e', h'') =
                  >>=-eq-ok (type_and_size src ctrl (off + 1)) _ (rw other at h') in
                rw (other, e') (skip_payload-decode_payload value_type size off' v next h'')
          ])

module _ (src : Source) (base : ℕ) where
  pub skip_at-decode_at :
      (store : Store) (room : ℕ) → Follows (decode_at src base store room) (skip_at src room)
  unfolding decode_at skip_at
  skip_at-decode_at store zero off v next h = cc
  skip_at-decode_at store (suc room) off v next h =
      skip_value-decode_value store (decode_at src base store room) (skip_at src room)
        (skip_at-decode_at store room) src base off v next h

  -- Where `decode` reads a value, `skip` at the same depth succeeds with the same next offset, on
  -- any bytes, hostile ones included.
  pub skip-decode :
      (off depth : ℕ) (v : Value) (next : ℕ)
      → decode src base off depth ≡ ok (v, next)
      → skip src off depth ≡ ok next
  unfolding decode skip
  skip-decode off depth v next h = skip_at-decode_at put _ off v next h
