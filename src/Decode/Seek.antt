-- ===== src/Decode/Seek.antt =====
-- decode.go, `skip` and `seek`: passing over a value, and the offset of the value at a path.
use traefik_plugin_ipgeoloca.Base.{
  ℕ, zero, suc, ◌+◌, ◌-◌, ◌/◌, bit_and, List, [], ◌∷◌, Option, none, some, not, ◌==◌, ◌||◌,
  if◌then◌else◌, Result, ok, err, ◌>>=◌,
}
use traefik_plugin_ipgeoloca.Base.Text.{Str, str_eq}
use traefik_plugin_ipgeoloca.Source.{Source, Error, seek_depth_exceeded, skip_depth_exceeded}
use traefik_plugin_ipgeoloca.Value.{put, Value}
use traefik_plugin_ipgeoloca.Decode.{
  type_pointer, type_map, type_array, type_container, type_end_marker, type_bool, max_decode_depth,
  as_key, byte_at, type_and_size, decode_pointer,
}
use traefik_plugin_ipgeoloca.Decode.Values.{decode_at}

-- The loops of `skip`: `rec` skips one value, a level down.
unfoldable pub skip_map : (ℕ → Result Error ℕ) → ℕ → ℕ → Result Error ℕ
skip_map rec zero cur = ok cur
skip_map rec (suc n) cur = do cur' ← rec cur; cur'' ← rec cur'; skip_map rec n cur''

unfoldable pub skip_array : (ℕ → Result Error ℕ) → ℕ → ℕ → Result Error ℕ
skip_array rec zero cur = ok cur
skip_array rec (suc n) cur = do cur' ← rec cur; skip_array rec n cur'

unfoldable pub skip_payload : (ℕ → Result Error ℕ) → ℕ → ℕ → ℕ → Result Error ℕ
skip_payload rec value_type size off =
    if value_type == type_map
    then skip_map rec size off
    else if value_type == type_array
    then skip_array rec size off
    else if value_type == type_bool || value_type == type_container || value_type == type_end_marker
    then ok off
    else ok (off + size)

-- The loop of `seek` over the keys of a map: `found next` goes on behind the key that fits.
unfoldable pub seek_map :
    (ℕ → Result Error (Value × ℕ))
    → (ℕ → Result Error ℕ)
    → (ℕ → Result Error (Option ℕ))
    → Str
    → ℕ
    → ℕ
    → Result Error (Option ℕ)
seek_map rec skip_rec found name zero cur = ok none
seek_map rec skip_rec found name (suc n) cur = do
  (raw_key, next) ← rec cur
  key ← as_key cur raw_key
  if str_eq key name
      then found next
      else (do cur' ← skip_rec next; seek_map rec skip_rec found name n cur')

module _ (src : Source) where
  unfoldable pub skip_value : (ℕ → Result Error ℕ) → ℕ → Result Error ℕ
  skip_value rec off = do
    ctrl ← byte_at src off
    if ctrl / 32 == type_pointer then ok (off + 1 + bit_and (ctrl / 8) 0x3 + 1) else (do
      (value_type, size, off') ← type_and_size src ctrl (off + 1)
      skip_payload rec value_type size off')

  unfoldable pub skip_at : ℕ → ℕ → Result Error ℕ
  skip_at zero off = err skip_depth_exceeded
  skip_at (suc room) off = skip_value (skip_at room) off

  unfoldable pub skip : ℕ → ℕ → Result Error ℕ
  skip off depth = skip_at (max_decode_depth + 1 - depth) off

  module _ (base : ℕ) where
    -- One level of `seek` for the path `name ∷ path`; `again` is `seek` a level down.
    unfoldable pub seek_value :
        (ℕ → Result Error (Value × ℕ))
        → (ℕ → Result Error ℕ)
        → (List Str → ℕ → Result Error (Option ℕ))
        → Str
        → List Str
        → ℕ
        → Result Error (Option ℕ)
    seek_value rec skip_rec again name path off = do
      ctrl ← byte_at src off
      if ctrl / 32 == type_pointer
          then (do (target, _) ← decode_pointer src base ctrl (off + 1); again (name ∷ path) target)
          else (do
            (value_type, size, off') ← type_and_size src ctrl (off + 1)
            if not (value_type == type_map)
                then ok none
                else seek_map rec skip_rec (again path) name size off')

    unfoldable pub seek_at : ℕ → List Str → ℕ → Result Error (Option ℕ)
    seek_at zero path off = err seek_depth_exceeded
    seek_at (suc room) [] off = ok (some off)
    seek_at (suc room) (name ∷ path) off =
        seek_value (decode_at src base put room) (skip_at room) (seek_at room) name path off

    unfoldable pub seek : ℕ → List Str → ℕ → Result Error (Option ℕ)
    seek off path depth = seek_at (max_decode_depth + 1 - depth) path off
