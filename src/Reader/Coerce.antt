-- ===== src/Reader/Coerce.antt =====
-- fields.go, the helpers used while reading database metadata.
use traefik_plugin_ipgeoloca.Base.{ℕ, ◌∷◌, [], List, none, some, if◌then◌else◌, ◌==◌, length}
use traefik_plugin_ipgeoloca.Base.Text.{Str}
use traefik_plugin_ipgeoloca.Base.Int.{pos, negsuc}
use traefik_plugin_ipgeoloca.Base.Dict.{Dict}
use traefik_plugin_ipgeoloca.Value.{
  Value, Items, Entries, Float, str, uint, int, float, object, array, empty, item, end, entry, find,
  nil,
}

unfoldable pub as_string : Value → Str
as_string (str s) = s
as_string _ = []

-- `uint_of_float x` is 0 for a negative x, and else `uint64(x)`.
unfoldable pub as_uint : (Float → ℕ) → Value → ℕ
as_uint uint_of_float (uint n) = n
as_uint uint_of_float (int (pos n)) = n
as_uint uint_of_float (int (negsuc n)) = 0
as_uint uint_of_float (float x) = uint_of_float x
as_uint uint_of_float _ = 0

unfoldable pub string_entries : Entries → Dict Str
string_entries end = []
string_entries (entry k v es) = (k, as_string v) ∷ string_entries es

unfoldable pub as_string_map : Value → Dict Str
as_string_map (object es) = string_entries es
as_string_map _ = []

unfoldable pub string_items : Items → List Str
string_items empty = []
string_items (item v xs) =
    let rest = string_items xs in let s = as_string v in if length s == 0 then rest else s ∷ rest

unfoldable pub as_string_slice : Value → List Str
as_string_slice (array xs) = string_items xs
as_string_slice _ = []

-- `m[key]`, nil where the key is missing.
unfoldable pub index : Entries → Str → Value
index es k = elim (find k es) [ none ↦ nil | some v ↦ v ]
