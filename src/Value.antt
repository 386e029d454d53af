-- ===== src/Value.antt =====
-- The dynamic values that decode.go and encoding/json produce: Go's `interface{}` with the types
-- that the plugin switches on. A map is a list of entries in which a key stands once.
pub mod Distinct
pub mod Floats
use traefik_plugin_ipgeoloca.Base.{ℕ, List, Bool, Option, none, some, if◌then◌else◌}
use traefik_plugin_ipgeoloca.Base.Text.{Str, str_eq}
use traefik_plugin_ipgeoloca.Base.Int.{ℤ}

-- A float64, by the bits that it is made from: `math.Float64frombits(n)`, or a float32 widened,
-- `float64(math.Float32frombits(n))`. The code computes nothing with it but its text and orders.
pub data Float : Type 0 where
  from_bits64 : ℕ → Float
  from_bits32 : ℕ → Float

mutual
  pub data Value : Type 0 where
    nil : Value
    str : Str → Value
    bytes : List ℕ → Value
    float : Float → Value
    uint : ℕ → Value
    int : ℤ → Value
    bool : Bool → Value
    object : Entries → Value
    array : Items → Value

  pub data Items : Type 0 where
    empty : Items
    item : Value → Items → Items

  pub data Entries : Type 0 where
    end : Entries
    entry : Str → Value → Entries → Entries

-- m[k] = v
unfoldable pub put : Str → Value → Entries → Entries
put k v end = entry k v end
put k v (entry j w es) = if str_eq j k then entry k v es else entry j w (put k v es)

-- m[k]
unfoldable pub find : Str → Entries → Option Value
find k end = none
find k (entry j w es) = if str_eq j k then some w else find k es

-- append(xs, v)
unfoldable pub append : Items → Value → Items
append empty v = item v empty
append (item x xs) v = item x (append xs v)
