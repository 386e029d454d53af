-- ===== src/Value/Floats.antt =====
-- What the plugin does with float64 values: parameters of the model, from the Go runtime.
use traefik_plugin_ipgeoloca.Base.{Bool, Option}
use traefik_plugin_ipgeoloca.Base.Text.{Str}
use traefik_plugin_ipgeoloca.Base.Int.{ℤ}
use traefik_plugin_ipgeoloca.Value.{Float}

pub record FloatOps : Type 0 where
  -- strconv.FormatFloat(v, 'f', -1, 64)
  pub format_float : Float → Str
  -- strconv.ParseFloat(s, 64); none is an error
  pub parse_float : Str → Option Float
  -- v > float64(n)
  pub above : Float → ℤ → Bool
