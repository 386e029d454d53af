-- ===== src/Provider/Api/Flags.antt =====
-- provider.go: what `deriveAPIFlags` adds to a payload.
use traefik_plugin_ipgeoloca.Value.{Value}
