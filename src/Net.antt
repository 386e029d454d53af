-- ===== src/Net.antt =====
-- What the plugin takes from packages net and net/http: parameters of the model.
use traefik_plugin_ipgeoloca.Base.{List, [], Option, none, some, Bool}
use traefik_plugin_ipgeoloca.Base.Text.{Str}
use traefik_plugin_ipgeoloca.Base.Dict.{Dict, lookup}
use traefik_plugin_ipgeoloca.Reader.Tree.{Ip}

pub record NetOps : Type 1 where
  -- a *net.IPNet
  pub Network : Type 0
  -- net.ParseIP; none is nil
  pub parse_address : Str → Option Ip
  -- IP.String
  pub address_text : Ip → Str
  -- net.SplitHostPort: the host; none is an error
  pub split_host : Str → Option Str
  -- net.ParseCIDR; none is an error
  pub parse_network : Str → Option Network
  -- IPNet.Contains
  pub network_contains : Network → Ip → Bool
  -- IP.IsLoopback, IsLinkLocalUnicast, IsLinkLocalMulticast, IsUnspecified, IsPrivate
  pub is_loopback : Ip → Bool
  pub is_link_local_unicast : Ip → Bool
  pub is_link_local_multicast : Ip → Bool
  pub is_unspecified : Ip → Bool
  pub is_private : Ip → Bool
  -- http.CanonicalHeaderKey
  pub canonical_key : Str → Str

-- What the plugin reads and writes of an http.Request. Header names are canonical.
pub record Request : Type 0 where
  pub remote_addr : Str
  pub headers : Dict (List Str)

-- Header.Values
unfoldable pub header_values : NetOps → Request → Str → List Str
header_values net req name = elim (lookup (net.canonical_key name) req.headers) [
  | none ↦ []
  | some values ↦ values
]
