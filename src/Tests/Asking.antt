-- ===== src/Tests/Asking.antt =====
-- The API provider against a service that answers with a VPN's record.
use traefik_plugin_ipgeoloca.Base.{◌≡◌, refl, [], none, some, true, if◌then◌else◌, ok, err}
use traefik_plugin_ipgeoloca.Base.Text.{Str, codes, str_eq}
use traefik_plugin_ipgeoloca.Value.{Value, Entries, entry, end, object, str, bool, find}
use traefik_plugin_ipgeoloca.Plugin.{strip_managed_headers, serve_http}
use traefik_plugin_ipgeoloca.Plugin.Outcomes.{IsLookedUp}
use traefik_plugin_ipgeoloca.Reader.Tree.{Ip}
use traefik_plugin_ipgeoloca.Provider.{Lookup, derive_api_flags}
use traefik_plugin_ipgeoloca.Provider.Api.{WebOps, ApiProvider, first_line, api_lookup, request_url}
use traefik_plugin_ipgeoloca.Provider.Api.Failing.{FailsBy, asked_api, serve_http-api_lookup}
use traefik_plugin_ipgeoloca.Tests.Program.{locating, caching, serving, asking}
use traefik_plugin_ipgeoloca.Tests.Deciding.{float_ops}
use traefik_plugin_ipgeoloca.Tests.Locating.{net}
use traefik_plugin_ipgeoloca.Tests.Serving.{plugin, formatter, one_field, times, from_abcd}

-- {"a": "x", "security": {"proxy_type": "vpn"}}
abbrev security : Entries
security = entry (codes "proxy_type") (str (codes "vpn")) end

abbrev payload : Entries
payload = entry (codes "a") (str (codes "x")) (entry (codes "security") (object security) end)

abbrev pub web : WebOps
web = record {
  query_escape = λ s. s;
  path_escape = λ s. s;
  replace = λ pairs text. if str_eq text (codes "key") then codes "[redacted]" else text;
  url_error = λ s. none;
  encode_query = λ query. [];
  request_error = λ url. none;
  exchange = λ url. ok (record { status = 200; body = ok (codes "{}") });
  unmarshal = λ body. ok payload;
}

abbrev asked : ApiProvider
asked = record {
  endpoint = codes "e?v=3";
  api_key = codes "key";
  include = [];
  fields_arg = [];
  formatter = formatter;
}

url_has_query : request_url web asked (codes "abcd") ≡ codes "e?v=3&"
unfolding asking
url_has_query = refl

cut_at_newline : first_line (codes " denied\nkey") ≡ codes "denied"
unfolding asking
cut_at_newline = refl

-- The same service out of order, its key in the text of the error.
abbrev broken : WebOps
broken = record web { exchange = λ url. err (codes "key") }

broken_lookup :
    (api_lookup broken asked float_ops (codes "abcd") one_field).error ≡ some (codes "[redacted]")
unfolding asking
broken_lookup = refl

abbrev asked_broken : Ip → Lookup Str
asked_broken = asked_api net broken asked float_ops one_field

abcd_is_asked : IsLookedUp net asked_broken float_ops plugin from_abcd (codes "abcd")
unfolding locating serving
abcd_is_asked = (refl, refl, refl, refl)

serve_http-api_lookup_example :
    FailsBy net plugin
      (strip_managed_headers net plugin.managed from_abcd)
      (serve_http net asked_broken float_ops plugin none times from_abcd).0
    × ((serve_http net asked_broken float_ops plugin none times from_abcd).1 ≡ none)
unfolding caching
serve_http-api_lookup_example =
    serve_http-api_lookup net broken asked float_ops one_field plugin none times from_abcd
      (codes "abcd") (codes "[redacted]") abcd_is_asked refl broken_lookup

vpn_is_flagged :
    find (codes "security") (derive_api_flags payload)
    ≡ some (
        object
          (entry (codes "proxy_type") (str (codes "vpn")) (entry (codes "is_vpn") (bool true) end)))
unfolding asking
vpn_is_flagged = refl
