-- ===== src/Tests/Starting.antt =====
-- `New` on small configurations.
use traefik_plugin_ipgeoloca.Base.{
  ◌==◌, Bool, Result, ◌≡◌, ◌≢◌, refl, List, [], ◌∷◌, Option, none, some, true, false, if◌then◌else◌,
  ◌⊎◌, any, ok, err,
}
use traefik_plugin_ipgeoloca.Base.Text.{Str, codes, str_eq, to_lower, upper_byte, lower_byte}
use traefik_plugin_ipgeoloca.Base.Int.{ℤ, pos}
use traefik_plugin_ipgeoloca.Base.Dict.{Dict, lookup}
use traefik_plugin_ipgeoloca.Config.{Config, default_api_endpoint, create_config, with_defaults}
use traefik_plugin_ipgeoloca.Fields.{FieldDef, field_def, kind_string}
use traefik_plugin_ipgeoloca.Fields.Catalog.{names_of}
use traefik_plugin_ipgeoloca.Rules.{compile}
use traefik_plugin_ipgeoloca.Rules.Evaluate.{required_fields, active}
use traefik_plugin_ipgeoloca.HeaderMap.{HeaderError, build_header_map, select_fields}
use traefik_plugin_ipgeoloca.Net.{NetOps}
use traefik_plugin_ipgeoloca.Plugin.Headers.{IsUnambiguous}
use traefik_plugin_ipgeoloca.HeaderMap.Canonical.{IsIdempotent, build_header_map-IsUnambiguous}
use traefik_plugin_ipgeoloca.HeaderMap.Selection.{select_fields-total}
use traefik_plugin_ipgeoloca.Cache.{ResultCache, new_result_cache}
use traefik_plugin_ipgeoloca.Plugin.{serve_http}
use traefik_plugin_ipgeoloca.Plugin.Requests.{forged}
use traefik_plugin_ipgeoloca.Provider.Refresh.Opening.{AllOpen}
use traefik_plugin_ipgeoloca.Setup.{
  Service, Settings, Rejection, api_source, bad_duration, hour, formatter_of, plugin_of, new_plugin,
}
use traefik_plugin_ipgeoloca.Setup.Returned.{IsConfigured, new_plugin-IsConfigured}
use traefik_plugin_ipgeoloca.Setup.Rejections.{left_open, LeavesReaders, new_plugin-left_open}
use traefik_plugin_ipgeoloca.Setup.Startup.{new_plugin-minimal_config, new_plugin-forged}
use traefik_plugin_ipgeoloca.Tests.Program.{
  decoder, reading, refreshing, deciding, starting, asking,
}
use traefik_plugin_ipgeoloca.Tests.Database.{truncated}
use traefik_plugin_ipgeoloca.Tests.Deciding.{float_ops}
use traefik_plugin_ipgeoloca.Tests.Locating.{net}
use traefik_plugin_ipgeoloca.Tests.Refreshing.{at_start, two_paths, database}
use traefik_plugin_ipgeoloca.Tests.Serving.{provider, times, from_abcd}
use traefik_plugin_ipgeoloca.Tests.Asking.{web}

abbrev only_hours : Str → Option ℤ
only_hours text = if str_eq text (codes "1h") then some (pos hour) else none

two_paths-AllOpen : AllOpen truncated true at_start 0 two_paths
unfolding decoder reading refreshing
two_paths-AllOpen = ((database (codes "a") 1, refl), ((database (codes "b") 1, refl), tt))

two_paths_some : two_paths ≢ []
two_paths_some e = cc e

one_hour : only_hours (codes "1h") ≡ some (pos hour)
unfolding asking
one_hour = refl

abbrev two_databases : Config
two_databases = record create_config { databases = two_paths }

new_plugin-minimal_config_example :
    (s : Service net only_hours) × (new_plugin net only_hours web truncated at_start
        (some two_databases)
        true
      ≡ ok s)
    × (active s.plugin.rules ≡ false)
new_plugin-minimal_config_example =
    new_plugin-minimal_config net only_hours two_paths web truncated at_start one_hour
      two_paths_some two_paths-AllOpen

-- One header, and the rule on VPNs.
abbrev one_header : Config
one_header = record two_databases {
  header_preset = codes "none";
  headers = (codes "X-City", codes "city_name") ∷ [];
  block_vpn = true;
}

one_header_built : build_header_map net one_header ≡ ok ((codes "X-City", codes "city_name") ∷ [])
unfolding deciding starting
one_header_built = refl

select_fields-total_example :
    (defs : List FieldDef) × (select_fields
        ((codes "X-City", codes "city_name") ∷ [])
        (compile one_header)
      ≡ ok defs)
    × ((header field : Str)
        → lookup header ((codes "X-City", codes "city_name") ∷ []) ≡ some field
        → str_eq field (codes "ip") ≡ false
        → any (str_eq field) (names_of defs) ≡ true)
    × ((field : Str)
        → any (str_eq field) (required_fields (compile one_header)) ≡ true
        → any (str_eq field) (names_of defs) ≡ true)
select_fields-total_example =
    select_fields-total net one_header ((codes "X-City", codes "city_name") ∷ []) one_header_built

-- In mode api, with a rule that nothing needs.
abbrev asking_config : Config
asking_config = record one_header {
  mode = codes "API";
  api_key = codes "key";
  api_timeout = codes "1h";
  block_vpn = false;
}

abbrev city_name : FieldDef
city_name =
    field_def (codes "city_name") kind_string
      (codes "location.city.name"
        ∷ codes "city.name"
        ∷ codes "location.city"
        ∷ codes "city"
        ∷ codes "city_name"
        ∷ [])
      ([])

abbrev asking_settings : Settings net only_hours
asking_settings = record {
  rules = compile asking_config;
  header_map = (codes "X-City", codes "city_name") ∷ [];
  fields = city_name ∷ [];
  allowed_ips = [];
  blocked_ips = [];
  trusted_proxies = [];
  cache = new_result_cache (pos 10000) (pos hour);
  formatter = formatter_of asking_config;
}

abbrev asking_service : Service net only_hours
asking_service = record {
  plugin = plugin_of net only_hours asking_config asking_settings;
  fields = city_name ∷ [];
  cache = asking_settings.cache;
  source =
      api_source
        (record {
          endpoint = default_api_endpoint;
          api_key = codes "key";
          include = [];
          fields_arg = [];
          formatter = formatter_of asking_config;
        })
        (pos hour);
}

asking_starts :
    new_plugin net only_hours web truncated at_start (some asking_config) true ≡ ok asking_service
unfolding deciding starting asking
asking_starts = refl

new_plugin-IsConfigured_example :
    (true ≡ true)
    × IsConfigured net only_hours web truncated at_start
        (with_defaults asking_config)
        asking_service
new_plugin-IsConfigured_example =
    new_plugin-IsConfigured net only_hours web truncated at_start asking_config true asking_service
      asking_starts

city_is_sent : lookup (codes "X-City") asking_service.plugin.header_map ≡ some (codes "city_name")
unfolding deciding starting
city_is_sent = refl

city_is_not_forwarded : str_eq (codes "X-City") asking_service.plugin.resolver.header_name ≡ false
unfolding deciding starting
city_is_not_forwarded = refl

-- The cache that an earlier request left.
abbrev used_cache : Option ResultCache
used_cache =
    (serve_http net provider float_ops asking_service.plugin asking_service.cache times from_abcd).1

new_plugin-forged_example :
    serve_http net provider float_ops asking_service.plugin used_cache times
      (forged (codes "X-City") (codes "Oslo" ∷ []) from_abcd)
    ≡ serve_http net provider float_ops asking_service.plugin used_cache times from_abcd
new_plugin-forged_example =
    new_plugin-forged net only_hours web truncated at_start asking_config asking_service
      asking_starts provider float_ops times from_abcd used_cache (codes "X-City")
      (codes "city_name") (codes "Oslo" ∷ []) city_is_sent city_is_not_forwarded

-- Both databases open, and the interval is not a duration.
abbrev leaking_config : Config
leaking_config = record two_databases {
  header_preset = codes "none";
  refresh_interval = codes "daily";
}

abbrev leak : Rejection
leak = record {
  error = bad_duration (codes "refreshInterval") (codes "daily");
  opened = 0 ∷ 1 ∷ [];
  closed = [];
}

leaking_fails :
    new_plugin net only_hours web truncated at_start (some leaking_config) true ≡ err leak
unfolding deciding starting asking decoder reading refreshing
leaking_fails = refl

new_plugin-left_open_example :
    (left_open leak ≡ [])
    ⊎ LeavesReaders net only_hours web truncated at_start (with_defaults leaking_config) leak
new_plugin-left_open_example =
    new_plugin-left_open net only_hours web truncated at_start leaking_config true leak
      leaking_fails

idempotent : IsIdempotent net
idempotent s = refl

preset_is_none : str_eq (to_lower one_header.header_preset) (codes "full") ≡ false
unfolding asking
preset_is_none = refl

build_header_map-IsUnambiguous_example :
    IsUnambiguous net ((codes "X-City", codes "city_name") ∷ [])
build_header_map-IsUnambiguous_example =
    build_header_map-IsUnambiguous net idempotent one_header
      ((codes "X-City", codes "city_name") ∷ []) preset_is_none one_header_built

-- Upper case at the start and behind each dash, lower case elsewhere.
abbrev words : Bool → Str → Str
words at_start [] = []
words at_start (c ∷ s) = (if at_start then upper_byte c else lower_byte c) ∷ words (c == b'-') s

abbrev spelled_net : NetOps
spelled_net = record net { canonical_key = words true }

-- The preset "full", with an empty mapping for one of its headers.
abbrev without : Str → Config
without header = record two_databases { header_preset = codes "full"; headers = (header, []) ∷ [] }

abbrev left_of : Str → Result HeaderError (Dict Str) → Option Str
left_of header (err e) = none
left_of header (ok m) = lookup header m

-- The address stays in the map, where other headers are removed.
address_is_kept :
    left_of (codes "X-IPGeo-IP") (build_header_map spelled_net (without (codes "X-IPGeo-IP")))
    ≡ some (codes "ip")
unfolding deciding starting asking
address_is_kept = refl

city_is_removed :
    left_of
      (codes "X-Ipgeo-City-Name")
      (build_header_map spelled_net (without (codes "X-IPGeo-City-Name")))
    ≡ none
unfolding deciding starting asking
city_is_removed = refl
