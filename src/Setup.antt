-- ===== src/Setup.antt =====
-- plugin.go: `New`. Log lines and the goroutine that waits for the end of the context are left out.
pub mod Checks
pub mod Returned
pub mod Rejections
pub mod Startup
use traefik_plugin_ipgeoloca.Base.{
  ℕ, ◌*◌, ◌^◌, List, [], ◌∷◌, Option, none, some, Bool, true, false, not, ◌==◌, ◌&&◌, ◌||◌, ltb,
  if◌then◌else◌, length, Result, ok, err, ◌>>=◌,
}
use traefik_plugin_ipgeoloca.Base.Text.{Str, codes, str_eq, to_lower, trim_space}
use traefik_plugin_ipgeoloca.Base.Int.{ℤ, pos, is_negative, is_positive, pos_part}
use traefik_plugin_ipgeoloca.Base.Dict.{Dict}
use traefik_plugin_ipgeoloca.Value.{Float}
use traefik_plugin_ipgeoloca.Config.{Config, with_defaults}
use traefik_plugin_ipgeoloca.Rules.{RuleSet, RuleError, new_rule_set}
use traefik_plugin_ipgeoloca.Fields.{FieldDef, Formatter}
use traefik_plugin_ipgeoloca.HeaderMap.{HeaderError, build_header_map, select_fields}
use traefik_plugin_ipgeoloca.Net.{NetOps}
use traefik_plugin_ipgeoloca.ClientIp.{IpResolver, parse_cidrs}
use traefik_plugin_ipgeoloca.Cache.{ResultCache, new_result_cache}
use traefik_plugin_ipgeoloca.Plugin.{Plugin, managed_header_names}
use traefik_plugin_ipgeoloca.Provider.{picks_seek}
use traefik_plugin_ipgeoloca.Provider.Refresh.{
  ProviderError, OpenTimes, State, ids, new_mmdb_provider,
}
use traefik_plugin_ipgeoloca.Provider.Api.{WebOps, ApiProvider, ApiError, new_api_provider}

pub data SetupError : Type 0 where
  missing_config : SetupError
  missing_next : SetupError
  bad_rules : RuleError → SetupError
  bad_headers : HeaderError → SetupError
  bad_networks : Str → SetupError
  bad_duration : Str → Str → SetupError
  negative_duration : Str → SetupError
  bad_status : ℤ → SetupError
  mmdb_failed : ProviderError → SetupError
  api_failed : ApiError → SetupError
  unknown_mode : Str → SetupError

-- An error of `New`, and the numbers of the database handles that were opened and of those that
-- were closed before it returned.
pub record Rejection : Type 0 where
  pub error : SetupError
  pub opened : List ℕ
  pub closed : List ℕ

-- An error of code that opens no database.
abbrev pub rejected : SetupError → Rejection
rejected e = record { error = e; opened = []; closed = [] }

-- The provider: in mode mmdb whether it seeks, and the interval of `watch` where that is started;
-- in mode api the timeout of its client.
pub data DataSource : Type 0 where
  mmdb_source : State → Bool → Option ℤ → DataSource
  api_source : ApiProvider → ℤ → DataSource

abbrev pub second : ℕ
second = 10 ^ 9

abbrev pub minute : ℕ
minute = 60 * second

abbrev pub hour : ℕ
hour = 60 * minute

unfoldable pub map_error {ℓ} : {E F : Type 0} {A : Type ℓ} → (E → F) → Result E A → Result F A
map_error f (ok a) = ok a
map_error f (err e) = err (f e)

-- `parseDuration`; `parse_text` is time.ParseDuration, in nanoseconds.
unfoldable pub parse_duration : (Str → Option ℤ) → Str → Str → ℤ → Result SetupError ℤ
parse_duration parse_text name raw fallback =
    let text = trim_space raw in
    if length text == 0
    then ok fallback
    else if str_eq text (codes "0")
    then ok (pos 0)
    else elim (parse_text text) [
      | none ↦ err (bad_duration name text)
      | some d ↦ if is_negative d then err (negative_duration name) else ok d
    ]

unfoldable pub formatter_of : Config → Formatter
formatter_of cfg =
    let numeric =
      str_eq cfg.boolean_format (codes "one_zero") || str_eq cfg.boolean_format (codes "1_0") in
    record {
      language = cfg.language;
      list_separator = cfg.list_separator;
      true_value = if numeric then codes "1" else codes "true";
      false_value = if numeric then codes "0" else codes "false";
    }

-- `status < 100 || status > 599`
unfoldable pub is_bad_status : ℤ → Bool
is_bad_status status = is_negative status || ltb (pos_part status) 100 || ltb 599 (pos_part status)

-- The interval of `watch`: at least a minute, and none where refreshing is off.
unfoldable pub watch_interval : ℤ → Option ℤ
watch_interval refresh =
    if is_positive refresh
    then some (if ltb (pos_part refresh) minute then pos minute else refresh)
    else none

module _ (net : NetOps) (parse_text : Str → Option ℤ) where
  open net use {Network}

  -- What `New` has before it opens the provider.
  pub record Settings : Type 0 where
    pub rules : RuleSet
    pub header_map : Dict Str
    pub fields : List FieldDef
    pub allowed_ips : List Network
    pub blocked_ips : List Network
    pub trusted_proxies : List Network
    pub cache : Option ResultCache
    pub formatter : Formatter

  unfoldable pub networks_of : Str → List Str → Result SetupError (List Network)
  networks_of name values = elim (parse_cidrs net values) [
    | none ↦ err (bad_networks name)
    | some networks ↦ ok networks
  ]

  -- The check of the status, behind all the others.
  unfoldable pub check_status : Config → Settings → Result SetupError Settings
  check_status cfg s =
      if length cfg.block_redirect_url == 0 && is_bad_status cfg.block_status_code
      then err (bad_status cfg.block_status_code)
      else ok s

  unfoldable pub settings_of : Config → Result SetupError Settings
  settings_of cfg = do
    rules ← map_error bad_rules (new_rule_set cfg)
    header_map ← map_error bad_headers (build_header_map net cfg)
    fields ← map_error bad_headers (select_fields header_map rules)
    allowed_ips ← networks_of (codes "allowedIPs") cfg.allowed_ips
    blocked_ips ← networks_of (codes "blockedIPs") cfg.blocked_ips
    trusted_proxies ← networks_of (codes "trustedProxies") cfg.trusted_proxies
    cache_ttl ← parse_duration parse_text (codes "cacheTTL") cfg.cache_ttl (pos hour)
    check_status cfg (record {
      rules = rules;
      header_map = header_map;
      fields = fields;
      allowed_ips = allowed_ips;
      blocked_ips = blocked_ips;
      trusted_proxies = trusted_proxies;
      cache = new_result_cache cfg.cache_size cache_ttl;
      formatter = formatter_of cfg;
    })

  -- The `Plugin` that `New` fills in.
  unfoldable pub plugin_of : Config → Settings → Plugin net
  plugin_of cfg s = record {
    rules = s.rules;
    header_map = s.header_map;
    managed = managed_header_names s.header_map;
    allowed_ips = s.allowed_ips;
    blocked_ips = s.blocked_ips;
    allow_private = cfg.allow_private;
    fail_open = cfg.fail_open;
    dry_run = cfg.dry_run;
    block_status = cfg.block_status_code;
    block_message = cfg.block_message;
    block_redirect = cfg.block_redirect_url;
    resolver = record {
      trust_forwarded = cfg.trust_forwarded_header;
      header_name = cfg.forwarded_header_name;
      depth = cfg.forwarded_depth;
      trusted_proxies = s.trusted_proxies;
    };
  }

  -- What `New` returns, with the provider and the cache that the plugin then holds. In mode mmdb
  -- the cache is the one that the provider's state shows too.
  pub record Service : Type 0 where
    pub plugin : Plugin net
    pub fields : List FieldDef
    pub cache : Option ResultCache
    pub source : DataSource

  module _ (web : WebOps) (uint_of_float : Float → ℕ) (disk : ℕ → OpenTimes) where
    -- The case of mode mmdb: where the interval is not valid, the readers are left open.
    unfoldable pub mmdb_source_of : Config → Settings → Result Rejection DataSource
    mmdb_source_of cfg s =
        elim (new_mmdb_provider uint_of_float cfg.load_in_memory disk s.cache cfg.databases) [
          | err f ↦
              err (record { error = mmdb_failed f.error; opened = f.opened; closed = f.closed })
          | ok provider ↦
              elim (parse_duration parse_text (codes "refreshInterval") cfg.refresh_interval
                (pos 0)) [
                  | err e ↦ err (record {
                    error = e;
                    opened = ids provider.readers;
                    closed = provider.closed;
                  })
                  | ok refresh ↦
                      ok (
                        mmdb_source provider (picks_seek (length s.fields))
                          (watch_interval refresh))
                ]
        ]

    unfoldable pub api_source_of : Config → Settings → Result Rejection DataSource
    api_source_of cfg s =
        elim (parse_duration parse_text (codes "apiTimeout") cfg.api_timeout (pos (2 * second))) [
          | err e ↦ err (rejected e)
          | ok timeout ↦
              elim (new_api_provider web cfg.api_endpoint cfg.api_key cfg.api_include cfg.api_fields
                s.formatter) [
                  | err e ↦ err (rejected (api_failed e))
                  | ok provider ↦ ok (api_source provider timeout)
                ]
        ]

    unfoldable pub source_of : Config → Settings → Result Rejection DataSource
    source_of cfg s =
        let mode = to_lower cfg.mode in
        if str_eq mode (codes "mmdb")
        then mmdb_source_of cfg s
        else if str_eq mode (codes "api")
        then api_source_of cfg s
        else err (rejected (unknown_mode cfg.mode))

    unfoldable pub new_service : Config → Result Rejection Service
    new_service cfg = elim (settings_of cfg) [
      | err e ↦ err (rejected e)
      | ok s ↦ (do
        source ← source_of cfg s
        ok (record {
          plugin = plugin_of cfg s;
          fields = s.fields;
          cache = s.cache;
          source = source;
        }))
    ]

    -- `New`: none is a nil configuration, and `has_next` is `next != nil`.
    unfoldable pub new_plugin : Option Config → Bool → Result Rejection Service
    new_plugin none has_next = err (rejected missing_config)
    new_plugin (some config) has_next =
        if has_next then new_service (with_defaults config) else err (rejected missing_next)
