-- ===== src/Setup/Startup.antt =====
-- plugin.go: `New` on the configuration of `CreateConfig` with databases, and the requests that
-- the plugin it returns then serves.
use traefik_plugin_ipgeoloca.Base.{
  ℕ, ◌≡◌, ◌≢◌, refl, sym, ap, ◌∙◌, List, [], some, Option, Bool, true, false, inl, inr, length, ok,
  Result-cases,
}
use mathlib.Core.Path.{subst}
use traefik_plugin_ipgeoloca.Base.Text.{
  Str, codes, str_eq, to_lower, trim_left, trim_right, trim_space,
}
use traefik_plugin_ipgeoloca.Base.Int.{ℤ, pos, eq_ℤ}
use traefik_plugin_ipgeoloca.Base.Dict.{lookup}
use traefik_plugin_ipgeoloca.Value.{Float}
use traefik_plugin_ipgeoloca.Config.{Config, create_config, or_default, default_mode, with_defaults}
use traefik_plugin_ipgeoloca.Rules.{
  security_rules_of, add_values, upper_set, asn_set, compile, check_rules, new_rule_set,
}
use traefik_plugin_ipgeoloca.Fields.{FieldDef}
use traefik_plugin_ipgeoloca.HeaderMap.{
  minimal_fields, add_preset_headers, preset_headers, add_headers, build_header_map,
}
use traefik_plugin_ipgeoloca.HeaderMap.Selection.{select_fields-total}
use traefik_plugin_ipgeoloca.Net.{NetOps, Request}
use traefik_plugin_ipgeoloca.ClientIp.{parse_cidrs}
use traefik_plugin_ipgeoloca.Cache.{ResultCache, new_result_cache}
use traefik_plugin_ipgeoloca.Provider.Refresh.{OpenTimes, State, new_mmdb_provider}
use traefik_plugin_ipgeoloca.Provider.Refresh.Opening.{
  AllOpen, AllOpen-at, HasOpened, new_mmdb_provider-HasOpened,
}
use traefik_plugin_ipgeoloca.Provider.Api.{WebOps}
use traefik_plugin_ipgeoloca.Provider.{Lookup, picks_seek}
use traefik_plugin_ipgeoloca.Value.Floats.{FloatOps}
use traefik_plugin_ipgeoloca.Reader.Tree.{Ip}
use traefik_plugin_ipgeoloca.Rules.Evaluate.{active}
use traefik_plugin_ipgeoloca.Plugin.{Times, serve_http, managed_header_names}
use traefik_plugin_ipgeoloca.Plugin.Requests.{forged, is_managed, serve_http-forged}
use traefik_plugin_ipgeoloca.Plugin.Managed.{managed_header_names-is_managed}
use traefik_plugin_ipgeoloca.Setup.Checks.{settings_of-IsSettled}
use traefik_plugin_ipgeoloca.Setup.Returned.{new_plugin-IsConfigured}
use traefik_plugin_ipgeoloca.Setup.{
  DataSource, mmdb_source, watch_interval, plugin_of, hour, formatter_of, map_error, parse_duration,
  is_bad_status, networks_of, check_status, settings_of, Settings, Service, mmdb_source_of,
  source_of, new_service, new_plugin,
}

module _ (paths : List Str) where
  -- The least that an operator writes.
  abbrev pub minimal_config : Config
  minimal_config = record create_config { databases = paths }

  minimal_config-with_defaults :
      with_defaults (record create_config { databases = paths })
      ≡ record create_config { databases = paths }
  unfolding create_config with_defaults or_default default_mode trim_space trim_left trim_right
      to_lower eq_ℤ
  minimal_config-with_defaults = refl

  minimal_config-rules : new_rule_set minimal_config ≡ ok (compile minimal_config)
  unfolding create_config new_rule_set check_rules compile upper_set asn_set add_values
  minimal_config-rules = refl

  minimal_config-active : active (compile minimal_config) ≡ false
  unfolding create_config active compile upper_set asn_set add_values security_rules_of
  minimal_config-active = refl

  module _ (net : NetOps) where
    minimal_config-headers :
        build_header_map net minimal_config ≡ ok (add_preset_headers net minimal_fields [])
    unfolding create_config build_header_map preset_headers add_headers to_lower str_eq
    minimal_config-headers = refl

new_mmdb_provider-total :
    (uint_of_float : Float → ℕ) (in_memory : Bool) (disk : ℕ → OpenTimes)
    (cache : Option ResultCache) (paths : List Str)
    → paths ≢ []
    → AllOpen uint_of_float in_memory disk 0 paths
    → (s : State) × (new_mmdb_provider uint_of_float in_memory disk cache paths ≡ ok s)
new_mmdb_provider-total uint_of_float in_memory disk cache paths some_path can =
    elim (Result-cases (new_mmdb_provider uint_of_float in_memory disk cache paths)) [
      | inl (s, e) ↦ (s, e)
      | inr (f, e) ↦
          elim (subst (HasOpened uint_of_float in_memory disk paths) e
            (new_mmdb_provider-HasOpened uint_of_float in_memory disk cache paths)) [
              | inl (empty, _, _, _) ↦ absurd (some_path empty)
              | inr (before, path, after, e', split, _, failed, _, _, _) ↦
                  let (d, opened) =
                    AllOpen-at uint_of_float in_memory disk 0 before path after
                      (subst (AllOpen uint_of_float in_memory disk 0) split can) in
                  cc (opened, failed)
            ]
    ]

module _ (net : NetOps) (parse_text : Str → Option ℤ) (paths : List Str) where
  abbrev minimal_settings : List FieldDef → Settings net parse_text
  minimal_settings defs = record {
    rules = compile (minimal_config paths);
    header_map = add_preset_headers net minimal_fields [];
    fields = defs;
    allowed_ips = [];
    blocked_ips = [];
    trusted_proxies = [];
    cache = new_result_cache (pos 10000) (pos hour);
    formatter = formatter_of (minimal_config paths);
  }

  settings_of-minimal_config :
      parse_text (codes "1h") ≡ some (pos hour)
      → (s : Settings net parse_text) × (settings_of net parse_text (minimal_config paths) ≡ ok s)
  unfolding settings_of map_error networks_of parse_cidrs parse_duration check_status is_bad_status
      create_config trim_space trim_left trim_right str_eq
  settings_of-minimal_config one_hour =
      let (defs, selected, _, _) =
        select_fields-total net (minimal_config paths) _ (minimal_config-headers paths net) in
      (
        minimal_settings defs,
        rw
            (
              settings_of,
              minimal_config-rules paths,
              minimal_config-headers paths net,
              selected,
              one_hour,
            )
            refl,
      )

  module _ (web : WebOps) (uint_of_float : Float → ℕ) (disk : ℕ → OpenTimes) where
    minimal_source :
        (s : Settings net parse_text)
        → paths ≢ []
        → AllOpen uint_of_float true disk 0 paths
        → (source : DataSource) × (source_of net parse_text web uint_of_float disk
              (minimal_config paths)
              s
            ≡ ok source)
    unfolding source_of mmdb_source_of create_config parse_duration to_lower trim_space trim_left
        trim_right str_eq
    minimal_source s some_path can =
        let (provider, opened) =
          new_mmdb_provider-total uint_of_float true disk s.cache paths some_path can in
        (
          mmdb_source provider (picks_seek (length s.fields)) (watch_interval (pos 0)),
          rw (source_of, mmdb_source_of, opened) refl,
        )

    -- `New` returns a plugin for the configuration of `CreateConfig` with nothing added but
    -- databases, one at least, each of which opens at its turn; no rule of that plugin is active. It relies on
    -- time.ParseDuration reading "1h" as an hour.
    pub new_plugin-minimal_config :
        parse_text (codes "1h") ≡ some (pos hour)
        → paths ≢ []
        → AllOpen uint_of_float true disk 0 paths
        → (s : Service net parse_text) × (new_plugin net parse_text web uint_of_float disk
              (some (record create_config { databases = paths }))
              true
            ≡ ok s)
          × (active s.plugin.rules ≡ false)
    unfolding new_plugin new_service plugin_of
    new_plugin-minimal_config one_hour some_path can =
        let (s, settled) = settings_of-minimal_config one_hour in
        let (source, made) = minimal_source s some_path can in
        let service : Service net parse_text = record {
          plugin = plugin_of net parse_text (minimal_config paths) s;
          fields = s.fields;
          cache = s.cache;
          source = source;
        } in
        (
          service,
          ap (new_service net parse_text web uint_of_float disk)
                (minimal_config-with_defaults paths)
              ∙ rw (new_service, settled, made) refl,
          subst (λ rules. active rules ≡ false)
              (sym (settings_of-IsSettled net parse_text (minimal_config paths) s settled).rules)
              (minimal_config-active paths),
        )

module _ (net : NetOps) (parse_text : Str → Option ℤ) where
  -- Whatever a client sends under a name that the header map of a plugin that `New` returned has,
  -- the outcome and the cache are those of the request without it, from any cache that earlier
  -- requests have left, unless that name is the one forwarded addresses are read from.
  pub new_plugin-forged :
      (web : WebOps) (uint_of_float : Float → ℕ) (disk : ℕ → OpenTimes) (config : Config)
      (s : Service net parse_text)
      → new_plugin net parse_text web uint_of_float disk (some config) true ≡ ok s
      → {E : Type 0} (provider : Ip → Lookup E) (ops : FloatOps) (times : Times) (req : Request)
        (cache : Option ResultCache) (header field : Str) (lines : List Str)
      → lookup header s.plugin.header_map ≡ some field
      → str_eq (net.canonical_key header) (net.canonical_key s.plugin.resolver.header_name) ≡ false
      → serve_http net provider ops s.plugin cache times
          (forged (net.canonical_key header) lines req)
        ≡ serve_http net provider ops s.plugin cache times req
  unfolding plugin_of
  new_plugin-forged web uint_of_float disk config s made provider ops times req cache header field
        lines held apart =
      let (_, c) =
        new_plugin-IsConfigured net parse_text web uint_of_float disk config true s made in
      let managed : s.plugin.managed ≡ managed_header_names s.plugin.header_map =
        rw c.plugin refl in
      serve_http-forged net provider ops s.plugin cache times req (net.canonical_key header) lines
        (ap (λ names. is_managed net names (net.canonical_key header)) managed
          ∙ managed_header_names-is_managed net s.plugin.header_map header field held)
        apart
