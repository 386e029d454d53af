-- ===== src/Setup/Returned.antt =====
-- plugin.go: the plugin that `New` returns.
use traefik_plugin_ipgeoloca.Base.{
  ◌*◌, ℕ, ◌≤◌, ◌≡◌, ◌≢◌, refl, sym, ap, Option, none, some, Bool, true, false, ◌==◌, inl, inr, ltb,
  if◌then◌else◌, length, ok, >>=-eq-ok, ok_injective, arith, Option-cases, Bool-cases, Result-cases,
}
use mathlib.Core.Path.{subst}
use traefik_plugin_ipgeoloca.Base.Text.{Str, codes, str_eq, to_lower}
use traefik_plugin_ipgeoloca.Base.Int.{ℤ, pos, negsuc, pos_part}
use traefik_plugin_ipgeoloca.Value.{Float}
use traefik_plugin_ipgeoloca.Config.{Config, with_defaults, default_api_endpoint}
use traefik_plugin_ipgeoloca.Fields.{Formatter}
use traefik_plugin_ipgeoloca.Net.{NetOps}
use traefik_plugin_ipgeoloca.Provider.Refresh.{OpenTimes, paths_of, new_mmdb_provider}
use traefik_plugin_ipgeoloca.Provider.Refresh.Opening.{HasOpened, new_mmdb_provider-HasOpened}
use traefik_plugin_ipgeoloca.Provider.Api.{WebOps, ApiProvider, new_api_provider}
use traefik_plugin_ipgeoloca.Setup.Checks.{IsSettled, settings_of-IsSettled}
use traefik_plugin_ipgeoloca.Setup.{
  DataSource, mmdb_source, api_source, minute, second, parse_duration, watch_interval, Settings,
  settings_of, plugin_of, Service, mmdb_source_of, api_source_of, source_of, new_service,
  new_plugin,
}

new_api_provider-key :
    (web : WebOps) (endpoint api_key include fields : Str) (f : Formatter) {provider : ApiProvider}
    → new_api_provider web endpoint api_key include fields f ≡ ok provider
    → (provider.api_key ≡ api_key) × (length api_key ≢ 0)
unfolding new_api_provider
new_api_provider-key web endpoint api_key include fields f h =
    let url = if length endpoint == 0 then default_api_endpoint else endpoint in
    elim (Bool-cases (length api_key == 0)) [
      | inl missing ↦ cc (rw (new_api_provider, missing) at h)
      | inr present ↦ elim (Option-cases (web.url_error url)) [
        | inr (e, bad) ↦ cc (rw (new_api_provider, present, bad) at h)
        | inl good ↦ (
          ap (λ t. t.api_key) (sym (ok_injective (rw (new_api_provider, present, good) at h))),
          λ e. ground (arith, present, e),
        )
      ]
    ]

-- Off, or a minute at least.
abbrev pub IsInterval : Option ℤ → Type 0
IsInterval none = Unit
IsInterval (some interval) = minute ≤ pos_part interval

watch_interval-IsInterval : (refresh : ℤ) → IsInterval (watch_interval refresh)
unfolding watch_interval
watch_interval-IsInterval (negsuc n) = tt
watch_interval-IsInterval (pos n) = elim (Bool-cases (ltb 0 n)) [
  | inr never ↦ rw (watch_interval, never) tt
  | inl often ↦ elim (Bool-cases (ltb n minute)) [
    | inl too_often ↦ rw (watch_interval, often, too_often) (omega arith)
    | inr slow ↦ rw (watch_interval, often, slow) (ground (arith, slow))
  ]
]

-- The provider fits the configuration.
abbrev pub IsSource : Config → DataSource → Type 0
IsSource cfg (mmdb_source provider seek_only interval) =
    (str_eq (to_lower cfg.mode) (codes "mmdb") ≡ true)
    × (paths_of provider.readers ≡ cfg.databases)
    × IsInterval interval
IsSource cfg (api_source provider timeout) =
    (str_eq (to_lower cfg.mode) (codes "api") ≡ true)
    × (provider.api_key ≡ cfg.api_key)
    × (length cfg.api_key ≢ 0)

module _ (net : NetOps) (parse_text : Str → Option ℤ) where
  module _ (web : WebOps) (uint_of_float : Float → ℕ) (disk : ℕ → OpenTimes) where
    mmdb_source_of-IsSource :
        (cfg : Config) (s : Settings net parse_text) {source : DataSource}
        → str_eq (to_lower cfg.mode) (codes "mmdb") ≡ true
        → mmdb_source_of net parse_text web uint_of_float disk cfg s ≡ ok source
        → IsSource cfg source
    unfolding mmdb_source_of
    mmdb_source_of-IsSource cfg s mode h =
        let opening =
          new_mmdb_provider uint_of_float cfg.load_in_memory disk s.cache cfg.databases in
        let interval =
          parse_duration parse_text (codes "refreshInterval") cfg.refresh_interval (pos 0) in
        elim (Result-cases opening) [
          | inr (f, failed) ↦ cc (rw (mmdb_source_of, failed) at h)
          | inl (provider, opened) ↦ elim (Result-cases interval) [
            | inr (e, bad) ↦ cc (rw (mmdb_source_of, opened, bad) at h)
            | inl (refresh, good) ↦
                let e = ok_injective (rw (mmdb_source_of, opened, good) at h) in
                let (listed, _, _, _, _) =
                  subst (HasOpened uint_of_float cfg.load_in_memory disk cfg.databases) opened (
                    new_mmdb_provider-HasOpened uint_of_float cfg.load_in_memory disk s.cache
                      cfg.databases) in
                subst (IsSource cfg) e (mode, listed, watch_interval-IsInterval refresh)
          ]
        ]

    api_source_of-IsSource :
        (cfg : Config) (s : Settings net parse_text) {source : DataSource}
        → str_eq (to_lower cfg.mode) (codes "api") ≡ true
        → api_source_of net parse_text web uint_of_float disk cfg s ≡ ok source
        → IsSource cfg source
    unfolding api_source_of
    api_source_of-IsSource cfg s mode h =
        let limit =
          parse_duration parse_text (codes "apiTimeout") cfg.api_timeout (pos (2 * second)) in
        let made =
          new_api_provider web cfg.api_endpoint cfg.api_key cfg.api_include cfg.api_fields
            s.formatter in
        elim (Result-cases limit) [
          | inr (e, bad) ↦ cc (rw (api_source_of, bad) at h)
          | inl (timeout, good) ↦ elim (Result-cases made) [
            | inr (e, failed) ↦ cc (rw (api_source_of, good, failed) at h)
            | inl (provider, e') ↦
                let e = ok_injective (rw (api_source_of, good, e') at h) in
                let (keyed, present) =
                  new_api_provider-key web cfg.api_endpoint cfg.api_key cfg.api_include
                    cfg.api_fields s.formatter e' in
                subst (IsSource cfg) e (mode, keyed, present)
          ]
        ]

    source_of-IsSource :
        (cfg : Config) (s : Settings net parse_text) {source : DataSource}
        → source_of net parse_text web uint_of_float disk cfg s ≡ ok source
        → IsSource cfg source
    unfolding source_of
    source_of-IsSource cfg s h = elim (Bool-cases (str_eq (to_lower cfg.mode) (codes "mmdb"))) [
      | inl mode ↦ mmdb_source_of-IsSource cfg s mode (rw (source_of, mode) at h)
      | inr a ↦ elim (Bool-cases (str_eq (to_lower cfg.mode) (codes "api"))) [
        | inl mode ↦ api_source_of-IsSource cfg s mode (rw (source_of, a, mode) at h)
        | inr b ↦ cc (rw (source_of, a, b) at h)
      ]
    ]

    -- What a plugin that `New` returned has.
    pub record IsConfigured (cfg : Config) (s : Service net parse_text) : Type 0 where
      pub settings : Settings net parse_text
      pub settled : IsSettled net parse_text cfg settings
      pub plugin : s.plugin ≡ plugin_of net parse_text cfg settings
      pub fields : s.fields ≡ settings.fields
      pub cache : s.cache ≡ settings.cache
      pub source : IsSource cfg s.source

    new_service-IsConfigured :
        (cfg : Config) {s : Service net parse_text}
        → new_service net parse_text web uint_of_float disk cfg ≡ ok s
        → IsConfigured cfg s
    unfolding new_service
    new_service-IsConfigured cfg h = elim (Result-cases (settings_of net parse_text cfg)) [
      | inr (e, failed) ↦ cc (rw (new_service, failed) at h)
      | inl (settings, settled) ↦
          let (source, e₁, h₁) =
            >>=-eq-ok (source_of net parse_text web uint_of_float disk cfg settings) _
              (rw (new_service, settled) at h) in
          let e = ok_injective h₁ in
          record {
            settings = settings;
            settled = settings_of-IsSettled net parse_text cfg settings settled;
            plugin = ap (λ t. t.plugin) (sym e);
            fields = ap (λ t. t.fields) (sym e);
            cache = ap (λ t. t.cache) (sym e);
            source = subst (λ t. IsSource cfg t.source) e (source_of-IsSource cfg settings e₁);
          }
    ]

    -- When `New` returns a plugin for a configuration, then, with the defaults filled in, no allow
    -- list with a code stands beside a block list of its kind with one, country codes are two bytes
    -- long, and the rules are the compiled configuration; the header map is the built one, and each
    -- field that it names, "ip" aside, or that the rules need is selected; the address lists are
    -- parsed, the cache is bounded, and the status for a blocked request is from 100 to 599 unless
    -- it is redirected. The provider is that of the mode: the databases of the configuration in its
    -- order, watched no more than once a minute, or the API with a key that is not empty.
    pub new_plugin-IsConfigured :
        (config : Config) (has_next : Bool) (s : Service net parse_text)
        → new_plugin net parse_text web uint_of_float disk (some config) has_next ≡ ok s
        → (has_next ≡ true) × IsConfigured (with_defaults config) s
    unfolding new_plugin
    new_plugin-IsConfigured config true s h =
        (refl, new_service-IsConfigured (with_defaults config) h)
    new_plugin-IsConfigured config false s h = cc h
