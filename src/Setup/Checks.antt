-- ===== src/Setup/Checks.antt =====
-- plugin.go: what `New` has checked when it returns a plugin.
use traefik_plugin_ipgeoloca.Base.{
  ◌≤◌, ◌≡◌, ◌≢◌, sym, any, true, ap, ◌∙◌, List, Option, some, false, ◌==◌, ◌&&◌, ◌⊎◌, inl, inr,
  length, Result, ok, err, >>=-eq-ok, ok_injective, arith, Option-cases, Bool-cases,
}
use mathlib.Core.Path.{subst}
use traefik_plugin_ipgeoloca.Base.Text.{Str, codes, str_eq}
use traefik_plugin_ipgeoloca.Base.Dict.{lookup}
use traefik_plugin_ipgeoloca.Base.Int.{ℤ, pos, negsuc, pos_part}
use traefik_plugin_ipgeoloca.Config.{Config}
use traefik_plugin_ipgeoloca.Rules.{compile, new_rule_set}
use traefik_plugin_ipgeoloca.Rules.Accepted.{IsAccepted, new_rule_set-IsAccepted}
use traefik_plugin_ipgeoloca.Rules.Evaluate.{required_fields}
use traefik_plugin_ipgeoloca.Fields.Catalog.{names_of}
use traefik_plugin_ipgeoloca.HeaderMap.Selection.{select_fields-total}
use traefik_plugin_ipgeoloca.HeaderMap.{build_header_map, select_fields}
use traefik_plugin_ipgeoloca.Net.{NetOps}
use traefik_plugin_ipgeoloca.ClientIp.{parse_cidrs}
use traefik_plugin_ipgeoloca.Cache.Bounds.{IsBoundedCache, new_result_cache-IsBounded}
use traefik_plugin_ipgeoloca.Setup.{
  hour, map_error, parse_duration, is_bad_status, Settings, networks_of, check_status, settings_of,
}

map_error-ok :
    {E F A : Type 0} (f : E → F) (r : Result E A) {a : A} → map_error f r ≡ ok a → r ≡ ok a
unfolding map_error
map_error-ok f (ok b) h = ap ok (ok_injective h)
map_error-ok f (err e) h = cc h

abbrev pub IsStatus : Config → Type 0
IsStatus cfg =
    (length cfg.block_redirect_url ≢ 0)
    ⊎ ((100 ≤ pos_part cfg.block_status_code) × (pos_part cfg.block_status_code ≤ 599))

module _ (net : NetOps) (parse_text : Str → Option ℤ) where
  open net use {Network}

  networks_of-ok :
      (name : Str) (values : List Str) {networks : List Network}
      → networks_of net parse_text name values ≡ ok networks
      → parse_cidrs net values ≡ some networks
  unfolding networks_of
  networks_of-ok name values h = elim (Option-cases (parse_cidrs net values)) [
    | inl bad ↦ cc (rw (networks_of, bad) at h)
    | inr (networks', parsed) ↦ parsed ∙ ap some (ok_injective (rw (networks_of, parsed) at h))
  ]

  -- What the settings are, for a configuration with its defaults.
  pub record IsSettled (cfg : Config) (s : Settings net parse_text) : Type 0 where
    pub accepted : IsAccepted cfg
    pub rules : s.rules ≡ compile cfg
    pub headers : build_header_map net cfg ≡ ok s.header_map
    pub header_fields :
        (header field : Str)
        → lookup header s.header_map ≡ some field
        → str_eq field (codes "ip") ≡ false
        → any (str_eq field) (names_of s.fields) ≡ true
    pub rule_fields :
        (field : Str)
        → any (str_eq field) (required_fields s.rules) ≡ true
        → any (str_eq field) (names_of s.fields) ≡ true
    pub allowed_ips : parse_cidrs net cfg.allowed_ips ≡ some s.allowed_ips
    pub blocked_ips : parse_cidrs net cfg.blocked_ips ≡ some s.blocked_ips
    pub trusted_proxies : parse_cidrs net cfg.trusted_proxies ≡ some s.trusted_proxies
    pub cache : IsBoundedCache s.cache
    pub status : IsStatus cfg

  status-range :
      (status : ℤ)
      → is_bad_status status ≡ false
      → (100 ≤ pos_part status) × (pos_part status ≤ 599)
  unfolding is_bad_status
  status-range (negsuc n) h = cc h
  status-range (pos n) h = (ground (arith, h), ground (arith, h))

  is_bad_status-IsStatus :
      (cfg : Config)
      → (length cfg.block_redirect_url == 0 && is_bad_status cfg.block_status_code) ≡ false
      → IsStatus cfg
  unfolding is_bad_status
  is_bad_status-IsStatus cfg h = elim (Bool-cases (length cfg.block_redirect_url == 0)) [
    | inr redirects ↦ inl (λ e. ground (arith, redirects, e))
    | inl answers ↦ inr (status-range cfg.block_status_code (rw answers at h))
  ]

  check_status-ok :
      (cfg : Config) (t s : Settings net parse_text)
      → check_status net parse_text cfg t ≡ ok s
      → (t ≡ s) × IsStatus cfg
  unfolding check_status
  check_status-ok cfg t s h =
      elim (Bool-cases
        (length cfg.block_redirect_url == 0 && is_bad_status cfg.block_status_code)) [
          | inl bad ↦ cc (rw (check_status, bad) at h)
          | inr good ↦
              (ok_injective (rw (check_status, good) at h), is_bad_status-IsStatus cfg good)
        ]

  -- The fields of the headers and of the rules are among those selected.
  abbrev HasFields : Settings net parse_text → Type 0
  HasFields s =
      ((header field : Str)
        → lookup header s.header_map ≡ some field
        → str_eq field (codes "ip") ≡ false
        → any (str_eq field) (names_of s.fields) ≡ true)
      × ((field : Str)
          → any (str_eq field) (required_fields s.rules) ≡ true
          → any (str_eq field) (names_of s.fields) ≡ true)

  selected_fields :
      (cfg : Config) (s : Settings net parse_text)
      → build_header_map net cfg ≡ ok s.header_map
      → compile cfg ≡ s.rules
      → select_fields s.header_map s.rules ≡ ok s.fields
      → HasFields s
  selected_fields cfg s headers compiled selected =
      let (defs, e, for_headers, for_rules) = select_fields-total net cfg s.header_map headers in
      let same : defs ≡ s.fields =
        ok_injective (sym e ∙ ap (select_fields s.header_map) compiled ∙ selected) in
      (
        λ header field held apart.
            subst (λ d. any (str_eq field) (names_of d) ≡ true) same
              (for_headers header field held apart),
        λ field h.
            subst (λ d. any (str_eq field) (names_of d) ≡ true) same
              (for_rules field
                (subst (λ r. any (str_eq field) (required_fields r) ≡ true) (sym compiled) h)),
      )

  pub settings_of-IsSettled :
      (cfg : Config) (s : Settings net parse_text)
      → settings_of net parse_text cfg ≡ ok s
      → IsSettled cfg s
  unfolding settings_of
  settings_of-IsSettled cfg s h =
      let (rules, e₁, h₁) = >>=-eq-ok (map_error _ (new_rule_set cfg)) _ h in
      let (header_map, e₂, h₂) = >>=-eq-ok (map_error _ (build_header_map net cfg)) _ h₁ in
      let (fields, e₃, h₃) = >>=-eq-ok (map_error _ (select_fields header_map rules)) _ h₂ in
      let (allowed, e₄, h₄) = >>=-eq-ok (networks_of net parse_text _ cfg.allowed_ips) _ h₃ in
      let (blocked, e₅, h₅) = >>=-eq-ok (networks_of net parse_text _ cfg.blocked_ips) _ h₄ in
      let (trusted, e₆, h₆) = >>=-eq-ok (networks_of net parse_text _ cfg.trusted_proxies) _ h₅ in
      let (ttl, e₇, h₇) = >>=-eq-ok (parse_duration parse_text _ cfg.cache_ttl (pos hour)) _ h₆ in
      let (e, status) = check_status-ok cfg _ s h₇ in
      let headers = map_error-ok _ (build_header_map net cfg) e₂ ∙ ap (λ t. ok t.header_map) e in
      let (accepted, compiled) =
        (new_rule_set-IsAccepted cfg s.rules).0
          (map_error-ok _ (new_rule_set cfg) e₁ ∙ ap (λ t. ok t.rules) e) in
      let selected =
        subst (λ t. select_fields t.header_map t.rules ≡ ok t.fields) e
          (map_error-ok _ (select_fields header_map rules) e₃) in
      let (for_headers, for_rules) = selected_fields cfg s headers compiled selected in
      record {
        accepted = accepted;
        rules = sym compiled;
        headers = headers;
        header_fields = for_headers;
        rule_fields = for_rules;
        allowed_ips = networks_of-ok _ cfg.allowed_ips e₄ ∙ ap (λ t. some t.allowed_ips) e;
        blocked_ips = networks_of-ok _ cfg.blocked_ips e₅ ∙ ap (λ t. some t.blocked_ips) e;
        trusted_proxies =
            networks_of-ok _ cfg.trusted_proxies e₆ ∙ ap (λ t. some t.trusted_proxies) e;
        cache =
            subst (λ t. IsBoundedCache t.cache) e (new_result_cache-IsBounded cfg.cache_size ttl);
        status = status;
      }
