-- ===== src/Plugin.antt =====
-- plugin.go: `ServeHTTP` and what it calls. Log lines are left out; the cache is passed along.
pub mod Requests
pub mod Headers
pub mod Managed
pub mod Outcomes
pub mod Delivery
pub mod Resolution
use traefik_plugin_ipgeoloca.Base.{
  ℕ, List, [], ◌∷◌, ◌++◌, Option, none, some, Bool, true, false, ◌==◌, ◌&&◌, if◌then◌else◌, length,
}
use traefik_plugin_ipgeoloca.Base.Text.{Str, codes, str_eq}
use traefik_plugin_ipgeoloca.Base.Int.{ℤ}
use traefik_plugin_ipgeoloca.Base.Dict.{Dict, insert, erase, text_at, keys}
use traefik_plugin_ipgeoloca.Value.Floats.{FloatOps}
use traefik_plugin_ipgeoloca.Reader.Tree.{Ip}
use traefik_plugin_ipgeoloca.Net.{NetOps, Request}
use traefik_plugin_ipgeoloca.ClientIp.{IpResolver, client_ip, ip_in_nets, is_local_ip}
use traefik_plugin_ipgeoloca.Cache.{CacheEntry, ResultCache, get, put}
use traefik_plugin_ipgeoloca.Rules.{RuleSet}
use traefik_plugin_ipgeoloca.Rules.Evaluate.{Decision, evaluate}
use traefik_plugin_ipgeoloca.Base.Sorting.{sort_names}
use traefik_plugin_ipgeoloca.Provider.{Lookup}

-- What becomes of a request: it goes on to the next handler, or an answer is written.
pub data Outcome : Type 0 where
  forwarded : Request → Outcome
  redirected : Str → Outcome
  blocked : ℤ → Str → Outcome

-- The two readings of the clock: by `get` and by `put`.
pub record Times : Type 0 where
  pub at_get : ℕ
  pub at_put : ℕ

unfoldable pub managed_header_names : Dict Str → List Str
managed_header_names header_map = sort_names (keys header_map ++ (codes "X-IPGeo-Dry-Run" ∷ []))

module _ (net : NetOps) where
  open net use {Network}

  -- `Plugin`, without the next handler, the log, and the cache and the provider.
  pub record Plugin : Type 0 where
    pub rules : RuleSet
    pub header_map : Dict Str
    pub managed : List Str
    pub allowed_ips : List Network
    pub blocked_ips : List Network
    pub allow_private : Bool
    pub fail_open : Bool
    pub dry_run : Bool
    pub block_status : ℤ
    pub block_message : Str
    pub block_redirect : Str
    pub resolver : IpResolver net

  -- req.Header.Set
  unfoldable pub set_header : Str → Str → Request → Request
  set_header name value req = record req {
    headers = insert (net.canonical_key name) (value ∷ []) req.headers;
  }

  -- req.Header.Del
  unfoldable pub delete_header : Str → Request → Request
  delete_header name req = record req { headers = erase (net.canonical_key name) req.headers }

  unfoldable pub strip_managed_headers : List Str → Request → Request
  strip_managed_headers [] req = req
  strip_managed_headers (header ∷ managed) req =
      strip_managed_headers managed (delete_header header req)

  abbrev pub header_value : Ip → Dict Str → Str → Str
  header_value ip fields field =
      if str_eq field (codes "ip") then net.address_text ip else text_at fields field

  -- `applyHeaders`, over the entries of the header map; their order does not matter to the code.
  unfoldable pub apply_headers : Dict Str → Ip → Dict Str → Request → Request
  apply_headers [] ip fields req = req
  apply_headers ((header, field) ∷ header_map) ip fields req =
      let value = header_value ip fields field in
      if length value == 0
      then apply_headers header_map ip fields req
      else apply_headers header_map ip fields (set_header header value req)

  abbrev block_body : Str → Str
  block_body message = if length message == 0 then [] else message ++ codes "\n"

  unfoldable pub finish : Plugin → Request → Decision → Outcome
  finish p req result =
      if result.allowed
      then forwarded req
      else if p.dry_run
      then forwarded (set_header (codes "X-IPGeo-Dry-Run") result.reason req)
      else if length p.block_redirect == 0
      then blocked p.block_status (block_body p.block_message)
      else redirected p.block_redirect

  module _ {E : Type 0} (provider : Ip → Lookup E) where
    -- `resolve`, and the cache behind it; the lookup of a provider is asked for the plugin's fields.
    unfoldable pub resolve : Option ResultCache → Times → Ip → Lookup E × Option ResultCache
    resolve cache times ip =
        let key = net.address_text ip in
        elim (get cache key times.at_get) [
          | some e ↦ (record { fields = e.fields; found = e.found; error = none }, cache)
          | none ↦
              let result = provider ip in
              (
                result,
                elim result.error [
                  | none ↦ put cache key result.fields result.found times.at_put
                  | some e ↦ cache
                ],
              )
        ]

    module _ (ops : FloatOps) (p : Plugin) where
      -- `ServeHTTP` behind the lookup.
      unfoldable pub decide : Ip → Request → Lookup E → Outcome
      decide ip req result =
          let applied = apply_headers p.header_map ip result.fields req in
          let served = finish p applied (evaluate ops p.rules result.fields result.found) in
          elim result.error [
            | none ↦ served
            | some e ↦
                if length result.fields == 0
                then finish p req (record { allowed = p.fail_open; reason = codes "lookup failed" })
                else served
          ]

      -- `ServeHTTP` behind `clientIP` and `stripManagedHeaders`.
      unfoldable pub serve_ip :
          Option ResultCache → Times → Option Ip → Request → Outcome × Option ResultCache
      serve_ip cache times none req = (
        finish p req (record { allowed = p.fail_open; reason = codes "client IP is unknown" }),
        cache,
      )
      serve_ip cache times (some ip) req =
          if ip_in_nets net (some ip) p.allowed_ips
          then (forwarded req, cache)
          else if ip_in_nets net (some ip) p.blocked_ips
          then (
            finish p req (record { allowed = false; reason = codes "address is in blockedIPs" }),
            cache,
          )
          else if is_local_ip net (some ip) && p.allow_private
          then (forwarded req, cache)
          else (let (result, cache') = resolve cache times ip in (decide ip req result, cache'))

      unfoldable pub serve_http :
          Option ResultCache → Times → Request → Outcome × Option ResultCache
      serve_http cache times req =
          serve_ip cache times (client_ip net p.resolver req) (strip_managed_headers p.managed req)
