-- ===== src/Provider/Api/Failing.antt =====
-- plugin.go and provider.go: requests whose lookup by the API provider fails.
use traefik_plugin_ipgeoloca.Base.{
  ◌≡◌, refl, ap, List, [], Option, none, some, true, false, arith, inl, inr,
}
use traefik_plugin_ipgeoloca.Base.Text.{Str, codes}
use traefik_plugin_ipgeoloca.Value.Floats.{FloatOps}
use traefik_plugin_ipgeoloca.Fields.{FieldDef}
use traefik_plugin_ipgeoloca.Reader.Tree.{Ip}
use traefik_plugin_ipgeoloca.Net.{NetOps, Request}
use traefik_plugin_ipgeoloca.Cache.{ResultCache, get}
use traefik_plugin_ipgeoloca.Provider.{Lookup}
use traefik_plugin_ipgeoloca.Provider.Api.{WebOps, ApiProvider, api_lookup}
use traefik_plugin_ipgeoloca.Provider.Api.Outcomes.{api_lookup-HasAnswer}
use traefik_plugin_ipgeoloca.Plugin.{
  Outcome, forwarded, Plugin, Times, set_header, strip_managed_headers, finish, resolve, decide,
  serve_ip, serve_http,
}
use traefik_plugin_ipgeoloca.Plugin.Outcomes.{is_forwarded, IsLookedUp}

module _ (net : NetOps) where
  -- What the plugin does with a request whose lookup failed, by its two options.
  abbrev pub FailsBy : Plugin net → Request → Outcome → Type 0
  FailsBy p req outcome =
      (p.fail_open ≡ true → outcome ≡ forwarded req)
      × (p.fail_open ≡ false
          → p.dry_run ≡ true
          → outcome
            ≡ forwarded (set_header net (codes "X-IPGeo-Dry-Run") (codes "lookup failed") req))
      × (p.fail_open ≡ false → p.dry_run ≡ false → is_forwarded outcome ≡ false)

  finish-FailsBy :
      (p : Plugin net) (req : Request)
      → FailsBy p req
          (finish net p req (record { allowed = p.fail_open; reason = codes "lookup failed" }))
  unfolding finish
  finish-FailsBy p req = (
    (λ opened. rw (finish, opened) refl),
    (λ shut dry. rw (finish, shut, dry) refl),
    (λ shut wet. ground (arith, shut, wet)),
  )

  module _ (web : WebOps) (api : ApiProvider) (ops : FloatOps) (defs : List FieldDef) where
    -- The provider that `ServeHTTP` asks.
    abbrev pub asked_api : Ip → Lookup Str
    asked_api ip = api_lookup web api ops (net.address_text ip) defs

    asked_api-bare :
        (ip : Ip) (e : Str) → (asked_api ip).error ≡ some e → (asked_api ip).fields ≡ []
    asked_api-bare ip e h = elim (api_lookup-HasAnswer web api ops (net.address_text ip) defs) [
      | inl (text, _, answered) ↦ ap (λ t. t.fields) answered
      | inr (inl (_, _, answered)) ↦ cc (rw answered at h)
      | inr (inr (_, _, answered)) ↦ cc (rw answered at h)
    ]

    resolve_failed :
        (cache : Option ResultCache) (times : Times) (ip : Ip) (e : Str)
        → get cache (net.address_text ip) times.at_get ≡ none
        → (asked_api ip).error ≡ some e
        → resolve net asked_api cache times ip ≡ (asked_api ip, cache)
    unfolding resolve
    resolve_failed cache times ip e missed failed = rw (resolve, missed, failed) refl

    -- A request whose address is not in the cache and whose lookup by the API provider fails,
    -- whatever the response and the rules, goes on without any header of the plugin where the
    -- plugin fails open. Where it does not, it goes on with X-IPGeo-Dry-Run as its only header of
    -- the plugin in a dry run, and does not go on otherwise. The cache stays as it is.
    pub serve_http-api_lookup :
        (p : Plugin net) (cache : Option ResultCache) (times : Times) (req : Request) (ip : Ip)
        (e : Str)
        → IsLookedUp net asked_api ops p req ip
        → get cache (net.address_text ip) times.at_get ≡ none
        → (asked_api ip).error ≡ some e
        → FailsBy p
            (strip_managed_headers net p.managed req)
            (serve_http net asked_api ops p cache times req).0
          × ((serve_http net asked_api ops p cache times req).1 ≡ cache)
    unfolding serve_http serve_ip decide
    serve_http-api_lookup p cache times req ip e (located, free, unlisted, remote) missed failed =
        let bare = asked_api-bare ip e failed in
        let resolved = resolve_failed cache times ip e missed failed in
        rw (located, free, unlisted, remote, resolved, failed, bare)
          (finish-FailsBy p (strip_managed_headers net p.managed req), refl)
