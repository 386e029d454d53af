-- ===== src/Plugin/Outcomes.antt =====
-- plugin.go: which requests reach the next handler.
use traefik_plugin_ipgeoloca.Base.{
  ◌≡◌, refl, ap, sym, ◌∙◌, ◌↔◌, ◌⊎◌, Option, none, some, Bool, true, false, ◌&&◌, ◌||◌, length,
  arith, inl, inr,
}
use traefik_plugin_ipgeoloca.Value.Floats.{FloatOps}
use traefik_plugin_ipgeoloca.Reader.Tree.{Ip}
use traefik_plugin_ipgeoloca.Net.{NetOps, Request}
use traefik_plugin_ipgeoloca.ClientIp.{client_ip, ip_in_nets, is_local_ip}
use traefik_plugin_ipgeoloca.Cache.{ResultCache}
use traefik_plugin_ipgeoloca.Rules.Evaluate.{Decision, evaluate}
use traefik_plugin_ipgeoloca.Rules.Permits.{Permits, evaluate_iff}
use traefik_plugin_ipgeoloca.Provider.{Lookup}
use traefik_plugin_ipgeoloca.Plugin.{
  Outcome, forwarded, redirected, blocked, Plugin, Times, strip_managed_headers, finish, resolve,
  decide, serve_ip, serve_http,
}

-- The request went on to the next handler.
abbrev pub is_forwarded : Outcome → Bool
is_forwarded (forwarded req) = true
is_forwarded (redirected url) = false
is_forwarded (blocked status body) = false

module _ (net : NetOps) where
  is_forwarded-finish :
      (p : Plugin net) (req : Request) (result : Decision)
      → is_forwarded (finish net p req result) ≡ (result.allowed || p.dry_run)
  unfolding finish
  is_forwarded-finish p req result = ground arith

  module _ {E : Type 0} (provider : Ip → Lookup E) (ops : FloatOps) (p : Plugin net) where
    decide_dry :
        (ip : Ip) (req : Request) (result : Lookup E)
        → p.dry_run ≡ true
        → is_forwarded (decide net provider ops p ip req result) ≡ true
    unfolding decide finish
    decide_dry ip req result dry = ground arith

    serve_ip_dry :
        (cache : Option ResultCache) (times : Times) (ip : Option Ip) (req : Request)
        → p.dry_run ≡ true
        → is_forwarded (serve_ip net provider ops p cache times ip req).0 ≡ true
    unfolding serve_ip finish
    serve_ip_dry cache times none req dry = ground arith
    serve_ip_dry cache times (some ip) req dry =
        ground (arith, decide_dry ip req (resolve net provider cache times ip).0 dry)

    decide-evaluate :
        (ip : Ip) (req : Request) (result : Lookup E)
        → result.error ≡ none
        → result.found ≡ true
        → p.dry_run ≡ false
        → is_forwarded (decide net provider ops p ip req result)
          ≡ (evaluate ops p.rules result.fields true).allowed
    unfolding decide finish
    decide-evaluate ip req result fine found wet = ground (arith, fine, found, wet)

    decide_failed :
        (ip : Ip) (req : Request) (result : Lookup E) (e : E)
        → result.error ≡ some e
        → length result.fields ≡ 0
        → is_forwarded (decide net provider ops p ip req result) ≡ (p.fail_open || p.dry_run)
    unfolding decide finish
    decide_failed ip req result e failed bare = ground (arith, failed, bare)

    -- In a dry run every request reaches the next handler, whatever the lists, the rules and the
    -- lookup say.
    pub serve_http-dry_run :
        (cache : Option ResultCache) (times : Times) (req : Request)
        → p.dry_run ≡ true
        → is_forwarded (serve_http net provider ops p cache times req).0 ≡ true
    unfolding serve_http
    serve_http-dry_run cache times req dry =
        serve_ip_dry cache times (client_ip net p.resolver req)
          (strip_managed_headers net p.managed req) dry

    -- The request is looked up: it has an address, which is on neither list of addresses and is not let through as a private one.
    abbrev pub IsLookedUp : Request → Ip → Type 0
    IsLookedUp req ip =
        (client_ip net p.resolver req ≡ some ip)
        × (ip_in_nets net (some ip) p.allowed_ips ≡ false)
        × (ip_in_nets net (some ip) p.blocked_ips ≡ false)
        × ((is_local_ip net (some ip) && p.allow_private) ≡ false)

    pub serve_http-decide :
        (cache : Option ResultCache) (times : Times) (req : Request) (ip : Ip)
        → IsLookedUp req ip
        → (serve_http net provider ops p cache times req).0
          ≡ decide net provider ops p ip
              (strip_managed_headers net p.managed req)
              (resolve net provider cache times ip).0
    unfolding serve_http serve_ip
    serve_http-decide cache times req ip (located, free, unlisted, remote) =
        rw (located, free, unlisted, remote) refl

    -- A request that is looked up, with an address that is found without an error, reaches the next
    -- handler exactly when every rule permits the fields of the address, where this is no dry run.
    pub serve_http-Permits :
        (cache : Option ResultCache) (times : Times) (req : Request) (ip : Ip)
        → IsLookedUp req ip
        → (resolve net provider cache times ip).0.error ≡ none
        → (resolve net provider cache times ip).0.found ≡ true
        → p.dry_run ≡ false
        → (is_forwarded (serve_http net provider ops p cache times req).0 ≡ true)
          ↔ Permits ops p.rules (resolve net provider cache times ip).0.fields
    serve_http-Permits cache times req ip looked_up fine found wet =
        let result = (resolve net provider cache times ip).0 in
        let same =
          ap is_forwarded (serve_http-decide cache times req ip looked_up)
          ∙ decide-evaluate ip (strip_managed_headers net p.managed req) result fine found wet in
        let rules = evaluate_iff ops p.rules result.fields in
        (λ h. rules.0 (sym same ∙ h), λ permits. same ∙ rules.1 permits)

    -- Where the address is unknown, or its lookup fails without giving a field, the request reaches
    -- the next handler exactly when the plugin fails open or is in a dry run.
    pub serve_http-fail_open :
        (cache : Option ResultCache) (times : Times) (req : Request)
        → (client_ip net p.resolver req ≡ none)
          ⊎ ((ip : Ip) × IsLookedUp req ip
              × ((e : E) × ((resolve net provider cache times ip).0.error ≡ some e))
              × (length (resolve net provider cache times ip).0.fields ≡ 0))
        → is_forwarded (serve_http net provider ops p cache times req).0
          ≡ (p.fail_open || p.dry_run)
    unfolding serve_http serve_ip
    serve_http-fail_open cache times req (inl unknown) = rw unknown (is_forwarded-finish p _ _)
    serve_http-fail_open cache times req (inr (ip, looked_up, (e, failed), bare)) =
        ap is_forwarded (serve_http-decide cache times req ip looked_up)
        ∙ decide_failed ip (strip_managed_headers net p.managed req)
            (resolve net provider cache times ip).0 e failed bare
