-- ===== src/Plugin/Delivery.antt =====
-- plugin.go: the headers of the requests that `ServeHTTP` forwards.
use traefik_plugin_ipgeoloca.Base.{
  ◌≡◌, ◌≢◌, refl, sym, ◌∙◌, ◌⊎◌, List, [], ◌∷◌, Option, none, some, true, false, ◌==◌, length, inl,
  inr, arith, Bool-cases, Option-cases,
}
use mathlib.Core.Path.{subst}
use traefik_plugin_ipgeoloca.Base.Text.{Str, codes, str_eq}
use traefik_plugin_ipgeoloca.Base.Dict.{lookup, lookup-insert}
use traefik_plugin_ipgeoloca.Value.Floats.{FloatOps}
use traefik_plugin_ipgeoloca.Reader.Tree.{Ip}
use traefik_plugin_ipgeoloca.Net.{NetOps, Request}
use traefik_plugin_ipgeoloca.Cache.{ResultCache}
use traefik_plugin_ipgeoloca.Rules.Evaluate.{Decision, evaluate}
use traefik_plugin_ipgeoloca.Provider.{Lookup}
use traefik_plugin_ipgeoloca.Plugin.{
  Outcome, forwarded, redirected, blocked, Plugin, Times, set_header, strip_managed_headers,
  apply_headers, finish, resolve, decide, serve_http,
}
use traefik_plugin_ipgeoloca.Plugin.Headers.{IsUnambiguous, header_lines, apply_headers-owned}
use traefik_plugin_ipgeoloca.Plugin.Outcomes.{IsLookedUp, serve_http-decide}
use traefik_plugin_ipgeoloca.Plugin.Requests.{is_managed}

-- What a forwarded request has under a name; other outcomes are of no matter.
abbrev pub Delivers : Str → Option (List Str) → Outcome → Type 0
Delivers name lines (forwarded req) = lookup name req.headers ≡ lines
Delivers name lines (redirected url) = Unit
Delivers name lines (blocked status body) = Unit

module _ (net : NetOps) where
  -- A dry run does not write this header.
  abbrev pub IsApart : Plugin net → Str → Type 0
  IsApart p header =
      (p.dry_run ≡ false)
      ⊎ (str_eq (net.canonical_key (codes "X-IPGeo-Dry-Run")) (net.canonical_key header) ≡ false)

  set_header_other :
      (name header value : Str) (req : Request)
      → str_eq (net.canonical_key name) (net.canonical_key header) ≡ false
      → lookup (net.canonical_key header) (set_header net name value req).headers
        ≡ lookup (net.canonical_key header) req.headers
  unfolding set_header
  set_header_other name header value req apart =
      lookup-insert (net.canonical_key name) (net.canonical_key header) (value ∷ []) req.headers
      ∙ rw apart refl

  finish-Delivers :
      (p : Plugin net) (header : Str) (lines : Option (List Str)) (req : Request)
      (result : Decision)
      → IsApart p header
      → lookup (net.canonical_key header) req.headers ≡ lines
      → Delivers (net.canonical_key header) lines (finish net p req result)
  unfolding finish
  finish-Delivers p header lines req result apart h = elim (Bool-cases result.allowed) [
    | inl allowed ↦ rw (finish, allowed) h
    | inr denied ↦ elim (Bool-cases p.dry_run) [
      | inl dry ↦
          let other : str_eq (net.canonical_key (codes "X-IPGeo-Dry-Run"))
                (net.canonical_key header)
              ≡ false =
            elim apart [ inl wet ↦ cc (wet, dry) | inr other ↦ other ] in
          rw (finish, denied, dry) (set_header_other _ header result.reason req other ∙ h)
      | inr wet ↦ elim (Bool-cases (length p.block_redirect == 0)) [
        | inl answers ↦ rw (finish, denied, wet, answers) tt
        | inr redirects ↦ rw (finish, denied, wet, redirects) tt
      ]
    ]
  ]

  module _ {E : Type 0} (provider : Ip → Lookup E) (ops : FloatOps) (p : Plugin net) where
    -- The lookup did not fail, or gave fields all the same.
    abbrev pub IsAnswered : Lookup E → Type 0
    IsAnswered result = (result.error ≡ none) ⊎ (length result.fields ≢ 0)

    decide_answered :
        (ip : Ip) (req : Request) (result : Lookup E)
        → IsAnswered result
        → decide net provider ops p ip req result
          ≡ finish net p
              (apply_headers net p.header_map ip result.fields req)
              (evaluate ops p.rules result.fields result.found)
    unfolding decide
    decide_answered ip req result (inl fine) = rw (decide, fine) refl
    decide_answered ip req result (inr filled) = elim (Option-cases result.error) [
      | inl fine ↦ rw (decide, fine) refl
      | inr (e, failed) ↦
          let some_field : (length result.fields == 0) ≡ false = ground (arith, filled) in
          rw (decide, failed, some_field) refl
    ]

    -- When `ServeHTTP` forwards a request that is looked up and answered, the next handler sees
    -- each header of the configuration with the value of its field and no other line, and without
    -- one where the field has no value, whatever the client sent under that name. The headers that
    -- are stripped are those of the configuration, of which no two have one name; in a dry run the
    -- header is not X-IPGeo-Dry-Run.
    pub serve_http-owned :
        (cache : Option ResultCache) (times : Times) (req : Request) (ip : Ip) (header field : Str)
        → IsLookedUp net provider ops p req ip
        → IsAnswered (resolve net provider cache times ip).0
        → IsUnambiguous net p.header_map
        → lookup header p.header_map ≡ some field
        → is_managed net p.managed (net.canonical_key header) ≡ true
        → IsApart p header
        → Delivers
            (net.canonical_key header)
            (header_lines net ip (resolve net provider cache times ip).0.fields field)
            (serve_http net provider ops p cache times req).0
    serve_http-owned cache times req ip header field looked_up answered u held owned apart =
        let result = (resolve net provider cache times ip).0 in
        let stripped = strip_managed_headers net p.managed req in
        let served =
          serve_http-decide net provider ops p cache times req ip looked_up
          ∙ decide_answered ip stripped result answered in
        subst (Delivers (net.canonical_key header) (header_lines net ip result.fields field))
          (sym served)
          (finish-Delivers p header _ _ (evaluate ops p.rules result.fields result.found) apart (
            apply_headers-owned net ip result.fields p.managed p.header_map header field req u held
              owned))
