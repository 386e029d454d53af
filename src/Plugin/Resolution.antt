-- ===== src/Plugin/Resolution.antt =====
-- plugin.go: the cache between the plugin and its provider.
use traefik_plugin_ipgeoloca.Base.{
  ℕ, ◌≡◌, refl, ap, sym, ◌∙◌, Option, none, some, ◌&&◌, Bool-cases, Option-cases, inl, inr,
}
use traefik_plugin_ipgeoloca.Base.Text.{Str, str_eq, str_eq_iff}
use traefik_plugin_ipgeoloca.Value.Floats.{FloatOps}
use traefik_plugin_ipgeoloca.Reader.Tree.{Ip}
use traefik_plugin_ipgeoloca.Net.{NetOps, Request}
use traefik_plugin_ipgeoloca.ClientIp.{client_ip, ip_in_nets, is_local_ip}
use traefik_plugin_ipgeoloca.Cache.{CacheEntry, ResultCache, stored, get, add_entry, put}
use traefik_plugin_ipgeoloca.Cache.History.{stored-add_entry, unless_expired-some}
use traefik_plugin_ipgeoloca.Provider.{Lookup}
use traefik_plugin_ipgeoloca.Plugin.{
  Plugin, Times, strip_managed_headers, resolve, decide, serve_ip, serve_http,
}

module _ (net : NetOps) {E : Type 0} (provider : Ip → Lookup E) where
  abbrev answer_of : CacheEntry → Lookup E
  answer_of e = record { fields = e.fields; found = e.found; error = none }

  -- Every entry is what the provider answers for the addresses with that text.
  abbrev pub IsFaithful : ResultCache → Type 0
  IsFaithful c =
      (ip : Ip) (e : CacheEntry)
      → stored c (net.address_text ip) ≡ some e
      → provider ip ≡ answer_of e

  abbrev pub IsFaithfulCache : Option ResultCache → Type 0
  IsFaithfulCache none = Unit
  IsFaithfulCache (some c) = IsFaithful c

  -- The provider tells addresses apart by their text at most.
  abbrev pub RespectsText : Type 0
  RespectsText =
      (ip ip' : Ip) → net.address_text ip ≡ net.address_text ip' → provider ip ≡ provider ip'

  get-stored :
      (c : ResultCache) (key : Str) (now : ℕ) (e : CacheEntry)
      → get (some c) key now ≡ some e
      → stored c key ≡ some e
  unfolding get
  get-stored c key now e h = (unless_expired-some now (stored c key) e h).0

  get-IsFaithful :
      (cache : Option ResultCache) (ip : Ip) (now : ℕ) (e : CacheEntry)
      → IsFaithfulCache cache
      → get cache (net.address_text ip) now ≡ some e
      → provider ip ≡ answer_of e
  unfolding get
  get-IsFaithful none ip now e f h = cc h
  get-IsFaithful (some c) ip now e f h = f ip e (get-stored c (net.address_text ip) now e h)

  -- What is resolved is what the provider answers, from a cache whose entries are its answers.
  resolve-provider :
      (cache : Option ResultCache) (times : Times) (ip : Ip)
      → IsFaithfulCache cache
      → (resolve net provider cache times ip).0 ≡ provider ip
  unfolding resolve
  resolve-provider cache times ip f =
      elim (Option-cases (get cache (net.address_text ip) times.at_get)) [
        | inl missing ↦ rw (resolve, missing) refl
        | inr (e, held) ↦ rw (resolve, held) (sym (get-IsFaithful cache ip times.at_get e f held))
      ]

  add_entry-IsFaithful :
      (c : ResultCache) (ip : Ip) (entry : CacheEntry)
      → RespectsText
      → IsFaithful c
      → provider ip ≡ answer_of entry
      → IsFaithful (add_entry c (net.address_text ip) entry)
  add_entry-IsFaithful c ip entry respects f h ip' e held =
      let kept = stored-add_entry c (net.address_text ip) (net.address_text ip') entry e held in
      elim (Bool-cases (str_eq (net.address_text ip) (net.address_text ip'))) [
        | inl same ↦
            let e' : some entry ≡ some e = rw same at kept in
            let e'' : entry ≡ e = cc e' in
            sym (respects ip ip' ((str_eq_iff (net.address_text ip) (net.address_text ip')).0 same))
            ∙ h
            ∙ ap answer_of e''
        | inr other ↦ f ip' e (rw other at kept)
      ]

  whole_answer :
      (result : Lookup E)
      → result.error ≡ none
      → result ≡ record { fields = result.fields; found = result.found; error = none }
  whole_answer result h =
      ap (λ e. record { fields = result.fields; found = result.found; error = e }) h

  put-IsFaithful :
      (cache : Option ResultCache) (ip : Ip) (now : ℕ)
      → RespectsText
      → IsFaithfulCache cache
      → (provider ip).error ≡ none
      → IsFaithfulCache
          (put cache (net.address_text ip) (provider ip).fields (provider ip).found now)
  unfolding put
  put-IsFaithful none ip now respects f h = tt
  put-IsFaithful (some c) ip now respects f h =
      add_entry-IsFaithful c ip _ respects f (whole_answer (provider ip) h)

  -- `resolve` keeps the cache faithful: only answers without an error are stored.
  resolve-IsFaithful :
      (cache : Option ResultCache) (times : Times) (ip : Ip)
      → RespectsText
      → IsFaithfulCache cache
      → IsFaithfulCache (resolve net provider cache times ip).1
  unfolding resolve
  resolve-IsFaithful cache times ip respects f =
      elim (Option-cases (get cache (net.address_text ip) times.at_get)) [
        | inr (e, held) ↦ rw (resolve, held) f
        | inl missing ↦ elim (Option-cases (provider ip).error) [
          | inr (e, failed) ↦ rw (resolve, missing, failed) f
          | inl fine ↦
              rw (resolve, missing, fine) (put-IsFaithful cache ip times.at_put respects f fine)
        ]
      ]

  module _ (ops : FloatOps) (p : Plugin net) where
    serve_ip-provider :
        (cache : Option ResultCache) (times : Times) (ip : Option Ip) (req : Request)
        → RespectsText
        → IsFaithfulCache cache
        → ((serve_ip net provider ops p cache times ip req).0
            ≡ (serve_ip net provider ops p none times ip req).0)
          × IsFaithfulCache (serve_ip net provider ops p cache times ip req).1
    unfolding serve_ip
    serve_ip-provider cache times none req respects f = (refl, f)
    serve_ip-provider cache times (some ip) req respects f =
        let same = resolve-provider cache times ip f ∙ sym (resolve-provider none times ip tt) in
        elim (Bool-cases (ip_in_nets net (some ip) p.allowed_ips)) [
          | inl free ↦ rw free (refl, f)
          | inr bound ↦ elim (Bool-cases (ip_in_nets net (some ip) p.blocked_ips)) [
            | inl listed ↦ rw (bound, listed) (refl, f)
            | inr unlisted ↦ elim (Bool-cases (is_local_ip net (some ip) && p.allow_private)) [
              | inl near ↦ rw (bound, unlisted, near) (refl, f)
              | inr remote ↦
                  rw (bound, unlisted, remote)
                    (
                      ap (decide net provider ops p ip req) same,
                      resolve-IsFaithful cache times ip respects f,
                    )
            ]
          ]
        ]

    -- The cache is not seen: from a cache whose entries are answers of the provider, a request has
    -- the outcome that it has without a cache, and the entries are answers of the provider again,
    -- where addresses of one text have one answer.
    pub serve_http-cache :
        (cache : Option ResultCache) (times : Times) (req : Request)
        → RespectsText
        → IsFaithfulCache cache
        → ((serve_http net provider ops p cache times req).0
            ≡ (serve_http net provider ops p none times req).0)
          × IsFaithfulCache (serve_http net provider ops p cache times req).1
    unfolding serve_http
    serve_http-cache cache times req respects f =
        serve_ip-provider cache times (client_ip net p.resolver req)
          (strip_managed_headers net p.managed req) respects f
