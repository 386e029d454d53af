-- ===== src/Plugin/Requests.antt =====
-- plugin.go: headers that a client sends under the names that the plugin owns.
use traefik_plugin_ipgeoloca.Base.{
  ◌≡◌, refl, ap, ◌∙◌, List, [], ◌∷◌, Option, Bool, true, false, any, arith, Bool-cases, inl, inr,
}
use traefik_plugin_ipgeoloca.Base.Text.{Str, str_eq, str_eq_iff, str_eq_refl}
use traefik_plugin_ipgeoloca.Base.Dict.{Dict, insert, erase, lookup-insert}
use traefik_plugin_ipgeoloca.Value.Floats.{FloatOps}
use traefik_plugin_ipgeoloca.Reader.Tree.{Ip}
use traefik_plugin_ipgeoloca.Net.{NetOps, Request, header_values}
use traefik_plugin_ipgeoloca.ClientIp.{IpResolver, client_ip, peer_ip, forwarded_values}
use traefik_plugin_ipgeoloca.Cache.{ResultCache}
use traefik_plugin_ipgeoloca.Provider.{Lookup}
use traefik_plugin_ipgeoloca.Plugin.{
  Plugin, Times, delete_header, strip_managed_headers, serve_http,
}

module _ {V : Type 0} (k : Str) (v : V) where
  erase-insert_same : (m : Dict V) → erase k (insert k v m) ≡ erase k m
  unfolding erase insert
  erase-insert_same [] = ground (arith, str_eq_refl k)
  erase-insert_same ((j, w) ∷ m) = ground (arith, str_eq_refl k, erase-insert_same m)

  erase-insert_other :
      (j : Str) (m : Dict V) → str_eq j k ≡ false → erase j (insert k v m) ≡ insert k v (erase j m)
  unfolding erase insert
  erase-insert_other j [] h = ground (arith, str_eq_iff k j, str_eq_iff j k)
  erase-insert_other j ((i, w) ∷ m) h = ground (
    arith,
    str_eq_iff i k,
    str_eq_iff i j,
    str_eq_iff k j,
    str_eq_iff j k,
    erase-insert_other j m h,
  )

-- The request with the header set to these lines by whoever sent it.
abbrev pub forged : Str → List Str → Request → Request
forged name lines req = record req { headers = insert name lines req.headers }

module _ (net : NetOps) where
  -- A name that the plugin owns, in the form that requests have it in.
  abbrev pub is_managed : List Str → Str → Bool
  is_managed managed name = any (λ header. str_eq (net.canonical_key header) name) managed

  strip_managed_headers-forged :
      (managed : List Str) (name : Str) (lines : List Str) (req : Request)
      → is_managed managed name ≡ true
      → strip_managed_headers net managed (forged name lines req)
        ≡ strip_managed_headers net managed req
  unfolding strip_managed_headers delete_header
  strip_managed_headers-forged [] name lines req h = cc h
  strip_managed_headers-forged (header ∷ managed) name lines req h =
      let key = net.canonical_key header in
      let rest =
        λ (hs : Dict (List Str)). strip_managed_headers net managed (record req { headers = hs }) in
      elim (Bool-cases (str_eq key name)) [
        | inl same ↦
            let e : key ≡ name = (str_eq_iff key name).0 same in
            let gone : erase key (insert name lines req.headers) ≡ erase key req.headers =
              rw e (erase-insert_same name lines req.headers) in
            ap rest gone
        | inr other ↦
            ap rest (erase-insert_other name lines key req.headers other)
            ∙ strip_managed_headers-forged managed name lines (delete_header net header req)
                (rw other at h)
      ]

  header_values-forged :
      (req : Request) (name header : Str) (lines : List Str)
      → str_eq name (net.canonical_key header) ≡ false
      → header_values net (forged name lines req) header ≡ header_values net req header
  unfolding header_values
  header_values-forged req name header lines h =
      ground (arith, lookup-insert name (net.canonical_key header) lines req.headers, h)

  client_ip-forged :
      (r : IpResolver net) (req : Request) (name : Str) (lines : List Str)
      → str_eq name (net.canonical_key r.header_name) ≡ false
      → client_ip net r (forged name lines req) ≡ client_ip net r req
  unfolding client_ip forwarded_values peer_ip
  client_ip-forged r req name lines h =
      rw (header_values-forged req name r.header_name lines h) refl

  -- A header that a client sends under a name that the plugin owns changes nothing: the outcome,
  -- the forwarded request included, and the cache are those of the request without it, unless it is
  -- the header that forwarded addresses are read from.
  pub serve_http-forged :
      {E : Type 0} (provider : Ip → Lookup E) (ops : FloatOps) (p : Plugin net)
      (cache : Option ResultCache) (times : Times) (req : Request) (name : Str) (lines : List Str)
      → is_managed p.managed name ≡ true
      → str_eq name (net.canonical_key p.resolver.header_name) ≡ false
      → serve_http net provider ops p cache times (forged name lines req)
        ≡ serve_http net provider ops p cache times req
  unfolding serve_http
  serve_http-forged provider ops p cache times req name lines owned other =
      rw
        (
          client_ip-forged p.resolver req name lines other,
          strip_managed_headers-forged p.managed name lines req owned,
        )
        refl
