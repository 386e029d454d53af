-- ===== src/Plugin/Headers.antt =====
-- plugin.go: the headers that the next handler sees.
use traefik_plugin_ipgeoloca.Base.{
  ◌≡◌, refl, ◌∙◌, List, [], ◌∷◌, Option, none, some, true, false, ◌==◌, if◌then◌else◌, length,
  arith, Bool-cases, inl, inr, All,
}
use mathlib.Core.Path.{subst}
use traefik_plugin_ipgeoloca.Base.Text.{Str, str_eq, str_eq_iff, str_eq_refl}
use traefik_plugin_ipgeoloca.Base.Dict.{Dict, lookup, lookup-insert, lookup-erase, All-lookup}
use traefik_plugin_ipgeoloca.Reader.Tree.{Ip}
use traefik_plugin_ipgeoloca.Net.{NetOps, Request}
use traefik_plugin_ipgeoloca.Plugin.{
  set_header, delete_header, strip_managed_headers, header_value, apply_headers,
}
use traefik_plugin_ipgeoloca.Plugin.Requests.{is_managed}

module _ (net : NetOps) where
  -- The header is not the one of this entry.
  abbrev pub IsOther : Str → Str × Str → Type 0
  IsOther header e = str_eq (net.canonical_key e.0) (net.canonical_key header) ≡ false

  -- No two entries stand for one header.
  unfoldable pub IsUnambiguous : Dict Str → Type 0
  IsUnambiguous [] = Unit
  IsUnambiguous ((header, field) ∷ header_map) =
      All (IsOther header) header_map × IsUnambiguous header_map

  strip_managed_headers-none :
      (managed : List Str) (name : Str) (req : Request)
      → lookup name req.headers ≡ none
      → lookup name (strip_managed_headers net managed req).headers ≡ none
  unfolding strip_managed_headers delete_header
  strip_managed_headers-none [] name req h = h
  strip_managed_headers-none (header ∷ managed) name req h =
      strip_managed_headers-none managed name (delete_header net header req)
        (ground (arith, lookup-erase (net.canonical_key header) name req.headers, h))

  strip_managed_headers-lookup :
      (managed : List Str) (name : Str) (req : Request)
      → is_managed net managed name ≡ true
      → lookup name (strip_managed_headers net managed req).headers ≡ none
  unfolding strip_managed_headers delete_header
  strip_managed_headers-lookup [] name req h = cc h
  strip_managed_headers-lookup (header ∷ managed) name req h =
      elim (Bool-cases (str_eq (net.canonical_key header) name)) [
        | inl same ↦
            strip_managed_headers-none managed name (delete_header net header req)
              (lookup-erase (net.canonical_key header) name req.headers ∙ rw same refl)
        | inr other ↦
            strip_managed_headers-lookup managed name (delete_header net header req) (rw other at h)
      ]

  module _ (ip : Ip) (fields : Dict Str) where
    apply_headers_other :
        (header_map : Dict Str) (header : Str) (req : Request)
        → All (IsOther header) header_map
        → lookup (net.canonical_key header) (apply_headers net header_map ip fields req).headers
          ≡ lookup (net.canonical_key header) req.headers
    unfolding apply_headers set_header
    apply_headers_other [] header req h = refl
    apply_headers_other ((other, field) ∷ header_map) header req (here, there) =
        let value = header_value net ip fields field in
        ground (
          arith,
          here,
          apply_headers_other header_map header req there,
          apply_headers_other header_map header (set_header net other value req) there,
          lookup-insert (net.canonical_key other) (net.canonical_key header) (value ∷ [])
              req.headers,
        )

    -- What the header of a field is on the way out.
    abbrev pub header_lines : Str → Option (List Str)
    header_lines field =
        let value = header_value net ip fields field in
        if length value == 0 then none else some (value ∷ [])

    apply_headers_head :
        (header_map : Dict Str) (header field : Str) (req : Request)
        → All (IsOther header) header_map
        → lookup (net.canonical_key header) req.headers ≡ none
        → lookup
            (net.canonical_key header)
            (apply_headers net ((header, field) ∷ header_map) ip fields req).headers
          ≡ header_lines field
    unfolding apply_headers set_header
    apply_headers_head header_map header field req once clean =
        let key = net.canonical_key header in
        let value = header_value net ip fields field in
        ground (
          arith,
          apply_headers_other header_map header req once,
          apply_headers_other header_map header (set_header net header value req) once,
          lookup-insert key key (value ∷ []) req.headers,
          str_eq_refl key,
        )

    apply_headers-lookup :
        (header_map : Dict Str) (header field : Str) (req : Request)
        → IsUnambiguous header_map
        → lookup header header_map ≡ some field
        → lookup (net.canonical_key header) req.headers ≡ none
        → lookup (net.canonical_key header) (apply_headers net header_map ip fields req).headers
          ≡ header_lines field
    unfolding apply_headers set_header lookup IsUnambiguous
    apply_headers-lookup [] header field req u held clean = cc held
    apply_headers-lookup ((j, g) ∷ header_map) header field req (once, u) held clean =
        elim (Bool-cases (str_eq j header)) [
          | inl same ↦
              let e : j ≡ header = (str_eq_iff j header).0 same in
              let held' : some g ≡ some field = rw same at held in
              let e' : g ≡ field = cc held' in
              rw (e, e')
                (apply_headers_head header_map header field req
                  (subst (λ x. All (IsOther x) header_map) e once) clean)
          | inr other ↦
              let held' : lookup header header_map ≡ some field = rw other at held in
              let apart = All-lookup (IsOther j) header field header_map once held' in
              let value = header_value net ip fields g in
              ground (
                arith,
                clean,
                apart,
                str_eq_iff (net.canonical_key j) (net.canonical_key header),
                str_eq_iff (net.canonical_key header) (net.canonical_key j),
                lookup-insert (net.canonical_key j) (net.canonical_key header) (value ∷ [])
                    req.headers,
                apply_headers-lookup header_map header field req u held',
                apply_headers-lookup header_map header field (set_header net j value req) u held',
              )
        ]

    -- Applied to a stripped request, a header of the configuration has the value of its field and no
    -- other line, and is away where the field has no value, whatever the client sent under that
    -- name, where no two headers of the configuration have one name.
    pub apply_headers-owned :
        (managed : List Str) (header_map : Dict Str) (header field : Str) (req : Request)
        → IsUnambiguous header_map
        → lookup header header_map ≡ some field
        → is_managed net managed (net.canonical_key header) ≡ true
        → lookup
            (net.canonical_key header)
            (apply_headers net header_map ip fields (strip_managed_headers net managed req)).headers
          ≡ header_lines field
    apply_headers-owned managed header_map header field req u held owned =
        apply_headers-lookup header_map header field (strip_managed_headers net managed req) u held
          (strip_managed_headers-lookup managed (net.canonical_key header) req owned)
