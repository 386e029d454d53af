-- ===== src/Plugin/Managed.antt =====
-- plugin.go: the names that `managedHeaderNames` lists.
use traefik_plugin_ipgeoloca.Base.{
  ◌≡◌, ap, ◌∙◌, [], ◌∷◌, ◌++◌, some, true, arith, Bool-cases, inl, inr,
}
use traefik_plugin_ipgeoloca.Base.Text.{Str, codes, str_eq, str_eq_iff, str_eq_refl}
use traefik_plugin_ipgeoloca.Base.Dict.{Dict, lookup, keys}
use traefik_plugin_ipgeoloca.Net.{NetOps}
use traefik_plugin_ipgeoloca.Base.Sorting.{any-sort_names, any-append_left}
use traefik_plugin_ipgeoloca.Plugin.{managed_header_names}
use traefik_plugin_ipgeoloca.Plugin.Requests.{is_managed}

module _ (net : NetOps) where
  keys-is_managed :
      (header_map : Dict Str) (header field : Str)
      → lookup header header_map ≡ some field
      → is_managed net (keys header_map) (net.canonical_key header) ≡ true
  unfolding keys lookup
  keys-is_managed [] header field h = ground arith
  keys-is_managed ((j, g) ∷ header_map) header field h = elim (Bool-cases (str_eq j header)) [
    | inl same ↦
        let e : net.canonical_key j ≡ net.canonical_key header =
          ap net.canonical_key ((str_eq_iff j header).0 same) in
        ground (arith, e, str_eq_refl (net.canonical_key header))
    | inr other ↦ ground (arith, keys-is_managed header_map header field (rw other at h))
  ]

  -- Every header of the configuration is among the names that `managedHeaderNames` lists.
  pub managed_header_names-is_managed :
      (header_map : Dict Str) (header field : Str)
      → lookup header header_map ≡ some field
      → is_managed net (managed_header_names header_map) (net.canonical_key header) ≡ true
  unfolding managed_header_names
  managed_header_names-is_managed header_map header field h =
      any-sort_names (λ name. str_eq (net.canonical_key name) (net.canonical_key header))
        (keys header_map ++ (codes "X-IPGeo-Dry-Run" ∷ []))
      ∙ any-append_left (λ name. str_eq (net.canonical_key name) (net.canonical_key header))
          (keys header_map) (codes "X-IPGeo-Dry-Run" ∷ [])
          (keys-is_managed header_map header field h)
