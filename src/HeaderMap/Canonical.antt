-- ===== src/HeaderMap/Canonical.antt =====
-- plugin.go: the names of the headers that `buildHeaderMap` lists.
use traefik_plugin_ipgeoloca.Base.{
  ◌≡◌, List, [], ◌∷◌, false, ◌||◌, ◌==◌, length, Result, ok, All, ok_injective, >>=-eq-ok,
  Bool-cases, inl, inr, arith,
}
use mathlib.Core.Path.{subst}
use traefik_plugin_ipgeoloca.Base.Text.{Str, codes, str_eq, str_eq_iff, trim_space, to_lower}
use traefik_plugin_ipgeoloca.Base.Dict.{Dict, insert, erase, All-insert, All-erase}
use traefik_plugin_ipgeoloca.Net.{NetOps}
use traefik_plugin_ipgeoloca.Config.{Config}
use traefik_plugin_ipgeoloca.Plugin.Headers.{IsUnambiguous, IsOther}
use traefik_plugin_ipgeoloca.HeaderMap.{
  minimal_fields, standard_fields, is_known, header_name_for_field, add_preset_headers,
  preset_headers, add_header, add_headers, build_header_map,
}

module _ (net : NetOps) where
  -- As http.CanonicalHeaderKey: a canonical name stays as it is.
  abbrev pub IsIdempotent : Type 0
  IsIdempotent = (s : Str) → net.canonical_key (net.canonical_key s) ≡ net.canonical_key s

  abbrev IsCanonical : Str × Str → Type 0
  IsCanonical e = net.canonical_key e.0 ≡ e.0

  -- Canonical names, each once.
  abbrev IsTidy : Dict Str → Type 0
  IsTidy m = All IsCanonical m × IsUnambiguous net m

  insert-IsUnambiguous :
      (k v : Str) (m : Dict Str)
      → net.canonical_key k ≡ k
      → IsTidy m
      → IsUnambiguous net (insert k v m)
  unfolding insert IsUnambiguous
  insert-IsUnambiguous k v [] c t = (tt, tt)
  insert-IsUnambiguous k v ((j, w) ∷ m) c ((here, canonical), (once, u)) =
      elim (Bool-cases (str_eq j k)) [
        | inl same ↦
            let e : j ≡ k = (str_eq_iff j k).0 same in
            rw same (subst (λ x. All (IsOther net x) m) e once, u)
        | inr other ↦ rw other (
          All-insert (IsOther net j) k v m
              (ground (arith, c, here, other, str_eq_iff j k, str_eq_iff k j)) once,
          insert-IsUnambiguous k v m c (canonical, u),
        )
      ]

  insert-IsTidy :
      (k v : Str) (m : Dict Str) → net.canonical_key k ≡ k → IsTidy m → IsTidy (insert k v m)
  insert-IsTidy k v m c (canonical, u) =
      (All-insert IsCanonical k v m c canonical, insert-IsUnambiguous k v m c (canonical, u))

  erase-IsTidy : (k : Str) (m : Dict Str) → IsTidy m → IsTidy (erase k m)
  unfolding erase IsUnambiguous
  erase-IsTidy k [] t = t
  erase-IsTidy k ((j, w) ∷ m) ((here, canonical), (once, u)) =
      let (canonical', u') = erase-IsTidy k m (canonical, u) in
      elim (Bool-cases (str_eq j k)) [
        | inl same ↦ rw same (canonical', u')
        | inr other ↦ rw other ((here, canonical'), (All-erase (IsOther net j) k m once, u'))
      ]

  module _ (idempotent : IsIdempotent) where
    add_preset_headers-IsTidy :
        (fields : List Str) (out : Dict Str)
        → IsTidy out
        → IsTidy (add_preset_headers net fields out)
    unfolding add_preset_headers header_name_for_field
    add_preset_headers-IsTidy [] out t = t
    add_preset_headers-IsTidy (field ∷ fields) out t =
        add_preset_headers-IsTidy fields (insert (header_name_for_field net field) field out)
          (insert-IsTidy (header_name_for_field net field) field out (idempotent _) t)

    ok-IsTidy :
        {E : Type 0} (m : Dict Str) {out : Dict Str}
        → ◌≡◌ {A = Result E (Dict Str)} (ok m) (ok out)
        → IsTidy m
        → IsTidy out
    ok-IsTidy m h t = subst IsTidy (ok_injective h) t

    preset_headers-IsTidy :
        (preset : Str) {out : Dict Str}
        → str_eq (to_lower preset) (codes "full") ≡ false
        → preset_headers net preset ≡ ok out
        → IsTidy out
    unfolding preset_headers IsUnambiguous
    preset_headers-IsTidy preset partial h =
        let name = to_lower preset in
        elim (Bool-cases (str_eq name (codes "none") || length name == 0)) [
          | inl no_preset ↦ ok-IsTidy [] (rw no_preset at h) (tt, tt)
          | inr a ↦ elim (Bool-cases (str_eq name (codes "minimal"))) [
            | inl minimal ↦
                ok-IsTidy _ (rw (a, minimal) at h)
                  (add_preset_headers-IsTidy minimal_fields [] (tt, tt))
            | inr b ↦ elim (Bool-cases (str_eq name (codes "standard"))) [
              | inl standard ↦
                  ok-IsTidy _ (rw (a, b, standard) at h)
                    (add_preset_headers-IsTidy standard_fields [] (tt, tt))
              | inr c ↦ cc (rw (a, b, c, partial) at h)
            ]
          ]
        ]

    add_header-IsTidy :
        (header field : Str) (out : Dict Str) {out' : Dict Str}
        → add_header net header field out ≡ ok out'
        → IsTidy out
        → IsTidy out'
    unfolding add_header
    add_header-IsTidy header raw_field out h t =
        let field = trim_space raw_field in
        let name = net.canonical_key (trim_space header) in
        elim (Bool-cases (length (trim_space header) == 0)) [
          | inl unnamed ↦ ok-IsTidy out (rw unnamed at h) t
          | inr a ↦ elim (Bool-cases (length field == 0)) [
            | inl removed ↦ ok-IsTidy _ (rw (a, removed) at h) (erase-IsTidy name out t)
            | inr b ↦ elim (Bool-cases (str_eq field (codes "ip") || is_known field)) [
              | inl usable ↦
                  ok-IsTidy _ (rw (a, b, usable) at h)
                    (insert-IsTidy name field out (idempotent _) t)
              | inr c ↦ cc (rw (a, b, c) at h)
            ]
          ]
        ]

    add_headers-IsTidy :
        (headers : Dict Str) (out : Dict Str) {out' : Dict Str}
        → add_headers net headers out ≡ ok out'
        → IsTidy out
        → IsTidy out'
    unfolding add_headers
    add_headers-IsTidy [] out h t = ok-IsTidy out h t
    add_headers-IsTidy ((header, field) ∷ headers) out h t =
        let (mid, e, e') = >>=-eq-ok (add_header net header field out) _ h in
        add_headers-IsTidy headers mid e' (add_header-IsTidy header field out e t)

    -- No two entries of a header map that `buildHeaderMap` returns stand for one header, whatever
    -- the configured headers are, where the preset is not "full". It relies on
    -- http.CanonicalHeaderKey leaving a canonical name as it is.
    pub build_header_map-IsUnambiguous :
        (cfg : Config) (m : Dict Str)
        → str_eq (to_lower cfg.header_preset) (codes "full") ≡ false
        → build_header_map net cfg ≡ ok m
        → IsUnambiguous net m
    unfolding build_header_map
    build_header_map-IsUnambiguous cfg m partial h =
        let (out, e, e') = >>=-eq-ok (preset_headers net cfg.header_preset) _ h in
        (add_headers-IsTidy cfg.headers out e'
          (preset_headers-IsTidy cfg.header_preset partial e)).1
