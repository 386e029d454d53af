-- ===== src/HeaderMap/Known.antt =====
-- plugin.go: the fields of the header map and of the rules, in the catalog.
use traefik_plugin_ipgeoloca.Base.{
  ◌≡◌, refl, List, [], ◌∷◌, ◌++◌, Option, none, some, Bool, true, false, ◌||◌, ◌==◌, any, all,
  length, Result, ok, All, All-map, All-left, All-right, ok_injective, arith, Bool-cases, inl, inr,
  >>=-eq-ok,
}
use traefik_plugin_ipgeoloca.Base.Text.{
  Str, codes, str_eq, str_eq_iff, str_eq_refl, trim_space, to_lower,
}
use traefik_plugin_ipgeoloca.Base.Dict.{Dict, lookup, insert, lookup-insert, All-insert, All-erase}
use traefik_plugin_ipgeoloca.Base.Sorting.{All-sort_names}
use mathlib.Core.Path.{subst}
use traefik_plugin_ipgeoloca.Net.{NetOps}
use traefik_plugin_ipgeoloca.Config.{Config}
use traefik_plugin_ipgeoloca.Fields.{FieldDef}
use traefik_plugin_ipgeoloca.Fields.Catalog.{
  field_defs, index_by_name, catalog, names_of, field_names,
}
use traefik_plugin_ipgeoloca.Fields.Catalog.Places.{places}
use traefik_plugin_ipgeoloca.Fields.Catalog.Networks.{networks}
use traefik_plugin_ipgeoloca.Fields.Catalog.Threats.{threats}
use traefik_plugin_ipgeoloca.Fields.Catalog.Contacts.{contacts}
use traefik_plugin_ipgeoloca.HeaderMap.{
  minimal_fields, standard_fields, is_known, add_preset_headers, preset_headers, add_header,
  add_headers, build_header_map,
}

-- Indexing forgets no name.
is_some : Option FieldDef → Bool
is_some none = false
is_some (some def) = true

index_by_name_keeps :
    (fs : List FieldDef) (name : Str) (out : Dict FieldDef)
    → is_some (lookup name out) ≡ true
    → is_some (lookup name (index_by_name fs out)) ≡ true
unfolding index_by_name is_some
index_by_name_keeps [] name out h = h
index_by_name_keeps (f ∷ fs) name out h =
    index_by_name_keeps fs name (insert f.name f out)
      (ground (arith, lookup-insert f.name name f out, h))

index_by_name_listed :
    (fs : List FieldDef) (name : Str) (out : Dict FieldDef)
    → any (str_eq name) (names_of fs) ≡ true
    → is_some (lookup name (index_by_name fs out)) ≡ true
unfolding index_by_name names_of is_some
index_by_name_listed [] name out h = cc h
index_by_name_listed (f ∷ fs) name out h = elim (Bool-cases (str_eq name f.name)) [
  | inl here ↦ index_by_name_keeps fs name (insert f.name f out) (
      ground
        (arith, lookup-insert f.name name f out, str_eq_iff name f.name, str_eq_iff f.name name))
  | inr there ↦ index_by_name_listed fs name (insert f.name f out) (rw there at h)
]

-- A name that the table lists is known.
pub is_known_listed :
    (name : Str) → any (str_eq name) (names_of field_defs) ≡ true → is_known name ≡ true
unfolding is_known catalog is_some
is_known_listed name h = ground (arith, index_by_name_listed field_defs name [] h)

abbrev pub IsKnown : Str → Type 0
IsKnown name = is_known name ≡ true

abbrev pub all_listed : List Str → Bool
all_listed names = all (λ name. any (str_eq name) (names_of field_defs)) names

pub all_listed-IsKnown : (names : List Str) → all_listed names ≡ true → All IsKnown names
all_listed-IsKnown [] h = tt
all_listed-IsKnown (name ∷ names) h = elim (Bool-cases (any (str_eq name) (names_of field_defs))) [
  | inl listed ↦ (is_known_listed name listed, all_listed-IsKnown names (rw listed at h))
  | inr missing ↦ cc (rw missing at h)
]

preset_fields-IsKnown : All IsKnown (minimal_fields ++ standard_fields)
unfolding names_of field_defs places networks threats contacts str_eq
preset_fields-IsKnown = all_listed-IsKnown (minimal_fields ++ standard_fields) refl

listed_in_itself : (names : List Str) → All (λ name. any (str_eq name) names ≡ true) names
listed_in_itself [] = tt
listed_in_itself (name ∷ names) = (
  ground (arith, str_eq_refl name),
  All-map (λ n. any (str_eq n) names ≡ true) (λ n. any (str_eq n) (name ∷ names) ≡ true) names
      (λ n h. ground (arith, h)) (listed_in_itself names),
)

field_names-IsKnown : All IsKnown field_names
unfolding field_names
field_names-IsKnown = All-sort_names IsKnown (names_of field_defs) (
    All-map _ IsKnown (names_of field_defs) is_known_listed
      (listed_in_itself (names_of field_defs)))

-- A field that `applyHeaders` can resolve.
abbrev pub IsUsable : Str × Str → Type 0
IsUsable e = (str_eq e.1 (codes "ip") || is_known e.1) ≡ true

add_preset_headers-IsUsable :
    (net : NetOps) (fields : List Str) (out : Dict Str)
    → All IsKnown fields
    → All IsUsable out
    → All IsUsable (add_preset_headers net fields out)
unfolding add_preset_headers
add_preset_headers-IsUsable net [] out h u = u
add_preset_headers-IsUsable net (field ∷ fields) out h u =
    add_preset_headers-IsUsable net fields _ h.1
      (All-insert IsUsable _ field out (ground (arith, h.0)) u)

result-IsUsable :
    {E : Type 0} (m : Dict Str) {out : Dict Str}
    → ◌≡◌ {A = Result E (Dict Str)} (ok m) (ok out)
    → All IsUsable m
    → All IsUsable out
result-IsUsable m h u = subst (All IsUsable) (ok_injective h) u

preset_headers-IsUsable :
    (net : NetOps) (preset : Str) {out : Dict Str}
    → preset_headers net preset ≡ ok out
    → All IsUsable out
unfolding preset_headers
preset_headers-IsUsable net preset h =
    let name = to_lower preset in
    let presets = preset_fields-IsKnown in
    let full = add_preset_headers-IsUsable net field_names [] field_names-IsKnown tt in
    elim (Bool-cases (str_eq name (codes "none") || length name == 0)) [
      | inl no_preset ↦ result-IsUsable [] (rw no_preset at h) tt
      | inr a ↦ elim (Bool-cases (str_eq name (codes "minimal"))) [
        | inl minimal ↦ result-IsUsable _ (rw (a, minimal) at h) (
            add_preset_headers-IsUsable net minimal_fields []
              (All-left IsKnown minimal_fields standard_fields presets) tt)
        | inr b ↦ elim (Bool-cases (str_eq name (codes "standard"))) [
          | inl standard ↦ result-IsUsable _ (rw (a, b, standard) at h) (
              add_preset_headers-IsUsable net standard_fields []
                (All-right IsKnown minimal_fields standard_fields presets) tt)
          | inr c ↦ elim (Bool-cases (str_eq name (codes "full"))) [
            | inl all_fields ↦ result-IsUsable _ (rw (a, b, c, all_fields) at h) (
                All-insert IsUsable (codes "X-IPGeo-IP") (codes "ip") _
                  (rw (str_eq_refl (codes "ip")) refl) full)
            | inr d ↦ cc (rw (a, b, c, d) at h)
          ]
        ]
      ]
    ]

add_header-IsUsable :
    (net : NetOps) (header field : Str) (out : Dict Str) {out' : Dict Str}
    → add_header net header field out ≡ ok out'
    → All IsUsable out
    → All IsUsable out'
unfolding add_header
add_header-IsUsable net header raw_field out h u =
    let field = trim_space raw_field in
    let name = net.canonical_key (trim_space header) in
    elim (Bool-cases (length (trim_space header) == 0)) [
      | inl unnamed ↦ result-IsUsable out (rw unnamed at h) u
      | inr a ↦ elim (Bool-cases (length field == 0)) [
        | inl removed ↦ result-IsUsable _ (rw (a, removed) at h) (All-erase IsUsable name out u)
        | inr b ↦ elim (Bool-cases (str_eq field (codes "ip") || is_known field)) [
          | inl usable ↦
              result-IsUsable _ (rw (a, b, usable) at h)
                (All-insert IsUsable name field out usable u)
          | inr c ↦ cc (rw (a, b, c) at h)
        ]
      ]
    ]

add_headers-IsUsable :
    (net : NetOps) (headers : Dict Str) (out : Dict Str) {out' : Dict Str}
    → add_headers net headers out ≡ ok out'
    → All IsUsable out
    → All IsUsable out'
unfolding add_headers
add_headers-IsUsable net [] out h u = subst (All IsUsable) (ok_injective h) u
add_headers-IsUsable net ((header, field) ∷ headers) out h u =
    let (mid, e, e') = >>=-eq-ok (add_header net header field out) _ h in
    add_headers-IsUsable net headers mid e' (add_header-IsUsable net header field out e u)

pub build_header_map-IsUsable :
    (net : NetOps) (cfg : Config) {m : Dict Str} → build_header_map net cfg ≡ ok m → All IsUsable m
unfolding build_header_map
build_header_map-IsUsable net cfg h =
    let (out, e, e') = >>=-eq-ok (preset_headers net cfg.header_preset) _ h in
    add_headers-IsUsable net cfg.headers out e' (preset_headers-IsUsable net cfg.header_preset e)
