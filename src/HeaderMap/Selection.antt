-- ===== src/HeaderMap/Selection.antt =====
-- plugin.go: `selectFields` on a built header map.
use traefik_plugin_ipgeoloca.Base.{
  ◌≡◌, refl, ◌∙◌, List, [], ◌∷◌, some, Bool, true, false, any, ok, All, arith, Bool-cases,
  Option-cases, inl, inr,
}
use traefik_plugin_ipgeoloca.Base.Text.{Str, codes, str_eq, str_eq_refl}
use traefik_plugin_ipgeoloca.Base.Dict.{
  Dict, lookup, insert, keys, All-insert, All-lookup, any-keys-insert,
}
use traefik_plugin_ipgeoloca.Base.Sorting.{sort_names, All-sort_names, any-sort_names}
use traefik_plugin_ipgeoloca.Net.{NetOps}
use traefik_plugin_ipgeoloca.Config.{Config}
use traefik_plugin_ipgeoloca.Fields.{FieldDef}
use traefik_plugin_ipgeoloca.Fields.Catalog.{field_defs, index_by_name, catalog, names_of}
use traefik_plugin_ipgeoloca.Rules.{RuleSet, compile}
use traefik_plugin_ipgeoloca.Rules.Evaluate.{required_fields}
use traefik_plugin_ipgeoloca.HeaderMap.{
  is_known, build_header_map, want_header_fields, want_all, definitions_of, select_fields,
}
use traefik_plugin_ipgeoloca.HeaderMap.Known.{IsKnown, IsUsable, build_header_map-IsUsable}
use traefik_plugin_ipgeoloca.HeaderMap.Required.{
  IsKnownRule, security_rules_of-IsKnownRule, required_fields-IsKnown,
}

-- Every wanted name is known.
abbrev HasKnownKeys : List Str → Type 0
HasKnownKeys = All IsKnown

keys-IsKnown : (wanted : Dict Bool) → All (λ e. IsKnown e.0) wanted → All IsKnown (keys wanted)
unfolding keys
keys-IsKnown [] h = tt
keys-IsKnown ((k, b) ∷ wanted) h = (h.0, keys-IsKnown wanted h.1)

want_header_fields-IsKnown :
    (header_map : Dict Str) (wanted : Dict Bool)
    → All IsUsable header_map
    → All (λ e. IsKnown e.0) wanted
    → All (λ e. IsKnown e.0) (want_header_fields header_map wanted)
unfolding want_header_fields
want_header_fields-IsKnown [] wanted u h = h
want_header_fields-IsKnown ((header, field) ∷ header_map) wanted u h =
    elim (Bool-cases (str_eq field (codes "ip"))) [
      | inl address ↦ rw address (want_header_fields-IsKnown header_map wanted u.1 h)
      | inr named ↦ rw named (
          want_header_fields-IsKnown header_map (insert field true wanted) u.1
            (All-insert (λ e. IsKnown e.0) field true wanted (rw named at u.0) h))
    ]

want_all-IsKnown :
    (fields : List Str) (wanted : Dict Bool)
    → All IsKnown fields
    → All (λ e. IsKnown e.0) wanted
    → All (λ e. IsKnown e.0) (want_all fields wanted)
unfolding want_all
want_all-IsKnown [] wanted k h = h
want_all-IsKnown (field ∷ fields) wanted k h =
    want_all-IsKnown fields (insert field true wanted) k.1
      (All-insert (λ e. IsKnown e.0) field true wanted k.0 h)

-- The wanted names hold on to what they hold, and gain what is asked for.
module _ (name : Str) where
  abbrev wants : Dict Bool → Bool
  wants wanted = any (str_eq name) (keys wanted)

  want_header_fields-keeps :
      (header_map : Dict Str) (wanted : Dict Bool)
      → wants wanted ≡ true
      → wants (want_header_fields header_map wanted) ≡ true
  unfolding want_header_fields
  want_header_fields-keeps [] wanted h = h
  want_header_fields-keeps ((header, field) ∷ header_map) wanted h =
      want_header_fields-keeps header_map _
        (ground (arith, any-keys-insert (str_eq name) field true wanted, h))

  want_all-keeps :
      (fields : List Str) (wanted : Dict Bool)
      → wants wanted ≡ true
      → wants (want_all fields wanted) ≡ true
  unfolding want_all
  want_all-keeps [] wanted h = h
  want_all-keeps (field ∷ fields) wanted h =
      want_all-keeps fields (insert field true wanted)
        (ground (arith, any-keys-insert (str_eq name) field true wanted, h))

  want_header_fields-gains :
      (header_map : Dict Str) (header : Str) (wanted : Dict Bool)
      → lookup header header_map ≡ some name
      → str_eq name (codes "ip") ≡ false
      → wants (want_header_fields header_map wanted) ≡ true
  unfolding want_header_fields lookup
  want_header_fields-gains [] header wanted h apart = cc h
  want_header_fields-gains ((other, field) ∷ header_map) header wanted h apart =
      elim (Bool-cases (str_eq other header)) [
        | inl same ↦
            let e : some field ≡ some name = rw same at h in
            let e' : field ≡ name = cc e in
            want_header_fields-keeps header_map _ (
              ground (arith, e', any-keys-insert (str_eq name) field true wanted, str_eq_refl name))
        | inr different ↦ want_header_fields-gains header_map header _ (rw different at h) apart
      ]

  want_all-gains :
      (fields : List Str) (wanted : Dict Bool)
      → any (str_eq name) fields ≡ true
      → wants (want_all fields wanted) ≡ true
  unfolding want_all
  want_all-gains [] wanted h = cc h
  want_all-gains (field ∷ fields) wanted h = elim (Bool-cases (str_eq name field)) [
    | inl same ↦
        want_all-keeps fields (insert field true wanted)
          (ground (arith, same, any-keys-insert (str_eq name) field true wanted))
    | inr other ↦ want_all-gains fields (insert field true wanted) (rw other at h)
  ]

-- Each definition of the catalog stands under its own name.
index_by_name-names :
    (fs : List FieldDef) (out : Dict FieldDef)
    → All (λ e. e.1.name ≡ e.0) out
    → All (λ e. e.1.name ≡ e.0) (index_by_name fs out)
unfolding index_by_name
index_by_name-names [] out h = h
index_by_name-names (f ∷ fs) out h =
    index_by_name-names fs (insert f.name f out)
      (All-insert (λ e. e.1.name ≡ e.0) f.name f out refl h)

catalog-names : (name : Str) (def : FieldDef) → lookup name catalog ≡ some def → def.name ≡ name
unfolding catalog
catalog-names name def held =
    All-lookup (λ e. e.1.name ≡ e.0) name def catalog (index_by_name-names field_defs [] tt) held

definitions_of_total :
    (names : List Str)
    → All IsKnown names
    → (defs : List FieldDef) × (definitions_of names ≡ ok defs) × (names_of defs ≡ names)
unfolding definitions_of names_of is_known
definitions_of_total [] h = ([], refl, refl)
definitions_of_total (name ∷ names) (known, h) =
    let (defs, e, listed) = definitions_of_total names h in
    elim (Option-cases (lookup name catalog)) [
      | inl missing ↦ cc (rw (is_known, missing) at known)
      | inr (def, held) ↦
          let e' : def.name ≡ name = catalog-names name def held in
          (def ∷ defs, (rw (definitions_of, held, e) refl), (rw (e', listed) refl))
    ]

abbrev wanted_names : Dict Str → RuleSet → List Str
wanted_names header_map rules =
    sort_names (keys (want_all (required_fields rules) (want_header_fields header_map [])))

wanted_names-IsKnown :
    (header_map : Dict Str) (rules : RuleSet)
    → All IsUsable header_map
    → All IsKnownRule rules.security_rules
    → All IsKnown (wanted_names header_map rules)
wanted_names-IsKnown header_map rules usable h = All-sort_names IsKnown _ (
    keys-IsKnown _ (
      want_all-IsKnown (required_fields rules) _ (required_fields-IsKnown rules h)
        (want_header_fields-IsKnown header_map [] usable tt)))

module _ (name : Str) (header_map : Dict Str) (rules : RuleSet) where
  wanted_names-header :
      (header : Str)
      → lookup header header_map ≡ some name
      → str_eq name (codes "ip") ≡ false
      → any (str_eq name) (wanted_names header_map rules) ≡ true
  wanted_names-header header held apart =
      any-sort_names (str_eq name) _
      ∙ want_all-keeps name (required_fields rules) _
          (want_header_fields-gains name header_map header [] held apart)

  wanted_names-required :
      any (str_eq name) (required_fields rules) ≡ true
      → any (str_eq name) (wanted_names header_map rules) ≡ true
  wanted_names-required h =
      any-sort_names (str_eq name) _
      ∙ want_all-gains name (required_fields rules) (want_header_fields header_map []) h

-- The header map that a configuration builds and the rules it compiles to select fields without
-- an error: the fields of the headers are all selected, "ip" aside, and so are the fields that
-- the rules need.
pub select_fields-total :
    (net : NetOps) (cfg : Config) (m : Dict Str)
    → build_header_map net cfg ≡ ok m
    → (defs : List FieldDef) × (select_fields m (compile cfg) ≡ ok defs)
      × ((header field : Str)
          → lookup header m ≡ some field
          → str_eq field (codes "ip") ≡ false
          → any (str_eq field) (names_of defs) ≡ true)
      × ((field : Str)
          → any (str_eq field) (required_fields (compile cfg)) ≡ true
          → any (str_eq field) (names_of defs) ≡ true)
unfolding select_fields compile
select_fields-total net cfg m built =
    let rules = compile cfg in
    let known =
      wanted_names-IsKnown m rules (build_header_map-IsUsable net cfg built)
        (security_rules_of-IsKnownRule cfg) in
    let (defs, e, listed) = definitions_of_total (wanted_names m rules) known in
    (
      defs,
      e,
      (λ header field held apart. rw listed (wanted_names-header field m rules header held apart)),
      (λ field h. rw listed (wanted_names-required field m rules h)),
    )
