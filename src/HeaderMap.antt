-- ===== src/HeaderMap.antt =====
-- plugin.go: which headers carry which fields, and which fields a request needs.
pub mod Known
pub mod Canonical
pub mod Required
pub mod Selection
use traefik_plugin_ipgeoloca.Base.{
  ℕ, List, [], ◌∷◌, ◌++◌, Option, none, some, Bool, true, false, ◌==◌, ◌||◌, if◌then◌else◌, length,
  take, drop, Result, ok, err, ◌>>=◌,
}
use traefik_plugin_ipgeoloca.Base.Text.{
  Str, codes, str_eq, to_upper, to_lower, trim_space, split, join,
}
use traefik_plugin_ipgeoloca.Base.Dict.{Dict, lookup, insert, erase, keys}
use traefik_plugin_ipgeoloca.Base.Sorting.{sort_names}
use traefik_plugin_ipgeoloca.Net.{NetOps}
use traefik_plugin_ipgeoloca.Config.{Config}
use traefik_plugin_ipgeoloca.Fields.{FieldDef}
use traefik_plugin_ipgeoloca.Fields.Catalog.{catalog, field_names}
use traefik_plugin_ipgeoloca.Rules.{RuleSet}
use traefik_plugin_ipgeoloca.Rules.Evaluate.{required_fields}

-- What the messages of the errors show.
pub data HeaderError : Type 0 where
  unknown_preset : Str → HeaderError
  unknown_header_field : Str → Str → HeaderError
  unknown_field : Str → HeaderError

-- `strings.ToUpper(part[:1]) + part[1:]`, where the part is not empty.
unfoldable pub capitalize : Str → Str
capitalize part = to_upper (take 1 part) ++ drop 1 part

unfoldable pub capitalize_all : List Str → List Str
capitalize_all [] = []
capitalize_all (part ∷ parts) = capitalize part ∷ capitalize_all parts

abbrev pub minimal_fields : List Str
minimal_fields = codes "country_code" ∷ codes "city_name" ∷ codes "asn" ∷ []

abbrev pub standard_fields : List Str
standard_fields =
    codes "country_code"
    ∷ codes "country_name"
    ∷ codes "continent_code"
    ∷ codes "state_code"
    ∷ codes "city_name"
    ∷ codes "zip_code"
    ∷ codes "latitude"
    ∷ codes "longitude"
    ∷ codes "time_zone"
    ∷ codes "asn"
    ∷ codes "organization_name"
    ∷ codes "threat_score"
    ∷ codes "is_vpn"
    ∷ codes "is_proxy"
    ∷ codes "is_tor"
    ∷ []

-- `known[field]` succeeds.
unfoldable pub is_known : Str → Bool
is_known field = elim (lookup field catalog) [ none ↦ false | some def ↦ true ]

module _ (net : NetOps) where
  -- "X-IPGeo-Country-Code" of "country_code".
  unfoldable pub header_name_for_field : Str → Str
  header_name_for_field field =
      net.canonical_key (codes "X-IPGeo-" ++ join (codes "-") (capitalize_all (split b'_' field)))

  unfoldable pub add_preset_headers : List Str → Dict Str → Dict Str
  add_preset_headers [] out = out
  add_preset_headers (field ∷ fields) out =
      add_preset_headers fields (insert (header_name_for_field field) field out)

  -- The `switch` of `buildHeaderMap`.
  unfoldable pub preset_headers : Str → Result HeaderError (Dict Str)
  preset_headers preset =
      let name = to_lower preset in
      if str_eq name (codes "none") || length name == 0
      then ok []
      else if str_eq name (codes "minimal")
      then ok (add_preset_headers minimal_fields [])
      else if str_eq name (codes "standard")
      then ok (add_preset_headers standard_fields [])
      else if str_eq name (codes "full")
      then ok (insert (codes "X-IPGeo-IP") (codes "ip") (add_preset_headers field_names []))
      else err (unknown_preset preset)

  -- One round of the loop over the configured headers.
  unfoldable pub add_header : Str → Str → Dict Str → Result HeaderError (Dict Str)
  add_header raw_header raw_field out =
      let header = trim_space raw_header in
      let field = trim_space raw_field in
      if length header == 0
      then ok out
      else if length field == 0
      then ok (erase (net.canonical_key header) out)
      else if str_eq field (codes "ip") || is_known field
      then ok (insert (net.canonical_key header) field out)
      else err (unknown_header_field header field)

  -- The loop, in any order of the entries.
  unfoldable pub add_headers : Dict Str → Dict Str → Result HeaderError (Dict Str)
  add_headers [] out = ok out
  add_headers ((header, field) ∷ headers) out = do
    out' ← add_header header field out
    add_headers headers out'

  unfoldable pub build_header_map : Config → Result HeaderError (Dict Str)
  build_header_map cfg = do out ← preset_headers cfg.header_preset; add_headers cfg.headers out

-- The two loops that fill `wanted`.
unfoldable pub want_header_fields : Dict Str → Dict Bool → Dict Bool
want_header_fields [] wanted = wanted
want_header_fields ((header, field) ∷ header_map) wanted =
    want_header_fields header_map
      (if str_eq field (codes "ip") then wanted else insert field true wanted)

unfoldable pub want_all : List Str → Dict Bool → Dict Bool
want_all [] wanted = wanted
want_all (field ∷ fields) wanted = want_all fields (insert field true wanted)

-- The last loop: the definitions of the sorted names.
unfoldable pub definitions_of : List Str → Result HeaderError (List FieldDef)
definitions_of [] = ok []
definitions_of (name ∷ names) = elim (lookup name catalog) [
  | none ↦ err (unknown_field name)
  | some def ↦ do defs ← definitions_of names; ok (def ∷ defs)
]

unfoldable pub select_fields : Dict Str → RuleSet → Result HeaderError (List FieldDef)
select_fields header_map rules =
    definitions_of
      (sort_names (keys (want_all (required_fields rules) (want_header_fields header_map []))))
