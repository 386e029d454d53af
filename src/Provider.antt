-- ===== src/Provider.antt =====
-- provider.go: the MMDB provider, and the flags derived from an API response.
pub mod Agreement
pub mod Unreadable
pub mod Refresh
pub mod Api
use traefik_plugin_ipgeoloca.Base.{
  ℕ, List, [], ◌∷◌, Option, none, some, Bool, true, false, ◌==◌, ◌&&◌, ltb, leb, if◌then◌else◌,
  length, Result, ok, err,
}
use traefik_plugin_ipgeoloca.Base.Text.{Str, codes, str_eq, to_upper, trim_space}
use traefik_plugin_ipgeoloca.Base.Dict.{Dict}
use traefik_plugin_ipgeoloca.Source.{Error}
use traefik_plugin_ipgeoloca.Value.{Value, Entries, object, str, bool, put, find}
use traefik_plugin_ipgeoloca.Value.Floats.{FloatOps}
use traefik_plugin_ipgeoloca.Reader.{Reader}
use traefik_plugin_ipgeoloca.Reader.Tree.{Ip, lookup_offset}
use traefik_plugin_ipgeoloca.Fields.{FieldDef, Formatter}
use traefik_plugin_ipgeoloca.Fields.Extract.{LookupRecord, mmdb_record, extract_fields}

-- What `lookup` returns: the fields, whether data was found, and an error.
pub record Lookup (E : Type 0) : Type 0 where
  pub fields : Dict Str
  pub found : Bool
  pub error : Option E

abbrev pub seek_field_threshold : ℕ
seek_field_threshold = 8

-- The strategy that `newMMDBProvider` picks for a number of fields.
unfoldable pub picks_seek : ℕ → Bool
picks_seek field_count = ltb 0 field_count && leb field_count seek_field_threshold

-- The loop over the databases: the records found, and the first error.
unfoldable pub collect : Bool → Option Ip → List Reader → List LookupRecord × Option Error
collect seek_only ip [] = ([], none)
collect seek_only ip (r ∷ readers) =
    let (records, first_err) = collect seek_only ip readers in
    elim (lookup_offset r ip) [
      | err e ↦ (records, some e)
      | ok none ↦ (records, first_err)
      | ok (some offset) ↦ (mmdb_record r offset seek_only ∷ records, first_err)
    ]

module _ (ops : FloatOps) (f : Formatter) where
  -- `mmdbProvider.lookup` on the databases it read under the lock.
  unfoldable pub mmdb_lookup : Bool → List Reader → Option Ip → List FieldDef → Lookup Error
  mmdb_lookup seek_only readers ip defs =
      let (records, first_err) = collect seek_only ip readers in
      if length records == 0
      then record { fields = []; found = false; error = first_err }
      else record { fields = extract_fields ops f records defs; found = true; error = first_err }

-- The flag that a proxy type stands for.
unfoldable pub flag_of : Str → Option Str
flag_of proxy_type =
    if str_eq proxy_type (codes "VPN")
    then some (codes "is_vpn")
    else if str_eq proxy_type (codes "TOR")
    then some (codes "is_tor")
    else if str_eq proxy_type (codes "RESIDENTIAL")
    then some (codes "is_residential_proxy")
    else if str_eq proxy_type (codes "RELAY")
    then some (codes "is_relay")
    else none

-- `setIfAbsent(key, true)`
unfoldable pub set_if_absent : Str → Entries → Entries
set_if_absent key security = elim (find key security) [
  | none ↦ put key (bool true) security
  | some v ↦ security
]

-- `security["proxy_type"].(string)`, in upper case, the empty string where it is none.
unfoldable pub proxy_type_of : Entries → Str
proxy_type_of security = elim (find (codes "proxy_type") security) [
  | none ↦ []
  | some v ↦ elim v [ str s ↦ to_upper (trim_space s) | _ ↦ [] ]
]

unfoldable pub derive_security : Entries → Entries
derive_security security = elim (flag_of (proxy_type_of security)) [
  | none ↦ security
  | some key ↦ set_if_absent key security
]

-- The value under `security`, where it is a map.
unfoldable pub derive_in : Entries → Value → Entries
derive_in payload (object security) =
    put (codes "security") (object (derive_security security)) payload
derive_in payload _ = payload

-- `deriveAPIFlags`: the map under `security` is changed in place.
unfoldable pub derive_api_flags : Entries → Entries
derive_api_flags payload = elim (find (codes "security") payload) [
  | none ↦ payload
  | some v ↦ derive_in payload v
]
