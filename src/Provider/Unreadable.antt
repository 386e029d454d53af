-- ===== src/Provider/Unreadable.antt =====
-- provider.go: records that cannot be decoded, in `mmdbRecord.value` and `mmdbProvider.lookup`.
use traefik_plugin_ipgeoloca.Base.{
  ℕ, ◌≡◌, ◌≢◌, refl, List, [], ◌∷◌, Option, none, some, true, false, ◌==◌, length, ok, err, All,
  arith,
}
use traefik_plugin_ipgeoloca.Base.Text.{Str}
use traefik_plugin_ipgeoloca.Base.Dict.{Dict}
use traefik_plugin_ipgeoloca.Source.{Error}
use traefik_plugin_ipgeoloca.Value.Floats.{FloatOps}
use traefik_plugin_ipgeoloca.Net.{NetOps, Request}
use traefik_plugin_ipgeoloca.Reader.{Reader}
use traefik_plugin_ipgeoloca.Reader.Tree.{Ip, lookup_offset}
use traefik_plugin_ipgeoloca.Reader.Records.{lookup_record_at}
use traefik_plugin_ipgeoloca.Rules.Evaluate.{evaluate}
use traefik_plugin_ipgeoloca.Plugin.{Plugin, apply_headers, finish, decide}
use traefik_plugin_ipgeoloca.Fields.{Kind, FieldDef, Formatter}
use traefik_plugin_ipgeoloca.Fields.Extract.{
  LookupRecord, mmdb_record, from_paths, is_present, extract, first_record, add_fields,
  extract_fields,
}
use traefik_plugin_ipgeoloca.Provider.{collect, mmdb_lookup}

-- A record that has no value at any path.
abbrev IsSilent : LookupRecord → Type 0
IsSilent rec = (path : Str) → rec path ≡ none

-- The address is in the tree, and the record that it leads to does not decode.
abbrev pub IsUnreadable : Option Ip → Reader → Type 0
IsUnreadable ip r =
    (offset : ℕ) × (e : Error) × (lookup_offset r ip ≡ ok (some offset))
    × (lookup_record_at r offset ≡ err e)

module _ (ops : FloatOps) (f : Formatter) where
  from_paths-IsSilent :
      (rec : LookupRecord) (kind : Kind) (paths : List Str)
      → IsSilent rec
      → from_paths ops f rec kind paths ≡ none
  unfolding from_paths
  from_paths-IsSilent rec kind [] silent = refl
  from_paths-IsSilent rec kind (path ∷ paths) silent =
      rw (from_paths, silent path) (from_paths-IsSilent rec kind paths silent)

  is_present-IsSilent :
      (rec : LookupRecord) (paths : List Str) → IsSilent rec → is_present ops f rec paths ≡ false
  unfolding is_present
  is_present-IsSilent rec [] silent = refl
  is_present-IsSilent rec (path ∷ paths) silent =
      rw (is_present, silent path) (is_present-IsSilent rec paths silent)

  first_record-IsSilent :
      (records : List LookupRecord) (def : FieldDef)
      → All IsSilent records
      → first_record ops f records def ≡ none
  unfolding first_record extract
  first_record-IsSilent [] def silent = refl
  first_record-IsSilent (rec ∷ records) def (here, there) =
      rw
        (
          first_record,
          extract,
          from_paths-IsSilent rec def.kind def.paths here,
          is_present-IsSilent rec def.presence here,
        )
        (first_record-IsSilent records def there)

  add_fields-IsSilent :
      (records : List LookupRecord) (defs : List FieldDef) (out : Dict Str)
      → All IsSilent records
      → add_fields ops f records defs out ≡ out
  unfolding add_fields
  add_fields-IsSilent records [] out silent = refl
  add_fields-IsSilent records (def ∷ defs) out silent =
      rw (add_fields, first_record-IsSilent records def silent)
        (add_fields-IsSilent records defs out silent)

  collect-IsUnreadable :
      (ip : Option Ip) (readers : List Reader)
      → All (IsUnreadable ip) readers
      → All IsSilent (collect false ip readers).0
        × (length (collect false ip readers).0 ≡ length readers)
        × ((collect false ip readers).1 ≡ none)
  unfolding collect mmdb_record
  collect-IsUnreadable ip [] unreadable = (tt, refl, refl)
  collect-IsUnreadable ip (r ∷ readers) ((offset, e, reached, failed), unreadable) =
      let (silent, counted, clean) = collect-IsUnreadable ip readers unreadable in
      rw (collect, reached)
        (((λ path. rw (mmdb_record, failed) refl), silent), omega (arith, counted), clean)

  -- Where the address is in every database and none of the records it leads to decodes, a lookup
  -- that decodes reports no error: it says that data was found, and gives no fields. So the request
  -- is not decided by `failOpen`, but by the rules on fields that are all empty.
  pub mmdb_lookup-IsUnreadable :
      (net : NetOps) (p : Plugin net) (a : Ip) (req : Request) (readers : List Reader)
      (defs : List FieldDef)
      → readers ≢ []
      → All (IsUnreadable (some a)) readers
      → (mmdb_lookup ops f false readers (some a) defs
          ≡ record { fields = []; found = true; error = none })
        × (decide net
              (λ ip. mmdb_lookup ops f false readers (some ip) defs)
              ops
              p
              a
              req
              (mmdb_lookup ops f false readers (some a) defs)
            ≡ finish net p (apply_headers net p.header_map a [] req) (evaluate ops p.rules [] true))
  unfolding mmdb_lookup extract_fields decide
  mmdb_lookup-IsUnreadable net p a req [] defs some_reader unreadable = absurd (some_reader refl)
  mmdb_lookup-IsUnreadable net p a req (r ∷ readers) defs some_reader unreadable =
      let (silent, counted, clean) = collect-IsUnreadable (some a) (r ∷ readers) unreadable in
      let found : (length (collect false (some a) (r ∷ readers)).0 == 0) ≡ false =
        ground (arith, counted) in
      let looked_up : mmdb_lookup ops f false (r ∷ readers) (some a) defs
          ≡ record { fields = []; found = true; error = none } =
        rw
          (
            mmdb_lookup,
            found,
            clean,
            extract_fields,
            add_fields-IsSilent (collect false (some a) (r ∷ readers)).0 defs [] silent,
          )
          refl in
      (looked_up, (rw looked_up refl))
