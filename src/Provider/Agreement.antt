-- ===== src/Provider/Agreement.antt =====
-- provider.go: the two ways of reading a record, side by side.
use traefik_plugin_ipgeoloca.Base.{
  ℕ, suc, ◌≡◌, refl, ap, ◌∙◌, List, [], ◌∷◌, Option, none, some, true, false, length, Result, ok,
  err, All, ◌⊎◌, arith, Option-cases, inl, inr,
}
use traefik_plugin_ipgeoloca.Base.Text.{Str, split}
use traefik_plugin_ipgeoloca.Base.Dict.{Dict, insert}
use traefik_plugin_ipgeoloca.Source.{Error}
use traefik_plugin_ipgeoloca.Source.Serves.{Serves}
use traefik_plugin_ipgeoloca.Value.{Value}
use traefik_plugin_ipgeoloca.Value.Floats.{FloatOps}
use traefik_plugin_ipgeoloca.Reader.{Reader}
use traefik_plugin_ipgeoloca.Reader.Tree.{Ip, lookup_offset}
use traefik_plugin_ipgeoloca.Reader.Strategies.{Holds, lookup_record_at-Holds, value-Holds}
use traefik_plugin_ipgeoloca.Fields.{Kind, FieldDef, Formatter, format, not_nil, resolve_path}
use traefik_plugin_ipgeoloca.Fields.Extract.{
  LookupRecord, mmdb_record, from_paths, is_present, extract, first_record, add_fields,
  extract_fields,
}
use traefik_plugin_ipgeoloca.Provider.{collect, mmdb_lookup}

-- One record answers like the other, but for nil.
abbrev AgreesButNil : LookupRecord → LookupRecord → Type 0
AgreesButNil rec rec' = (path : Str) → rec path ≡ not_nil (rec' path)

lookup_cases :
    (o : Result Error (Option ℕ))
    → ((e : Error) × (o ≡ err e)) ⊎ ((o ≡ ok none) ⊎ ((offset : ℕ) × (o ≡ ok (some offset))))
lookup_cases (err e) = inl (e, refl)
lookup_cases (ok none) = inr (inl refl)
lookup_cases (ok (some offset)) = inr (inr (offset, refl))

abbrev AllAgree : List LookupRecord → List LookupRecord → Type 0
AllAgree [] [] = Unit
AllAgree (rec ∷ recs) (rec' ∷ recs') = AgreesButNil rec rec' × AllAgree recs recs'
AllAgree _ _ = ⊥

-- Where a database has a record for the address, it can be read: it decodes, and none of its maps
-- repeats a key.
unfoldable pub HasReadableRecord : Option Ip → Reader → Type 0
HasReadableRecord ip r =
    (offset : ℕ)
    → lookup_offset r ip ≡ ok (some offset)
    → (content : List ℕ) × Serves r.src content × ((v : Value) × Holds content r.data_base offset v)

mmdb_record_agree :
    (r : Reader) (content : List ℕ) (offset : ℕ) (v : Value)
    → Serves r.src content
    → Holds content r.data_base offset v
    → AgreesButNil (mmdb_record r offset false) (mmdb_record r offset true)
unfolding mmdb_record resolve_path
mmdb_record_agree r content offset v serves holds path =
    rw
      (
        lookup_record_at-Holds r content serves offset v holds,
        value-Holds r content serves offset (split b'.' path) v holds,
      )
      refl

collect_agree :
    (ip : Option Ip) (readers : List Reader)
    → All (HasReadableRecord ip) readers
    → AllAgree (collect false ip readers).0 (collect true ip readers).0
      × ((collect false ip readers).1 ≡ (collect true ip readers).1)
unfolding collect HasReadableRecord
collect_agree ip [] h = (tt, refl)
collect_agree ip (r ∷ readers) (here, there) =
    let (same, errors) = collect_agree ip readers there in
    elim (lookup_cases (lookup_offset r ip)) [
      | inl (e, failed) ↦ rw (failed, collect) (same, refl)
      | inr (inl missing) ↦ rw (missing, collect) (same, errors)
      | inr (inr (offset, found)) ↦
          let (content, serves, (v, holds)) = here offset found in
          rw (found, collect) ((mmdb_record_agree r content offset v serves holds, same), errors)
    ]

module _ (ops : FloatOps) (f : Formatter) where
  module _ (rec rec' : LookupRecord) (agrees : AgreesButNil rec rec') where
    from_paths_agree :
        (kind : Kind) (paths : List Str)
        → from_paths ops f rec kind paths ≡ from_paths ops f rec' kind paths
    unfolding from_paths not_nil format
    from_paths_agree kind [] = refl
    from_paths_agree kind (path ∷ paths) = ground (arith, agrees path, from_paths_agree kind paths)

    is_present_agree : (paths : List Str) → is_present ops f rec paths ≡ is_present ops f rec' paths
    unfolding is_present not_nil format
    is_present_agree [] = refl
    is_present_agree (path ∷ paths) = ground (arith, agrees path, is_present_agree paths)

    extract_agree : (def : FieldDef) → extract ops f rec def ≡ extract ops f rec' def
    unfolding extract
    extract_agree def =
        ground (arith, from_paths_agree def.kind def.paths, is_present_agree def.presence)

  first_record_agree :
      (recs recs' : List LookupRecord) (def : FieldDef)
      → AllAgree recs recs'
      → first_record ops f recs def ≡ first_record ops f recs' def
  unfolding first_record
  first_record_agree [] [] def h = refl
  first_record_agree (rec ∷ recs) (rec' ∷ recs') def (here, there) =
      ground (arith, extract_agree rec rec' here def, first_record_agree recs recs' def there)
  first_record_agree [] (rec' ∷ recs') def h = absurd h
  first_record_agree (rec ∷ recs) [] def h = absurd h

  add_fields_agree :
      (recs recs' : List LookupRecord) (defs : List FieldDef) (out : Dict Str)
      → AllAgree recs recs'
      → add_fields ops f recs defs out ≡ add_fields ops f recs' defs out
  unfolding add_fields
  add_fields_agree recs recs' [] out h = refl
  add_fields_agree recs recs' (def ∷ defs) out h =
      let same = first_record_agree recs recs' def h in
      elim (Option-cases (first_record ops f recs' def)) [
        | inl absent ↦
            rw (same ∙ absent, add_fields, absent) (add_fields_agree recs recs' defs out h)
        | inr (text, present) ↦
            rw (same ∙ present, add_fields, present)
              (add_fields_agree recs recs' defs (insert def.name text out) h)
      ]

  length_agree : (recs recs' : List LookupRecord) → AllAgree recs recs' → length recs ≡ length recs'
  length_agree [] [] h = refl
  length_agree (rec ∷ recs) (rec' ∷ recs') h = ap suc (length_agree recs recs' h.1)
  length_agree [] (rec' ∷ recs') h = absurd h
  length_agree (rec ∷ recs) [] h = absurd h

  -- The strategy that the number of fields picks is not seen: seeking and decoding give a request
  -- the same fields, found or not, and the same error, where every database that has a record for
  -- the address has a readable one.
  pub mmdb_lookup-strategies :
      (readers : List Reader) (ip : Option Ip) (defs : List FieldDef)
      → All (HasReadableRecord ip) readers
      → mmdb_lookup ops f false readers ip defs ≡ mmdb_lookup ops f true readers ip defs
  unfolding mmdb_lookup extract_fields
  mmdb_lookup-strategies readers ip defs h =
      let (same, errors) = collect_agree ip readers h in
      ground (
        arith,
        errors,
        length_agree (collect false ip readers).0 (collect true ip readers).0 same,
        add_fields_agree (collect false ip readers).0 (collect true ip readers).0 defs [] same,
      )
