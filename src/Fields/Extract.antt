-- ===== src/Fields/Extract.antt =====
-- fields.go, `extract`, and provider.go, `extractFields` and `mmdbRecord.value`: which record and
-- which path a field is taken from.
use traefik_plugin_ipgeoloca.Base.{
  ℕ, List, [], ◌∷◌, Option, none, some, Bool, true, false, ◌==◌, not, if◌then◌else◌, length, Result,
  ok, err,
}
use traefik_plugin_ipgeoloca.Base.Text.{Str, split}
use traefik_plugin_ipgeoloca.Base.Dict.{Dict, insert}
use traefik_plugin_ipgeoloca.Source.{Error}
use traefik_plugin_ipgeoloca.Value.{Value}
use traefik_plugin_ipgeoloca.Value.Floats.{FloatOps}
use traefik_plugin_ipgeoloca.Reader.{Reader}
use traefik_plugin_ipgeoloca.Reader.Records.{lookup_record_at, value}
use traefik_plugin_ipgeoloca.Fields.{Kind, kind_string, FieldDef, Formatter, format, resolve_path}

-- `lookupRecord`: the value at a path, if there is one.
abbrev pub LookupRecord : Type 0
LookupRecord = Str → Option Value

-- `mapRecord`
unfoldable pub map_record : Value → LookupRecord
map_record decoded path = resolve_path decoded path

abbrev pub of_decoded : Str → Result Error Value → Option Value
of_decoded path (err e) = none
of_decoded path (ok v) = resolve_path v path

abbrev pub of_sought : Result Error (Option Value) → Option Value
of_sought (err e) = none
of_sought (ok o) = o

-- `mmdbRecord` without the record that it keeps between two paths (Fields/Memo), decoded each time.
unfoldable pub mmdb_record : Reader → ℕ → Bool → LookupRecord
mmdb_record r offset seek_only path =
    if not seek_only
    then of_decoded path (lookup_record_at r offset)
    else of_sought (value r offset (split b'.' path))

module _ (ops : FloatOps) (f : Formatter) where
  -- The loop over the paths: the first text that is not empty.
  unfoldable pub from_paths : LookupRecord → Kind → List Str → Option Str
  from_paths rec kind [] = none
  from_paths rec kind (path ∷ paths) =
      let rest = from_paths rec kind paths in
      elim (rec path) [
        | none ↦ rest
        | some raw ↦
            let text = format ops f raw kind in if length text == 0 then rest else some text
      ]

  -- The loop over the presence paths.
  unfoldable pub is_present : LookupRecord → List Str → Bool
  is_present rec [] = false
  is_present rec (path ∷ paths) =
      let rest = is_present rec paths in
      elim (rec path) [
        | none ↦ rest
        | some raw ↦ if length (format ops f raw kind_string) == 0 then rest else true
      ]

  unfoldable pub extract : LookupRecord → FieldDef → Option Str
  extract rec def = elim (from_paths rec def.kind def.paths) [
    | some text ↦ some text
    | none ↦ if is_present rec def.presence then some f.true_value else none
  ]

  -- The first record that supplies the field.
  unfoldable pub first_record : List LookupRecord → FieldDef → Option Str
  first_record [] def = none
  first_record (rec ∷ records) def = elim (extract rec def) [
    | some text ↦ some text
    | none ↦ first_record records def
  ]

  -- The loop over the fields.
  unfoldable pub add_fields : List LookupRecord → List FieldDef → Dict Str → Dict Str
  add_fields records [] out = out
  add_fields records (def ∷ defs) out = elim (first_record records def) [
    | none ↦ add_fields records defs out
    | some text ↦ add_fields records defs (insert def.name text out)
  ]

  unfoldable pub extract_fields : List LookupRecord → List FieldDef → Dict Str
  extract_fields records defs = add_fields records defs []
