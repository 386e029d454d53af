-- ===== src/Fields.antt =====
-- fields.go: how a value found in a record becomes the text of a field.
pub mod Extract
pub mod Catalog
pub mod Memo
use traefik_plugin_ipgeoloca.Base.{
  ℕ, suc, ◌+◌, List, [], ◌∷◌, ◌++◌, Option, none, some, Bool, true, false, not, ◌&&◌, ◌||◌, ltb,
  ◌==◌, if◌then◌else◌, length,
}
use traefik_plugin_ipgeoloca.Base.Text.{
  Str, codes, str_eq, trim_space, has_prefix, trim_prefix, split, join, decimal,
}
use traefik_plugin_ipgeoloca.Base.Sorting.{str_ltb}
use traefik_plugin_ipgeoloca.Base.Int.{ℤ, pos, negsuc, eq_ℤ}
use traefik_plugin_ipgeoloca.Base.Dict.{Dict, lookup}
use traefik_plugin_ipgeoloca.Value.{
  Value, Items, Entries, nil, str, bytes, float, uint, int, bool, object, array, empty, item, end,
  entry,
}
use traefik_plugin_ipgeoloca.Value.Floats.{FloatOps}
use traefik_plugin_ipgeoloca.Value.Distinct.{value_at}

pub data Kind : Type 0 where
  kind_string kind_bool kind_number kind_asn kind_list : Kind

pub record FieldDef : Type 0 where
  pub name : Str
  pub kind : Kind
  pub paths : List Str
  pub presence : List Str

abbrev pub field_def : Str → Kind → List Str → List Str → FieldDef
field_def name kind paths presence = record {
  name = name;
  kind = kind;
  paths = paths;
  presence = presence;
}

pub record Formatter : Type 0 where
  pub language : Str
  pub list_separator : Str
  pub true_value : Str
  pub false_value : Str

abbrev is_asn : Kind → Bool
is_asn kind_asn = true
is_asn _ = false

abbrev is_bool : Kind → Bool
is_bool kind_bool = true
is_bool _ = false

abbrev is_number : Kind → Bool
is_number kind_number = true
is_number _ = false

unfoldable pub format_asn : Str → Str
format_asn value =
    let s = trim_space value in
    if length s == 0 || (str_eq s (codes "0") || str_eq s (codes "AS0"))
    then []
    else if has_prefix s (codes "AS")
    then s
    else codes "AS" ++ s

unfoldable pub bool_string : Formatter → Bool → Str
bool_string f b = if b then f.true_value else f.false_value

-- The case of a string.
unfoldable pub format_text : Formatter → Str → Kind → Str
format_text f v kind =
    let s = trim_space v in
    if is_asn kind
    then format_asn s
    else if is_bool kind
    then bool_string f (str_eq s (codes "true") || (str_eq s (codes "1") || str_eq s (codes "yes")))
    else if is_number kind && has_prefix s (codes "AS")
    then trim_prefix s (codes "AS")
    else s

-- The cases of the two integer types: the digits, and whether the number is 0.
unfoldable pub format_digits : Formatter → Str → Bool → Kind → Str
format_digits f s is_zero kind =
    if is_asn kind then format_asn s else if is_bool kind then bool_string f (not is_zero) else s

-- strconv.FormatInt(v, 10)
unfoldable pub decimal_int : ℤ → Str
decimal_int (pos n) = decimal n
decimal_int (negsuc n) = b'-' ∷ decimal (suc n)

-- sort.Strings, on the keys that the texts stand under.
unfoldable pub insert_sorted : Str → Str → Dict Str → Dict Str
insert_sorted k s [] = (k, s) ∷ []
insert_sorted k s ((j, t) ∷ m) =
    let rest = insert_sorted k s m in if str_ltb k j then (k, s) ∷ (j, t) ∷ m else (j, t) ∷ rest

unfoldable pub sort_keys : Dict Str → Dict Str
sort_keys [] = []
sort_keys ((k, s) ∷ m) = insert_sorted k s (sort_keys m)

-- The first text that is not empty.
unfoldable pub first_text : Dict Str → Str
first_text [] = []
first_text ((k, s) ∷ m) = let rest = first_text m in if length s == 0 then rest else s

-- The loop over the preferred keys, over the texts of the entries; none goes on to the sorted keys.
unfoldable pub preferred_text : List Str → Dict Str → Option Str
preferred_text [] texts = none
preferred_text (key ∷ keys) texts =
    let rest = preferred_text keys texts in
    if length key == 0
    then rest
    else elim (lookup key texts) [ none ↦ rest | some s ↦ if length s == 0 then rest else some s ]

-- The case of a map, from the text of each entry.
unfoldable pub object_text : Formatter → Dict Str → Str
object_text f texts = elim (preferred_text (f.language ∷ codes "en" ∷ codes "name" ∷ []) texts) [
  | some s ↦ s
  | none ↦ first_text (sort_keys texts)
]

module _ (ops : FloatOps) (f : Formatter) where
  unfoldable mutual
    pub format : Value → Kind → Str
    format nil kind = []
    format (str s) kind = format_text f s kind
    format (bool b) kind = bool_string f b
    format (float v) kind = ops.format_float v
    format (uint v) kind = format_digits f (decimal v) (v == 0) kind
    format (int v) kind = format_digits f (decimal_int v) (eq_ℤ v (pos 0)) kind
    format (array xs) kind = join f.list_separator (format_items xs)
    format (bytes b) kind = b
    format (object es) kind = object_text f (format_entries es kind)

    -- The texts of the items, the empty ones left out.
    pub format_items : Items → List Str
    format_items empty = []
    format_items (item x xs) =
        let s = format x kind_string in
        let rest = format_items xs in if length s == 0 then rest else s ∷ rest

    -- The text under each key; the loops of the code stop at the first that they take.
    pub format_entries : Entries → Kind → Dict Str
    format_entries end kind = []
    format_entries (entry k v es) kind = (k, format v kind) ∷ format_entries es kind

-- `resolvePath`: the value at the path, unless it is nil.
unfoldable pub not_nil : Option Value → Option Value
not_nil none = none
not_nil (some nil) = none
not_nil (some v) = some v

unfoldable pub resolve_path : Value → Str → Option Value
resolve_path rec path = not_nil (value_at (split b'.' path) rec)
