-- ===== src/Fields/Catalog.antt =====
-- fields.go: the catalog of fields, by name.
pub mod Places
pub mod Networks
pub mod Threats
pub mod Contacts
use traefik_plugin_ipgeoloca.Base.{ℕ, List, [], ◌∷◌, ◌++◌}
use traefik_plugin_ipgeoloca.Base.Text.{Str}
use traefik_plugin_ipgeoloca.Base.Sorting.{sort_names}
use traefik_plugin_ipgeoloca.Base.Dict.{Dict, insert}
use traefik_plugin_ipgeoloca.Fields.{FieldDef}
use traefik_plugin_ipgeoloca.Fields.Catalog.Places.{places}
use traefik_plugin_ipgeoloca.Fields.Catalog.Networks.{networks}
use traefik_plugin_ipgeoloca.Fields.Catalog.Threats.{threats}
use traefik_plugin_ipgeoloca.Fields.Catalog.Contacts.{contacts}

unfoldable pub field_defs : List FieldDef
field_defs = places ++ (networks ++ (threats ++ contacts))

-- The loop of `catalog`.
unfoldable pub index_by_name : List FieldDef → Dict FieldDef → Dict FieldDef
index_by_name [] out = out
index_by_name (f ∷ fs) out = index_by_name fs (insert f.name f out)

unfoldable pub catalog : Dict FieldDef
catalog = index_by_name field_defs []

unfoldable pub names_of : List FieldDef → List Str
names_of [] = []
names_of (f ∷ fs) = f.name ∷ names_of fs

unfoldable pub field_names : List Str
field_names = sort_names (names_of field_defs)
