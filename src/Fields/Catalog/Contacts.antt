-- ===== src/Fields/Catalog/Contacts.antt =====
-- fields.go, `fieldDefs`: residential proxy and hosting databases, and abuse contacts.
use traefik_plugin_ipgeoloca.Base.{List, [], ◌∷◌}
use traefik_plugin_ipgeoloca.Base.Text.{codes}
use traefik_plugin_ipgeoloca.Fields.{FieldDef, field_def, kind_list, kind_string}

unfoldable pub contacts : List FieldDef
contacts =
    field_def (codes "residential_proxy_provider") kind_string
      (codes "residential_proxy.provider_name"
        ∷ codes "residential_proxy_provider_name"
        ∷ codes "proxy_provider"
        ∷ [])
      ([])
    ∷ field_def (codes "residential_proxy_last_seen") kind_string
        (codes "residential_proxy.last_seen"
          ∷ codes "residential_proxy_last_seen"
          ∷ codes "last_seen"
          ∷ [])
        ([])
    ∷ field_def (codes "hosting_provider") kind_string
        (codes "hosting_provider"
          ∷ codes "hosting.provider_name"
          ∷ codes "hosting.provider"
          ∷ codes "hosting.name"
          ∷ [])
        ([])
    ∷ field_def (codes "abuse_name") kind_string (codes "abuse.name" ∷ codes "abuse_name" ∷ []) ([])
    ∷ field_def (codes "abuse_email") kind_list
        (codes "abuse.emails" ∷ codes "abuse.email" ∷ codes "abuse_email" ∷ []) ([])
    ∷ field_def (codes "abuse_phone") kind_list
        (codes "abuse.phone_numbers" ∷ codes "abuse.phone" ∷ codes "abuse_phone" ∷ []) ([])
    ∷ field_def (codes "abuse_address") kind_string
        (codes "abuse.address" ∷ codes "abuse_address" ∷ []) ([])
    ∷ field_def (codes "abuse_country_code") kind_string
        (codes "abuse.country_code" ∷ codes "abuse.country" ∷ codes "abuse_country" ∷ []) ([])
    ∷ field_def (codes "abuse_kind") kind_string (codes "abuse.kind" ∷ codes "abuse_kind" ∷ []) ([])
    ∷ field_def (codes "abuse_route") kind_string
        (codes "abuse.route" ∷ codes "abuse.network" ∷ codes "abuse_route" ∷ []) ([])
    ∷ []
