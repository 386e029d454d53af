-- ===== src/Fields/Catalog/Networks.antt =====
-- fields.go, `fieldDefs`: companies and autonomous systems.
use traefik_plugin_ipgeoloca.Base.{List, [], ◌∷◌}
use traefik_plugin_ipgeoloca.Base.Text.{codes}
use traefik_plugin_ipgeoloca.Fields.{
  FieldDef, field_def, kind_asn, kind_list, kind_number, kind_string,
}

unfoldable pub networks : List FieldDef
networks =
    field_def (codes "company_name") kind_string
      (codes "company.name"
        ∷ codes "network.company.name"
        ∷ codes "company_name"
        ∷ codes "isp"
        ∷ [])
      ([])
    ∷ field_def (codes "company_domain") kind_string
        (codes "company.domain" ∷ codes "network.company.domain" ∷ codes "company_domain" ∷ []) ([])
    ∷ field_def (codes "company_type") kind_string
        (codes "company.type" ∷ codes "network.company.type" ∷ codes "company_type" ∷ []) ([])
    ∷ field_def (codes "isp_name") kind_string
        (codes "company.name"
          ∷ codes "network.company.name"
          ∷ codes "isp"
          ∷ codes "company_name"
          ∷ [])
        ([])
    ∷ field_def (codes "organization_name") kind_string
        (codes "company.name"
          ∷ codes "network.company.name"
          ∷ codes "asn.organization"
          ∷ codes "network.asn.organization"
          ∷ codes "organization"
          ∷ [])
        ([])
    ∷ field_def (codes "asn") kind_asn
        (codes "asn.as_number"
          ∷ codes "network.asn.as_number"
          ∷ codes "asn.asn"
          ∷ codes "as_number"
          ∷ codes "asn"
          ∷ [])
        ([])
    ∷ field_def (codes "asn_number") kind_number
        (codes "asn.as_number" ∷ codes "network.asn.as_number" ∷ codes "as_number" ∷ []) ([])
    ∷ field_def (codes "asn_name") kind_string
        (codes "asn.as_name" ∷ codes "network.asn.as_name" ∷ codes "as_name" ∷ []) ([])
    ∷ field_def (codes "asn_organization") kind_string
        (codes "asn.organization" ∷ codes "network.asn.organization" ∷ codes "organization" ∷ [])
        ([])
    ∷ field_def (codes "asn_country") kind_string
        (codes "asn.country_code"
          ∷ codes "asn.country"
          ∷ codes "network.asn.country"
          ∷ codes "asn_country"
          ∷ [])
        ([])
    ∷ field_def (codes "asn_domain") kind_string
        (codes "asn.domain" ∷ codes "network.asn.domain" ∷ []) ([])
    ∷ field_def (codes "asn_type") kind_string (codes "asn.type" ∷ codes "network.asn.type" ∷ [])
        ([])
    ∷ field_def (codes "asn_rir") kind_string
        (codes "asn.rir" ∷ codes "asn.whois_host" ∷ codes "network.asn.rir" ∷ []) ([])
    ∷ field_def (codes "asn_date_allocated") kind_string
        (codes "asn.date_allocated" ∷ codes "network.asn.date_allocated" ∷ []) ([])
    ∷ field_def (codes "asn_allocation_status") kind_string
        (codes "asn.allocation_status" ∷ codes "network.asn.allocation_status" ∷ []) ([])
    ∷ field_def (codes "asn_routes") kind_list
        (codes "asn.routes" ∷ codes "network.asn.routes" ∷ []) ([])
    ∷ field_def (codes "asn_peers") kind_list (codes "asn.peers" ∷ codes "network.asn.peers" ∷ [])
        ([])
    ∷ field_def (codes "asn_upstreams") kind_list
        (codes "asn.upstreams" ∷ codes "network.asn.upstreams" ∷ []) ([])
    ∷ field_def (codes "asn_downstreams") kind_list
        (codes "asn.downstreams" ∷ codes "network.asn.downstreams" ∷ []) ([])
    ∷ []
