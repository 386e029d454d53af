-- ===== src/Fields/Catalog/Threats.antt =====
-- fields.go, `fieldDefs`: security and threat intelligence.
use traefik_plugin_ipgeoloca.Base.{List, [], ◌∷◌}
use traefik_plugin_ipgeoloca.Base.Text.{codes}
use traefik_plugin_ipgeoloca.Fields.{
  FieldDef, field_def, kind_bool, kind_list, kind_number, kind_string,
}

unfoldable pub threats : List FieldDef
threats =
    field_def (codes "threat_score") kind_number
      (codes "threat_score" ∷ codes "security.threat_score" ∷ []) ([])
    ∷ field_def (codes "is_tor") kind_bool (codes "is_tor" ∷ codes "security.is_tor" ∷ []) ([])
    ∷ field_def (codes "is_proxy") kind_bool (codes "is_proxy" ∷ codes "security.is_proxy" ∷ [])
        ([])
    ∷ field_def (codes "is_vpn") kind_bool (codes "is_vpn" ∷ codes "security.is_vpn" ∷ []) ([])
    ∷ field_def (codes "is_relay") kind_bool (codes "is_relay" ∷ codes "security.is_relay" ∷ [])
        ([])
    ∷ field_def (codes "is_residential_proxy") kind_bool
        (codes "is_residential_proxy" ∷ codes "security.is_residential_proxy" ∷ [])
        (codes "proxy_provider"
          ∷ codes "residential_proxy.provider_name"
          ∷ codes "residential_proxy_provider_name"
          ∷ [])
    ∷ field_def (codes "is_anonymous") kind_bool
        (codes "is_anonymous" ∷ codes "security.is_anonymous" ∷ []) ([])
    ∷ field_def (codes "is_known_attacker") kind_bool
        (codes "is_known_attacker" ∷ codes "security.is_known_attacker" ∷ []) ([])
    ∷ field_def (codes "is_bot") kind_bool (codes "is_bot" ∷ codes "security.is_bot" ∷ []) ([])
    ∷ field_def (codes "is_spam") kind_bool (codes "is_spam" ∷ codes "security.is_spam" ∷ []) ([])
    ∷ field_def (codes "is_cloud_provider") kind_bool
        (codes "is_cloud_provider" ∷ codes "security.is_cloud_provider" ∷ [])
        (codes "hosting_provider" ∷ codes "hosting.provider_name" ∷ [])
    ∷ field_def (codes "cloud_provider") kind_string
        (codes "cloud_provider_name"
          ∷ codes "security.cloud_provider"
          ∷ codes "cloud_provider"
          ∷ [])
        ([])
    ∷ field_def (codes "proxy_type") kind_string
        (codes "proxy_type" ∷ codes "security.proxy_type" ∷ []) ([])
    ∷ field_def (codes "proxy_provider") kind_list
        (codes "proxy_provider_names"
          ∷ codes "security.proxy_provider"
          ∷ codes "proxy_provider"
          ∷ [])
        ([])
    ∷ field_def (codes "vpn_provider") kind_list
        (codes "vpn_provider_names" ∷ codes "security.vpn_provider" ∷ codes "vpn_provider" ∷ [])
        ([])
    ∷ field_def (codes "relay_provider") kind_string
        (codes "relay_provider_name"
          ∷ codes "security.relay_provider"
          ∷ codes "relay_provider"
          ∷ [])
        ([])
    ∷ field_def (codes "proxy_confidence") kind_number
        (codes "proxy_confidence_score" ∷ codes "security.proxy_confidence_score" ∷ []) ([])
    ∷ field_def (codes "vpn_confidence") kind_number
        (codes "vpn_confidence_score" ∷ codes "security.vpn_confidence_score" ∷ []) ([])
    ∷ field_def (codes "proxy_last_seen") kind_string
        (codes "proxy_last_seen" ∷ codes "security.proxy_last_seen" ∷ []) ([])
    ∷ field_def (codes "vpn_last_seen") kind_string
        (codes "vpn_last_seen" ∷ codes "security.vpn_last_seen" ∷ []) ([])
    ∷ field_def (codes "is_known_good_bot") kind_bool
        (codes "is_known_good_bot" ∷ codes "security.is_known_good_bot" ∷ []) ([])
    ∷ field_def (codes "bot_type") kind_string (codes "bot_type" ∷ codes "security.bot_type" ∷ [])
        ([])
    ∷ field_def (codes "bot_operator") kind_string
        (codes "bot_operator_name"
          ∷ codes "security.bot_operator_name"
          ∷ codes "bot_owner_name"
          ∷ codes "security.bot_owner_name"
          ∷ [])
        ([])
    ∷ field_def (codes "bot_confidence") kind_number
        (codes "bot_confidence_score" ∷ codes "security.bot_confidence_score" ∷ []) ([])
    ∷ field_def (codes "bot_last_seen") kind_string
        (codes "bot_last_seen" ∷ codes "security.bot_last_seen" ∷ []) ([])
    ∷ field_def (codes "is_corporate_gateway") kind_bool
        (codes "is_corporate_gateway" ∷ codes "security.is_corporate_gateway" ∷ []) ([])
    ∷ field_def (codes "corporate_gateway_provider") kind_string
        (codes "corporate_gateway_provider_name"
          ∷ codes "security.corporate_gateway_provider_name"
          ∷ [])
        ([])
    ∷ field_def (codes "corporate_gateway_type") kind_string
        (codes "corporate_gateway_type" ∷ codes "security.corporate_gateway_type" ∷ []) ([])
    ∷ []
