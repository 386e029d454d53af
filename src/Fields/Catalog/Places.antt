-- ===== src/Fields/Catalog/Places.antt =====
-- fields.go, `fieldDefs`: countries, subdivisions and positions.
use traefik_plugin_ipgeoloca.Base.{List, [], ◌∷◌}
use traefik_plugin_ipgeoloca.Base.Text.{codes}
use traefik_plugin_ipgeoloca.Fields.{
  FieldDef, field_def, kind_bool, kind_list, kind_number, kind_string,
}

unfoldable pub places : List FieldDef
places =
    field_def (codes "country_code") kind_string
      (codes "location.country.code2"
        ∷ codes "country.code2"
        ∷ codes "location.country_code2"
        ∷ codes "country_code2"
        ∷ codes "country_code"
        ∷ [])
      ([])
    ∷ field_def (codes "country_code3") kind_string
        (codes "location.country.code3"
          ∷ codes "country.code3"
          ∷ codes "location.country_code3"
          ∷ codes "country_code3"
          ∷ [])
        ([])
    ∷ field_def (codes "country_code_ioc") kind_string
        (codes "location.country.code_ioc"
          ∷ codes "country.code_ioc"
          ∷ codes "country_code_ioc"
          ∷ [])
        ([])
    ∷ field_def (codes "country_name") kind_string
        (codes "location.country.name"
          ∷ codes "country.name"
          ∷ codes "location.country_name"
          ∷ codes "country_name"
          ∷ [])
        ([])
    ∷ field_def (codes "country_name_official") kind_string
        (codes "location.country.name_official"
          ∷ codes "country.name_official"
          ∷ codes "location.country_name_official"
          ∷ codes "country_name_official"
          ∷ [])
        ([])
    ∷ field_def (codes "country_capital") kind_string
        (codes "location.country.capital"
          ∷ codes "country.capital"
          ∷ codes "location.country_capital"
          ∷ codes "country_capital"
          ∷ [])
        ([])
    ∷ field_def (codes "is_eu") kind_bool (codes "location.is_eu" ∷ codes "is_eu" ∷ []) ([])
    ∷ field_def (codes "continent_code") kind_string
        (codes "location.country.continent.code"
          ∷ codes "country.continent.code"
          ∷ codes "location.continent_code"
          ∷ codes "continent_code"
          ∷ [])
        ([])
    ∷ field_def (codes "continent_name") kind_string
        (codes "location.country.continent.name"
          ∷ codes "country.continent.name"
          ∷ codes "location.continent_name"
          ∷ codes "continent_name"
          ∷ [])
        ([])
    ∷ field_def (codes "currency_code") kind_string
        (codes "location.country.currency.code"
          ∷ codes "country.currency.code"
          ∷ codes "currency.code"
          ∷ codes "currency_code"
          ∷ [])
        ([])
    ∷ field_def (codes "currency_name") kind_string
        (codes "location.country.currency.name"
          ∷ codes "country.currency.name"
          ∷ codes "currency.name"
          ∷ codes "currency_name"
          ∷ [])
        ([])
    ∷ field_def (codes "currency_symbol") kind_string
        (codes "location.country.currency.symbol"
          ∷ codes "country.currency.symbol"
          ∷ codes "currency.symbol"
          ∷ codes "currency_symbol"
          ∷ [])
        ([])
    ∷ field_def (codes "calling_code") kind_string
        (codes "location.country.metadata.calling_code"
          ∷ codes "country.metadata.calling_code"
          ∷ codes "country_metadata.calling_code"
          ∷ codes "calling_code"
          ∷ [])
        ([])
    ∷ field_def (codes "languages") kind_list
        (codes "location.country.metadata.languages"
          ∷ codes "country.metadata.languages"
          ∷ codes "country_metadata.languages"
          ∷ codes "languages"
          ∷ [])
        ([])
    ∷ field_def (codes "tld") kind_string
        (codes "location.country.metadata.tld"
          ∷ codes "country.metadata.tld"
          ∷ codes "country_metadata.tld"
          ∷ codes "tld"
          ∷ [])
        ([])
    ∷ field_def (codes "state_code") kind_string
        (codes "location.state.code"
          ∷ codes "state.code"
          ∷ codes "location.state_code"
          ∷ codes "state_code"
          ∷ [])
        ([])
    ∷ field_def (codes "state_name") kind_string
        (codes "location.state.name"
          ∷ codes "state.name"
          ∷ codes "location.state_prov"
          ∷ codes "state_prov"
          ∷ codes "state_name"
          ∷ [])
        ([])
    ∷ field_def (codes "district_name") kind_string
        (codes "location.district.name"
          ∷ codes "district.name"
          ∷ codes "location.district"
          ∷ codes "district"
          ∷ codes "district_name"
          ∷ [])
        ([])
    ∷ field_def (codes "city_name") kind_string
        (codes "location.city.name"
          ∷ codes "city.name"
          ∷ codes "location.city"
          ∷ codes "city"
          ∷ codes "city_name"
          ∷ [])
        ([])
    ∷ field_def (codes "zip_code") kind_string
        (codes "location.zipcode"
          ∷ codes "location.zip_code"
          ∷ codes "zipcode"
          ∷ codes "zip_code"
          ∷ codes "postal_code"
          ∷ [])
        ([])
    ∷ field_def (codes "latitude") kind_number
        (codes "location.coordinates.latitude" ∷ codes "location.latitude" ∷ codes "latitude" ∷ [])
        ([])
    ∷ field_def (codes "longitude") kind_number
        (codes "location.coordinates.longitude"
          ∷ codes "location.longitude"
          ∷ codes "longitude"
          ∷ [])
        ([])
    ∷ field_def (codes "geoname_id") kind_string
        (codes "location.geoname_id" ∷ codes "geoname_id" ∷ codes "geo_name_id" ∷ []) ([])
    ∷ field_def (codes "accuracy_radius") kind_number
        (codes "location.accuracy_radius" ∷ codes "accuracy_radius" ∷ []) ([])
    ∷ field_def (codes "confidence") kind_string
        (codes "location.confidence" ∷ codes "confidence" ∷ []) ([])
    ∷ field_def (codes "dma_code") kind_string (codes "location.dma_code" ∷ codes "dma_code" ∷ [])
        ([])
    ∷ field_def (codes "time_zone") kind_string
        (codes "time_zone"
          ∷ codes "location.time_zone"
          ∷ codes "time_zone.name"
          ∷ codes "timezone"
          ∷ codes "time_zone_name"
          ∷ [])
        ([])
    ∷ field_def (codes "connection_type") kind_string
        (codes "connection_type" ∷ codes "location.connection_type" ∷ []) ([])
    ∷ []
