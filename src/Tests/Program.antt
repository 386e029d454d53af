-- ===== src/Tests/Program.antt =====
-- One name under which a run unfolds the definitions.
use traefik_plugin_ipgeoloca.Base.Text.{str_eq}
use traefik_plugin_ipgeoloca.Base.Int.{int32}
use traefik_plugin_ipgeoloca.Source.{mem_source, file_source, load_head, window_source}
use traefik_plugin_ipgeoloca.Value.{put, find, append}
use traefik_plugin_ipgeoloca.Decode.{
  big_endian_from, uint_loop, pointer_value, as_key, byte_at, decode_size, extended_type,
  type_and_size, read_uint, decode_pointer,
}
use traefik_plugin_ipgeoloca.Decode.Values.{
  decode_map, decode_array, decode_payload, decode_value, decode_at, decode,
}
use traefik_plugin_ipgeoloca.Decode.Seek.{
  skip_map, skip_array, skip_payload, skip_value, skip_at, skip, seek_map, seek_value, seek_at,
  seek,
}
use traefik_plugin_ipgeoloca.Base.Text.{
  to_upper, to_lower, trim_left, trim_right, trim_space, has_prefix, strip, trim_prefix, split,
  index_byte, last_index_byte,
}
use traefik_plugin_ipgeoloca.Base.Int.{int64, eq_ℤ}
use traefik_plugin_ipgeoloca.Base.Dict.{lookup, insert, erase, text_at, contains}
use traefik_plugin_ipgeoloca.Source.{mem_at, new_file_source, head_at, file_at, window_at}
use traefik_plugin_ipgeoloca.Value.Distinct.{push, value_at}
use traefik_plugin_ipgeoloca.Reader.{last_index_below, last_index_of_bytes}
use traefik_plugin_ipgeoloca.Reader.Coerce.{
  as_string, as_uint, string_entries, as_string_map, string_items, as_string_slice, index,
}
use traefik_plugin_ipgeoloca.Reader.Open.{
  as_map, metadata_of, check_metadata, metadata_start, read_metadata, locate_ipv4, open_in_memory,
  open_file,
}
use traefik_plugin_ipgeoloca.Reader.Tree.{
  to4, to16, node_records, address_bit, read_node, left_loop, find_ipv4_start, tree_loop,
  resolve_node, start_of, walk_from, lookup_offset,
}
use traefik_plugin_ipgeoloca.Reader.Records.{
  with_window, reader_source, lookup_record_at, value, lookup_record,
}
use traefik_plugin_ipgeoloca.Cache.{
  new_result_cache, lookup_previous, stored, unless_expired, get, add_entry, reset, length_previous,
}
use traefik_plugin_ipgeoloca.Cache.{put as put_entry}
use traefik_plugin_ipgeoloca.Cache.History.{apply_call, run, remember, remember_all}
use traefik_plugin_ipgeoloca.Config.{create_config}
use traefik_plugin_ipgeoloca.Rules.{
  normalize_asn, add_part, add_parts, add_values, upper_set, asn_set, security_rules_of, compile,
  check_rules, new_rule_set,
}
use traefik_plugin_ipgeoloca.Rules.Evaluate.{
  truthy, active, security_fields, required_fields, or_else, allow_check, block_check, list_check,
  flags, security_check, numeric, exceeds, threat_check, block_reason, decide_by, evaluate,
}
use traefik_plugin_ipgeoloca.Net.{header_values}
use traefik_plugin_ipgeoloca.ClientIp.{
  strip_brackets, strip_zone, trimmed_parts, split_values, parse_ip, peer_ip, ip_in_nets,
  forwarded_values, first_valid, first_untrusted, at_depth, choose, client_ip, is_shared_range,
  is_local_ip,
}
use traefik_plugin_ipgeoloca.Plugin.{
  set_header, delete_header, strip_managed_headers, apply_headers, finish, resolve, decide,
  serve_ip, serve_http,
}
use traefik_plugin_ipgeoloca.Database.{open_content, open_reader, changed}
use traefik_plugin_ipgeoloca.Provider.Refresh.{
  open_all, new_mmdb_provider, replacement, scan, scan_readers, swap, swap_readers, reset_cache,
  release, close,
}
use traefik_plugin_ipgeoloca.Provider.{
  flag_of, set_if_absent, proxy_type_of, derive_security, derive_in, derive_api_flags,
}
use traefik_plugin_ipgeoloca.Provider.Api.{
  first_line, lone_message, new_api_provider, redact, request_url, fetch, interpret, redact_error,
  answer, api_lookup,
}
use traefik_plugin_ipgeoloca.Base.Text.{join}
use traefik_plugin_ipgeoloca.Base.Dict.{keys}
use traefik_plugin_ipgeoloca.Base.Sorting.{str_ltb, insert_name, sort_names}
use traefik_plugin_ipgeoloca.Config.{or_default, default_mode, with_defaults}
use traefik_plugin_ipgeoloca.Fields.Catalog.{
  field_defs, index_by_name, catalog, names_of, field_names,
}
use traefik_plugin_ipgeoloca.Fields.Catalog.Places.{places}
use traefik_plugin_ipgeoloca.Fields.Catalog.Networks.{networks}
use traefik_plugin_ipgeoloca.Fields.Catalog.Threats.{threats}
use traefik_plugin_ipgeoloca.Fields.Catalog.Contacts.{contacts}
use traefik_plugin_ipgeoloca.HeaderMap.{
  capitalize, capitalize_all, is_known, header_name_for_field, add_preset_headers, preset_headers,
  add_header, add_headers, build_header_map, want_header_fields, want_all, definitions_of,
  select_fields,
}
use traefik_plugin_ipgeoloca.ClientIp.{cidr_text, parse_cidr, parse_cidrs}
use traefik_plugin_ipgeoloca.Plugin.{managed_header_names}
use traefik_plugin_ipgeoloca.Setup.{
  map_error, parse_duration, formatter_of, is_bad_status, watch_interval, networks_of, check_status,
  settings_of, plugin_of, mmdb_source_of, api_source_of, source_of, new_service, new_plugin,
}

unfoldable pub starting : Unit {0}
unfolding erase field_names join keys str_ltb insert_name sort_names or_default default_mode
    with_defaults field_defs index_by_name catalog names_of places networks threats contacts
    capitalize capitalize_all is_known header_name_for_field add_preset_headers preset_headers
    add_header add_headers build_header_map want_header_fields want_all definitions_of select_fields
    cidr_text parse_cidr parse_cidrs managed_header_names map_error parse_duration formatter_of
    is_bad_status watch_interval networks_of check_status settings_of plugin_of mmdb_source_of
    api_source_of source_of new_service new_plugin
starting = tt

unfoldable pub refreshing : Unit {0}
unfolding open_content open_reader changed open_all new_mmdb_provider replacement scan scan_readers
    swap swap_readers reset_cache release close reset
refreshing = tt

unfoldable pub asking : Unit {0}
unfolding str_eq to_upper to_lower trim_left trim_right trim_space index_byte insert put find
    flag_of set_if_absent proxy_type_of derive_security derive_in derive_api_flags first_line
    lone_message new_api_provider redact request_url fetch interpret redact_error answer api_lookup
asking = tt

unfoldable pub reading : Unit {0}
unfolding mem_at new_file_source head_at file_at window_at push value_at has_prefix strip int64 eq_ℤ
    last_index_below last_index_of_bytes as_string as_uint string_entries as_string_map string_items
    as_string_slice index as_map metadata_of check_metadata metadata_start read_metadata locate_ipv4
    open_in_memory open_file to4 to16 node_records address_bit read_node left_loop find_ipv4_start
    tree_loop resolve_node start_of walk_from lookup_offset with_window reader_source
    lookup_record_at value lookup_record
reading = tt

unfoldable pub caching : Unit {0}
unfolding str_eq lookup insert new_result_cache lookup_previous stored unless_expired get add_entry
    reset put_entry apply_call run remember remember_all length_previous
caching = tt

unfoldable pub deciding : Unit {0}
unfolding str_eq to_upper to_lower trim_left trim_right trim_space has_prefix strip trim_prefix
    split lookup insert text_at contains create_config normalize_asn add_part add_parts add_values
    upper_set asn_set security_rules_of compile check_rules new_rule_set truthy active
    security_fields required_fields or_else allow_check block_check list_check flags security_check
    numeric exceeds threat_check block_reason decide_by evaluate eq_ℤ
deciding = tt

unfoldable pub locating : Unit {0}
unfolding str_eq trim_left trim_right trim_space has_prefix strip split index_byte last_index_byte
    lookup header_values strip_brackets strip_zone trimmed_parts split_values parse_ip peer_ip
    ip_in_nets forwarded_values first_valid first_untrusted at_depth choose client_ip
locating = tt

unfoldable pub serving : Unit {0}
unfolding set_header delete_header strip_managed_headers apply_headers finish resolve decide
    serve_ip serve_http erase is_shared_range is_local_ip to4
serving = tt

unfoldable pub decoder : Unit {0}
unfolding str_eq int32 mem_source file_source load_head window_source put find append
    big_endian_from uint_loop pointer_value as_key byte_at decode_size extended_type type_and_size
    read_uint decode_pointer decode_map decode_array decode_payload decode_value decode_at decode
    skip_map skip_array skip_payload skip_value skip_at skip seek_map seek_value seek_at seek
decoder = tt
