-- ===== src/Config.antt =====
-- plugin.go: the configuration and its defaults.
use traefik_plugin_ipgeoloca.Base.{
  List, [], ◌∷◌, Bool, true, false, not, ◌&&◌, ◌==◌, length, if◌then◌else◌,
}
use traefik_plugin_ipgeoloca.Base.Text.{Str, codes, to_lower, trim_space}
use traefik_plugin_ipgeoloca.Base.Int.{ℤ, pos, negsuc, eq_ℤ}
use traefik_plugin_ipgeoloca.Base.Dict.{Dict}

pub record Config : Type 0 where
  pub mode : Str
  pub databases : List Str
  pub load_in_memory : Bool
  pub refresh_interval : Str
  pub api_key : Str
  pub api_endpoint : Str
  pub api_include : Str
  pub api_fields : Str
  pub api_timeout : Str
  pub trust_forwarded_header : Bool
  pub forwarded_header_name : Str
  pub forwarded_depth : ℤ
  pub trusted_proxies : List Str
  pub header_preset : Str
  pub headers : Dict Str
  pub language : Str
  pub list_separator : Str
  pub boolean_format : Str
  pub allowed_ips : List Str
  pub blocked_ips : List Str
  pub allow_private : Bool
  pub allow_unknown : Bool
  pub allowed_countries : List Str
  pub blocked_countries : List Str
  pub allowed_continents : List Str
  pub blocked_continents : List Str
  pub allowed_asns : List Str
  pub blocked_asns : List Str
  pub block_tor : Bool
  pub block_vpn : Bool
  pub block_proxy : Bool
  pub block_relay : Bool
  pub block_residential_proxy : Bool
  pub block_anonymous : Bool
  pub block_known_attacker : Bool
  pub block_bot : Bool
  pub block_spam : Bool
  pub block_cloud_provider : Bool
  pub block_corporate_gateway : Bool
  pub block_known_good_bots : Bool
  pub block_threat_score_above : ℤ
  pub dry_run : Bool
  pub block_status_code : ℤ
  pub block_message : Str
  pub block_redirect_url : Str
  pub fail_open : Bool
  pub cache_size : ℤ
  pub cache_ttl : Str
  pub log_level : Str

abbrev pub default_api_endpoint : Str
default_api_endpoint = codes "https://api.ipgeolocation.io/v3/ipgeo"

-- `CreateConfig`: the fields that it does not name have Go's zero values.
unfoldable pub create_config : Config
create_config = record {
  mode = codes "mmdb";
  databases = [];
  load_in_memory = true;
  refresh_interval = codes "0";
  api_key = [];
  api_endpoint = default_api_endpoint;
  api_include = [];
  api_fields = [];
  api_timeout = codes "2s";
  trust_forwarded_header = false;
  forwarded_header_name = codes "X-Forwarded-For";
  forwarded_depth = pos 0;
  trusted_proxies = [];
  header_preset = codes "minimal";
  headers = [];
  language = codes "en";
  list_separator = codes ",";
  boolean_format = codes "true_false";
  allowed_ips = [];
  blocked_ips = [];
  allow_private = true;
  allow_unknown = true;
  allowed_countries = [];
  blocked_countries = [];
  allowed_continents = [];
  blocked_continents = [];
  allowed_asns = [];
  blocked_asns = [];
  block_tor = false;
  block_vpn = false;
  block_proxy = false;
  block_relay = false;
  block_residential_proxy = false;
  block_anonymous = false;
  block_known_attacker = false;
  block_bot = false;
  block_spam = false;
  block_cloud_provider = false;
  block_corporate_gateway = false;
  block_known_good_bots = false;
  block_threat_score_above = negsuc 0;
  dry_run = false;
  block_status_code = pos 403;
  block_message = codes "Access denied.";
  block_redirect_url = [];
  fail_open = true;
  cache_size = pos 10000;
  cache_ttl = codes "1h";
  log_level = codes "info";
}

-- `if v == "" { v = d }`
unfoldable pub or_default : Str → Str → Str
or_default [] d = d
or_default (c ∷ s) d = c ∷ s

unfoldable pub default_mode : Config → Str
default_mode cfg =
    if length (trim_space cfg.mode) == 0
    then (if not (length cfg.api_key == 0) && length cfg.databases == 0
        then codes "api"
        else codes "mmdb")
    else cfg.mode

unfoldable pub with_defaults : Config → Config
with_defaults cfg = record cfg {
  mode = to_lower (trim_space (default_mode cfg));
  api_endpoint = or_default cfg.api_endpoint default_api_endpoint;
  api_timeout = or_default cfg.api_timeout (codes "2s");
  forwarded_header_name = or_default cfg.forwarded_header_name (codes "X-Forwarded-For");
  header_preset = or_default cfg.header_preset (codes "minimal");
  language = or_default cfg.language (codes "en");
  list_separator = or_default cfg.list_separator (codes ",");
  boolean_format = or_default cfg.boolean_format (codes "true_false");
  block_status_code = if eq_ℤ cfg.block_status_code (pos 0) then pos 403 else cfg.block_status_code;
  cache_ttl = or_default cfg.cache_ttl (codes "1h");
  refresh_interval = or_default cfg.refresh_interval (codes "0");
  log_level = or_default cfg.log_level (codes "info");
  block_threat_score_above =
      if eq_ℤ cfg.block_threat_score_above (pos 0) then negsuc 0 else cfg.block_threat_score_above;
}
