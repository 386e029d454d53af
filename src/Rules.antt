-- ===== src/Rules.antt =====
-- rules.go: the compiled access rules.
pub mod Evaluate
pub mod Needs
pub mod Compiled
pub mod Written
pub mod Accepted
pub mod Permits
use traefik_plugin_ipgeoloca.Base.{
  ℕ, ◌+◌, List, [], ◌∷◌, ◌++◌, Bool, true, false, not, ◌&&◌, ◌||◌, ltb, ◌==◌, if◌then◌else◌, length,
  all, Result, ok, err,
}
use traefik_plugin_ipgeoloca.Base.Text.{
  Str, codes, str_eq, to_upper, trim_space, trim_prefix, split,
}
use traefik_plugin_ipgeoloca.Base.Int.{ℤ}
use traefik_plugin_ipgeoloca.Base.Dict.{Dict, insert}
use traefik_plugin_ipgeoloca.Config.{Config}

pub record SecurityRule : Type 0 where
  pub enabled : Bool
  pub field : Str
  pub unless : Str
  pub reason : Str

pub record RuleSet : Type 0 where
  pub allowed_countries : Dict Bool
  pub blocked_countries : Dict Bool
  pub allowed_continents : Dict Bool
  pub blocked_continents : Dict Bool
  pub allowed_asns : Dict Bool
  pub blocked_asns : Dict Bool
  pub security_rules : List SecurityRule
  pub threat_score_above : ℤ
  pub allow_unknown : Bool

pub data RuleError : Type 0 where
  both_countries both_continents both_asns : RuleError
  bad_allowed_country bad_blocked_country : RuleError

unfoldable pub normalize_asn : Str → Str
normalize_asn value =
    let trimmed = to_upper (trim_space value) in
    let number = trim_prefix trimmed (codes "AS") in
    if length trimmed == 0
    then []
    else if length number == 0 || str_eq number (codes "0")
    then []
    else codes "AS" ++ number

-- `if part != "" { out[part] = true }`
unfoldable pub add_part : Str → Dict Bool → Dict Bool
add_part [] out = out
add_part (c ∷ s) out = insert (c ∷ s) true out

-- The two loops: over the values, and over the parts between commas.
unfoldable pub add_parts : (Str → Str) → List Str → Dict Bool → Dict Bool
add_parts norm [] out = out
add_parts norm (part ∷ parts) out = add_parts norm parts (add_part (norm part) out)

unfoldable pub add_values : (Str → Str) → List Str → Dict Bool → Dict Bool
add_values norm [] out = out
add_values norm (value ∷ values) out =
    add_values norm values (add_parts norm (split b',' value) out)

abbrev pub upper_part : Str → Str
upper_part part = to_upper (trim_space part)

-- A nil map and an empty one are the same to the code.
unfoldable pub upper_set : List Str → Dict Bool
upper_set values = add_values upper_part values []

unfoldable pub asn_set : List Str → Dict Bool
asn_set values = add_values normalize_asn values []

abbrev pub is_set : Dict Bool → Bool
is_set m = ltb 0 (length m)

abbrev has_two_letters : Str × Bool → Bool
has_two_letters e = length e.0 == 2

unfoldable pub security_rules_of : Config → List SecurityRule
security_rules_of cfg =
    let rule = λ (enabled : Bool) (field reason : Str).
      let r : SecurityRule = record {
        enabled = enabled;
        field = field;
        unless = [];
        reason = reason;
      } in
      r in
    rule cfg.block_tor (codes "is_tor") (codes "Tor exit node")
    ∷ rule cfg.block_vpn (codes "is_vpn") (codes "VPN")
    ∷ rule cfg.block_proxy (codes "is_proxy") (codes "proxy")
    ∷ rule cfg.block_relay (codes "is_relay") (codes "relay")
    ∷ rule cfg.block_residential_proxy (codes "is_residential_proxy") (codes "residential proxy")
    ∷ rule cfg.block_anonymous (codes "is_anonymous") (codes "anonymized address")
    ∷ rule cfg.block_known_attacker (codes "is_known_attacker") (codes "known attacker")
    ∷ record {
      enabled = cfg.block_bot;
      field = codes "is_bot";
      unless = if cfg.block_known_good_bots then [] else codes "is_known_good_bot";
      reason = codes "known bot";
    }
    ∷ rule cfg.block_spam (codes "is_spam") (codes "known spam source")
    ∷ rule cfg.block_cloud_provider (codes "is_cloud_provider") (codes "cloud or hosting provider")
    ∷ rule cfg.block_corporate_gateway (codes "is_corporate_gateway") (codes "corporate gateway")
    ∷ []

unfoldable pub compile : Config → RuleSet
compile cfg = record {
  allowed_countries = upper_set cfg.allowed_countries;
  blocked_countries = upper_set cfg.blocked_countries;
  allowed_continents = upper_set cfg.allowed_continents;
  blocked_continents = upper_set cfg.blocked_continents;
  allowed_asns = asn_set cfg.allowed_asns;
  blocked_asns = asn_set cfg.blocked_asns;
  security_rules = security_rules_of cfg;
  threat_score_above = cfg.block_threat_score_above;
  allow_unknown = cfg.allow_unknown;
}

-- The checks of `newRuleSet`, in its order.
unfoldable pub check_rules : RuleSet → Result RuleError RuleSet
check_rules rs =
    if is_set rs.allowed_countries && is_set rs.blocked_countries
    then err both_countries
    else if is_set rs.allowed_continents && is_set rs.blocked_continents
    then err both_continents
    else if is_set rs.allowed_asns && is_set rs.blocked_asns
    then err both_asns
    else if not (all has_two_letters rs.allowed_countries)
    then err bad_allowed_country
    else if not (all has_two_letters rs.blocked_countries)
    then err bad_blocked_country
    else ok rs

unfoldable pub new_rule_set : Config → Result RuleError RuleSet
new_rule_set cfg = check_rules (compile cfg)
