-- ===== src/Rules/Evaluate.antt =====
-- rules.go: which fields the rules need, and what they decide.
use traefik_plugin_ipgeoloca.Base.{
  ◌+◌, List, [], ◌∷◌, ◌++◌, Option, none, some, Bool, true, false, not, ◌&&◌, ◌||◌, ltb, ◌==◌,
  if◌then◌else◌, length, any,
}
use traefik_plugin_ipgeoloca.Base.Text.{
  Str, codes, str_eq, to_upper, to_lower, trim_space, trim_prefix, decimal,
}
use traefik_plugin_ipgeoloca.Base.Int.{ℤ, is_negative, pos_part}
use traefik_plugin_ipgeoloca.Base.Dict.{Dict, text_at, contains}
use traefik_plugin_ipgeoloca.Value.Floats.{FloatOps}
use traefik_plugin_ipgeoloca.Value.{Float}
use traefik_plugin_ipgeoloca.Rules.{SecurityRule, RuleSet, normalize_asn, is_set}

pub record Decision : Type 0 where
  pub allowed : Bool
  pub reason : Str

abbrev pub allow_decision : Decision
allow_decision = record { allowed = true; reason = [] }

-- fields.go, `truthy`
unfoldable pub truthy : Str → Bool
truthy s =
    let t = to_lower (trim_space s) in
    str_eq t (codes "true")
    || str_eq t (codes "1")
    || str_eq t (codes "yes")
    || str_eq t (codes "on")

unfoldable pub active : RuleSet → Bool
active rs =
    ltb 0 (length rs.allowed_countries + length rs.blocked_countries)
    || (ltb 0 (length rs.allowed_continents + length rs.blocked_continents)
        || (ltb 0 (length rs.allowed_asns + length rs.blocked_asns)
            || (not (is_negative rs.threat_score_above)
                || any (λ rule. rule.enabled) rs.security_rules)))

-- The fields of the enabled security rules, in order.
unfoldable pub security_fields : List SecurityRule → List Str
security_fields [] = []
security_fields (rule ∷ rules) =
    let rest = security_fields rules in
    if rule.enabled
    then rule.field ∷ (if length rule.unless == 0 then rest else rule.unless ∷ rest)
    else rest

unfoldable pub required_fields : RuleSet → List Str
required_fields rs =
    (if ltb 0 (length rs.allowed_countries + length rs.blocked_countries)
      then codes "country_code" ∷ []
      else [])
    ++ ((if ltb 0 (length rs.allowed_continents + length rs.blocked_continents)
          then codes "continent_code" ∷ []
          else [])
        ++ ((if ltb 0 (length rs.allowed_asns + length rs.blocked_asns)
              then codes "asn" ∷ []
              else [])
            ++ ((if not (is_negative rs.threat_score_above) then codes "threat_score" ∷ [] else [])
                ++ security_fields rs.security_rules)))

-- Go on with the next check where this one finds no reason to block.
unfoldable pub or_else : Option Str → Option Str → Option Str
or_else none next = next
or_else (some reason) next = some reason

-- The texts of one of the three blocks of list rules.
pub record ListTexts : Type 0 where
  pub unknown : Str
  pub subject : Str
  pub not_allowed : Str
  pub blocked : Str

abbrev pub country_texts : ListTexts
country_texts = record {
  unknown = codes "country is unknown";
  subject = codes "country ";
  not_allowed = codes " is not in allowedCountries";
  blocked = codes " is in blockedCountries";
}

abbrev pub continent_texts : ListTexts
continent_texts = record {
  unknown = codes "continent is unknown";
  subject = codes "continent ";
  not_allowed = codes " is not in allowedContinents";
  blocked = codes " is in blockedContinents";
}

abbrev pub asn_texts : ListTexts
asn_texts = record {
  unknown = codes "ASN is unknown";
  subject = [];
  not_allowed = codes " is not in allowedASNs";
  blocked = codes " is in blockedASNs";
}

unfoldable pub allow_check : Bool → Dict Bool → ListTexts → Str → Option Str
allow_check allow_unknown allowed texts value =
    if is_set allowed
    then (if length value == 0
        then (if not allow_unknown then some texts.unknown else none)
        else if not (contains allowed value)
        then some (texts.subject ++ value ++ texts.not_allowed)
        else none)
    else none

unfoldable pub block_check : Dict Bool → ListTexts → Str → Option Str
block_check blocked texts value =
    if is_set blocked && (not (length value == 0) && contains blocked value)
    then some (texts.subject ++ value ++ texts.blocked)
    else none

-- One block: the allow list, then the block list.
unfoldable pub list_check : Bool → Dict Bool → Dict Bool → ListTexts → Str → Option Str
list_check allow_unknown allowed blocked texts value =
    or_else (allow_check allow_unknown allowed texts value) (block_check blocked texts value)

unfoldable pub flags : Dict Str → SecurityRule → Bool
flags fields rule =
    rule.enabled
    && (truthy (text_at fields rule.field)
        && not (not (length rule.unless == 0) && truthy (text_at fields rule.unless)))

unfoldable pub security_check : Dict Str → List SecurityRule → Option Str
security_check fields [] = none
security_check fields (rule ∷ rules) =
    let rest = security_check fields rules in
    if flags fields rule then some (codes "address is flagged as a " ++ rule.reason) else rest

module _ (ops : FloatOps) where
  -- fields.go, `numeric`
  unfoldable pub numeric : Str → Option Float
  numeric s =
      let t = trim_space (trim_prefix (trim_space s) (codes "AS")) in
      if length t == 0 then none else ops.parse_float t

  unfoldable pub exceeds : Option Float → ℤ → Bool
  exceeds none limit = false
  exceeds (some score) limit = ops.above score limit

  unfoldable pub threat_check : Dict Str → ℤ → Option Str
  threat_check fields limit =
      let score = text_at fields (codes "threat_score") in
      if not (is_negative limit) && exceeds (numeric score) limit
      then some (codes "threat score " ++ score ++ codes " is above " ++ decimal (pos_part limit))
      else none

  -- The first reason to block a found address, in the order of `evaluate`.
  unfoldable pub block_reason : RuleSet → Dict Str → Option Str
  block_reason rs fields =
      or_else
        (list_check rs.allow_unknown rs.allowed_countries rs.blocked_countries country_texts
          (to_upper (text_at fields (codes "country_code"))))
        (or_else
          (list_check rs.allow_unknown rs.allowed_continents rs.blocked_continents continent_texts
            (to_upper (text_at fields (codes "continent_code"))))
          (or_else
            (list_check rs.allow_unknown rs.allowed_asns rs.blocked_asns asn_texts
              (normalize_asn (text_at fields (codes "asn"))))
            (or_else (security_check fields rs.security_rules)
              (threat_check fields rs.threat_score_above))))

  unfoldable pub decide_by : Option Str → Decision
  decide_by none = allow_decision
  decide_by (some reason) = record { allowed = false; reason = reason }

  unfoldable pub evaluate : RuleSet → Dict Str → Bool → Decision
  evaluate rs fields found =
      if not found
      then (if rs.allow_unknown
          then allow_decision
          else record { allowed = false; reason = codes "no geolocation data for this address" })
      else decide_by (block_reason rs fields)
