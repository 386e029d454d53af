-- ===== src/Tests/Deciding.antt =====
-- A small policy on a few field maps, and the theorems on rules applied to it.
use traefik_plugin_ipgeoloca.Base.{
  ℕ, ◌+◌, ◌≡◌, ◌↔◌, refl, [], ◌∷◌, Option, none, some, true, false, ltb, ok, err,
}
use traefik_plugin_ipgeoloca.Base.Text.{Str, codes}
use traefik_plugin_ipgeoloca.Base.Int.{pos, pos_part}
use traefik_plugin_ipgeoloca.Base.Dict.{Dict}
use traefik_plugin_ipgeoloca.Value.{from_bits64, from_bits32, Float}
use traefik_plugin_ipgeoloca.Value.Floats.{FloatOps}
use traefik_plugin_ipgeoloca.Config.{Config, create_config}
use traefik_plugin_ipgeoloca.Rules.{RuleSet, compile, new_rule_set, both_countries}
use traefik_plugin_ipgeoloca.Rules.Evaluate.{allow_decision, active, required_fields, evaluate}
use traefik_plugin_ipgeoloca.Rules.Permits.{Permits, evaluate_iff}
use traefik_plugin_ipgeoloca.Rules.Needs.{Agree, evaluate-required_fields}
use traefik_plugin_ipgeoloca.Rules.Accepted.{IsAccepted, new_rule_set-IsAccepted}
use traefik_plugin_ipgeoloca.Tests.Program.{deciding}

-- Numbers of one digit, with themselves as bits.
abbrev digit : Str → Option Float
digit (c ∷ []) = some (from_bits64 c)
digit _ = none

abbrev bits : Float → ℕ
bits (from_bits64 n) = n
bits (from_bits32 n) = n

abbrev pub float_ops : FloatOps
float_ops = record {
  format_float = λ x. bits x ∷ [];
  parse_float = digit;
  above = λ x n. ltb (pos_part n + b'0') (bits x);
}

abbrev policy : Config
policy = record create_config {
  blocked_countries = codes "ru, kp" ∷ [];
  block_vpn = true;
  block_threat_score_above = pos 5;
}

abbrev pub rules : RuleSet
rules = compile policy

abbrev pub swedish : Dict Str
swedish = (codes "country_code", codes "SE") ∷ (codes "threat_score", codes "3") ∷ []

abbrev swedish_city : Dict Str
swedish_city = (codes "city_name", codes "Umea") ∷ swedish

abbrev pub vpn : Dict Str
vpn = (codes "is_vpn", codes "true") ∷ swedish

swedish_passes : evaluate float_ops rules swedish true ≡ allow_decision
unfolding deciding
swedish_passes = refl

vpn_is_blocked :
    evaluate float_ops rules vpn true
    ≡ record { allowed = false; reason = codes "address is flagged as a VPN" }
unfolding deciding
vpn_is_blocked = refl

evaluate_iff_example :
    ((evaluate float_ops rules swedish true).allowed ≡ true) ↔ Permits float_ops rules swedish
evaluate_iff_example = evaluate_iff float_ops rules swedish

cities-Agree : Agree swedish swedish_city (required_fields rules)
unfolding deciding
cities-Agree = (refl, (refl, (refl, tt)))

evaluate-required_fields_example :
    evaluate float_ops rules swedish true ≡ evaluate float_ops rules swedish_city true
evaluate-required_fields_example =
    evaluate-required_fields float_ops rules swedish swedish_city true cities-Agree

no_policy : active (compile create_config) ≡ false
unfolding deciding
no_policy = refl

new_rule_set-IsAccepted_example :
    (new_rule_set policy ≡ ok rules) ↔ (IsAccepted policy × (compile policy ≡ rules))
new_rule_set-IsAccepted_example = new_rule_set-IsAccepted policy rules

-- Two bytes that are no letters pass for a country code.
digits_are_accepted :
    new_rule_set (record create_config { allowed_countries = codes "12" ∷ [] })
    ≡ ok (compile (record create_config { allowed_countries = codes "12" ∷ [] }))
unfolding deciding
digits_are_accepted = refl

policy_compiles : new_rule_set policy ≡ ok rules
unfolding deciding
policy_compiles = refl

two_lists_are_refused :
    new_rule_set (record policy { allowed_countries = codes "SE" ∷ [] }) ≡ err both_countries
unfolding deciding
two_lists_are_refused = refl
