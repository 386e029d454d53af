-- ===== src/HeaderMap/Required.antt =====
-- plugin.go: the fields that the rules need, in the catalog.
use traefik_plugin_ipgeoloca.Base.{
  ◌≡◌, refl, List, [], ◌∷◌, ◌++◌, Bool, true, false, ◌||◌, ◌==◌, if◌then◌else◌, length, All,
  All-right, take, drop, arith, Bool-cases, inl, inr, ltb, ◌+◌, not,
}
use traefik_plugin_ipgeoloca.Base.Text.{Str, codes, str_eq}
use traefik_plugin_ipgeoloca.Base.Int.{is_negative}
use traefik_plugin_ipgeoloca.Config.{Config}
use traefik_plugin_ipgeoloca.Fields.Catalog.{field_defs, names_of}
use traefik_plugin_ipgeoloca.Fields.Catalog.Places.{places}
use traefik_plugin_ipgeoloca.Fields.Catalog.Networks.{networks}
use traefik_plugin_ipgeoloca.Fields.Catalog.Threats.{threats}
use traefik_plugin_ipgeoloca.Fields.Catalog.Contacts.{contacts}
use traefik_plugin_ipgeoloca.Rules.{SecurityRule, RuleSet, security_rules_of}
use traefik_plugin_ipgeoloca.Rules.Evaluate.{security_fields, required_fields}
use traefik_plugin_ipgeoloca.HeaderMap.{is_known}
use traefik_plugin_ipgeoloca.HeaderMap.Known.{IsKnown, all_listed-IsKnown}

-- The fields that a rule reads are known.
abbrev pub IsKnownUnless : Str → Type 0
IsKnownUnless name = (length name == 0 || is_known name) ≡ true

abbrev pub IsKnownRule : SecurityRule → Type 0
IsKnownRule rule = IsKnown rule.field × IsKnownUnless rule.unless

if-IsKnownUnless : (b : Bool) (name : Str) → IsKnown name → IsKnownUnless (if b then [] else name)
if-IsKnownUnless true name h = refl
if-IsKnownUnless false name h = ground (arith, h)

abbrev pub flag_fields : List Str
flag_fields =
    codes "is_tor"
    ∷ codes "is_vpn"
    ∷ codes "is_proxy"
    ∷ codes "is_relay"
    ∷ codes "is_residential_proxy"
    ∷ codes "is_anonymous"
    ∷ codes "is_known_attacker"
    ∷ codes "is_bot"
    ∷ codes "is_spam"
    ∷ codes "is_cloud_provider"
    ∷ codes "is_corporate_gateway"
    ∷ codes "is_known_good_bot"
    ∷ codes "country_code"
    ∷ codes "continent_code"
    ∷ codes "asn"
    ∷ codes "threat_score"
    ∷ []

flag_fields-IsKnown : All IsKnown flag_fields
unfolding names_of field_defs places networks threats contacts str_eq
flag_fields-IsKnown = all_listed-IsKnown flag_fields refl

pub security_rules_of-IsKnownRule : (cfg : Config) → All IsKnownRule (security_rules_of cfg)
unfolding security_rules_of
security_rules_of-IsKnownRule cfg =
    let (tor, (vpn, (proxy, (relay, (residential, (anonymous, (attacker, (bot, known)))))))) =
      flag_fields-IsKnown in
    let (spam, (cloud, (gateway, (good, _)))) = known in
    let unless : IsKnownUnless
        (if cfg.block_known_good_bots then [] else codes "is_known_good_bot") =
      if-IsKnownUnless cfg.block_known_good_bots (codes "is_known_good_bot") good in
    (
      (tor, refl),
      (
        (vpn, refl),
        (
          (proxy, refl),
          (
            (relay, refl),
            (
              (residential, refl),
              (
                (anonymous, refl),
                (
                  (attacker, refl),
                  ((bot, unless), ((spam, refl), ((cloud, refl), ((gateway, refl), tt)))),
                ),
              ),
            ),
          ),
        ),
      ),
    )

security_fields-IsKnown :
    (rules : List SecurityRule) → All IsKnownRule rules → All IsKnown (security_fields rules)
unfolding security_fields
security_fields-IsKnown [] h = tt
security_fields-IsKnown (rule ∷ rules) ((field, unless), h) =
    let rest = security_fields-IsKnown rules h in
    elim (Bool-cases rule.enabled) [
      | inr is_off ↦ rw is_off rest
      | inl is_on ↦ elim (Bool-cases (length rule.unless == 0)) [
        | inl empty ↦ rw (is_on, empty) (field, rest)
        | inr full ↦ rw (is_on, full) (field, ((rw full at unless), rest))
      ]
    ]

if-IsKnown :
    (b : Bool) (name : Str) (names : List Str)
    → IsKnown name
    → All IsKnown names
    → All IsKnown ((if b then name ∷ [] else []) ++ names)
if-IsKnown true name names h hs = (h, hs)
if-IsKnown false name names h hs = hs

pub required_fields-IsKnown :
    (rs : RuleSet) → All IsKnownRule rs.security_rules → All IsKnown (required_fields rs)
unfolding required_fields
required_fields-IsKnown rs h =
    let (country, (continent, (asn, (score, _)))) =
      All-right IsKnown (take 12 flag_fields) (drop 12 flag_fields) flag_fields-IsKnown in
    let scores = not (is_negative rs.threat_score_above) in
    let asns = ltb 0 (length rs.allowed_asns + length rs.blocked_asns) in
    let continents = ltb 0 (length rs.allowed_continents + length rs.blocked_continents) in
    let countries = ltb 0 (length rs.allowed_countries + length rs.blocked_countries) in
    if-IsKnown countries (codes "country_code") _ country (
      if-IsKnown continents (codes "continent_code") _ continent (
        if-IsKnown asns (codes "asn") _ asn (
          if-IsKnown scores (codes "threat_score") (security_fields rs.security_rules) score
            (security_fields-IsKnown rs.security_rules h))))
