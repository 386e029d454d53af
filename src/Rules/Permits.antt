-- ===== src/Rules/Permits.antt =====
-- rules.go: what the rules let through, stated rule by rule.
use traefik_plugin_ipgeoloca.Base.{
  ◌≡◌, refl, List, [], ◌∷◌, Option, none, some, Bool, true, false, ◌==◌, ◌↔◌, length, arith,
  Bool-cases, inl, inr, All,
}
use traefik_plugin_ipgeoloca.Base.Text.{Str, codes, to_upper}
use traefik_plugin_ipgeoloca.Base.Int.{is_negative}
use traefik_plugin_ipgeoloca.Base.Dict.{Dict, text_at, contains}
use traefik_plugin_ipgeoloca.Value.Floats.{FloatOps}
use traefik_plugin_ipgeoloca.Rules.{SecurityRule, RuleSet, normalize_asn, is_set}
use traefik_plugin_ipgeoloca.Rules.Evaluate.{
  ListTexts, country_texts, continent_texts, asn_texts, truthy, or_else, allow_check, block_check,
  list_check, flags, security_check, numeric, exceeds, threat_check, block_reason, decide_by,
  evaluate,
}

-- An allow list wants a known value that is on it, or an unknown value where unknown ones may pass;
-- a block list wants a value that is not on it, or an unknown one.
pub record ListPermits (allow_unknown : Bool) (allowed blocked : Dict Bool) (value : Str)
    : Type 0 where
  pub on_list : is_set allowed ≡ true → (length value == 0) ≡ false → contains allowed value ≡ true
  pub unknown_passes : is_set allowed ≡ true → (length value == 0) ≡ true → allow_unknown ≡ true
  pub not_blocked :
      is_set blocked ≡ true → (length value == 0) ≡ false → contains blocked value ≡ false

-- An enabled flag must be off, or a true value of the other field spares the address.
pub record FlagPermits (fields : Dict Str) (rule : SecurityRule) : Type 0 where
  pub off_or_spared :
      rule.enabled ≡ true
      → truthy (text_at fields rule.field) ≡ true
      → ((length rule.unless == 0) ≡ false) × (truthy (text_at fields rule.unless) ≡ true)

pub record Permits (ops : FloatOps) (rs : RuleSet) (fields : Dict Str) : Type 0 where
  pub country :
      ListPermits rs.allow_unknown rs.allowed_countries rs.blocked_countries
        (to_upper (text_at fields (codes "country_code")))
  pub continent :
      ListPermits rs.allow_unknown rs.allowed_continents rs.blocked_continents
        (to_upper (text_at fields (codes "continent_code")))
  pub asn :
      ListPermits rs.allow_unknown rs.allowed_asns rs.blocked_asns
        (normalize_asn (text_at fields (codes "asn")))
  pub security : All (FlagPermits fields) rs.security_rules
  pub threat :
      is_negative rs.threat_score_above ≡ false
      → exceeds ops (numeric ops (text_at fields (codes "threat_score"))) rs.threat_score_above
        ≡ false

module _ (au : Bool) (a b : Dict Bool) (texts : ListTexts) (value : Str) where
  list_check→ListPermits : list_check au a b texts value ≡ none → ListPermits au a b value
  unfolding list_check allow_check block_check or_else
  list_check→ListPermits h = ground arith

  ListPermits→list_check : ListPermits au a b value → list_check au a b texts value ≡ none
  unfolding list_check allow_check block_check or_else
  ListPermits→list_check p = ground arith

module _ (fields : Dict Str) where
  flags→FlagPermits : (rule : SecurityRule) → flags fields rule ≡ false → FlagPermits fields rule
  unfolding flags
  flags→FlagPermits rule h = ground arith

  FlagPermits→flags : (rule : SecurityRule) → FlagPermits fields rule → flags fields rule ≡ false
  unfolding flags
  FlagPermits→flags rule p = ground arith

  security_check→All :
      (rules : List SecurityRule)
      → security_check fields rules ≡ none
      → All (FlagPermits fields) rules
  unfolding security_check
  security_check→All [] h = tt
  security_check→All (rule ∷ rules) h = elim (Bool-cases (flags fields rule)) [
    | inl hit ↦ cc (simp (hit, security_check) at h)
    | inr pass ↦
        (flags→FlagPermits rule pass, security_check→All rules (simp (pass, security_check) at h))
  ]

  All→security_check :
      (rules : List SecurityRule)
      → All (FlagPermits fields) rules
      → security_check fields rules ≡ none
  unfolding security_check
  All→security_check [] h = refl
  All→security_check (rule ∷ rules) (p, ps) =
      simp (FlagPermits→flags rule p, All→security_check rules ps)

module _ (ops : FloatOps) (rs : RuleSet) (fields : Dict Str) where
  threat_check→none :
      threat_check ops fields rs.threat_score_above ≡ none
      → is_negative rs.threat_score_above ≡ false
      → exceeds ops (numeric ops (text_at fields (codes "threat_score"))) rs.threat_score_above
        ≡ false
  unfolding threat_check
  threat_check→none h = ground arith

  none→threat_check :
      (is_negative rs.threat_score_above ≡ false
        → exceeds ops (numeric ops (text_at fields (codes "threat_score"))) rs.threat_score_above
          ≡ false)
      → threat_check ops fields rs.threat_score_above ≡ none
  unfolding threat_check
  none→threat_check h = ground arith

  or_else-none : (a b : Option Str) → or_else a b ≡ none → (a ≡ none) × (b ≡ none)
  unfolding or_else
  or_else-none none b h = (refl, h)
  or_else-none (some r) b h = cc h

  block_reason→Permits : block_reason ops rs fields ≡ none → Permits ops rs fields
  unfolding block_reason
  block_reason→Permits h =
      let (h₁, r₁) = or_else-none _ _ h in
      let (h₂, r₂) = or_else-none _ _ r₁ in
      let (h₃, r₃) = or_else-none _ _ r₂ in
      let (h₄, h₅) = or_else-none _ _ r₃ in
      record {
        country = list_check→ListPermits _ _ _ country_texts _ h₁;
        continent = list_check→ListPermits _ _ _ continent_texts _ h₂;
        asn = list_check→ListPermits _ _ _ asn_texts _ h₃;
        security = security_check→All fields rs.security_rules h₄;
        threat = threat_check→none h₅;
      }

  Permits→block_reason : Permits ops rs fields → block_reason ops rs fields ≡ none
  unfolding block_reason or_else
  Permits→block_reason p =
      rw
        (
          ListPermits→list_check _ _ _ country_texts _ p.country,
          ListPermits→list_check _ _ _ continent_texts _ p.continent,
          ListPermits→list_check _ _ _ asn_texts _ p.asn,
          All→security_check fields rs.security_rules p.security,
        )
        (none→threat_check p.threat)

  decide_by-allowed : (o : Option Str) → ((decide_by ops o).allowed ≡ true) ↔ (o ≡ none)
  unfolding decide_by
  decide_by-allowed none = (λ h. refl, λ h. refl)
  decide_by-allowed (some r) = (λ h. cc h, λ h. cc h)

  -- A found address is let through exactly when every rule permits its fields, each rule stated by
  -- itself.
  pub evaluate_iff : ((evaluate ops rs fields true).allowed ≡ true) ↔ Permits ops rs fields
  unfolding evaluate
  evaluate_iff = (
    λ h. block_reason→Permits ((decide_by-allowed (block_reason ops rs fields)).0 h),
    λ p. (decide_by-allowed (block_reason ops rs fields)).1 (Permits→block_reason p),
  )
