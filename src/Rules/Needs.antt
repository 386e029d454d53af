-- ===== src/Rules/Needs.antt =====
-- rules.go: which fields a decision reads.
use traefik_plugin_ipgeoloca.Base.{
  ◌+◌, ◌≡◌, refl, sym, ap, ◌∙◌, List, [], ◌∷◌, ◌++◌, none, Bool, true, false, not, ltb, ◌==◌,
  if◌then◌else◌, length, arith, Bool-cases, inl, inr, All, All-right, any,
}
use traefik_plugin_ipgeoloca.Base.Text.{Str, codes, to_upper}
use traefik_plugin_ipgeoloca.Base.Int.{ℤ, is_negative}
use traefik_plugin_ipgeoloca.Base.Dict.{Dict, text_at}
use traefik_plugin_ipgeoloca.Value.Floats.{FloatOps}
use traefik_plugin_ipgeoloca.Rules.{SecurityRule, RuleSet, normalize_asn}
use traefik_plugin_ipgeoloca.Rules.Evaluate.{
  allow_decision, ListTexts, country_texts, continent_texts, asn_texts, active, security_fields,
  required_fields, or_else, allow_check, block_check, list_check, flags, security_check,
  threat_check, block_reason, decide_by, evaluate,
}

-- Two field maps that agree on some fields.
abbrev pub Agree : Dict Str → Dict Str → List Str → Type 0
Agree f g = All (λ name. text_at f name ≡ text_at g name)

module _ (au : Bool) (a b : Dict Bool) (texts : ListTexts) where
  list_check_unset :
      (v : Str) → ltb 0 (length a + length b) ≡ false → list_check au a b texts v ≡ none
  unfolding list_check allow_check block_check or_else
  list_check_unset v h = ground arith

  list_check-Agree :
      (v w name : Str) (rest : List Str) (f g : Dict Str) (norm : Str → Str)
      → v ≡ norm (text_at f name)
      → w ≡ norm (text_at g name)
      → Agree f g ((if ltb 0 (length a + length b) then name ∷ [] else []) ++ rest)
      → list_check au a b texts v ≡ list_check au a b texts w
  list_check-Agree v w name rest f g norm ev ew h =
      elim (Bool-cases (ltb 0 (length a + length b))) [
        | inl is_on ↦ let h' = rw is_on at h in ap (list_check au a b texts) (cc (ev, ew, h'.0))
        | inr is_off ↦ list_check_unset v is_off ∙ sym (list_check_unset w is_off)
      ]

-- What the hypothesis says for the first rule and for the others.
security_fields-head :
    (f g : Dict Str) (rule : SecurityRule) (rules : List SecurityRule)
    → Agree f g (security_fields (rule ∷ rules))
    → Agree f g (security_fields rules)
      × (rule.enabled ≡ true
          → (text_at f rule.field ≡ text_at g rule.field)
            × ((length rule.unless == 0) ≡ false → text_at f rule.unless ≡ text_at g rule.unless))
unfolding security_fields
security_fields-head f g rule rules h = elim (Bool-cases rule.enabled) [
  | inr is_off ↦ let h' = simp (is_off, security_fields) at h in (h', λ is_on. cc)
  | inl is_on ↦ elim (Bool-cases (length rule.unless == 0)) [
    | inl always ↦
        let h' = simp (is_on, security_fields, always) at h in (h'.1, λ _. (h'.0, λ guarded. cc))
    | inr guarded ↦
        let h' = simp (is_on, security_fields, guarded) at h in (h'.1.1, λ _. (h'.0, λ _. h'.1.0))
  ]
]

flags_agree :
    (f g : Dict Str) (rule : SecurityRule)
    → (rule.enabled ≡ true
        → (text_at f rule.field ≡ text_at g rule.field)
          × ((length rule.unless == 0) ≡ false → text_at f rule.unless ≡ text_at g rule.unless))
    → flags f rule ≡ flags g rule
unfolding flags
flags_agree f g rule h = ground arith

security_check-Agree :
    (f g : Dict Str) (rules : List SecurityRule)
    → Agree f g (security_fields rules)
    → security_check f rules ≡ security_check g rules
unfolding security_check
security_check-Agree f g [] h = refl
security_check-Agree f g (rule ∷ rules) h =
    let (others, first) = security_fields-head f g rule rules h in
    ground (arith, flags_agree f g rule first, security_check-Agree f g rules others)

threat_check-Agree :
    (ops : FloatOps) (f g : Dict Str) (limit : ℤ) (rest : List Str)
    → Agree f g ((if not (is_negative limit) then codes "threat_score" ∷ [] else []) ++ rest)
    → threat_check ops f limit ≡ threat_check ops g limit
unfolding threat_check
threat_check-Agree ops f g limit rest h = elim (Bool-cases (is_negative limit)) [
  | inl is_off ↦ rw is_off
  | inr is_on ↦ let h' = rw is_on at h in rw h'.0
]

-- The ends of the list of required fields.
abbrev from_threat : RuleSet → List Str
from_threat rs =
    (if not (is_negative rs.threat_score_above) then codes "threat_score" ∷ [] else [])
    ++ security_fields rs.security_rules

abbrev from_asn : RuleSet → List Str
from_asn rs =
    (if ltb 0 (length rs.allowed_asns + length rs.blocked_asns) then codes "asn" ∷ [] else [])
    ++ from_threat rs

abbrev from_continent : RuleSet → List Str
from_continent rs =
    (if ltb 0 (length rs.allowed_continents + length rs.blocked_continents)
      then codes "continent_code" ∷ []
      else [])
    ++ from_asn rs

-- The fields that `requiredFields` lists are enough: on two field maps that agree on them the rules
-- decide the same, reason included, found or not.
pub evaluate-required_fields :
    (ops : FloatOps) (rs : RuleSet) (f g : Dict Str) (found : Bool)
    → Agree f g (required_fields rs)
    → evaluate ops rs f found ≡ evaluate ops rs g found
unfolding evaluate block_reason required_fields
evaluate-required_fields ops rs f g found h =
    let P = λ (n : Str). text_at f n ≡ text_at g n in
    let h₁ : Agree f g (from_continent rs) =
      All-right P
        (if ltb 0 (length rs.allowed_countries + length rs.blocked_countries)
          then codes "country_code" ∷ []
          else [])
        (from_continent rs) h in
    let h₂ : Agree f g (from_asn rs) =
      All-right P
        (if ltb 0 (length rs.allowed_continents + length rs.blocked_continents)
          then codes "continent_code" ∷ []
          else [])
        (from_asn rs) h₁ in
    let h₃ : Agree f g (from_threat rs) =
      All-right P
        (if ltb 0 (length rs.allowed_asns + length rs.blocked_asns) then codes "asn" ∷ [] else [])
        (from_threat rs) h₂ in
    let h₄ : Agree f g (security_fields rs.security_rules) =
      All-right P
        (if not (is_negative rs.threat_score_above) then codes "threat_score" ∷ [] else [])
        (security_fields rs.security_rules) h₃ in
    ground (
      arith,
      list_check-Agree rs.allow_unknown rs.allowed_countries rs.blocked_countries country_texts
          (to_upper (text_at f (codes "country_code")))
          (to_upper (text_at g (codes "country_code"))) (codes "country_code") (from_continent rs) f
          g to_upper refl refl h,
      list_check-Agree rs.allow_unknown rs.allowed_continents rs.blocked_continents continent_texts
          (to_upper (text_at f (codes "continent_code")))
          (to_upper (text_at g (codes "continent_code"))) (codes "continent_code") (from_asn rs) f g
          to_upper refl refl h₁,
      list_check-Agree rs.allow_unknown rs.allowed_asns rs.blocked_asns asn_texts
          (normalize_asn (text_at f (codes "asn"))) (normalize_asn (text_at g (codes "asn")))
          (codes "asn") (from_threat rs) f g normalize_asn refl refl h₂,
      threat_check-Agree ops f g rs.threat_score_above (security_fields rs.security_rules) h₃,
      security_check-Agree f g rs.security_rules h₄,
    )

security_check_inactive :
    (fields : Dict Str) (rules : List SecurityRule)
    → any (λ rule. rule.enabled) rules ≡ false
    → security_check fields rules ≡ none
unfolding security_check flags
security_check_inactive fields [] h = refl
security_check_inactive fields (rule ∷ rules) h =
    ground (arith, security_check_inactive fields rules)

-- A rule set that is not `active` lets every found address through, whatever its fields are.
pub evaluate_inactive :
    (ops : FloatOps) (rs : RuleSet) (fields : Dict Str)
    → active rs ≡ false
    → evaluate ops rs fields true ≡ allow_decision
unfolding evaluate block_reason active threat_check or_else decide_by
evaluate_inactive ops rs fields h = ground (
  arith,
  list_check_unset rs.allow_unknown rs.allowed_countries rs.blocked_countries country_texts
      (to_upper (text_at fields (codes "country_code"))),
  list_check_unset rs.allow_unknown rs.allowed_continents rs.blocked_continents continent_texts
      (to_upper (text_at fields (codes "continent_code"))),
  list_check_unset rs.allow_unknown rs.allowed_asns rs.blocked_asns asn_texts
      (normalize_asn (text_at fields (codes "asn"))),
  security_check_inactive fields rs.security_rules,
)
