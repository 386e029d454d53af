-- ===== src/Rules/Compiled.antt =====
-- rules.go: what `newRuleSet` accepts, and AS numbers.
use traefik_plugin_ipgeoloca.Base.{
  ℕ, ◌≡◌, refl, ap, ◌∙◌, [], ◌∷◌, ◌++◌, true, false, ◌==◌, ◌⊎◌, length, all, arith, ok, All, ◌≤◌,
  ◌↔◌,
}
use traefik_plugin_ipgeoloca.Base.Text.{
  Str, codes, str_eq, to_upper, upper_byte, trim_left, trim_right, trim_space, has_prefix, strip,
  trim_prefix,
}
use traefik_plugin_ipgeoloca.Config.{Config}
use traefik_plugin_ipgeoloca.Rules.{
  RuleSet, is_set, normalize_asn, compile, check_rules, new_rule_set,
}

-- At most one list of each kind, and country codes of two bytes.
pub record IsConsistent (rs : RuleSet) : Type 0 where
  pub countries : (is_set rs.allowed_countries ≡ false) ⊎ (is_set rs.blocked_countries ≡ false)
  pub continents : (is_set rs.allowed_continents ≡ false) ⊎ (is_set rs.blocked_continents ≡ false)
  pub asns : (is_set rs.allowed_asns ≡ false) ⊎ (is_set rs.blocked_asns ≡ false)
  pub allowed_codes : all (λ e. length e.0 == 2) rs.allowed_countries ≡ true
  pub blocked_codes : all (λ e. length e.0 == 2) rs.blocked_countries ≡ true

check_rules-IsConsistent :
    (rs : RuleSet) {rs' : RuleSet} → check_rules rs ≡ ok rs' → IsConsistent rs × (rs ≡ rs')
unfolding check_rules
check_rules-IsConsistent rs h = ground arith

IsConsistent→check_rules : (rs : RuleSet) → IsConsistent rs → check_rules rs ≡ ok rs
unfolding check_rules
IsConsistent→check_rules rs c = ground arith

-- `newRuleSet` accepts a configuration exactly when it sets no allow list together with the block
-- list of the same kind and every country code has two bytes; the result is then the compiled
-- configuration, unchanged.
pub new_rule_set_iff :
    (cfg : Config) (rs : RuleSet)
    → (new_rule_set cfg ≡ ok rs) ↔ (IsConsistent (compile cfg) × (compile cfg ≡ rs))
unfolding new_rule_set
new_rule_set_iff cfg rs = (
  check_rules-IsConsistent (compile cfg),
  λ c. IsConsistent→check_rules (compile cfg) c.0 ∙ ap ok c.1,
)

abbrev pub IsDigit : ℕ → Type 0
IsDigit c = (b'0' ≤ c) × (c ≤ b'9')

trim_left_digit : (c : ℕ) (s : Str) → IsDigit c → trim_left (c ∷ s) ≡ c ∷ s
unfolding trim_left
trim_left_digit c s h = ground arith

trim_right_digits : (s : Str) → All IsDigit s → trim_right s ≡ s
unfolding trim_right
trim_right_digits [] h = refl
trim_right_digits (c ∷ []) h = ground arith
trim_right_digits (c ∷ d ∷ s) (hc, hs) = rw (trim_right_digits (d ∷ s) hs)

to_upper_digits : (s : Str) → All IsDigit s → to_upper s ≡ s
unfolding to_upper
to_upper_digits [] h = refl
to_upper_digits (c ∷ s) (hc, hs) = ground (arith, to_upper_digits s hs)

trim_right-cons :
    (x c : ℕ) (s : Str) → trim_right (c ∷ s) ≡ c ∷ s → trim_right (x ∷ c ∷ s) ≡ x ∷ c ∷ s
unfolding trim_right
trim_right-cons x c s h = rw (h, trim_right)

-- A number written with or without the prefix, in either case.
module _ (c : ℕ) (s : Str) (digits : All IsDigit (c ∷ s))
    (non_zero : str_eq (c ∷ s) (codes "0") ≡ false) where
  normalize_asn-number :
      (value t : Str) (x : ℕ)
      → to_upper (trim_space value) ≡ x ∷ t
      → trim_prefix (x ∷ t) (codes "AS") ≡ c ∷ s
      → normalize_asn value ≡ codes "AS" ++ c ∷ s
  unfolding normalize_asn
  normalize_asn-number value t x e e' = rw (e, e', non_zero) (ground arith)

  trim_prefix_digits : trim_prefix (c ∷ s) (codes "AS") ≡ c ∷ s
  unfolding trim_prefix has_prefix strip
  trim_prefix_digits = ground arith

  trim_prefix-as : trim_prefix (codes "AS" ++ c ∷ s) (codes "AS") ≡ c ∷ s
  unfolding trim_prefix has_prefix strip
  trim_prefix-as = refl

  upper_digits : (a b : ℕ) → to_upper (a ∷ b ∷ c ∷ s) ≡ upper_byte a ∷ upper_byte b ∷ c ∷ s
  unfolding to_upper
  upper_digits a b = ap (λ t. upper_byte a ∷ upper_byte b ∷ t) (to_upper_digits (c ∷ s) digits)

  trim_right_prefixed : (a b : ℕ) → trim_right (a ∷ b ∷ c ∷ s) ≡ a ∷ b ∷ c ∷ s
  trim_right_prefixed a b =
      trim_right-cons a b (c ∷ s) (trim_right-cons b c s (trim_right_digits (c ∷ s) digits))

  -- "1257", "AS1257" and "as1257" are one AS number: digits other than "0", bare or behind the
  -- prefix in either case, normalize to the digits behind "AS".
  pub normalize_asn_spellings :
      (normalize_asn (c ∷ s) ≡ codes "AS" ++ c ∷ s)
      × (normalize_asn (codes "AS" ++ c ∷ s) ≡ codes "AS" ++ c ∷ s)
      × (normalize_asn (codes "as" ++ c ∷ s) ≡ codes "AS" ++ c ∷ s)
  unfolding trim_space trim_left
  normalize_asn_spellings = (
    normalize_asn-number (c ∷ s) s c
        (rw (trim_left_digit c s digits.0, trim_right_digits (c ∷ s) digits)
          (to_upper_digits (c ∷ s) digits))
        trim_prefix_digits,
    normalize_asn-number (codes "AS" ++ c ∷ s) (b'S' ∷ c ∷ s) b'A'
        (rw (trim_right_prefixed b'A' b'S') (upper_digits b'A' b'S')) trim_prefix-as,
    normalize_asn-number (codes "as" ++ c ∷ s) (b'S' ∷ c ∷ s) b'A'
        (rw (trim_right_prefixed b'a' b's') (upper_digits b'a' b's')) trim_prefix-as,
  )
