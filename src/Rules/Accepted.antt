-- ===== src/Rules/Accepted.antt =====
-- rules.go: what `newRuleSet` accepts, told from the lists as they are written in the configuration.
use traefik_plugin_ipgeoloca.Base.{
  ◌≡◌, refl, sym, List, [], ◌∷◌, Bool, true, false, ◌==◌, ◌⊎◌, inl, inr, length, all, arith, ok,
  All, ◌↔◌,
}
use mathlib.Core.Path.{subst}
use traefik_plugin_ipgeoloca.Base.Text.{Str}
use traefik_plugin_ipgeoloca.Base.Dict.{Dict}
use traefik_plugin_ipgeoloca.Config.{Config}
use traefik_plugin_ipgeoloca.Rules.{
  RuleSet, is_set, normalize_asn, upper_part, add_values, upper_set, asn_set, compile, new_rule_set,
}
use traefik_plugin_ipgeoloca.Rules.Written.{written, add_values-Keys}
use traefik_plugin_ipgeoloca.Rules.Compiled.{IsConsistent, new_rule_set_iff}

-- A list is set exactly where a code is written in it.
is_set-written :
    (norm : Str → Str) (values : List Str)
    → (is_set (add_values norm values []) ≡ false) ↔ (written norm values ≡ [])
is_set-written norm values =
    let keys = add_values-Keys (λ s. ⊥) norm values [] in
    (
      (λ h. none_written (written norm values) (keys.0 (none_set (add_values norm values []) h)).0),
      λ h. unset (add_values norm values []) (keys.1 (subst (All (λ s. ⊥)) (sym h) tt, tt)),
    )
  where
    none_set : (m : Dict Bool) → is_set m ≡ false → All (λ e. ⊥) m
    none_set [] h = tt
    none_set (e ∷ m) h = ground (arith, h)

    unset : (m : Dict Bool) → All (λ e. ⊥) m → is_set m ≡ false
    unset [] h = ground arith
    unset (e ∷ m) h = absurd h.0

    none_written : (l : List Str) → All (λ s. ⊥) l → l ≡ []
    none_written [] h = refl
    none_written (s ∷ l) h = absurd h.0

all-Keys : (m : Dict Bool) → (all (λ e. length e.0 == 2) m ≡ true) ↔ All (λ e. length e.0 ≡ 2) m
all-Keys [] = ((λ h. tt), λ h. refl)
all-Keys (e ∷ m) = (
  (λ h. (ground (arith, h), (all-Keys m).0 (ground (arith, h)))),
  λ h. ground (arith, h.0, (all-Keys m).1 h.1),
)

has_two_letters-written :
    (norm : Str → Str) (values : List Str)
    → (all (λ e. length e.0 == 2) (add_values norm values []) ≡ true)
      ↔ All (λ code. length code ≡ 2) (written norm values)
has_two_letters-written norm values =
    let keys = add_values-Keys (λ code. length code ≡ 2) norm values [] in
    let lengths = all-Keys (add_values norm values []) in
    ((λ h. (keys.0 (lengths.0 h)).0), λ h. lengths.1 (keys.1 (h, tt)))

-- In the words of an operator: no codes on both lists of a kind, and country codes of two bytes.
pub record IsAccepted (cfg : Config) : Type 0 where
  pub countries :
      (written upper_part cfg.allowed_countries ≡ [])
      ⊎ (written upper_part cfg.blocked_countries ≡ [])
  pub continents :
      (written upper_part cfg.allowed_continents ≡ [])
      ⊎ (written upper_part cfg.blocked_continents ≡ [])
  pub asns :
      (written normalize_asn cfg.allowed_asns ≡ []) ⊎ (written normalize_asn cfg.blocked_asns ≡ [])
  pub allowed_codes : All (λ code. length code ≡ 2) (written upper_part cfg.allowed_countries)
  pub blocked_codes : All (λ code. length code ≡ 2) (written upper_part cfg.blocked_countries)

one_unset :
    (norm : Str → Str) (allowed blocked : List Str)
    → ((is_set (add_values norm allowed []) ≡ false)
        ⊎ (is_set (add_values norm blocked []) ≡ false))
      ↔ ((written norm allowed ≡ []) ⊎ (written norm blocked ≡ []))
one_unset norm allowed blocked =
    let a = is_set-written norm allowed in
    let b = is_set-written norm blocked in
    (
      (λ h. elim h [ inl x ↦ inl (a.0 x) | inr y ↦ inr (b.0 y) ]),
      λ h. elim h [ inl x ↦ inl (a.1 x) | inr y ↦ inr (b.1 y) ],
    )

IsConsistent-IsAccepted : (cfg : Config) → IsConsistent (compile cfg) ↔ IsAccepted cfg
unfolding compile upper_set asn_set
IsConsistent-IsAccepted cfg =
    let countries = one_unset upper_part cfg.allowed_countries cfg.blocked_countries in
    let continents = one_unset upper_part cfg.allowed_continents cfg.blocked_continents in
    let asns = one_unset normalize_asn cfg.allowed_asns cfg.blocked_asns in
    let allowed_codes = has_two_letters-written upper_part cfg.allowed_countries in
    let blocked_codes = has_two_letters-written upper_part cfg.blocked_countries in
    (
      (λ c. record {
        countries = countries.0 c.countries;
        continents = continents.0 c.continents;
        asns = asns.0 c.asns;
        allowed_codes = allowed_codes.0 c.allowed_codes;
        blocked_codes = blocked_codes.0 c.blocked_codes;
      }),
      λ c. record {
        countries = countries.1 c.countries;
        continents = continents.1 c.continents;
        asns = asns.1 c.asns;
        allowed_codes = allowed_codes.1 c.allowed_codes;
        blocked_codes = blocked_codes.1 c.blocked_codes;
      },
    )

-- `newRuleSet` accepts a configuration exactly when no allow list with a code in it stands beside a
-- block list of the same kind with a code in it, and every country code is two bytes long; the
-- result is then the compiled configuration. The codes are the pieces between the commas of a
-- list's values, normalized, blank ones left out.
pub new_rule_set-IsAccepted :
    (cfg : Config) (rs : RuleSet)
    → (new_rule_set cfg ≡ ok rs) ↔ (IsAccepted cfg × (compile cfg ≡ rs))
new_rule_set-IsAccepted cfg rs =
    let checked = new_rule_set_iff cfg rs in
    let accepted = IsConsistent-IsAccepted cfg in
    ((λ h. let (c, e) = checked.0 h in (accepted.0 c, e)), λ h. checked.1 (accepted.1 h.0, h.1))
