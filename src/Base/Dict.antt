-- ===== src/Base/Dict.antt =====
-- A Go map with string keys: an association list in which a key stands once.
use traefik_plugin_ipgeoloca.Base.Tests.{if◌then◌else◌, Bool-cases}
use traefik_plugin_ipgeoloca.Base.Lists.{All, any}
use mathlib.Core.Logic.{inl, inr}
use traefik_plugin_ipgeoloca.Base.Text.{Str, str_eq, str_eq_iff}
use mathlib.Core.Path.{◌≡◌, refl, ap, ◌∙◌, subst}
use mathlib.Core.Bool.{Bool, false, ◌||◌}
use mathlib.Core.Option.{Option, none, some}
use mathlib.Core.List.{List, [], ◌∷◌}
use native.Mathlib.Omega.{arith}

abbrev pub Dict {ℓ} : Type ℓ → Type ℓ
Dict V = List (Str × V)

module _ {ℓ} {V : Type ℓ} where
  unfoldable pub lookup : Str → Dict V → Option V
  lookup k [] = none
  lookup k ((j, v) ∷ m) = if str_eq j k then some v else lookup k m

  unfoldable pub insert : Str → V → Dict V → Dict V
  insert k v [] = (k, v) ∷ []
  insert k v ((j, w) ∷ m) = if str_eq j k then (k, v) ∷ m else (j, w) ∷ insert k v m

  -- delete(m, k)
  unfoldable pub erase : Str → Dict V → Dict V
  erase k [] = []
  erase k ((j, w) ∷ m) = let rest = erase k m in if str_eq j k then rest else (j, w) ∷ rest

  unfoldable pub keys : Dict V → List Str
  keys [] = []
  keys ((k, v) ∷ m) = k ∷ keys m

  pub lookup-insert :
      (k j : Str) (v : V) (m : Dict V)
      → lookup j (insert k v m) ≡ (if str_eq k j then some v else lookup j m)
  unfolding lookup insert
  lookup-insert k j v [] = refl
  lookup-insert k j v ((i, w) ∷ m) =
      ground (arith, str_eq_iff k j, str_eq_iff i k, str_eq_iff i j, lookup-insert k j v m)

  pub lookup-erase :
      (k j : Str) (m : Dict V) → lookup j (erase k m) ≡ (if str_eq k j then none else lookup j m)
  unfolding lookup erase
  lookup-erase k j [] = ground arith
  lookup-erase k j ((i, w) ∷ m) =
      ground (arith, str_eq_iff k j, str_eq_iff i k, str_eq_iff i j, lookup-erase k j m)

-- A predicate on the entries survives both operations.
module _ {ℓ κ} {V : Type ℓ} (P : Str × V → Type κ) where
  pub All-insert : (k : Str) (v : V) (m : Dict V) → P (k, v) → All P m → All P (insert k v m)
  unfolding insert
  All-insert k v [] p h = (p, tt)
  All-insert k v ((j, w) ∷ m) p h = elim (Bool-cases (str_eq j k)) [
    | inl same ↦ rw same (p, h.1)
    | inr other ↦ rw other (h.0, All-insert k v m p h.1)
  ]

  pub All-erase : (k : Str) (m : Dict V) → All P m → All P (erase k m)
  unfolding erase
  All-erase k [] h = tt
  All-erase k ((j, w) ∷ m) h = elim (Bool-cases (str_eq j k)) [
    | inl same ↦ rw same (All-erase k m h.1)
    | inr other ↦ rw other (h.0, All-erase k m h.1)
  ]

  pub All-lookup : (k : Str) (v : V) (m : Dict V) → All P m → lookup k m ≡ some v → P (k, v)
  unfolding lookup
  All-lookup k v [] h held = cc held
  All-lookup k v ((j, w) ∷ m) (here, there) held = elim (Bool-cases (str_eq j k)) [
    | inl same ↦
        let e : j ≡ k = (str_eq_iff j k).0 same in
        let held' : some w ≡ some v = rw same at held in
        let e' : w ≡ v = cc held' in subst P (ap (λ x. (x, w)) e ∙ ap (λ x. (k, x)) e') here
    | inr other ↦ All-lookup k v m there (rw other at held)
  ]

-- A test of the keys, and an insertion.
pub any-keys-insert {ℓ} :
    {V : Type ℓ} (test : Str → Bool) (k : Str) (v : V) (m : Dict V)
    → any test (keys (insert k v m)) ≡ (test k || any test (keys m))
unfolding keys insert
any-keys-insert test k v [] = refl
any-keys-insert test k v ((j, w) ∷ m) = elim (Bool-cases (str_eq j k)) [
  | inl same ↦
      let e : test j ≡ test k = ap test ((str_eq_iff j k).0 same) in rw same (ground (arith, e))
  | inr other ↦ rw other (ground (arith, any-keys-insert test k v m))
]

-- `m[k]` of a map to strings: the empty string where the key is missing.
unfoldable pub text_at : Dict Str → Str → Str
text_at m k = elim (lookup k m) [ none ↦ [] | some v ↦ v ]

-- `m[k]` of a set, a map to bool.
unfoldable pub contains : Dict Bool → Str → Bool
contains m k = elim (lookup k m) [ none ↦ false | some b ↦ b ]
