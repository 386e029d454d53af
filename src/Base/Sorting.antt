-- ===== src/Base/Sorting.antt =====
-- sort.Strings, and Go's order of strings.
use traefik_plugin_ipgeoloca.Base.Tests.{ltb, ◌==◌, if◌then◌else◌, Bool-cases}
use mathlib.Core.Bool.{Bool, true, false, ◌&&◌, ◌||◌}
use mathlib.Core.Logic.{inl, inr}
use mathlib.Core.List.{List, [], ◌∷◌, ◌++◌}
use traefik_plugin_ipgeoloca.Base.Text.{Str}
use traefik_plugin_ipgeoloca.Base.Lists.{any, All}
use mathlib.Core.Path.{◌≡◌, refl, ap, ◌∙◌}
use native.Mathlib.Omega.{arith}

-- Byte by byte, a prefix first.
unfoldable pub str_ltb : Str → Str → Bool
str_ltb s [] = false
str_ltb [] (d ∷ t) = true
str_ltb (c ∷ s) (d ∷ t) = let rest = str_ltb s t in if ltb c d then true else c == d && rest

unfoldable pub insert_name : Str → List Str → List Str
insert_name name [] = name ∷ []
insert_name name (other ∷ names) =
    let rest = insert_name name names in
    if str_ltb name other then name ∷ other ∷ names else other ∷ rest

unfoldable pub sort_names : List Str → List Str
sort_names [] = []
sort_names (name ∷ names) = insert_name name (sort_names names)

module _ (test : Str → Bool) where
  pub any-insert_name :
      (name : Str) (names : List Str)
      → any test (insert_name name names) ≡ (test name || any test names)
  unfolding insert_name
  any-insert_name name [] = refl
  any-insert_name name (other ∷ names) = ground (arith, any-insert_name name names)

  pub any-sort_names : (names : List Str) → any test (sort_names names) ≡ any test names
  unfolding sort_names
  any-sort_names [] = refl
  any-sort_names (name ∷ names) =
      any-insert_name name (sort_names names) ∙ ap (λ b. test name || b) (any-sort_names names)

  pub any-append_left : (xs ys : List Str) → any test xs ≡ true → any test (xs ++ ys) ≡ true
  any-append_left [] ys h = ground arith
  any-append_left (x ∷ xs) ys h = ground (arith, any-append_left xs ys)

module _ {κ} (P : Str → Type κ) where
  All-insert_name :
      (name : Str) (names : List Str) → P name → All P names → All P (insert_name name names)
  unfolding insert_name
  All-insert_name name [] p h = (p, tt)
  All-insert_name name (other ∷ names) p h = elim (Bool-cases (str_ltb name other)) [
    | inl before ↦ rw before (p, h)
    | inr behind ↦ rw behind (h.0, All-insert_name name names p h.1)
  ]

  pub All-sort_names : (names : List Str) → All P names → All P (sort_names names)
  unfolding sort_names
  All-sort_names [] h = tt
  All-sort_names (name ∷ names) h =
      All-insert_name name (sort_names names) h.0 (All-sort_names names h.1)
