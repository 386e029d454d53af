-- ===== src/Rules/Written.antt =====
-- rules.go: the codes that `upperSet` and `asnSet` read out of the lists of a configuration.
use traefik_plugin_ipgeoloca.Base.{
  ◌≡◌, sym, List, [], ◌∷◌, ◌++◌, none, some, Bool, true, inl, inr, if◌then◌else◌, any, All, ◌↔◌,
  Bool-cases,
}
use mathlib.Core.Path.{subst}
use traefik_plugin_ipgeoloca.Base.Text.{Str, str_eq, str_eq_iff, split}
use traefik_plugin_ipgeoloca.Base.Dict.{Dict, lookup, insert, All-insert}
use traefik_plugin_ipgeoloca.Config.{Config}
use traefik_plugin_ipgeoloca.Rules.{add_part, add_parts, add_values}

abbrev skip_blank : Str → List Str → List Str
skip_blank [] rest = rest
skip_blank (c ∷ s) rest = (c ∷ s) ∷ rest

abbrev written_parts : (Str → Str) → List Str → List Str
written_parts norm [] = []
written_parts norm (part ∷ parts) = skip_blank (norm part) (written_parts norm parts)

-- The codes that the values of a list have between their commas, blank ones left out.
abbrev pub written : (Str → Str) → List Str → List Str
written norm [] = []
written norm (value ∷ values) = written_parts norm (split b',' value) ++ written norm values

module _ (P : Str → Type 0) where
  -- Every key of a set.
  abbrev Keys : Dict Bool → Type 0
  Keys m = All (λ e. P e.0) m

  insert-Keys : (k : Str) (m : Dict Bool) → Keys (insert k true m) → P k × Keys m
  unfolding insert
  insert-Keys k [] h = h
  insert-Keys k ((j, w) ∷ m) h = elim (Bool-cases (str_eq j k)) [
    | inl same ↦
        let (here, there) : P k × Keys m = rw same at h in
        (here, (subst P (sym ((str_eq_iff j k).0 same)) here, there))
    | inr other ↦
        let (here, there) : P j × Keys (insert k true m) = rw other at h in
        let (p, rest) = insert-Keys k m there in (p, (here, rest))
  ]

  skip_blank-All :
      (w : Str) (rest : List Str)
      → All P (skip_blank w rest) ↔ (All P (skip_blank w []) × All P rest)
  skip_blank-All [] rest = ((λ h. (tt, h)), λ h. h.1)
  skip_blank-All (c ∷ s) rest = ((λ h. ((h.0, tt), h.1)), λ h. (h.0.0, h.1))

  add_part-Keys :
      (w : Str) (out : Dict Bool) → Keys (add_part w out) ↔ (All P (skip_blank w []) × Keys out)
  unfolding add_part
  add_part-Keys [] out = ((λ h. (tt, h)), λ h. h.1)
  add_part-Keys (c ∷ s) out = (
    (λ h. let (p, rest) = insert-Keys (c ∷ s) out h in ((p, tt), rest)),
    λ h. All-insert (λ e. P e.0) (c ∷ s) true out h.0.0 h.1,
  )

  module _ (norm : Str → Str) where
    add_parts-Keys :
        (parts : List Str) (out : Dict Bool)
        → Keys (add_parts norm parts out) ↔ (All P (written_parts norm parts) × Keys out)
    unfolding add_parts
    add_parts-Keys [] out = ((λ h. (tt, h)), λ h. h.1)
    add_parts-Keys (part ∷ parts) out =
        let next = add_parts-Keys parts (add_part (norm part) out) in
        let first = add_part-Keys (norm part) out in
        let both = skip_blank-All (norm part) (written_parts norm parts) in
        (
          (λ h.
              let (later, h') = next.0 h in
              let (now, h'') = first.0 h' in (both.1 (now, later), h'')),
          λ h. let (now, later) = both.0 h.0 in next.1 (later, first.1 (now, h.1)),
        )

    append-All : (l r : List Str) → All P (l ++ r) ↔ (All P l × All P r)
    append-All [] r = ((λ h. (tt, h)), λ h. h.1)
    append-All (x ∷ l) r = (
      (λ h. let (a, b) = (append-All l r).0 h.1 in ((h.0, a), b)),
      λ h. (h.0.0, (append-All l r).1 (h.0.1, h.1)),
    )

    pub add_values-Keys :
        (values : List Str) (out : Dict Bool)
        → Keys (add_values norm values out) ↔ (All P (written norm values) × Keys out)
    unfolding add_values
    add_values-Keys [] out = ((λ h. (tt, h)), λ h. h.1)
    add_values-Keys (value ∷ values) out =
        let parts = split b',' value in
        let next = add_values-Keys values (add_parts norm parts out) in
        let first = add_parts-Keys parts out in
        let both = append-All (written_parts norm parts) (written norm values) in
        (
          (λ h.
              let (later, h') = next.0 h in
              let (now, h'') = first.0 h' in (both.1 (now, later), h'')),
          λ h. let (now, later) = both.0 h.0 in next.1 (later, first.1 (now, h.1)),
        )

module _ (key : Str) where
  abbrev is_key : Str → Bool
  is_key code = str_eq code key

-- A set of codes has those that the list has, and no others.
abbrev pub HasWritten : (Str → Str) → List Str → Dict Bool → Type 0
HasWritten norm values set =
    (key : Str)
    → lookup key set
      ≡ (if any (λ code. str_eq code key) (written norm values) then some true else none)
