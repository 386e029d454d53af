-- ===== src/ClientIp/Values.antt =====
-- clientip.go: the values of forwarded header lines.
use traefik_plugin_ipgeoloca.Base.{
  ℕ, suc, ◌+◌, ◌<◌, ◌≡◌, refl, sym, ap, ◌∙◌, List, [], ◌∷◌, ◌++◌, ◌==◌, length, get_or, arith,
  Bool-cases, inl, inr,
}
use mathlib.Core.List.{append_assoc, append-nil}
use traefik_plugin_ipgeoloca.Base.Text.{Str, split, prepend}
use traefik_plugin_ipgeoloca.ClientIp.{trimmed_parts, split_values}

pub trimmed_parts-append :
    (xs ys : List Str) → trimmed_parts (xs ++ ys) ≡ trimmed_parts xs ++ trimmed_parts ys
unfolding trimmed_parts
trimmed_parts-append [] ys = refl
trimmed_parts-append (x ∷ xs) ys = ground (arith, trimmed_parts-append xs ys)

prepend-length : (c : ℕ) (ws : List Str) → 0 < length (prepend c ws)
prepend-length c [] = ground arith
prepend-length c (w ∷ ws) = ground arith

prepend-append :
    (c : ℕ) (ws vs : List Str) → 0 < length ws → prepend c (ws ++ vs) ≡ prepend c ws ++ vs
prepend-append c [] vs h = ground arith
prepend-append c (w ∷ ws) vs h = refl

split-length : (sep : ℕ) (s : Str) → 0 < length (split sep s)
unfolding split
split-length sep [] = ground arith
split-length sep (c ∷ s) = elim (Bool-cases (c == sep)) [
  | inl h ↦ ground arith
  | inr h ↦ ground (arith, prepend-length c (split sep s))
]

split-append : (sep : ℕ) (a b : Str) → split sep (a ++ sep ∷ b) ≡ split sep a ++ split sep b
unfolding split
split-append sep [] b = ground arith
split-append sep (c ∷ a) b =
    ground (
      arith,
      split-append sep a b,
      prepend-append c (split sep a) (split sep b) (split-length sep a),
    )

-- The values of a line to which a comma and more text are appended are the values of the line and
-- then those of the text.
pub split_values-comma :
    (sent honest : Str)
    → split_values ((sent ++ b',' ∷ honest) ∷ [])
      ≡ split_values (sent ∷ []) ++ split_values (honest ∷ [])
unfolding split_values
split_values-comma sent honest =
    let parts = trimmed_parts (split b',' sent) in
    let others = trimmed_parts (split b',' honest) in
    let joined : trimmed_parts (split b',' (sent ++ b',' ∷ honest)) ≡ parts ++ others =
      ap trimmed_parts (split-append b',' sent honest)
      ∙ trimmed_parts-append (split b',' sent) (split b',' honest) in
    append-nil (trimmed_parts (split b',' (sent ++ b',' ∷ honest)))
    ∙ joined
    ∙ sym (
        ap (λ t. t ++ (others ++ [])) (append-nil parts) ∙ ap (λ t. parts ++ t) (append-nil others))

pub split_values-append :
    (xs ys : List Str) → split_values (xs ++ ys) ≡ split_values xs ++ split_values ys
unfolding split_values
split_values-append [] ys = refl
split_values-append (x ∷ xs) ys =
    ap (λ t. trimmed_parts (split b',' x) ++ t) (split_values-append xs ys)
    ∙ sym (append_assoc (trimmed_parts (split b',' x)) (split_values xs) (split_values ys))

pub get_or-append :
    (xs ys : List Str) (i : ℕ) → get_or (xs ++ ys) (length xs + i) [] ≡ get_or ys i []
get_or-append [] ys i = let e : 0 + i ≡ i = omega arith in ap (λ n. get_or ys n []) e
get_or-append (x ∷ xs) ys i =
    let e : suc (length xs) + i ≡ suc (length xs + i) = omega arith in
    ap (λ n. get_or (x ∷ (xs ++ ys)) n []) e ∙ get_or-append xs ys i
