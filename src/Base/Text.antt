-- ===== src/Base/Text.antt =====
-- Go strings as lists of bytes: equality, literals, and the functions of package strings that the
-- plugin calls, on ASCII text.
use Prim.Native.Nat.{ℕ, ◌-◌, ◌+◌, ◌/◌, ◌%◌, zero, suc}
use Prim.Native.Char.{code}
use Prim.Native.String.{String}
use mathlib.Core.Path.{◌≡◌, refl}
use mathlib.Core.Logic.{◌↔◌}
use mathlib.Core.Bool.{Bool, true, false, ◌&&◌, ◌||◌}
use mathlib.Core.Option
use mathlib.Core.Option.{Option, none, some}
use mathlib.Core.List.{List, [], ◌∷◌, ◌++◌}
use native.Mathlib.Omega.{arith}
use traefik_plugin_ipgeoloca.Base.Tests.{leb, ◌==◌, if◌then◌else◌}

abbrev pub Str : Type 0
Str = List ℕ

-- The bytes of an ASCII literal.
abbrev pub codes : String → Str
codes String.[] = []
codes (String.◌∷◌ c s) = code c ∷ codes s

unfoldable pub str_eq : Str → Str → Bool
str_eq [] [] = true
str_eq (a ∷ s) (b ∷ t) = a == b && str_eq s t
str_eq [] (b ∷ t) = false
str_eq (a ∷ s) [] = false

pub str_eq_iff : (s t : Str) → (str_eq s t ≡ true) ↔ (s ≡ t)
unfolding str_eq
str_eq_iff [] [] = ground arith
str_eq_iff [] (b ∷ t) = ground arith
str_eq_iff (a ∷ s) [] = ground arith
str_eq_iff (a ∷ s) (b ∷ t) = ground (arith, str_eq_iff s t)

pub str_eq_refl : (s : Str) → str_eq s s ≡ true
str_eq_refl s = (str_eq_iff s s).1 refl

abbrev pub is_space : ℕ → Bool
is_space c = c == 32 || (leb 9 c && leb c 13)

abbrev pub upper_byte : ℕ → ℕ
upper_byte c = if leb 97 c && leb c 122 then c - 32 else c

abbrev pub lower_byte : ℕ → ℕ
lower_byte c = if leb 65 c && leb c 90 then c + 32 else c

-- strings.ToUpper, strings.ToLower
unfoldable pub to_upper : Str → Str
to_upper [] = []
to_upper (c ∷ s) = upper_byte c ∷ to_upper s

unfoldable pub to_lower : Str → Str
to_lower [] = []
to_lower (c ∷ s) = lower_byte c ∷ to_lower s

unfoldable pub trim_left : Str → Str
trim_left [] = []
trim_left (c ∷ s) = if is_space c then trim_left s else c ∷ s

-- The text without the spaces at its end.
unfoldable pub trim_right : Str → Str
trim_right [] = []
trim_right (c ∷ s) = elim (trim_right s) [
  | [] ↦ if is_space c then [] else c ∷ []
  | d ∷ t ↦ c ∷ d ∷ t
]

-- strings.TrimSpace
unfoldable pub trim_space : Str → Str
unfolding trim_left trim_right
trim_space s = trim_right (trim_left s)

unfoldable pub has_prefix : Str → Str → Bool
has_prefix s [] = true
has_prefix [] (p ∷ ps) = false
has_prefix (c ∷ s) (p ∷ ps) = c == p && has_prefix s ps

unfoldable pub strip : Str → Str → Str
strip s [] = s
strip [] (p ∷ ps) = []
strip (c ∷ s) (p ∷ ps) = strip s ps

-- strings.TrimPrefix
unfoldable pub trim_prefix : Str → Str → Str
unfolding has_prefix strip
trim_prefix s p = if has_prefix s p then strip s p else s

abbrev pub prepend : ℕ → List Str → List Str
prepend c [] = (c ∷ []) ∷ []
prepend c (w ∷ ws) = (c ∷ w) ∷ ws

-- strings.Split by a separator of one byte; never empty.
unfoldable pub split : ℕ → Str → List Str
split sep [] = [] ∷ []
split sep (c ∷ s) = let rest = split sep s in if c == sep then [] ∷ rest else prepend c rest

-- strings.Join
unfoldable pub join : Str → List Str → Str
join sep [] = []
join sep (w ∷ []) = w
join sep (w ∷ v ∷ ws) = w ++ (sep ++ join sep (v ∷ ws))

-- strconv.Itoa of a number; the fuel is more than its digits.
unfoldable pub decimal_from : ℕ → ℕ → Str → Str
decimal_from zero n acc = acc
decimal_from (suc f) n acc =
    let rest = decimal_from f (n / 10) ((n % 10 + 48) ∷ acc) in
    if n / 10 == 0 then (n % 10 + 48) ∷ acc else rest

unfoldable pub decimal : ℕ → Str
decimal n = decimal_from (suc n) n []

-- strings.IndexByte and strings.LastIndex of one byte.
unfoldable pub index_byte : ℕ → Str → Option ℕ
index_byte c [] = none
index_byte c (d ∷ s) = let rest = Option.map suc (index_byte c s) in if d == c then some 0 else rest

unfoldable pub last_index_byte : ℕ → Str → Option ℕ
last_index_byte c [] = none
last_index_byte c (d ∷ s) = elim (last_index_byte c s) [
  | some i ↦ some (suc i)
  | none ↦ if d == c then some 0 else none
]
