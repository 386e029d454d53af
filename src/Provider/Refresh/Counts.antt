-- ===== src/Provider/Refresh/Counts.antt =====
-- provider.go: how often a handle stands in each place of the provider's state.
use traefik_plugin_ipgeoloca.Base.{
  ℕ, zero, suc, ◌+◌, ◌≤◌, ◌≡◌, refl, List, [], ◌∷◌, ◌++◌, Option, none, some, Bool, false, inl, inr,
  if◌then◌else◌, any, length, ◌==◌, ltb, leb, ◌&&◌, arith, Option-cases, Bool-cases,
}
use traefik_plugin_ipgeoloca.Value.{Float}
use traefik_plugin_ipgeoloca.Provider.Refresh.{
  Handle, Moments, Phase, resting, scanned, swapped, State, ids, is_some, replacement, scan, swap,
}
use traefik_plugin_ipgeoloca.Provider.Refresh.Opening.{numbers}

-- How often a number stands in a list.
abbrev pub count : ℕ → List ℕ → ℕ
count k [] = 0
count k (id ∷ l) = (if k == id then 1 else 0) + count k l

-- One for a number from `first` on and below `last`.
abbrev pub within : ℕ → ℕ → ℕ → ℕ
within k first last = if leb first k && ltb k last then 1 else 0

pub count-append : (k : ℕ) (xs ys : List ℕ) → count k (xs ++ ys) ≡ count k xs + count k ys
count-append k [] ys = omega arith
count-append k (x ∷ xs) ys = omega (arith, count-append k xs ys)

pub count-numbers : (k id n : ℕ) → count k (numbers id n) ≡ within k id (id + n)
count-numbers k id zero = ground arith
count-numbers k id (suc n) = ground (arith, count-numbers k (suc id) n)

abbrev pub replacement_ids : List (Option Handle) → List ℕ
replacement_ids [] = []
replacement_ids (none ∷ replacements) = replacement_ids replacements
replacement_ids (some h ∷ replacements) = h.id ∷ replacement_ids replacements

abbrev pub phase_ids : Phase → List ℕ
phase_ids resting = []
phase_ids (scanned replacements) = replacement_ids replacements
phase_ids (swapped retired) = ids retired

abbrev pub pending_ids : List (List Handle) → List ℕ
pending_ids [] = []
pending_ids (retired ∷ pending) = ids retired ++ pending_ids pending

pub count-pending :
    (k : ℕ) (before : List (List Handle)) (retired : List Handle) (after : List (List Handle))
    → count k (pending_ids (before ++ (retired ∷ after)))
      ≡ count k (ids retired) + count k (pending_ids (before ++ after))
count-pending k [] retired after = count-append k (ids retired) (pending_ids after)
count-pending k (first ∷ before) retired after = omega (
  arith,
  count-append k (ids first) (pending_ids (before ++ (retired ∷ after))),
  count-append k (ids first) (pending_ids (before ++ after)),
  count-pending k before retired after,
)

-- How often a handle is in service, in the hands of the refresh, waiting to be closed, or closed.
abbrev pub tally : ℕ → State → ℕ
tally k s =
    count k (ids s.readers)
    + (count k (phase_ids s.phase) + (count k (pending_ids s.pending) + count k s.closed))

pub swap-le :
    (k : ℕ) (readers : List Handle) (replacements : List (Option Handle))
    → count k (ids (swap readers replacements).0) + count k (ids (swap readers replacements).1)
      ≤ count k (ids readers) + count k (replacement_ids replacements)
unfolding swap
swap-le k [] replacements = omega arith
swap-le k (h ∷ readers) [] = omega arith
swap-le k (h ∷ readers) (none ∷ replacements) = omega (arith, swap-le k readers replacements)
swap-le k (h ∷ readers) (some fresh ∷ replacements) = omega (arith, swap-le k readers replacements)

pub swap-eq :
    (k : ℕ) (readers : List Handle) (replacements : List (Option Handle))
    → length replacements ≡ length readers
    → count k (ids (swap readers replacements).0) + count k (ids (swap readers replacements).1)
      ≡ count k (ids readers) + count k (replacement_ids replacements)
unfolding swap
swap-eq k [] [] fit = refl
swap-eq k [] (r ∷ replacements) fit = absurd (omega arith)
swap-eq k (h ∷ readers) [] fit = omega arith
swap-eq k (h ∷ readers) (none ∷ replacements) fit =
    omega (arith, swap-eq k readers replacements (omega arith))
swap-eq k (h ∷ readers) (some fresh ∷ replacements) fit =
    omega (arith, swap-eq k readers replacements (omega arith))

module _ (uint_of_float : Float → ℕ) (in_memory : Bool) where
  module _ (moments : ℕ → Moments) where
    abbrev pub scanning : ℕ → ℕ → List Handle → List (Option Handle) × ℕ
    scanning = scan uint_of_float in_memory moments

    pub scan-count :
        (k i id : ℕ) (readers : List Handle)
        → (count k (replacement_ids (scanning i id readers).0)
            ≡ within k id (scanning i id readers).1)
          × (id ≤ (scanning i id readers).1)
          × (length (scanning i id readers).0 ≡ length readers)
    unfolding scan
    scan-count k i id [] = (ground arith, omega arith, refl)
    scan-count k i id (h ∷ readers) =
        elim (Option-cases (replacement uint_of_float in_memory (moments i) h.database)) [
          | inl kept ↦
              let (counted, grows, fit) = scan-count k (suc i) id readers in
              rw (scan, kept) (counted, grows, omega (arith, fit))
          | inr (d, fresh) ↦
              let (counted, grows, fit) = scan-count k (suc i) (suc id) readers in
              rw (scan, fresh)
                (ground (arith, counted, grows), omega (arith, grows), omega (arith, fit))
        ]

  pub none-replacement_ids :
      (replacements : List (Option Handle))
      → any is_some replacements ≡ false
      → replacement_ids replacements ≡ []
  none-replacement_ids [] h = refl
  none-replacement_ids (none ∷ replacements) h = none-replacement_ids replacements h
  none-replacement_ids (some fresh ∷ replacements) h = cc h

  pub if-phase_ids :
      (replacements : List (Option Handle))
      → phase_ids (if any is_some replacements then scanned replacements else resting)
        ≡ replacement_ids replacements
  if-phase_ids replacements = elim (Bool-cases (any is_some replacements)) [
    | inl changes ↦ rw changes refl
    | inr quiet ↦ rw (quiet, none-replacement_ids replacements quiet) refl
  ]
