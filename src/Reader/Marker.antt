-- ===== src/Reader/Marker.antt =====
-- mmdb.go: the search for the metadata marker, and its outcome.
use traefik_plugin_ipgeoloca.Base.{
  ℕ, zero, suc, ◌+◌, ◌-◌, ◌≤◌, ◌<◌, ◌≡◌, List, none, some, true, false, ltb, ◌==◌, ◌||◌, length,
  drop, arith, Bool-cases, inl, inr,
}
use traefik_plugin_ipgeoloca.Base.Text.{has_prefix}
use traefik_plugin_ipgeoloca.Reader.{last_index_below, last_index_of_bytes}

module _ (haystack needle : List ℕ) where
  last_index_below_matches :
      (bound i : ℕ)
      → last_index_below haystack needle bound ≡ some i
      → has_prefix (drop i haystack) needle ≡ true
  unfolding last_index_below
  last_index_below_matches zero i h = ground arith
  last_index_below_matches (suc n) i h = elim (Bool-cases (has_prefix (drop n haystack) needle)) [
    | inl fits ↦ let e : some n ≡ some i = rw fits at h in let e' : n ≡ i = cc e in rw (← e') fits
    | inr other ↦ last_index_below_matches n i (rw other at h)
  ]

  last_index_below_last :
      (bound i j : ℕ)
      → last_index_below haystack needle bound ≡ some i
      → i < j
      → j < bound
      → has_prefix (drop j haystack) needle ≡ false
  unfolding last_index_below
  last_index_below_last zero i j h above below = absurd (omega arith)
  last_index_below_last (suc n) i j h above below =
      elim (Bool-cases (has_prefix (drop n haystack) needle)) [
        | inl fits ↦
            let e : some n ≡ some i = rw fits at h in let e' : n ≡ i = cc e in absurd (omega arith)
        | inr other ↦ elim (Bool-cases (j == n)) [
          | inl same ↦ ground (arith, other)
          | inr apart ↦ last_index_below_last n i j (rw other at h) above (ground arith)
        ]
      ]

  last_index_below-none :
      (bound j : ℕ)
      → last_index_below haystack needle bound ≡ none
      → j < bound
      → has_prefix (drop j haystack) needle ≡ false
  unfolding last_index_below
  last_index_below-none zero j h below = absurd (omega arith)
  last_index_below-none (suc n) j h below =
      elim (Bool-cases (has_prefix (drop n haystack) needle)) [
        | inl fits ↦ cc (rw fits at h)
        | inr other ↦ elim (Bool-cases (j == n)) [
          | inl same ↦ ground (arith, other)
          | inr apart ↦ last_index_below-none n j (rw other at h) (ground arith)
        ]
      ]

  -- `lastIndexOfBytes` finds the last occurrence: the needle stands at the index that it returns,
  -- and at no later place where there is room for it.
  pub last_index_of_bytes_last :
      (i j : ℕ)
      → last_index_of_bytes haystack needle ≡ some i
      → i < j
      → j + length needle ≤ length haystack
      → (has_prefix (drop i haystack) needle ≡ true) × (has_prefix (drop j haystack) needle ≡ false)
  unfolding last_index_of_bytes
  last_index_of_bytes_last i j h above room =
      elim (Bool-cases (length needle == 0 || ltb (length haystack) (length needle))) [
        | inl unfit ↦ cc (rw unfit at h)
        | inr fit ↦
            let found = rw fit at h in
            let bound = length haystack - length needle + 1 in
            (
              last_index_below_matches bound i found,
              last_index_below_last bound i j found above (omega arith),
            )
      ]

  -- `lastIndexOfBytes` finds an occurrence where there is one: if it returns none, then a needle
  -- that is not empty stands at no place where there is room for it.
  pub last_index_of_bytes-none :
      (j : ℕ)
      → last_index_of_bytes haystack needle ≡ none
      → 0 < length needle
      → j + length needle ≤ length haystack
      → has_prefix (drop j haystack) needle ≡ false
  unfolding last_index_of_bytes
  last_index_of_bytes-none j h filled room =
      elim (Bool-cases (length needle == 0 || ltb (length haystack) (length needle))) [
        | inl unfit ↦ absurd (ground arith)
        | inr fit ↦
            last_index_below-none (length haystack - length needle + 1) j (rw fit at h)
              (omega arith)
      ]
