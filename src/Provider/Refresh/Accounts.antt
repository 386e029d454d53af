-- ===== src/Provider/Refresh/Accounts.antt =====
-- provider.go: what becomes of each handle that the MMDB provider opens.
use traefik_plugin_ipgeoloca.Base.{
  ℕ, ◌+◌, ◌≤◌, ◌<◌, ◌≡◌, refl, sym, ap, ◌∙◌, List, [], ◌∷◌, ◌++◌, Option, Bool, true, false, ◌⊎◌,
  inl, inr, if◌then◌else◌, length, ok, arith,
}
use mathlib.Core.Path.{subst}
use traefik_plugin_ipgeoloca.Base.Text.{Str}
use traefik_plugin_ipgeoloca.Value.{Float}
use traefik_plugin_ipgeoloca.Cache.{ResultCache}
use traefik_plugin_ipgeoloca.Provider.Refresh.{
  Handle, OpenTimes, Moments, Phase, resting, scanned, swapped, State, ids, scan_readers,
  swap_readers, reset_cache, release, close, new_mmdb_provider,
}
use traefik_plugin_ipgeoloca.Provider.Refresh.Opening.{HasOpened, new_mmdb_provider-HasOpened}
use traefik_plugin_ipgeoloca.Provider.Refresh.Runs.{
  Step, scans, swaps, resets, releases, closes, stores, Reach, here, next,
}
use traefik_plugin_ipgeoloca.Provider.Refresh.Counts.{
  count, within, count-append, count-numbers, replacement_ids, phase_ids, pending_ids,
  count-pending, tally, swap-le, swap-eq, scanning, scan-count, if-phase_ids,
}

module _ (uint_of_float : Float → ℕ) (in_memory : Bool) where
  -- Each number below the next one is accounted for at most once, and no other is.
  abbrev IsAccounted : State → Type 0
  IsAccounted s = (k : ℕ) → tally k s ≤ within k 0 s.next_id

  abbrev HasFit : List Handle → Phase → Type 0
  HasFit readers resting = Unit
  HasFit readers (scanned replacements) = length replacements ≡ length readers
  HasFit readers (swapped retired) = Unit

  -- Before `close`: exactly once.
  abbrev IsComplete : State → Type 0
  IsComplete s =
      (s.stopped ≡ true) ⊎ (((k : ℕ) → tally k s ≡ within k 0 s.next_id) × HasFit s.readers s.phase)

  if-HasFit :
      (readers : List Handle) (replacements : List (Option Handle)) (b : Bool)
      → length replacements ≡ length readers
      → HasFit readers (if b then scanned replacements else resting)
  if-HasFit readers replacements true fit = fit
  if-HasFit readers replacements false fit = tt

  tally-scans :
      (moments : ℕ → Moments) (s : State) (k : ℕ)
      → s.phase ≡ resting
      → (tally k (scan_readers uint_of_float in_memory moments s) + within k 0 s.next_id
          ≡ tally k s + within k 0 (scan_readers uint_of_float in_memory moments s).next_id)
  unfolding scan_readers
  tally-scans moments s k e =
      let found = scanning uint_of_float in_memory moments 0 s.next_id s.readers in
      let (counted, grows, _) =
        scan-count uint_of_float in_memory moments k 0 s.next_id s.readers in
      let rests : phase_ids s.phase ≡ [] = ap phase_ids e in
      rw (rests, if-phase_ids uint_of_float in_memory found.0) (ground (arith, counted, grows))

  tally-swaps :
      (replacements : List (Option Handle)) (s : State) (k : ℕ)
      → s.phase ≡ scanned replacements
      → tally k (swap_readers replacements s) ≤ tally k s
  unfolding swap_readers
  tally-swaps replacements s k e =
      let held : phase_ids s.phase ≡ replacement_ids replacements = ap phase_ids e in
      rw held (omega (arith, swap-le k s.readers replacements))

  tally-swaps_eq :
      (replacements : List (Option Handle)) (s : State) (k : ℕ)
      → s.phase ≡ scanned replacements
      → length replacements ≡ length s.readers
      → tally k (swap_readers replacements s) ≡ tally k s
  unfolding swap_readers
  tally-swaps_eq replacements s k e fit =
      let held : phase_ids s.phase ≡ replacement_ids replacements = ap phase_ids e in
      rw held (omega (arith, swap-eq k s.readers replacements fit))

  tally-resets :
      (retired : List Handle) (s : State) (k : ℕ)
      → s.phase ≡ swapped retired
      → tally k (reset_cache retired s) ≡ tally k s
  unfolding reset_cache
  tally-resets retired s k e =
      let held : phase_ids s.phase ≡ ids retired = ap phase_ids e in
      rw held (omega (arith, count-append k (ids retired) (pending_ids s.pending)))

  tally-releases :
      (before : List (List Handle)) (retired : List Handle) (after : List (List Handle)) (s : State)
      (k : ℕ)
      → s.pending ≡ before ++ (retired ∷ after)
      → tally k (release before retired after s) ≡ tally k s
  unfolding release
  tally-releases before retired after s k e =
      rw e
        (omega (arith, count-pending k before retired after, count-append k (ids retired) s.closed))

  tally-closes : (s : State) (k : ℕ) → tally k (close s) ≡ tally k s
  unfolding close
  tally-closes s k = omega (arith, count-append k (ids s.readers) s.closed)

  Step-IsAccounted :
      {s t : State} → Step uint_of_float in_memory s t → IsAccounted s → IsAccounted t
  unfolding scan_readers swap_readers reset_cache release close
  Step-IsAccounted (scans moments s e) h k = omega (arith, tally-scans moments s k e, h k)
  Step-IsAccounted (swaps replacements s e) h k = omega (arith, tally-swaps replacements s k e, h k)
  Step-IsAccounted (resets retired s e) h k = omega (arith, tally-resets retired s k e, h k)
  Step-IsAccounted (releases before retired after s e) h k =
      omega (arith, tally-releases before retired after s k e, h k)
  Step-IsAccounted (closes s) h k = omega (arith, tally-closes s k, h k)
  Step-IsAccounted (stores key fields found now s) h k = h k

  Step-IsComplete : {s t : State} → Step uint_of_float in_memory s t → IsComplete s → IsComplete t
  unfolding scan_readers swap_readers reset_cache release close
  Step-IsComplete (stores key fields found now s) h = h
  Step-IsComplete (scans moments s e) (inl stopped) = inl stopped
  Step-IsComplete (swaps replacements s e) (inl stopped) = inl stopped
  Step-IsComplete (resets retired s e) (inl stopped) = inl stopped
  Step-IsComplete (releases before retired after s e) (inl stopped) = inl stopped
  Step-IsComplete (closes s) h = inl refl
  Step-IsComplete (scans moments s e) (inr (h, fit)) = inr (
    (λ k. omega (arith, tally-scans moments s k e, h k)),
    if-HasFit s.readers _ _ (scan-count uint_of_float in_memory moments 0 0 s.next_id s.readers).2,
  )
  Step-IsComplete (swaps replacements s e) (inr (h, fit)) =
      let fit' : length replacements ≡ length s.readers = subst (HasFit s.readers) e fit in
      inr ((λ k. tally-swaps_eq replacements s k e fit' ∙ h k), tt)
  Step-IsComplete (resets retired s e) (inr (h, fit)) =
      inr ((λ k. tally-resets retired s k e ∙ h k), tt)
  Step-IsComplete (releases before retired after s e) (inr (h, fit)) =
      inr ((λ k. tally-releases before retired after s k e ∙ h k), fit)

  Reach-IsAccounted :
      {s t : State} → IsAccounted s → Reach uint_of_float in_memory s t → IsAccounted t
  Reach-IsAccounted h here = h
  Reach-IsAccounted h (next reached step) = Step-IsAccounted step (Reach-IsAccounted h reached)

  Reach-IsComplete : {s t : State} → IsComplete s → Reach uint_of_float in_memory s t → IsComplete t
  Reach-IsComplete h here = h
  Reach-IsComplete h (next reached step) = Step-IsComplete step (Reach-IsComplete h reached)

  module _ (disk : ℕ → OpenTimes) (cache : Option ResultCache) (paths : List Str) (s : State)
      (made : new_mmdb_provider uint_of_float in_memory disk cache paths ≡ ok s) where
    made-tally : ((k : ℕ) → tally k s ≡ within k 0 s.next_id) × HasFit s.readers s.phase
    made-tally =
        let (_, numbered, counted, _, (rests, waits, closed, _)) =
          subst (HasOpened uint_of_float in_memory disk paths) made
            (new_mmdb_provider-HasOpened uint_of_float in_memory disk cache paths) in
        (
          (λ k.
              let in_phase : phase_ids s.phase ≡ [] = ap phase_ids rests in
              rw (numbered, in_phase, waits, closed, counted)
                (ground (arith, count-numbers k 0 (length paths)))),
          subst (HasFit s.readers) (sym rests) tt,
        )

    module _ (t : State) (reached : Reach uint_of_float in_memory s t) (k : ℕ) where
      -- However the steps of a provider that `newMMDBProvider` made interleave, a handle that is in
      -- service is in service once, is not waiting to be closed and has not been closed, and no
      -- handle is closed twice.
      pub Reach-serving :
          (1 ≤ count k (ids t.readers)
            → (count k (ids t.readers) ≡ 1)
              × (count k (pending_ids t.pending) ≡ 0)
              × (count k t.closed ≡ 0))
          × (count k t.closed ≤ 1)
      Reach-serving =
          let h = Reach-IsAccounted (λ j. omega (arith, made-tally.0 j)) reached k in
          let small : tally k t ≤ 1 = ground (arith, h) in
          (
            (λ serves. (
              omega (arith, small, serves),
              omega (arith, small, serves),
              omega (arith, small, serves),
            )),
            omega (arith, small),
          )

      -- Until the provider is closed, each handle that was opened is in service, held by the
      -- refresh, waiting to be closed or closed, and in one of these places only.
      pub Reach-tally : t.stopped ≡ false → k < t.next_id → tally k t ≡ 1
      Reach-tally running opened = elim (Reach-IsComplete (inr made-tally) reached) [
        | inl stopped ↦ cc (stopped, running)
        | inr (h, _) ↦ ground (arith, h k)
      ]
