-- ===== src/Provider/Refresh/Runs.antt =====
-- provider.go: the steps of a provider in any order that its locks and its one refreshing
-- goroutine allow, and the files its readers are opened from.
use traefik_plugin_ipgeoloca.Base.{
  ℕ, suc, ◌≡◌, refl, sym, ap, ◌∙◌, List, [], ◌∷◌, ◌++◌, Option, none, some, Bool, true, false, ◌⊎◌,
  inl, inr, if◌then◌else◌, ok, Option-cases, Bool-cases, Result-cases,
}
use mathlib.Core.Path.{subst}
use traefik_plugin_ipgeoloca.Base.Text.{Str}
use traefik_plugin_ipgeoloca.Base.Dict.{Dict}
use traefik_plugin_ipgeoloca.Value.{Float}
use traefik_plugin_ipgeoloca.Cache.{ResultCache, put}
use traefik_plugin_ipgeoloca.Database.{Database, open_reader, changed}
use traefik_plugin_ipgeoloca.Provider.Refresh.{
  Handle, OpenTimes, Moments, Phase, resting, scanned, swapped, State, paths_of, replacement, scan,
  scan_readers, swap, swap_readers, reset_cache, release, close, new_mmdb_provider,
}
use traefik_plugin_ipgeoloca.Provider.Refresh.Opening.{
  open_reader-IsOpened, HasOpened, new_mmdb_provider-HasOpened,
}

module _ (uint_of_float : Float → ℕ) (in_memory : Bool) where
  -- The steps of the refresh come in turn; the others come at any time. A request that looked an
  -- address up may store what it found at any later time.
  pub data Step : State → State → Type 0 where
    scans :
        (moments : ℕ → Moments) (s : State)
        → s.phase ≡ resting
        → Step s (scan_readers uint_of_float in_memory moments s)
    swaps :
        (replacements : List (Option Handle)) (s : State)
        → s.phase ≡ scanned replacements
        → Step s (swap_readers replacements s)
    resets :
        (retired : List Handle) (s : State)
        → s.phase ≡ swapped retired
        → Step s (reset_cache retired s)
    releases :
        (before : List (List Handle)) (retired : List Handle) (after : List (List Handle))
        (s : State)
        → s.pending ≡ before ++ (retired ∷ after)
        → Step s (release before retired after s)
    closes : (s : State) → Step s (close s)
    stores :
        (key : Str) (fields : Dict Str) (found : Bool) (now : ℕ) (s : State)
        → Step s (record s { cache = put s.cache key fields found now })

  pub data Reach (start : State) : State → Type 0 where
    here : Reach start start
    next : {s t : State} → Reach start s → Step s t → Reach start t

  -- Each replacement is of the file of the reader in its place.
  abbrev pub IsAligned : List Handle → List (Option Handle) → Type 0
  IsAligned [] replacements = Unit
  IsAligned (h ∷ readers) [] = Unit
  IsAligned (h ∷ readers) (none ∷ replacements) = IsAligned readers replacements
  IsAligned (h ∷ readers) (some fresh ∷ replacements) =
      (fresh.database.path ≡ h.database.path) × IsAligned readers replacements

  replacement-path :
      (m : Moments) (d : Database) {d' : Database}
      → replacement uint_of_float in_memory m d ≡ some d'
      → d'.path ≡ d.path
  unfolding replacement
  replacement-path m d {d' = d'} h = elim (Bool-cases (changed m.at_changed d)) [
    | inr same ↦ cc (rw (replacement, same) at h)
    | inl differs ↦
        elim (Result-cases (open_reader uint_of_float m.at_stat m.at_open d.path in_memory)) [
          | inl (fresh, e) ↦
              let (_, _, (named, _, _, _)) =
                open_reader-IsOpened uint_of_float in_memory m.at_stat m.at_open d.path e in
              let h' : ◌≡◌ {A = Option Database} (some fresh) (some d') =
                rw (replacement, differs, e) at h in
              let same : fresh ≡ d' = cc h' in ap (λ x. x.path) (sym same) ∙ named
          | inr (e, failed) ↦ cc (rw (replacement, differs, failed) at h)
        ]
  ]

  scan-IsAligned :
      (moments : ℕ → Moments) (i id : ℕ) (readers : List Handle)
      → IsAligned readers (scan uint_of_float in_memory moments i id readers).0
  unfolding scan
  scan-IsAligned moments i id [] = tt
  scan-IsAligned moments i id (h ∷ readers) =
      elim (Option-cases (replacement uint_of_float in_memory (moments i) h.database)) [
        | inl kept ↦ rw (scan, kept) (scan-IsAligned moments (suc i) id readers)
        | inr (d, fresh) ↦
            rw (scan, fresh)
              (
                replacement-path (moments i) h.database fresh,
                scan-IsAligned moments (suc i) (suc id) readers,
              )
      ]

  swap-paths :
      (readers : List Handle) (replacements : List (Option Handle))
      → IsAligned readers replacements
      → paths_of (swap readers replacements).0 ≡ paths_of readers
  unfolding swap
  swap-paths [] replacements a = refl
  swap-paths (h ∷ readers) [] a = refl
  swap-paths (h ∷ readers) (none ∷ replacements) a =
      ap (λ l. h.database.path ∷ l) (swap-paths readers replacements a)
  swap-paths (h ∷ readers) (some fresh ∷ replacements) (named, a) =
      rw (named, swap-paths readers replacements a) refl

  -- The replacements of a refresh that has scanned.
  abbrev pub HasAligned : List Handle → Phase → Type 0
  HasAligned readers resting = Unit
  HasAligned readers (scanned replacements) = IsAligned readers replacements
  HasAligned readers (swapped retired) = Unit

  -- The readers are of the configured files, or there are none.
  abbrev pub ServesPaths : List Str → State → Type 0
  ServesPaths paths s =
      ((s.stopped ≡ true) × (s.readers ≡ []))
      ⊎ ((s.stopped ≡ false) × (paths_of s.readers ≡ paths) × HasAligned s.readers s.phase)

  if-HasAligned :
      (readers : List Handle) (replacements : List (Option Handle)) (b : Bool)
      → IsAligned readers replacements
      → HasAligned readers (if b then scanned replacements else resting)
  if-HasAligned readers replacements true a = a
  if-HasAligned readers replacements false a = tt

  module _ (paths : List Str) where
    Step-ServesPaths : {s t : State} → Step s t → ServesPaths paths s → ServesPaths paths t
    unfolding swap scan_readers swap_readers reset_cache release close
    Step-ServesPaths (scans moments s e) (inl empty) = inl empty
    Step-ServesPaths (scans moments s e) (inr (runs, listed, a)) =
        inr
          (runs, listed, if-HasAligned s.readers _ _ (scan-IsAligned moments 0 s.next_id s.readers))
    Step-ServesPaths (swaps replacements s e) (inl (stopped, empty)) =
        inl (stopped, ap (λ l. (swap l replacements).0) empty)
    Step-ServesPaths (swaps replacements s e) (inr (runs, listed, a)) =
        inr
          (runs, swap-paths s.readers replacements (subst (HasAligned s.readers) e a) ∙ listed, tt)
    Step-ServesPaths (resets retired s e) (inl empty) = inl empty
    Step-ServesPaths (resets retired s e) (inr (runs, listed, a)) = inr (runs, listed, tt)
    Step-ServesPaths (releases before retired after s e) h = h
    Step-ServesPaths (closes s) h = inl (refl, refl)
    Step-ServesPaths (stores key fields found now s) h = h

    Reach-ServesPaths : {s t : State} → ServesPaths paths s → Reach s t → ServesPaths paths t
    Reach-ServesPaths h here = h
    Reach-ServesPaths h (next reached step) = Step-ServesPaths step (Reach-ServesPaths h reached)

    Step-stopped : {s t : State} → Step s t → s.stopped ≡ true → t.stopped ≡ true
    unfolding scan_readers swap_readers reset_cache release close
    Step-stopped (scans moments s e) h = h
    Step-stopped (swaps replacements s e) h = h
    Step-stopped (resets retired s e) h = h
    Step-stopped (releases before retired after s e) h = h
    Step-stopped (closes s) h = refl
    Step-stopped (stores key fields found now s) h = h

    Reach-stopped : {s t : State} → Reach s t → s.stopped ≡ true → t.stopped ≡ true
    Reach-stopped here h = h
    Reach-stopped (next reached step) h = Step-stopped step (Reach-stopped reached h)

    -- What a provider serves, by whether `close` was called.
    abbrev pub Serving : State → Type 0
    Serving s =
        ((s.stopped ≡ false) × (paths_of s.readers ≡ paths))
        ⊎ ((s.stopped ≡ true) × (s.readers ≡ []))

    ServesPaths→Serving : (s : State) → ServesPaths paths s → Serving s
    ServesPaths→Serving s (inl closed) = inr closed
    ServesPaths→Serving s (inr (runs, listed, _)) = inl (runs, listed)

    Serving-stopped : (s : State) → Serving s → s.stopped ≡ true → s.readers ≡ []
    Serving-stopped s (inl (runs, _)) h = cc (runs, h)
    Serving-stopped s (inr (_, none_left)) h = none_left

    -- However requests, refreshes, the release of retired handles and `close` interleave, a
    -- provider that `newMMDBProvider` made serves one reader for each configured path, in the
    -- configured order, as long as `close` was not called, and no reader from the call of `close`
    -- on, whatever comes after it.
    pub Reach-paths :
        (disk : ℕ → OpenTimes) (cache : Option ResultCache) {s t : State}
        → new_mmdb_provider uint_of_float in_memory disk cache paths ≡ ok s
        → Reach s t
        → Serving t × ((u : State) → Reach (close t) u → (u.stopped ≡ true) × (u.readers ≡ []))
    unfolding close
    Reach-paths disk cache {s = s} {t = t} made reached =
        let (listed, _, _, _, (rests, _, _, runs)) =
          subst (HasOpened uint_of_float in_memory disk paths) made
            (new_mmdb_provider-HasOpened uint_of_float in_memory disk cache paths) in
        let start : ServesPaths paths s =
          inr (runs, listed, subst (HasAligned s.readers) (sym rests) tt) in
        let served = Reach-ServesPaths start reached in
        (
          ServesPaths→Serving t served,
          λ u after.
              let stopped = Reach-stopped after refl in
              (
                stopped,
                Serving-stopped u
                    (ServesPaths→Serving u
                      (Reach-ServesPaths (Step-ServesPaths (closes t) served) after))
                    stopped,
              ),
        )
