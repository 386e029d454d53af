-- ===== src/Provider/Refresh/Renewal.antt =====
-- provider.go: `refreshChanged` where nothing comes between its parts.
use traefik_plugin_ipgeoloca.Base.{
  ℕ, suc, ◌≡◌, refl, sym, ap, ◌∙◌, List, [], ◌∷◌, Option, none, some, Bool, true, false, ◌⊎◌, inl,
  inr, any, Result, ok, err, Option-cases, Bool-cases, Result-cases,
}
use mathlib.Core.Path.{subst}
use traefik_plugin_ipgeoloca.Value.{Float}
use traefik_plugin_ipgeoloca.Cache.{reset}
use traefik_plugin_ipgeoloca.Database.{Database, OpenError, open_reader, changed}
use traefik_plugin_ipgeoloca.Provider.Refresh.{
  Handle, Moments, resting, State, is_some, replacement, scan, scan_readers, swap, swap_readers,
  reset_cache, finish_refresh, refresh_changed,
}

abbrev pub databases_of : List Handle → List Database
databases_of [] = []
databases_of (h ∷ handles) = h.database ∷ databases_of handles

module _ (uint_of_float : Float → ℕ) (in_memory : Bool) where
  abbrev reopens : Moments → Database → Result OpenError Database
  reopens m d = open_reader uint_of_float m.at_stat m.at_open d.path in_memory

  -- What becomes of one database: a file that has not changed and one that does not open keep it.
  abbrev pub IsRenewed : Moments → Database → Database → Type 0
  IsRenewed m d d' =
      ((changed m.at_changed d ≡ false) × (d' ≡ d))
      ⊎ ((changed m.at_changed d ≡ true) × (e : OpenError) × (reopens m d ≡ err e) × (d' ≡ d))
      ⊎ ((changed m.at_changed d ≡ true) × (reopens m d ≡ ok d'))

  abbrev pub AreRenewed : (ℕ → Moments) → ℕ → List Database → List Database → Type 0
  AreRenewed moments i [] [] = Unit
  AreRenewed moments i [] (d' ∷ ds') = ⊥
  AreRenewed moments i (d ∷ ds) [] = ⊥
  AreRenewed moments i (d ∷ ds) (d' ∷ ds') =
      IsRenewed (moments i) d d' × AreRenewed moments (suc i) ds ds'

  abbrev kept_or : Database → Option Database → Database
  kept_or d none = d
  kept_or d (some d') = d'

  replacement-IsRenewed :
      (m : Moments) (d : Database)
      → IsRenewed m d (kept_or d (replacement uint_of_float in_memory m d))
  unfolding replacement
  replacement-IsRenewed m d = elim (Bool-cases (changed m.at_changed d)) [
    | inr same ↦ rw same (inl (refl, refl))
    | inl differs ↦ elim (Result-cases (reopens m d)) [
      | inl (d', e) ↦ rw (differs, e) (inr (inr (refl, refl)))
      | inr (e, failed) ↦ rw (differs, failed) (inr (inl (refl, e, refl, refl)))
    ]
  ]

  swap-scan :
      (moments : ℕ → Moments) (i id : ℕ) (handles : List Handle)
      → AreRenewed moments i
          (databases_of handles)
          (databases_of (swap handles (scan uint_of_float in_memory moments i id handles).0).0)
  unfolding scan swap
  swap-scan moments i id [] = tt
  swap-scan moments i id (h ∷ handles) =
      let one = replacement-IsRenewed (moments i) h.database in
      elim (Option-cases (replacement uint_of_float in_memory (moments i) h.database)) [
        | inl kept ↦ rw (scan, kept) ((rw kept at one), swap-scan moments (suc i) id handles)
        | inr (d, fresh) ↦
            rw (scan, fresh) ((rw fresh at one), swap-scan moments (suc i) (suc id) handles)
      ]

  -- Nothing to replace.
  swap-none :
      (moments : ℕ → Moments) (i id : ℕ) (handles : List Handle)
      → any is_some (scan uint_of_float in_memory moments i id handles).0 ≡ false
      → (databases_of (swap handles (scan uint_of_float in_memory moments i id handles).0).0
          ≡ databases_of handles)
        × ((scan uint_of_float in_memory moments i id handles).1 ≡ id)
  unfolding scan swap
  swap-none moments i id [] h = (refl, refl)
  swap-none moments i id (g ∷ handles) h =
      elim (Option-cases (replacement uint_of_float in_memory (moments i) g.database)) [
        | inr (d, fresh) ↦ cc (rw (scan, fresh) at h)
        | inl kept ↦
            let (same, counted) = swap-none moments (suc i) id handles (rw (scan, kept) at h) in
            rw (scan, kept) (ap (λ ds. g.database ∷ ds) same, counted)
      ]

  -- An untouched file, or one that does not open.
  abbrev pub IsQuiet : Moments → Database → Type 0
  IsQuiet m d = (changed m.at_changed d ≡ false) ⊎ ((e : OpenError) × (reopens m d ≡ err e))

  abbrev pub AreQuiet : (ℕ → Moments) → ℕ → List Database → Type 0
  AreQuiet moments i [] = Unit
  AreQuiet moments i (d ∷ ds) = IsQuiet (moments i) d × AreQuiet moments (suc i) ds

  replacement-IsQuiet :
      (m : Moments) (d : Database) → IsQuiet m d → replacement uint_of_float in_memory m d ≡ none
  unfolding replacement
  replacement-IsQuiet m d (inl same) = rw same refl
  replacement-IsQuiet m d (inr (e, failed)) = elim (Bool-cases (changed m.at_changed d)) [
    | inl differs ↦ rw (differs, failed) refl
    | inr same ↦ rw same refl
  ]

  scan-AreQuiet :
      (moments : ℕ → Moments) (i id : ℕ) (handles : List Handle)
      → AreQuiet moments i (databases_of handles)
      → any is_some (scan uint_of_float in_memory moments i id handles).0 ≡ false
  unfolding scan
  scan-AreQuiet moments i id [] q = refl
  scan-AreQuiet moments i id (h ∷ handles) (one, q) =
      rw (scan, replacement-IsQuiet (moments i) h.database one)
        (scan-AreQuiet moments (suc i) id handles q)

  -- A refresh from one end to the other, of a provider whose goroutine rests.
  module _ (moments : ℕ → Moments) (s : State) where
    abbrev pub refreshed : State
    refreshed = refresh_changed uint_of_float in_memory moments s

    abbrev found : List (Option Handle)
    found = (scan uint_of_float in_memory moments 0 s.next_id s.readers).0

    refreshed_none : any is_some found ≡ false → s.phase ≡ resting → refreshed ≡ s
    unfolding refresh_changed scan_readers finish_refresh
    refreshed_none h e =
        let (_, counted) = swap-none moments 0 s.next_id s.readers h in
        rw (refresh_changed, scan_readers, h)
          (λ i. record s { phase = sym e i; next_id = counted i })

    refreshed_some :
        any is_some found ≡ true
        → (refreshed.readers ≡ (swap s.readers found).0) × (refreshed.cache ≡ reset s.cache)
    unfolding refresh_changed scan_readers finish_refresh swap_readers reset_cache
    refreshed_some h = rw (refresh_changed, scan_readers, h) (refl, refl)

    -- A refresh that nothing interrupts puts, for each database in its place, the newly opened
    -- file where `Changed` reports a change and the file opens, and keeps the loaded database where
    -- it does not; then the provider is unchanged as a whole or its cache has been reset. The
    -- goroutine that refreshes is at rest before.
    pub refresh_changed-AreRenewed :
        s.phase ≡ resting
        → AreRenewed moments 0 (databases_of s.readers) (databases_of refreshed.readers)
          × ((refreshed ≡ s) ⊎ (refreshed.cache ≡ reset s.cache))
    refresh_changed-AreRenewed e =
        let renewed = swap-scan moments 0 s.next_id s.readers in
        elim (Bool-cases (any is_some found)) [
          | inl changes ↦
              let (readers, cleared) = refreshed_some changes in
              (
                subst (λ l. AreRenewed moments 0 (databases_of s.readers) (databases_of l))
                    (sym readers) renewed,
                inr cleared,
              )
          | inr quiet ↦
              let same = refreshed_none quiet e in
              let (kept, _) = swap-none moments 0 s.next_id s.readers quiet in
              (
                subst (AreRenewed moments 0 (databases_of s.readers))
                    (kept ∙ ap (λ t. databases_of t.readers) (sym same)) renewed,
                inl same,
              )
        ]

    -- A refresh changes nothing at all, neither the databases nor the cache, where every file is
    -- either as it was or cannot be opened.
    pub refresh_changed-AreQuiet :
        s.phase ≡ resting → AreQuiet moments 0 (databases_of s.readers) → refreshed ≡ s
    refresh_changed-AreQuiet e q = refreshed_none (scan-AreQuiet moments 0 s.next_id s.readers q) e
