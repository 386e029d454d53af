-- ===== src/Provider/Refresh/Opening.antt =====
-- provider.go: `newMMDBProvider` and the handles it opens.
use traefik_plugin_ipgeoloca.Base.{
  ℕ, ◌+◌, zero, suc, ◌≡◌, refl, sym, ap, ◌∙◌, List, [], ◌∷◌, ◌++◌, Option, some, Bool, false, ◌==◌,
  ◌⊎◌, inl, inr, length, Result, ok, err, arith, Option-cases, Bool-cases, Result-cases,
  ok_injective, >>=-eq-ok,
}
use mathlib.Core.List.{append-nil}
use mathlib.Core.Path.{subst}
use traefik_plugin_ipgeoloca.Base.Text.{Str}
use traefik_plugin_ipgeoloca.Value.{Float}
use traefik_plugin_ipgeoloca.Cache.{ResultCache}
use traefik_plugin_ipgeoloca.Database.{
  FileSystem, FileInfo, Database, OpenError, open_content, open_reader,
}
use traefik_plugin_ipgeoloca.Provider.Refresh.{
  Handle, OpenTimes, no_databases, open_failed, Failure, State, ids, paths_of, open_all,
  new_mmdb_provider, resting,
}

-- id, id + 1, …
abbrev pub numbers : ℕ → ℕ → List ℕ
numbers id zero = []
numbers id (suc n) = id ∷ numbers (suc id) n

ids-append :
    (opened : List Handle) (h : Handle) (rest : List ℕ)
    → ids (opened ++ (h ∷ [])) ++ rest ≡ ids opened ++ (h.id ∷ rest)
ids-append [] h rest = refl
ids-append (g ∷ opened) h rest = ap (λ l. g.id ∷ l) (ids-append opened h rest)

paths_of-append :
    (opened : List Handle) (h : Handle) (rest : List Str)
    → paths_of (opened ++ (h ∷ [])) ++ rest ≡ paths_of opened ++ (h.database.path ∷ rest)
paths_of-append [] h rest = refl
paths_of-append (g ∷ opened) h rest = ap (λ l. g.database.path ∷ l) (paths_of-append opened h rest)

abbrev pub IsOpened : Database → FileInfo → Str → Type 0
IsOpened d st path =
    (d.path ≡ path) × (st.is_dir ≡ false) × (d.file_size ≡ st.size) × (d.mod_time ≡ st.mod_time)

module _ (uint_of_float : Float → ℕ) (in_memory : Bool) where
  pub open_reader-IsOpened :
      (at_stat at_open : FileSystem) (path : Str) {d : Database}
      → open_reader uint_of_float at_stat at_open path in_memory ≡ ok d
      → (st : FileInfo) × (at_stat.stat path ≡ some st) × IsOpened d st path
  unfolding open_reader
  open_reader-IsOpened at_stat at_open path h = elim (Option-cases (at_stat.stat path)) [
    | inl missing ↦ cc (rw (open_reader, missing) at h)
    | inr (st, known) ↦
        let h' = rw (open_reader, known) at h in
        elim (Bool-cases st.is_dir) [
          | inl is_dir ↦ cc (rw is_dir at h')
          | inr a_file ↦
              let (r, opened, e) =
                >>=-eq-ok (open_content uint_of_float at_open path in_memory) _ (rw a_file at h') in
              let e' = ok_injective e in
              (
                st,
                known,
                (
                  ap (λ x. x.path) (sym e'),
                  a_file,
                  ap (λ x. x.file_size) (sym e'),
                  ap (λ x. x.mod_time) (sym e'),
                ),
              )
        ]
  ]

  abbrev opens : OpenTimes → Str → Result OpenError Database
  opens at path = open_reader uint_of_float at.at_stat at.at_open path in_memory

  -- A path that opens, and one that does not.
  abbrev pub CanOpen : OpenTimes → Str → Type 0
  CanOpen at path = (d : Database) × (opens at path ≡ ok d)

  -- Each path opens at its turn, the first one at index `id`.
  abbrev pub AllOpen : (ℕ → OpenTimes) → ℕ → List Str → Type 0
  AllOpen disk id [] = Unit
  AllOpen disk id (path ∷ paths) = CanOpen (disk id) path × AllOpen disk (suc id) paths

  pub AllOpen-at :
      (disk : ℕ → OpenTimes) (id : ℕ) (before : List Str) (path : Str) (after : List Str)
      → AllOpen disk id (before ++ (path ∷ after))
      → CanOpen (disk (id + length before)) path
  AllOpen-at disk id [] path after (here, _) = subst (λ n. CanOpen (disk n) path) (omega arith) here
  AllOpen-at disk id (first ∷ before) path after (_, there) =
      subst (λ n. CanOpen (disk n) path) (omega arith)
        (AllOpen-at disk (suc id) before path after there)

  -- What the loop comes to.
  abbrev Opens :
      (ℕ → OpenTimes) → List Handle → ℕ → List Str → Result Failure (List Handle) → Type 0
  Opens disk opened id paths (ok handles) =
      (paths_of handles ≡ paths_of opened ++ paths)
      × (ids handles ≡ ids opened ++ numbers id (length paths))
      × AllOpen disk id paths
  Opens disk opened id paths (err f) =
      (before : List Str) × (path : Str) × (after : List Str) × (e : OpenError) × (paths
        ≡ before ++ (path ∷ after))
      × AllOpen disk id before
      × (opens (disk (id + length before)) path ≡ err e)
      × (f.error ≡ open_failed e)
      × (f.closed ≡ ids opened ++ numbers id (length before))
      × (f.opened ≡ f.closed)

  Opens-cons :
      (disk : ℕ → OpenTimes) (opened : List Handle) (h : Handle) (path : Str) (paths : List Str)
      → h.database.path ≡ path
      → CanOpen (disk h.id) path
      → (r : Result Failure (List Handle)) → Opens disk (opened ++ (h ∷ [])) (suc h.id) paths r
      → Opens disk opened h.id (path ∷ paths) r
  Opens-cons disk opened h path paths named can (ok handles) (listed, numbered, all_open) = (
    listed ∙ paths_of-append opened h paths ∙ ap (λ p. paths_of opened ++ (p ∷ paths)) named,
    numbered ∙ ids-append opened h (numbers (suc h.id) (length paths)),
    (can, all_open),
  )
  Opens-cons disk opened h path paths named can (err f)
        (before, other, after, e, split, opened_all, failed, error, closed, both) =
      (
        path ∷ before,
        other,
        after,
        e,
        ap (λ l. path ∷ l) split,
        (can, opened_all),
        subst (λ n. opens (disk n) other ≡ err e) (omega arith) failed,
        error,
        closed ∙ ids-append opened h (numbers (suc h.id) (length before)),
        both,
      )

  open_all-Opens :
      (disk : ℕ → OpenTimes) (opened : List Handle) (id : ℕ) (paths : List Str)
      → Opens disk opened id paths (open_all uint_of_float in_memory disk opened id paths)
  unfolding open_all
  open_all-Opens disk opened id [] =
      (sym (append-nil (paths_of opened)), sym (append-nil (ids opened)), tt)
  open_all-Opens disk opened id (path ∷ paths) = elim (Result-cases (opens (disk id) path)) [
    | inr (e, failed) ↦
        rw (open_all, failed)
          (
            [],
            path,
            paths,
            e,
            refl,
            tt,
            subst (λ n. opens (disk n) path ≡ err e) (omega arith) failed,
            refl,
            sym (append-nil (ids opened)),
            refl,
          )
    | inl (d, e) ↦
        let h : Handle = record { id = id; database = d } in
        let (st, known, (named, _, _, _)) =
          open_reader-IsOpened (disk id).at_stat (disk id).at_open path e in
        rw (open_all, e)
          (Opens-cons disk opened h path paths named (d, e)
            (open_all uint_of_float in_memory disk (opened ++ (h ∷ [])) (suc id) paths)
            (open_all-Opens disk (opened ++ (h ∷ [])) (suc id) paths))
  ]

  -- A provider that nothing has happened to.
  abbrev pub IsNew : State → Type 0
  IsNew s = (s.phase ≡ resting) × (s.pending ≡ []) × (s.closed ≡ []) × (s.stopped ≡ false)

  -- What `newMMDBProvider` gives for the paths.
  abbrev pub HasOpened : (ℕ → OpenTimes) → List Str → Result Failure State → Type 0
  HasOpened disk paths (ok s) =
      (paths_of s.readers ≡ paths)
      × (ids s.readers ≡ numbers 0 (length paths))
      × (s.next_id ≡ length paths)
      × AllOpen disk 0 paths
      × IsNew s
  HasOpened disk paths (err f) =
      ((paths ≡ []) × (f.error ≡ no_databases) × (f.closed ≡ []) × (f.opened ≡ []))
      ⊎ Opens disk [] 0 paths (err f)

  -- Whatever the disk holds, and however it changes from one call to the next, `newMMDBProvider`
  -- either opens every database, in the order of the paths, and numbers the handles from 0, or it
  -- returns an error: that there are no paths, or the error of the first path that does not open,
  -- where it has opened and closed exactly the handles of the paths before that one.
  pub new_mmdb_provider-HasOpened :
      (disk : ℕ → OpenTimes) (cache : Option ResultCache) (paths : List Str)
      → HasOpened disk paths (new_mmdb_provider uint_of_float in_memory disk cache paths)
  unfolding new_mmdb_provider
  new_mmdb_provider-HasOpened disk cache [] = inl (refl, refl, refl, refl)
  new_mmdb_provider-HasOpened disk cache (path ∷ paths) =
      let all_paths = path ∷ paths in
      let filled : (length all_paths == 0) ≡ false = ground arith in
      let opening = open_all-Opens disk [] 0 all_paths in
      elim (Result-cases (open_all uint_of_float in_memory disk [] 0 all_paths)) [
        | inl (handles, e) ↦
            let (listed, numbered, can) = subst (Opens disk [] 0 all_paths) e opening in
            rw (new_mmdb_provider, filled, e)
              (listed, numbered, refl, can, (refl, refl, refl, refl))
        | inr (f, e) ↦
            rw (new_mmdb_provider, filled, e) (inr (subst (Opens disk [] 0 all_paths) e opening))
      ]
