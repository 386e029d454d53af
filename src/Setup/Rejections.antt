-- ===== src/Setup/Rejections.antt =====
-- plugin.go: what `New` leaves open when it returns an error.
use traefik_plugin_ipgeoloca.Base.{
  ◌*◌, ℕ, ◌≡◌, refl, sym, ap, ◌∙◌, List, [], ◌∷◌, ◌==◌, any, if◌then◌else◌, length, arith, Option,
  some, Bool, true, false, ◌⊎◌, inl, inr, Result, ok, err, Bool-cases, Result-cases,
}
use mathlib.Core.Path.{subst}
use traefik_plugin_ipgeoloca.Base.Text.{Str, codes, str_eq, to_lower}
use traefik_plugin_ipgeoloca.Base.Int.{ℤ, pos}
use traefik_plugin_ipgeoloca.Value.{Float}
use traefik_plugin_ipgeoloca.Config.{Config, with_defaults}
use traefik_plugin_ipgeoloca.Net.{NetOps}
use traefik_plugin_ipgeoloca.Provider.Refresh.{OpenTimes, Failure, State, ids, new_mmdb_provider}
use traefik_plugin_ipgeoloca.Provider.Refresh.Opening.{
  numbers, HasOpened, new_mmdb_provider-HasOpened,
}
use traefik_plugin_ipgeoloca.Provider.Api.{WebOps, new_api_provider}
use traefik_plugin_ipgeoloca.Setup.{
  SetupError, Rejection, second, parse_duration, Settings, settings_of, mmdb_source_of,
  api_source_of, source_of, new_service, new_plugin,
}

-- The numbers that are not among the closed ones.
abbrev without : List ℕ → List ℕ → List ℕ
without closed [] = []
without closed (n ∷ ns) =
    let rest = without closed ns in if any (λ m. m == n) closed then rest else n ∷ rest

-- The handles that are still open when `New` returns the error.
abbrev pub left_open : Rejection → List ℕ
left_open r = without r.closed r.opened

without-cons : (m : ℕ) (closed ns : List ℕ) → without closed ns ≡ [] → without (m ∷ closed) ns ≡ []
without-cons m closed [] h = refl
without-cons m closed (n ∷ ns) h = elim (Bool-cases (any (λ k. k == n) closed)) [
  | inr kept ↦ cc (rw kept at h)
  | inl gone ↦ ground (arith, gone, without-cons m closed ns (rw gone at h))
]

without-all : (ns : List ℕ) → without ns ns ≡ []
without-all [] = refl
without-all (n ∷ ns) = ground (arith, without-cons n ns ns (without-all ns))

without-none : (ns : List ℕ) → without [] ns ≡ ns
without-none [] = refl
without-none (n ∷ ns) = ap (λ l. n ∷ l) (without-none ns)

module _ (net : NetOps) (parse_text : Str → Option ℤ) where
  module _ (web : WebOps) (uint_of_float : Float → ℕ) (disk : ℕ → OpenTimes) where
    -- The one way to leave something open.
    abbrev pub LeavesReaders : Config → Rejection → Type 0
    LeavesReaders cfg r =
        (s : Settings net parse_text) × (provider : State) × (e : SetupError) × (settings_of net
            parse_text cfg
          ≡ ok s)
        × (str_eq (to_lower cfg.mode) (codes "mmdb") ≡ true)
        × (new_mmdb_provider uint_of_float cfg.load_in_memory disk s.cache cfg.databases
            ≡ ok provider)
        × (parse_duration parse_text (codes "refreshInterval") cfg.refresh_interval (pos 0) ≡ err e)
        × (r.error ≡ e)
        × (left_open r ≡ numbers 0 (length cfg.databases))

    abbrev LeavesOnly : Config → Rejection → Type 0
    LeavesOnly cfg r = (left_open r ≡ []) ⊎ LeavesReaders cfg r

    err_injective :
        {A : Type 0} {r r' : Rejection} → ◌≡◌ {A = Result Rejection A} (err r) (err r') → r ≡ r'
    err_injective h = cc h

    closes_opened :
        (cfg : Config) (s : Settings net parse_text) (f : Failure)
        → new_mmdb_provider uint_of_float cfg.load_in_memory disk s.cache cfg.databases ≡ err f
        → without f.closed f.opened ≡ []
    closes_opened cfg s f failed =
        elim (subst (HasOpened uint_of_float cfg.load_in_memory disk cfg.databases) failed (
          new_mmdb_provider-HasOpened uint_of_float cfg.load_in_memory disk s.cache
            cfg.databases)) [
              | inl (_, _, _, nothing) ↦ ap (without f.closed) nothing
              | inr (_, _, _, _, _, _, _, _, _, both) ↦
                  ap (without f.closed) both ∙ without-all f.closed
            ]

    mmdb_source_of-LeavesOnly :
        (cfg : Config) (s : Settings net parse_text) (r : Rejection)
        → settings_of net parse_text cfg ≡ ok s
        → str_eq (to_lower cfg.mode) (codes "mmdb") ≡ true
        → mmdb_source_of net parse_text web uint_of_float disk cfg s ≡ err r
        → LeavesOnly cfg r
    unfolding mmdb_source_of
    mmdb_source_of-LeavesOnly cfg s r settled mode h =
        let opening =
          new_mmdb_provider uint_of_float cfg.load_in_memory disk s.cache cfg.databases in
        let interval =
          parse_duration parse_text (codes "refreshInterval") cfg.refresh_interval (pos 0) in
        elim (Result-cases opening) [
          | inr (f, failed) ↦
              let e = err_injective (rw (mmdb_source_of, failed) at h) in
              inl (ap left_open (sym e) ∙ closes_opened cfg s f failed)
          | inl (provider, opened) ↦ elim (Result-cases interval) [
            | inl (refresh, good) ↦ cc (rw (mmdb_source_of, opened, good) at h)
            | inr (e, bad) ↦
                let e' = err_injective (rw (mmdb_source_of, opened, bad) at h) in
                let (_, numbered, _, _, (_, _, unclosed, _)) =
                  subst (HasOpened uint_of_float cfg.load_in_memory disk cfg.databases) opened (
                    new_mmdb_provider-HasOpened uint_of_float cfg.load_in_memory disk s.cache
                      cfg.databases) in
                inr (
                  s,
                  provider,
                  e,
                  settled,
                  mode,
                  opened,
                  bad,
                  ap (λ t. t.error) (sym e'),
                  ap left_open (sym e')
                      ∙ ap (λ l. without l (ids provider.readers)) unclosed
                      ∙ without-none (ids provider.readers)
                      ∙ numbered,
                )
          ]
        ]

    api_source_of-left_open :
        (cfg : Config) (s : Settings net parse_text) (r : Rejection)
        → api_source_of net parse_text web uint_of_float disk cfg s ≡ err r
        → left_open r ≡ []
    unfolding api_source_of
    api_source_of-left_open cfg s r h =
        let limit =
          parse_duration parse_text (codes "apiTimeout") cfg.api_timeout (pos (2 * second)) in
        let made =
          new_api_provider web cfg.api_endpoint cfg.api_key cfg.api_include cfg.api_fields
            s.formatter in
        elim (Result-cases limit) [
          | inr (e, bad) ↦ ap left_open (sym (err_injective (rw (api_source_of, bad) at h)))
          | inl (timeout, good) ↦ elim (Result-cases made) [
            | inl (provider, e') ↦ cc (rw (api_source_of, good, e') at h)
            | inr (e, failed) ↦
                ap left_open (sym (err_injective (rw (api_source_of, good, failed) at h)))
          ]
        ]

    source_of-LeavesOnly :
        (cfg : Config) (s : Settings net parse_text) (r : Rejection)
        → settings_of net parse_text cfg ≡ ok s
        → source_of net parse_text web uint_of_float disk cfg s ≡ err r
        → LeavesOnly cfg r
    unfolding source_of
    source_of-LeavesOnly cfg s r settled h =
        elim (Bool-cases (str_eq (to_lower cfg.mode) (codes "mmdb"))) [
          | inl mode ↦ mmdb_source_of-LeavesOnly cfg s r settled mode (rw (source_of, mode) at h)
          | inr a ↦ elim (Bool-cases (str_eq (to_lower cfg.mode) (codes "api"))) [
            | inl mode ↦ inl (api_source_of-left_open cfg s r (rw (source_of, a, mode) at h))
            | inr b ↦ inl (ap left_open (sym (err_injective (rw (source_of, a, b) at h))))
          ]
        ]

    -- When `New` returns an error, every handle that it opened is among those it closed, with one
    -- exception: in mode mmdb, where all the databases open and `refreshInterval` is not valid, the
    -- error is that of `refreshInterval`, and one handle for each database is left open.
    pub new_plugin-left_open :
        (config : Config) (has_next : Bool) (r : Rejection)
        → new_plugin net parse_text web uint_of_float disk (some config) has_next ≡ err r
        → (left_open r ≡ []) ⊎ LeavesReaders (with_defaults config) r
    unfolding new_plugin new_service
    new_plugin-left_open config false r h = inl (ap left_open (sym (err_injective h)))
    new_plugin-left_open config true r h =
        let cfg = with_defaults config in
        elim (Result-cases (settings_of net parse_text cfg)) [
          | inr (e, failed) ↦
              inl (ap left_open (sym (err_injective (rw (new_service, failed) at h))))
          | inl (s, settled) ↦
              elim (Result-cases (source_of net parse_text web uint_of_float disk cfg s)) [
                | inr (r', failed) ↦
                    let e : r' ≡ r = err_injective (rw (new_service, settled, failed) at h) in
                    source_of-LeavesOnly cfg s r settled (failed ∙ ap err e)
                | inl (source, made) ↦ cc (rw (new_service, settled, made) at h)
              ]
        ]
