-- ===== src/Provider/Api/Outcomes.antt =====
-- provider.go: the outcomes of a lookup of the API provider.
use traefik_plugin_ipgeoloca.Base.{
  ℕ, ◌≡◌, ◌≢◌, refl, sym, ap, ◌∙◌, List, [], ◌∷◌, Option, none, some, true, false, ◌==◌, ◌⊎◌, inl,
  inr, Result, ok, err, ◌>>=◌, arith, Option-cases, Bool-cases, Result-cases,
}
use traefik_plugin_ipgeoloca.Base.Text.{Str, str_eq, str_eq_iff}
use traefik_plugin_ipgeoloca.Value.{Entries, object}
use traefik_plugin_ipgeoloca.Value.Floats.{FloatOps}
use traefik_plugin_ipgeoloca.Fields.{FieldDef}
use traefik_plugin_ipgeoloca.Fields.Extract.{map_record, extract_fields}
use traefik_plugin_ipgeoloca.Provider.{Lookup, derive_api_flags}
use traefik_plugin_ipgeoloca.Provider.Api.{
  WebOps, ApiProvider, lone_message, redact, redact_error, fetch, interpret, answer, api_lookup,
}

module _ (web : WebOps) (p : ApiProvider) where
  redact_error_lem : (text : Str) → redact_error web p text ≡ redact web p text
  unfolding redact_error
  redact_error_lem text = elim (Bool-cases (str_eq (redact web p text) text)) [
    | inl same ↦ rw (redact_error, same) (sym ((str_eq_iff (redact web p text) text).0 same))
    | inr differs ↦ rw (redact_error, differs) refl
  ]

  -- What makes a lookup fail with a text.
  abbrev pub IsCause : Str → Str → Type 0
  IsCause address text =
      (fetch web p address ≡ err text)
      ⊎ ((status : ℕ) × (body : Str) × (fetch web p address ≡ ok (status, body))
          × (status ≢ 404)
          × ((status ≢ 200)
              ⊎ ((e : Str) × (web.unmarshal body ≡ err e))
              ⊎ ((decoded : Entries) × (message : Str) × (web.unmarshal body ≡ ok decoded)
                  × (lone_message decoded ≡ some message))))

  -- The decoded response of a lookup that finds the address.
  abbrev pub IsResponse : Str → Entries → Type 0
  IsResponse address decoded =
      (body : Str) × (fetch web p address ≡ ok (200, body))
      × (web.unmarshal body ≡ ok decoded)
      × (lone_message decoded ≡ none)

  abbrev Interpreted : Str → Result Str (Option Entries) → Type 0
  Interpreted address (err text) = IsCause address text
  Interpreted address (ok none) = (body : Str) × (fetch web p address ≡ ok (404, body))
  Interpreted address (ok (some decoded)) = IsResponse address decoded

  interpret-Interpreted :
      (address : Str) (status : ℕ) (body : Str)
      → fetch web p address ≡ ok (status, body)
      → Interpreted address (interpret web p status body)
  unfolding interpret
  interpret-Interpreted address status body fetched = elim (Bool-cases (status == 404)) [
    | inl missing ↦
        rw (Interpreted, interpret, missing)
          (body, fetched ∙ ap (λ n. ok (n, body)) (ground (arith, missing)))
    | inr a ↦
        let apart : status ≢ 404 = λ e. ground (arith, a, e) in
        elim (Bool-cases (status == 200)) [
          | inr b ↦
              rw (Interpreted, interpret, a, b)
                (inr (status, body, fetched, apart, inl (λ e. ground (arith, b, e))))
          | inl good ↦ elim (Result-cases (web.unmarshal body)) [
            | inr (e, garbled) ↦
                rw (Interpreted, interpret, a, good, garbled)
                  (inr (status, body, fetched, apart, inr (inl (e, garbled))))
            | inl (decoded, read) ↦ elim (Option-cases (lone_message decoded)) [
              | inr (message, alone) ↦
                  rw (Interpreted, interpret, a, good, read, alone)
                    (inr (status, body, fetched, apart, inr (inr (decoded, message, read, alone))))
              | inl full ↦
                  rw (Interpreted, interpret, a, good, read, full)
                    (body, fetched ∙ ap (λ n. ok (n, body)) (ground (arith, good)), read, full)
            ]
          ]
        ]
  ]

  fetch-Interpreted :
      (address : Str)
      → Interpreted address (do (status, body) ← fetch web p address; interpret web p status body)
  fetch-Interpreted address = elim (Result-cases (fetch web p address)) [
    | inr (e, failed) ↦ rw failed (inl failed)
    | inl ((status, body), fetched) ↦ rw fetched (interpret-Interpreted address status body fetched)
  ]

  module _ (ops : FloatOps) (address : Str) (defs : List FieldDef) where
    abbrev pub HasAnswer : Lookup Str → Type 0
    HasAnswer result =
        ((text : Str) × IsCause address text
          × (result ≡ record { fields = []; found = false; error = some (redact web p text) }))
        ⊎ ((body : Str) × (fetch web p address ≡ ok (404, body))
            × (result ≡ record { fields = []; found = false; error = none }))
        ⊎ ((decoded : Entries) × IsResponse address decoded
            × (result ≡ record {
              fields =
                  extract_fields ops p.formatter
                    (map_record (object (derive_api_flags decoded)) ∷ []) defs;
              found = true;
              error = none;
            }))

    answer-HasAnswer :
        (r : Result Str (Option Entries))
        → Interpreted address r
        → HasAnswer (answer web p ops r defs)
    unfolding answer
    answer-HasAnswer (err text) h = inl (
      text,
      h,
      ap (λ t. record { fields = []; found = false; error = some t }) (redact_error_lem text),
    )
    answer-HasAnswer (ok none) (body, h) = inr (inl (body, h, refl))
    answer-HasAnswer (ok (some decoded)) h = inr (inr (decoded, h, refl))

    pub api_lookup-HasAnswer : HasAnswer (api_lookup web p ops address defs)
    unfolding api_lookup
    api_lookup-HasAnswer = answer-HasAnswer _ (fetch-Interpreted address)
