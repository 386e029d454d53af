-- ===== src/Fields/Memo.antt =====
-- provider.go: `mmdbRecord` with the record that it keeps once it has decoded it.
use traefik_plugin_ipgeoloca.Base.{
  ℕ, ◌≡◌, refl, sym, ap, ◌∙◌, List, [], ◌∷◌, Option, none, some, Bool, true, false, if◌then◌else◌,
  ok, err, Bool-cases, Option-cases, Result-cases, inl, inr, map,
}
use mathlib.Core.Path.{subst}
use traefik_plugin_ipgeoloca.Base.Text.{Str, split}
use traefik_plugin_ipgeoloca.Source.{Error}
use traefik_plugin_ipgeoloca.Value.{Value}
use traefik_plugin_ipgeoloca.Reader.{Reader}
use traefik_plugin_ipgeoloca.Reader.Records.{lookup_record_at, value}
use traefik_plugin_ipgeoloca.Fields.{resolve_path}
use traefik_plugin_ipgeoloca.Fields.Extract.{of_sought, mmdb_record}

-- The state of a record: `decoded` is nil until a value is asked for.
pub record MmdbRecord : Type 0 where
  pub reader : Reader
  pub offset : ℕ
  pub seek_only : Bool
  pub decoded : Option Value
  pub failed : Bool

-- `newMMDBRecord`
unfoldable pub new_mmdb_record : Reader → ℕ → Bool → MmdbRecord
new_mmdb_record reader offset seek_only = record {
  reader = reader;
  offset = offset;
  seek_only = seek_only;
  decoded = none;
  failed = false;
}

-- The case of a record that is decoded as a whole.
unfoldable pub decoded_value : MmdbRecord → Str → Option Value × MmdbRecord
decoded_value m path = elim m.decoded [
  | some v ↦ (resolve_path v path, m)
  | none ↦ elim (lookup_record_at m.reader m.offset) [
    | err e ↦ (none, record m { failed = true })
    | ok v ↦ (resolve_path v path, record m { decoded = some v })
  ]
]

-- `mmdbRecord.value`
unfoldable pub record_value : MmdbRecord → Str → Option Value × MmdbRecord
record_value m path =
    if m.failed
    then (none, m)
    else if m.seek_only
    then (of_sought (value m.reader m.offset (split b'.' path)), m)
    else decoded_value m path

-- The values for the paths, asked for one after the other.
unfoldable pub record_values : MmdbRecord → List Str → List (Option Value)
record_values m [] = []
record_values m (path ∷ paths) = let (v, m') = record_value m path in v ∷ record_values m' paths

if_true {ℓ} : {A : Type ℓ} (b : Bool) (x y : A) → b ≡ true → (if b then x else y) ≡ x
if_true b x y h = ap (λ c. if c then x else y) h

if_false {ℓ} : {A : Type ℓ} (b : Bool) (x y : A) → b ≡ false → (if b then x else y) ≡ y
if_false b x y h = ap (λ c. if c then x else y) h

abbrev stateless : MmdbRecord → Str → Option Value
stateless m = mmdb_record m.reader m.offset m.seek_only

-- What is kept is what decoding gives.
abbrev IsFaithful : MmdbRecord → Type 0
IsFaithful m =
    (m.failed ≡ true
      → (m.seek_only ≡ false) × (e : Error) × (lookup_record_at m.reader m.offset ≡ err e))
    × ((v : Value) → m.decoded ≡ some v → lookup_record_at m.reader m.offset ≡ ok v)

abbrev Answers : MmdbRecord → Str → Option Value × MmdbRecord → Type 0
Answers m path (v, m') = (v ≡ stateless m path) × IsFaithful m' × (stateless m' ≡ stateless m)

decoded_value-Answers :
    (m : MmdbRecord) (path : Str)
    → IsFaithful m
    → m.failed ≡ false
    → m.seek_only ≡ false
    → Answers m path (decoded_value m path)
unfolding decoded_value mmdb_record
decoded_value-Answers m path (failing, kept) works whole = elim (Option-cases m.decoded) [
  | inr (v, held) ↦
      rw (decoded_value, held) ((rw (mmdb_record, whole, kept v held) refl), (failing, kept), refl)
  | inl fresh ↦ elim (Result-cases (lookup_record_at m.reader m.offset)) [
    | inr (e, failed) ↦
        rw (decoded_value, fresh, failed) ((rw whole refl), ((λ _. (whole, e, failed)), kept), refl)
    | inl (v, read) ↦
        rw (decoded_value, fresh, read)
          ((rw whole refl), ((λ broken. cc (broken, works)), (λ w h. read ∙ ap ok (cc h))), refl)
  ]
]

record_value-Answers :
    (m : MmdbRecord) (path : Str) → IsFaithful m → Answers m path (record_value m path)
unfolding record_value mmdb_record
record_value-Answers m path (failing, kept) = elim (Bool-cases m.failed) [
  | inl broken ↦
      let (whole, e, failed) = failing broken in
      subst (Answers m path) (sym (if_true m.failed _ _ broken))
        ((rw (mmdb_record, whole, failed) refl), (failing, kept), refl)
  | inr works ↦
      subst (Answers m path) (sym (if_false m.failed _ _ works)) (elim (Bool-cases m.seek_only) [
        | inl seeks ↦
            subst (Answers m path) (sym (if_true m.seek_only _ _ seeks))
              ((rw (mmdb_record, seeks) refl), (failing, kept), refl)
        | inr whole ↦
            subst (Answers m path) (sym (if_false m.seek_only _ _ whole))
              (decoded_value-Answers m path (failing, kept) works whole)
      ])
]

record_values-stateless :
    (m : MmdbRecord) (paths : List Str)
    → IsFaithful m
    → record_values m paths ≡ map (stateless m) paths
unfolding record_values
record_values-stateless m [] h = refl
record_values-stateless m (path ∷ paths) h =
    let m' = (record_value m path).1 in
    let (answered, faithful, same) = record_value-Answers m path h in
    let rest = record_values-stateless m' paths faithful in
    ap (λ v. v ∷ record_values m' paths) answered
    ∙ ap (λ l. stateless m path ∷ l) (rest ∙ ap (λ f. map f paths) same)

-- A record that keeps what it has decoded, and that decoding it failed, gives for any sequence of
-- paths the values that decoding, or seeking, anew for each path gives.
pub record_values-mmdb_record :
    (reader : Reader) (offset : ℕ) (seek_only : Bool) (paths : List Str)
    → record_values (new_mmdb_record reader offset seek_only) paths
      ≡ map (mmdb_record reader offset seek_only) paths
unfolding new_mmdb_record
record_values-mmdb_record reader offset seek_only paths =
    record_values-stateless (new_mmdb_record reader offset seek_only) paths
      ((λ h. cc h), (λ v h. cc h))
