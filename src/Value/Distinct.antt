-- ===== src/Value/Distinct.antt =====
-- Values in which no map repeats a key.
use traefik_plugin_ipgeoloca.Base.{
  ◌≡◌, refl, ap, Option, none, some, false, arith, Bool-cases, inl, inr, List, [], ◌∷◌,
}
use mathlib.Core.Path.{subst}
use traefik_plugin_ipgeoloca.Base.Text.{Str, str_eq, str_eq_iff, str_eq_refl}
use traefik_plugin_ipgeoloca.Value.{
  Value, Items, Entries, nil, str, bytes, float, uint, int, bool, object, array, empty, item, end,
  entry, put, find, append,
}

-- Keeps every binding of a repeated key, in the order of the file.
unfoldable pub push : Str → Value → Entries → Entries
push k v end = entry k v end
push k v (entry j w es) = entry j w (push k v es)

-- The value at a path of keys, through maps only.
unfoldable pub value_at : List Str → Value → Option Value
value_at [] v = some v
value_at (k ∷ path) (object es) = elim (find k es) [ none ↦ none | some v ↦ value_at path v ]
value_at (k ∷ path) _ = none

abbrev mutual
  pub Distinct : Value → Type 0
  Distinct nil = Unit
  Distinct (str s) = Unit
  Distinct (bytes b) = Unit
  Distinct (float x) = Unit
  Distinct (uint n) = Unit
  Distinct (int n) = Unit
  Distinct (bool b) = Unit
  Distinct (object es) = DistinctEntries es
  Distinct (array xs) = DistinctItems xs

  pub DistinctItems : Items → Type 0
  DistinctItems empty = Unit
  DistinctItems (item x xs) = Distinct x × DistinctItems xs

  pub DistinctEntries : Entries → Type 0
  DistinctEntries end = Unit
  DistinctEntries (entry k v es) = (find k es ≡ none) × Distinct v × DistinctEntries es

unfoldable pub join_entries : Entries → Entries → Entries
join_entries end fs = fs
join_entries (entry k v es) fs = entry k v (join_entries es fs)

unfoldable pub join_items : Items → Items → Items
join_items empty ys = ys
join_items (item x xs) ys = item x (join_items xs ys)

pub join_entries-end : (es : Entries) → join_entries es end ≡ es
unfolding join_entries
join_entries-end end = refl
join_entries-end (entry k v es) = ap (entry k v) (join_entries-end es)

pub join_items-empty : (xs : Items) → join_items xs empty ≡ xs
unfolding join_items
join_items-empty empty = refl
join_items-empty (item x xs) = ap (item x) (join_items-empty xs)

pub join-push :
    (k : Str) (v : Value) (es fs : Entries)
    → join_entries (push k v es) fs ≡ join_entries es (entry k v fs)
unfolding push join_entries
join-push k v end fs = refl
join-push k v (entry j w es) fs = ap (entry j w) (join-push k v es fs)

pub join-append :
    (v : Value) (xs ys : Items) → join_items (append xs v) ys ≡ join_items xs (item v ys)
unfolding append join_items
join-append v empty ys = refl
join-append v (item x xs) ys = ap (item x) (join-append v xs ys)

-- A key that is new is stored at the end either way.
pub put-push : (k : Str) (v : Value) (es : Entries) → find k es ≡ none → put k v es ≡ push k v es
unfolding put push find
put-push k v end h = refl
put-push k v (entry j w es) h = ground (arith, put-push k v es)

pub find-join_none :
    (k : Str) (es fs : Entries) → find k es ≡ none → find k (join_entries es fs) ≡ find k fs
unfolding find join_entries
find-join_none k end fs h = refl
find-join_none k (entry j w es) fs h = ground (arith, find-join_none k es fs)

pub find-entry_self : (k : Str) (v : Value) (es : Entries) → find k (entry k v es) ≡ some v
unfolding find
find-entry_self k v es = ground (arith, str_eq_refl k)

pub find-push_ne :
    (k j : Str) (v : Value) (es : Entries)
    → str_eq j k ≡ false
    → find k es ≡ none
    → find k (push j v es) ≡ none
unfolding find push
find-push_ne k j v end h e = ground arith
find-push_ne k j v (entry i w es) h e = ground (arith, find-push_ne k j v es)

find-join_entry :
    (es fs : Entries) (k : Str) (v : Value) → find k (join_entries es (entry k v fs)) ≡ none → ⊥
unfolding find join_entries
find-join_entry end fs k v h = ground (arith, str_eq_refl k)
find-join_entry (entry j w es) fs k v h = ground (arith, find-join_entry es fs k v)

-- In a map without repetitions a key in the middle does not stand before, and its value is
-- distinct too.
pub middle_entry :
    (es fs : Entries) (k : Str) (v : Value)
    → DistinctEntries (join_entries es (entry k v fs))
    → (find k es ≡ none) × Distinct v
unfolding find join_entries
middle_entry end fs k v d = (refl, d.1)
middle_entry (entry j w es) fs k v d =
    let (new, dv) = middle_entry es fs k v d.2 in
    (
      elim (Bool-cases (str_eq j k)) [
        | inl same ↦
            let e : j ≡ k = (str_eq_iff j k).0 same in
            absurd (find-join_entry es fs k v (rw e at d.0))
        | inr other ↦ rw other new
      ],
      dv,
    )

pub middle_item :
    (xs ys : Items) (v : Value) → DistinctItems (join_items xs (item v ys)) → Distinct v
unfolding join_items
middle_item empty ys v d = d.0
middle_item (item x xs) ys v d = middle_item xs ys v d.1

-- A value that a path leads to is distinct too.
pub find-Distinct :
    (k : Str) (es : Entries) {v : Value} → DistinctEntries es → find k es ≡ some v → Distinct v
unfolding find
find-Distinct k end d h = cc
find-Distinct k (entry j w es) {v} d h = elim (Bool-cases (str_eq j k)) [
  | inl same ↦
      let e : some w ≡ some v = rw same at h in let e' : w ≡ v = cc e in subst Distinct e' d.1
  | inr other ↦ find-Distinct k es d.2 (rw other at h)
]
