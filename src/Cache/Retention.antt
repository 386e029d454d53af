-- ===== src/Cache/Retention.antt =====
-- cache.go: how long an entry stays.
use traefik_plugin_ipgeoloca.Base.{
  ℕ, suc, ◌+◌, ◌≤◌, ◌≡◌, refl, ◌∙◌, ◌⊎◌, inl, inr, List, [], ◌∷◌, Option, some, Bool, leb, length,
  arith, Bool-cases, Option-cases,
}
use traefik_plugin_ipgeoloca.Base.Text.{Str, str_eq, str_eq_refl}
use traefik_plugin_ipgeoloca.Base.Dict.{Dict, lookup, insert, lookup-insert}
use traefik_plugin_ipgeoloca.Cache.{
  CacheEntry, ResultCache, lookup_previous, stored, add_entry, put,
}
use traefik_plugin_ipgeoloca.Cache.Bounds.{length-insert}

-- `k` stays for at least `left` further insertions.
abbrev Stays : ℕ → Str → ResultCache → Type 0
Stays left k c =
    ((e : CacheEntry) × (lookup k c.current ≡ some e))
    ⊎ ((e : CacheEntry) × (lookup_previous c.previous k ≡ some e)
        × (length c.current + left ≤ c.max_entries))

insert-keeps :
    (k j : Str) (e entry : CacheEntry) (m : Dict CacheEntry)
    → lookup k m ≡ some e
    → (e' : CacheEntry) × (lookup k (insert j entry m) ≡ some e')
insert-keeps k j e entry m h = elim (Bool-cases (str_eq j k)) [
  | inl same ↦ (entry, lookup-insert j k entry m ∙ rw same)
  | inr other ↦ (e, lookup-insert j k entry m ∙ rw other h)
]

add_entry-max :
    (c : ResultCache) (key : Str) (entry : CacheEntry)
    → (add_entry c key entry).max_entries ≡ c.max_entries
unfolding add_entry
add_entry-max c key entry = ground arith

add_entry-Stays :
    (left : ℕ) (k j : Str) (c : ResultCache) (entry : CacheEntry)
    → suc left ≤ c.max_entries
    → Stays (suc left) k c
    → Stays left k (add_entry c j entry)
unfolding add_entry lookup_previous
add_entry-Stays left k j c entry room (inl (e, h)) =
    elim (Bool-cases (leb c.max_entries (length c.current))) [
      | inl full ↦ rw (full, add_entry) (inr (e, h, omega (arith, length-insert j entry [])))
      | inr free ↦ rw (free, add_entry) (inl (insert-keeps k j e entry c.current h))
    ]
add_entry-Stays left k j c entry room (inr (e, h, fits)) =
    elim (Bool-cases (leb c.max_entries (length c.current))) [
      | inl full ↦ absurd (ground arith)
      | inr free ↦ rw (free, add_entry) (inr (e, h, omega (arith, length-insert j entry c.current)))
    ]

-- The arguments of further calls of `put`, in order.
abbrev pub Puts : Type 0
Puts = List (Str × Dict Str × Bool × ℕ)

unfoldable pub put_all : Puts → Option ResultCache → Option ResultCache
put_all [] c = c
put_all ((key, fields, found, now) ∷ puts) c = put_all puts (put c key fields found now)

put_all-Stays :
    (puts : Puts) (k : Str) (c : ResultCache)
    → length puts ≤ c.max_entries
    → Stays (length puts) k c
    → (c' : ResultCache) × (put_all puts (some c) ≡ some c') × Stays 0 k c'
unfolding put_all put
put_all-Stays [] k c room s = (c, refl, s)
put_all-Stays ((key, fields, found, now) ∷ puts) k c room s =
    let entry : CacheEntry = record { fields = fields; found = found; expires = now + c.ttl } in
    put_all-Stays puts k (add_entry c key entry) (rw (add_entry-max c key entry) (omega arith))
      (add_entry-Stays (length puts) k key c entry room s)

Stays-stored : (k : Str) (c : ResultCache) → Stays 0 k c → (e : CacheEntry) × (stored c k ≡ some e)
unfolding stored
Stays-stored k c (inl (e, h)) = (e, rw (h, stored))
Stays-stored k c (inr (e, h, room)) = elim (Option-cases (lookup k c.current)) [
  | inl absent ↦ (e, rw (absent, stored) h)
  | inr (e', present) ↦ (e', rw (present, stored))
]

add_entry-current :
    (k : Str) (c : ResultCache) (entry : CacheEntry)
    → (e : CacheEntry) × (lookup k (add_entry c k entry).current ≡ some e)
unfolding add_entry
add_entry-current k c entry = elim (Bool-cases (leb c.max_entries (length c.current))) [
  | inl full ↦ (entry, rw (full, add_entry) (lookup-insert k k entry [] ∙ rw (str_eq_refl k)))
  | inr free ↦
      (entry, rw (free, add_entry) (lookup-insert k k entry c.current ∙ rw (str_eq_refl k)))
]

-- A key that was put is still held after up to `maxEntries` further calls of `put`, whatever their
-- keys are: rotation drops nothing younger than one full generation.
pub put-retained :
    (c : ResultCache) (k : Str) (fields : Dict Str) (found : Bool) (now : ℕ) (puts : Puts)
    → length puts ≤ c.max_entries
    → (c' : ResultCache) × (put_all puts (put (some c) k fields found now) ≡ some c')
      × ((e : CacheEntry) × (stored c' k ≡ some e))
unfolding put
put-retained c k fields found now puts room =
    let entry : CacheEntry = record { fields = fields; found = found; expires = now + c.ttl } in
    let (c', ran, s) =
      put_all-Stays puts k (add_entry c k entry) (rw (add_entry-max c k entry) room)
        (inl (add_entry-current k c entry)) in
    (c', ran, Stays-stored k c' s)
