-- ===== src/Cache.antt =====
-- cache.go: the bounded cache with two generations. `time.Now()` is the argument `now`, in
-- nanoseconds; the mutex makes each operation one step. A nil cache is `none`.
pub mod Bounds
pub mod History
pub mod Retention
use traefik_plugin_ipgeoloca.Base.{
  ℕ, ◌+◌, List, [], Option, none, some, Bool, true, false, ◌||◌, ltb, leb, not, if◌then◌else◌,
  length,
}
use traefik_plugin_ipgeoloca.Base.Text.{Str}
use traefik_plugin_ipgeoloca.Base.Int.{ℤ, pos_part, is_positive}
use traefik_plugin_ipgeoloca.Base.Dict.{Dict, lookup, insert}

pub record CacheEntry : Type 0 where
  pub fields : Dict Str
  pub found : Bool
  pub expires : ℕ

pub record ResultCache : Type 0 where
  pub current : Dict CacheEntry
  pub previous : Option (Dict CacheEntry)
  pub max_entries : ℕ
  pub ttl : ℕ

unfoldable pub new_result_cache : ℤ → ℤ → Option ResultCache
new_result_cache max_entries ttl =
    if not (is_positive max_entries) || not (is_positive ttl)
    then none
    else some (record {
      current = [];
      previous = none;
      max_entries = pos_part max_entries;
      ttl = pos_part ttl;
    })

-- The entry under a key in the older generation, if there is one.
unfoldable pub lookup_previous : Option (Dict CacheEntry) → Str → Option CacheEntry
lookup_previous none key = none
lookup_previous (some m) key = lookup key m

-- The entry that `get` reads, before it looks at the time.
unfoldable pub stored : ResultCache → Str → Option CacheEntry
stored c key = elim (lookup key c.current) [
  | some entry ↦ some entry
  | none ↦ lookup_previous c.previous key
]

-- `!ok || time.Now().After(entry.expires)`
unfoldable pub unless_expired : ℕ → Option CacheEntry → Option CacheEntry
unless_expired now none = none
unless_expired now (some entry) = if ltb entry.expires now then none else some entry

unfoldable pub get : Option ResultCache → Str → ℕ → Option CacheEntry
get none key now = none
get (some c) key now = unless_expired now (stored c key)

-- The locked part of `put`.
unfoldable pub add_entry : ResultCache → Str → CacheEntry → ResultCache
add_entry c key entry =
    if leb c.max_entries (length c.current)
    then record c { current = insert key entry []; previous = some c.current }
    else record c { current = insert key entry c.current }

unfoldable pub put : Option ResultCache → Str → Dict Str → Bool → ℕ → Option ResultCache
put none key fields found now = none
put (some c) key fields found now =
    some (add_entry c key (record { fields = fields; found = found; expires = now + c.ttl }))

unfoldable pub reset : Option ResultCache → Option ResultCache
reset none = none
reset (some c) = some (record c { current = []; previous = none })

unfoldable pub length_previous : Option (Dict CacheEntry) → ℕ
length_previous none = 0
length_previous (some m) = length m

unfoldable pub len : Option ResultCache → ℕ
len none = 0
len (some c) = length c.current + length_previous c.previous
