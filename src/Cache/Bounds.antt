-- ===== src/Cache/Bounds.antt =====
-- cache.go: how many entries the cache holds.
use traefik_plugin_ipgeoloca.Base.{
  ℕ, ◌+◌, ◌*◌, ◌≤◌, ◌<◌, [], ◌∷◌, Option, none, some, Bool, length, arith, Bool-cases, inl, inr,
  ltb, ltb→lt,
}
use traefik_plugin_ipgeoloca.Base.Text.{Str}
use traefik_plugin_ipgeoloca.Base.Int.{ℤ, pos, negsuc, is_positive}
use traefik_plugin_ipgeoloca.Base.Dict.{Dict, insert}
use traefik_plugin_ipgeoloca.Cache.{
  CacheEntry, ResultCache, new_result_cache, add_entry, put, reset, length_previous, len,
}

pub length-insert {ℓ} :
    {V : Type ℓ} (k : Str) (v : V) (m : Dict V) → length (insert k v m) ≤ length m + 1
unfolding insert
length-insert k v [] = omega arith
length-insert k v ((j, w) ∷ m) = ground (arith, length-insert k v m)

-- Each generation fits.
pub record IsBounded (c : ResultCache) : Type 0 where
  pub positive : 0 < c.max_entries
  pub current : length c.current ≤ c.max_entries
  pub previous : length_previous c.previous ≤ c.max_entries

-- A nil cache is bounded.
abbrev pub IsBoundedCache : Option ResultCache → Type 0
IsBoundedCache none = Unit
IsBoundedCache (some c) = IsBounded c

pub new_result_cache-IsBounded :
    (max_entries ttl : ℤ) → IsBoundedCache (new_result_cache max_entries ttl)
unfolding new_result_cache length_previous
new_result_cache-IsBounded (negsuc m) ttl = tt
new_result_cache-IsBounded (pos m) ttl = elim (Bool-cases (ltb 0 m)) [
  | inr zero_size ↦ rw (zero_size, new_result_cache) tt
  | inl sized ↦ elim (Bool-cases (is_positive ttl)) [
    | inl lasting ↦
        rw (sized, lasting, new_result_cache, IsBoundedCache)
          (record { positive = ltb→lt 0 m sized; current = omega arith; previous = omega arith })
    | inr never ↦ rw (sized, never, new_result_cache) tt
  ]
]

pub add_entry-IsBounded :
    (c : ResultCache) (key : Str) (entry : CacheEntry)
    → IsBounded c
    → IsBounded (add_entry c key entry)
unfolding add_entry length_previous
add_entry-IsBounded c key entry b =
    ground (arith, length-insert key entry [], length-insert key entry c.current)

-- `put` keeps a cache bounded: where both generations hold at most `maxEntries` entries and
-- `maxEntries` is positive, they do so after any call.
pub put-IsBounded :
    (c : Option ResultCache) (key : Str) (fields : Dict Str) (found : Bool) (now : ℕ)
    → IsBoundedCache c
    → IsBoundedCache (put c key fields found now)
unfolding put
put-IsBounded none key fields found now b = b
put-IsBounded (some c) key fields found now b = add_entry-IsBounded c key _ b

pub reset-IsBounded : (c : Option ResultCache) → IsBoundedCache c → IsBoundedCache (reset c)
unfolding reset length_previous
reset-IsBounded none b = b
reset-IsBounded (some c) b = omega arith

-- A bounded cache holds at most twice `maxEntries` entries, as the comment on the type promises.
pub len-le : (c : ResultCache) → IsBounded c → len (some c) ≤ 2 * c.max_entries
unfolding len
len-le c b = omega arith
