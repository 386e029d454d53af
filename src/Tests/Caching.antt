-- ===== src/Tests/Caching.antt =====
-- The cache on a few calls, and its theorems applied to them.
use traefik_plugin_ipgeoloca.Base.{◌≤◌, ◌≡◌, refl, List, [], ◌∷◌, none, some, true, false, arith}
use traefik_plugin_ipgeoloca.Base.Text.{Str, codes}
use traefik_plugin_ipgeoloca.Base.Int.{pos}
use traefik_plugin_ipgeoloca.Base.Dict.{Dict, lookup}
use traefik_plugin_ipgeoloca.Cache.{CacheEntry, ResultCache, new_result_cache, stored, get, put}
use traefik_plugin_ipgeoloca.Cache.Bounds.{
  IsBounded, IsBoundedCache, new_result_cache-IsBounded, put-IsBounded,
}
use traefik_plugin_ipgeoloca.Cache.History.{Call, put_call, run, remember_all, get-latest}
use traefik_plugin_ipgeoloca.Cache.Retention.{Puts, put_all, put-retained}
use traefik_plugin_ipgeoloca.Tests.Program.{caching}

abbrev small_cache : ResultCache
small_cache = record { current = []; previous = none; max_entries = 1; ttl = 100 }

abbrev fields_of_a : Dict Str
fields_of_a = (codes "country_code", codes "SE") ∷ []

-- Two generations of one entry each, and the older entry replaced.
abbrev some_calls : List Call
some_calls =
    put_call (codes "a") [] false 0
    ∷ put_call (codes "b") [] true 1
    ∷ put_call (codes "a") fields_of_a true 2
    ∷ []

abbrev entry_of_a : CacheEntry
entry_of_a = record { fields = fields_of_a; found = true; expires = 102 }

get_a : get (run some_calls (some small_cache)) (codes "a") 50 ≡ some entry_of_a
unfolding caching
get_a = refl

get-latest_example :
    (lookup (codes "a") (remember_all 100 some_calls []) ≡ some entry_of_a) × (50 ≤ 102)
get-latest_example = get-latest some_calls small_cache (codes "a") 50 entry_of_a refl refl get_a

small_cache-IsBounded : IsBounded small_cache
unfolding caching
small_cache-IsBounded = record {
  positive = omega arith;
  current = omega arith;
  previous = omega arith;
}

new_result_cache-IsBounded_example : IsBoundedCache (new_result_cache (pos 1) (pos 100))
new_result_cache-IsBounded_example = new_result_cache-IsBounded (pos 1) (pos 100)

put-IsBounded_example : IsBoundedCache (put (some small_cache) (codes "a") fields_of_a true 2)
put-IsBounded_example =
    put-IsBounded (some small_cache) (codes "a") fields_of_a true 2 small_cache-IsBounded

abbrev one_put : Puts
one_put = (codes "b", [], true, 7) ∷ []

put-retained_example :
    (c : ResultCache) × (put_all one_put (put (some small_cache) (codes "a") fields_of_a true 2)
      ≡ some c)
    × ((e : CacheEntry) × (stored c (codes "a") ≡ some e))
put-retained_example = put-retained small_cache (codes "a") fields_of_a true 2 one_put (omega arith)
