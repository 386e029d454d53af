-- ===== src/Cache/History.antt =====
-- cache.go: the cache beside an ideal one that forgets nothing.
use traefik_plugin_ipgeoloca.Base.{
  ℕ, ◌+◌, ◌≤◌, ◌≡◌, refl, ◌∙◌, List, [], ◌∷◌, Option, none, some, Bool, if◌then◌else◌, arith,
}
use traefik_plugin_ipgeoloca.Base.Text.{Str, str_eq}
use traefik_plugin_ipgeoloca.Base.Dict.{Dict, lookup, insert, lookup-insert}
use traefik_plugin_ipgeoloca.Cache.{
  CacheEntry, ResultCache, lookup_previous, stored, unless_expired, get, add_entry, put, reset,
}

-- The calls that change the cache.
pub data Call : Type 0 where
  put_call : Str → Dict Str → Bool → ℕ → Call
  reset_call : Call

unfoldable pub apply_call : Call → Option ResultCache → Option ResultCache
apply_call (put_call key fields found now) c = put c key fields found now
apply_call reset_call c = reset c

unfoldable pub run : List Call → Option ResultCache → Option ResultCache
run [] c = c
run (call ∷ calls) c = run calls (apply_call call c)

-- The latest entry put under each key since the last reset.
unfoldable pub remember : ℕ → Call → Dict CacheEntry → Dict CacheEntry
remember ttl (put_call key fields found now) m =
    insert key (record { fields = fields; found = found; expires = now + ttl }) m
remember ttl reset_call m = []

unfoldable pub remember_all : ℕ → List Call → Dict CacheEntry → Dict CacheEntry
remember_all ttl [] m = m
remember_all ttl (call ∷ calls) m = remember_all ttl calls (remember ttl call m)

-- What the cache holds is what the ideal one remembers.
abbrev pub Tracks : ResultCache → Dict CacheEntry → Type 0
Tracks c m = (k : Str) (e : CacheEntry) → stored c k ≡ some e → lookup k m ≡ some e

pub stored-add_entry :
    (c : ResultCache) (key k : Str) (entry e : CacheEntry)
    → stored (add_entry c key entry) k ≡ some e
    → (if str_eq key k then some entry else stored c k) ≡ some e
unfolding stored add_entry lookup_previous lookup
stored-add_entry c key k entry e h =
    ground (arith, lookup-insert key k entry c.current, lookup-insert key k entry [])

add_entry-Tracks :
    (c : ResultCache) (m : Dict CacheEntry) (key : Str) (entry : CacheEntry)
    → Tracks c m
    → Tracks (add_entry c key entry) (insert key entry m)
add_entry-Tracks c m key entry t k e h =
    ground (arith, lookup-insert key k entry m, stored-add_entry c key k entry e h, t k e)

reset-Tracks : (c : ResultCache) → Tracks (record c { current = []; previous = none }) []
unfolding stored lookup lookup_previous
reset-Tracks c k e h = cc h

add_entry-ttl :
    (c : ResultCache) (key : Str) (entry : CacheEntry) → (add_entry c key entry).ttl ≡ c.ttl
unfolding add_entry
add_entry-ttl c key entry = ground arith

run-Tracks :
    (calls : List Call) (c : ResultCache) (m : Dict CacheEntry) (ttl : ℕ)
    → c.ttl ≡ ttl
    → Tracks c m
    → (c' : ResultCache) × (run calls (some c) ≡ some c') × Tracks c' (remember_all ttl calls m)
unfolding run remember_all remember apply_call put reset
run-Tracks [] c m ttl h t = (c, refl, t)
run-Tracks (put_call key fields found now ∷ calls) c m ttl h t =
    let entry : CacheEntry = record { fields = fields; found = found; expires = now + c.ttl } in
    let entry' : CacheEntry = record { fields = fields; found = found; expires = now + ttl } in
    let same : entry ≡ entry' = ground arith in
    run-Tracks calls (add_entry c key entry) (insert key entry' m) ttl
      (add_entry-ttl c key entry ∙ h) (rw (← same) (add_entry-Tracks c m key entry t))
run-Tracks (reset_call ∷ calls) c m ttl h t =
    run-Tracks calls (record c { current = []; previous = none }) [] ttl h (reset-Tracks c)

pub unless_expired-some :
    (now : ℕ) (o : Option CacheEntry) (e : CacheEntry)
    → unless_expired now o ≡ some e
    → (o ≡ some e) × (now ≤ e.expires)
unfolding unless_expired
unless_expired-some now none e h = cc h
unless_expired-some now (some entry) e h = ground arith

-- After any calls on an empty cache, an answer of `get` is the entry of the latest `put` under that
-- key since the last `reset`, and it has not expired: rotation never brings an older entry back.
pub get-latest :
    (calls : List Call) (c : ResultCache) (key : Str) (now : ℕ) (e : CacheEntry)
    → c.current ≡ []
    → c.previous ≡ none
    → get (run calls (some c)) key now ≡ some e
    → (lookup key (remember_all c.ttl calls []) ≡ some e) × (now ≤ e.expires)
unfolding get
get-latest calls c key now e h₁ h₂ h =
    let start : Tracks c [] =
      λ k x s. unfold stored lookup lookup_previous in cc (rw (h₁, h₂) at s) in
    let (c', ran, t) = run-Tracks calls c [] c.ttl refl start in
    let (held, fresh) = unless_expired-some now (stored c' key) e (rw (ran, get) at h) in
    (t key e held, fresh)
