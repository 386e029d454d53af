-- ===== src/Tests/Serving.antt =====
-- Requests through the plugin, and the theorems on it applied to them.
use traefik_plugin_ipgeoloca.Base.{
  ◌≡◌, ◌≢◌, ◌↔◌, refl, sym, ap, List, [], ◌∷◌, none, some, true, false, inl, inr, ok, if◌then◌else◌,
  ◌∙◌,
}
use mathlib.Core.Path.{subst}
use traefik_plugin_ipgeoloca.Base.Text.{Str, codes, str_eq}
use traefik_plugin_ipgeoloca.Base.Int.{pos}
use traefik_plugin_ipgeoloca.Reader.Tree.{Ip}
use traefik_plugin_ipgeoloca.Reader.Strategies.{Holds}
use traefik_plugin_ipgeoloca.Net.{Request}
use traefik_plugin_ipgeoloca.Cache.{ResultCache}
use traefik_plugin_ipgeoloca.Rules.Evaluate.{evaluate}
use traefik_plugin_ipgeoloca.Rules.Permits.{Permits}
use traefik_plugin_ipgeoloca.Fields.{FieldDef, Formatter, kind_string}
use traefik_plugin_ipgeoloca.Provider.{Lookup, mmdb_lookup}
use traefik_plugin_ipgeoloca.Provider.Unreadable.{IsUnreadable, mmdb_lookup-IsUnreadable}
use traefik_plugin_ipgeoloca.Provider.Agreement.{HasReadableRecord, mmdb_lookup-strategies}
use traefik_plugin_ipgeoloca.Plugin.{
  Plugin, Times, blocked, decide, finish, resolve, serve_http, apply_headers,
}
use traefik_plugin_ipgeoloca.Plugin.Headers.{IsUnambiguous, header_lines}
use traefik_plugin_ipgeoloca.Plugin.Delivery.{Delivers, IsAnswered, serve_http-owned}
use traefik_plugin_ipgeoloca.Plugin.Outcomes.{
  is_forwarded, IsLookedUp, serve_http-dry_run, serve_http-Permits, serve_http-fail_open,
}
use traefik_plugin_ipgeoloca.Plugin.Resolution.{IsFaithfulCache, RespectsText, serve_http-cache}
use traefik_plugin_ipgeoloca.Tests.Program.{decoder, reading, locating, deciding, caching, serving}
use traefik_plugin_ipgeoloca.Tests.Locating.{net, direct, request}
use traefik_plugin_ipgeoloca.Tests.Deciding.{float_ops, rules, vpn, swedish}
use traefik_plugin_ipgeoloca.Tests.Database.{
  small, file_reader, file_reader-Serves, small_record, small_record-Holds, address, address_offset,
  cut_reader,
}

abbrev pub plugin : Plugin net
plugin = record {
  rules = rules;
  header_map = (codes "X-IPGeo-Country-Code", codes "country_code") ∷ [];
  managed = codes "X-IPGeo-Country-Code" ∷ codes "X-IPGeo-Dry-Run" ∷ [];
  allowed_ips = [];
  blocked_ips = [];
  allow_private = true;
  fail_open = false;
  dry_run = false;
  block_status = pos 403;
  block_message = codes "no";
  block_redirect = [];
  resolver = direct;
}

-- One address is known, one is a VPN, and the others fail.
abbrev pub provider : Ip → Lookup Str
provider ip =
    if str_eq ip (codes "abcd")
    then record { fields = swedish; found = true; error = none }
    else if str_eq ip (codes "vpn1")
    then record { fields = vpn; found = true; error = none }
    else record { fields = []; found = false; error = some (codes "timeout") }

abbrev pub times : Times
times = record { at_get = 5; at_put = 6 }

abbrev empty_cache : ResultCache
empty_cache = record { current = []; previous = none; max_entries = 1; ttl = 100 }

abbrev pub from_abcd : Request
from_abcd = request (codes "abcd:1") []

abbrev from_vpn : Request
from_vpn = request (codes "vpn1:1") []

abbrev from_forger : Request
from_forger = record from_abcd { headers = (codes "X-IPGeo-Country-Code", codes "US" ∷ []) ∷ [] }

vpn_is_blocked_by_plugin :
    (serve_http net provider float_ops plugin (some empty_cache) times from_vpn).0
    ≡ blocked (pos 403) (codes "no\n")
unfolding locating deciding caching serving
vpn_is_blocked_by_plugin = refl

serve_http-dry_run_example :
    is_forwarded
      (serve_http net provider float_ops (record plugin { dry_run = true }) none times from_vpn).0
    ≡ true
serve_http-dry_run_example =
    serve_http-dry_run net provider float_ops (record plugin { dry_run = true }) none times from_vpn
      refl

abcd-IsLookedUp : IsLookedUp net provider float_ops plugin from_abcd (codes "abcd")
unfolding locating serving
abcd-IsLookedUp = (refl, refl, refl, refl)

serve_http-Permits_example :
    (is_forwarded (serve_http net provider float_ops plugin none times from_abcd).0 ≡ true)
    ↔ Permits float_ops rules (resolve net provider none times (codes "abcd")).0.fields
unfolding locating caching serving
serve_http-Permits_example =
    serve_http-Permits net provider float_ops plugin none times from_abcd (codes "abcd")
      abcd-IsLookedUp refl refl refl

forger-IsLookedUp : IsLookedUp net provider float_ops plugin from_forger (codes "abcd")
unfolding locating serving
forger-IsLookedUp = (refl, refl, refl, refl)

forger_goes_on :
    is_forwarded (serve_http net provider float_ops plugin none times from_forger).0 ≡ true
unfolding locating deciding caching serving
forger_goes_on = refl

forger-IsAnswered :
    IsAnswered net provider float_ops plugin (resolve net provider none times (codes "abcd")).0
unfolding caching serving
forger-IsAnswered = inl refl

serve_http-owned_example :
    Delivers
      (codes "X-IPGeo-Country-Code")
      (header_lines net
        (codes "abcd")
        (resolve net provider none times (codes "abcd")).0.fields
        (codes "country_code"))
      (serve_http net provider float_ops plugin none times from_forger).0
unfolding deciding IsUnambiguous
serve_http-owned_example =
    serve_http-owned net provider float_ops plugin none times from_forger (codes "abcd")
      (codes "X-IPGeo-Country-Code") (codes "country_code") forger-IsLookedUp forger-IsAnswered
      (tt, tt) refl refl (inl refl)

lost-IsLookedUp :
    IsLookedUp net provider float_ops plugin (request (codes "lost:1") []) (codes "lost")
unfolding locating serving
lost-IsLookedUp = (refl, refl, refl, refl)

serve_http-fail_open_example :
    is_forwarded
      (serve_http net provider float_ops plugin none times (request (codes "lost:1") [])).0
    ≡ false
unfolding locating caching serving
serve_http-fail_open_example =
    serve_http-fail_open net provider float_ops plugin none times (request (codes "lost:1") [])
      (inr (codes "lost", lost-IsLookedUp, (codes "timeout", refl), refl))

texts_are_addresses : RespectsText net provider
texts_are_addresses ip ip' h = ap provider h

empty_cache-IsFaithful : IsFaithfulCache net provider (some empty_cache)
unfolding caching
empty_cache-IsFaithful ip e h = cc h

serve_http-cache_example :
    ((serve_http net provider float_ops plugin (some empty_cache) times from_abcd).0
      ≡ (serve_http net provider float_ops plugin none times from_abcd).0)
    × IsFaithfulCache net provider
        (serve_http net provider float_ops plugin (some empty_cache) times from_abcd).1
serve_http-cache_example =
    serve_http-cache net provider float_ops plugin (some empty_cache) times from_abcd
      texts_are_addresses empty_cache-IsFaithful

abbrev pub formatter : Formatter
formatter = record {
  language = codes "en";
  list_separator = codes ",";
  true_value = codes "true";
  false_value = codes "false";
}

abbrev pub one_field : List FieldDef
one_field =
    record {
      name = codes "a";
      kind = kind_string;
      paths = codes "b" ∷ codes "a" ∷ [];
      presence = [];
    }
    ∷ []

file_reader-HasReadableRecord : HasReadableRecord (some address) file_reader
unfolding HasReadableRecord
file_reader-HasReadableRecord offset h =
    let e : ok (some 22) ≡ ok (some offset) = sym address_offset ∙ h in
    let e' : 22 ≡ offset = cc e in
    (
      small,
      file_reader-Serves,
      (small_record, subst (λ n. Holds small 22 n small_record) e' small_record-Holds),
    )

mmdb_lookup-strategies_example :
    mmdb_lookup float_ops formatter false (file_reader ∷ []) (some address) one_field
    ≡ mmdb_lookup float_ops formatter true (file_reader ∷ []) (some address) one_field
mmdb_lookup-strategies_example =
    mmdb_lookup-strategies float_ops formatter (file_reader ∷ []) (some address) one_field
      (file_reader-HasReadableRecord, tt)

cut_reader-IsUnreadable : IsUnreadable (some address) cut_reader
unfolding decoder reading
cut_reader-IsUnreadable = (22, _, refl, refl)

some_reader : cut_reader ∷ [] ≢ []
some_reader h = cc h

mmdb_lookup-IsUnreadable_example :
    (mmdb_lookup float_ops formatter false (cut_reader ∷ []) (some address) one_field
      ≡ record { fields = []; found = true; error = none })
    × (decide net
          (λ ip. mmdb_lookup float_ops formatter false (cut_reader ∷ []) (some ip) one_field)
          float_ops
          plugin
          address
          from_abcd
          (mmdb_lookup float_ops formatter false (cut_reader ∷ []) (some address) one_field)
        ≡ finish net plugin
            (apply_headers net plugin.header_map address [] from_abcd)
            (evaluate float_ops rules [] true))
mmdb_lookup-IsUnreadable_example =
    mmdb_lookup-IsUnreadable float_ops formatter net plugin address from_abcd (cut_reader ∷ [])
      one_field some_reader (cut_reader-IsUnreadable, tt)
