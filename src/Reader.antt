-- ===== src/Reader.antt =====
-- mmdb.go: the state of a `Reader`, and how it is read from the metadata block.
pub mod Coerce
pub mod Tree
pub mod Strategies
pub mod Outcomes
pub mod Valid
pub mod Lookups
pub mod Paths
pub mod Nodes
pub mod Marker
pub mod Records
pub mod Open
use traefik_plugin_ipgeoloca.Base.{
  ℕ, zero, suc, ◌+◌, ◌-◌, ◌*◌, ◌/◌, ◌%◌, ◌^◌, List, [], ◌∷◌, Option, none, some, Bool, true, false,
  not, ltb, ◌==◌, ◌&&◌, ◌||◌, if◌then◌else◌, length, drop, Result, ok, err, ◌>>=◌,
}
use traefik_plugin_ipgeoloca.Base.Text.{Str, codes, has_prefix}
use traefik_plugin_ipgeoloca.Base.Int.{ℤ}
use traefik_plugin_ipgeoloca.Base.Dict.{Dict}
use traefik_plugin_ipgeoloca.Source.{Source}

abbrev pub metadata_marker : List ℕ
metadata_marker = 0xab ∷ 0xcd ∷ 0xef ∷ codes "MaxMind.com"

abbrev pub metadata_max_size : ℕ
metadata_max_size = 131072

pub record Metadata : Type 0 where
  pub database_type : Str
  pub description : Dict Str
  pub languages : List Str
  pub build_epoch : ℤ
  pub ip_version : ℤ
  pub node_count : ℕ
  pub record_size : ℕ
  pub major_version : ℤ
  pub minor_version : ℤ

-- `Reader`, without the file's path, size and time, which only `Changed` reads.
pub record Reader : Type 0 where
  pub src : Source
  pub meta : Metadata
  pub node_size : ℕ
  pub tree_size : ℕ
  pub data_base : ℕ
  pub ipv4_start : ℕ
  pub ipv4_start_set : Bool
  pub in_memory : Bool

-- The loop of `lastIndexOfBytes` from i = n - 1 down to 0.
unfoldable pub last_index_below : List ℕ → List ℕ → ℕ → Option ℕ
last_index_below haystack needle zero = none
last_index_below haystack needle (suc i) =
    let rest = last_index_below haystack needle i in
    if has_prefix (drop i haystack) needle then some i else rest

-- `lastIndexOfBytes`; none is -1.
unfoldable pub last_index_of_bytes : List ℕ → List ℕ → Option ℕ
last_index_of_bytes haystack needle =
    if length needle == 0 || ltb (length haystack) (length needle)
    then none
    else last_index_below haystack needle (length haystack - length needle + 1)
