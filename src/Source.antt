-- ===== src/Source.antt =====
-- decode.go, the `source` interface and its three implementations. Bytes are numbers below 256 and
-- an offset is a natural number: every caller passes offsets and counts that are not negative and
-- far below 2 ^ 63, so the guards `off < 0` and `n < 0` never fire.
pub mod Serves
use traefik_plugin_ipgeoloca.Base.{
  ℕ, ◌+◌, ◌-◌, List, Option, none, some, take, drop, length, leb, ltb, if◌then◌else◌, ◌&&◌, Result,
  ok, err, ◌>>=◌,
}

-- The errors of the reader and the decoder, with the numbers that their messages show.
pub data Error : Type 0 where
  out_of_range : ℕ → ℕ → ℕ → Error
  io_error : Error
  invalid_tree_size : ℕ → ℕ → Error
  depth_exceeded : ℕ → Error
  seek_depth_exceeded skip_depth_exceeded : Error
  too_large : ℕ → Error
  bad_double : ℕ → Error
  bad_float : ℕ → Error
  uint_too_large : ℕ → Error
  key_not_string : ℕ → Error
  unknown_type : ℕ → ℕ → Error
  nil_address : Error
  unusable_address : Error
  ipv4_start_unknown : Error
  corrupt_tree : ℕ → Error
  file_too_small : ℕ → Error
  marker_not_found : Error
  metadata_not_map : Error
  bad_record_size : ℕ → Error
  zero_nodes : Error
  bad_ip_version : Error
  bad_format_version : Error
  tree_does_not_fit : ℕ → ℕ → Error

pub record Source : Type 0 where
  pub at : ℕ → ℕ → Result Error (List ℕ)
  pub size : ℕ

-- `b[off : off+n]`
abbrev pub slice : List ℕ → ℕ → ℕ → List ℕ
slice b off n = take n (drop off b)

-- `memSource`: the whole file.
unfoldable pub mem_at : List ℕ → ℕ → ℕ → Result Error (List ℕ)
mem_at b off n =
    if ltb (length b) (off + n) then err (out_of_range n off (length b)) else ok (slice b off n)

unfoldable pub mem_source : List ℕ → Source
unfolding mem_at
mem_source b = record { at = mem_at b; size = length b }

-- `fileSource`: an open file, read by `ReadAt`, with the search tree resident after `loadHead`.
-- `read_at off n` stands for `ReadAt` of package os into a buffer of n bytes.
pub record FileSource : Type 0 where
  pub read_at : ℕ → ℕ → Result Error (List ℕ)
  pub head : Option (List ℕ)
  pub head_len : ℕ
  pub total : ℕ

unfoldable pub new_file_source : (ℕ → ℕ → Result Error (List ℕ)) → ℕ → FileSource
new_file_source read_at total = record {
  read_at = read_at;
  head = none;
  head_len = 0;
  total = total;
}

unfoldable pub load_head : FileSource → ℕ → Result Error FileSource
load_head s n =
    if ltb s.total n
    then err (invalid_tree_size n s.total)
    else (do buf ← s.read_at 0 n; ok (record s { head = some buf; head_len = n }))

-- The resident part answers what lies inside it, and the file all else.
unfoldable pub head_at : Option (List ℕ) → FileSource → ℕ → ℕ → Result Error (List ℕ)
head_at none s off n = s.read_at off n
head_at (some head) s off n =
    if leb (off + n) s.head_len then ok (slice head off n) else s.read_at off n

unfoldable pub file_at : FileSource → ℕ → ℕ → Result Error (List ℕ)
unfolding head_at
file_at s off n =
    if ltb s.total (off + n) then err (out_of_range n off s.total) else head_at s.head s off n

unfoldable pub file_source : FileSource → Source
unfolding file_at
file_source s = record { at = file_at s; size = s.total }

-- `windowSource`: a block fetched in one call, and the source under it. `start >= 0` is
-- `base ≤ off`.
unfoldable pub window_at : ℕ → List ℕ → Source → ℕ → ℕ → Result Error (List ℕ)
window_at base buf fallback off n =
    if leb base off && leb (off - base + n) (length buf)
    then ok (slice buf (off - base) n)
    else fallback.at off n

unfoldable pub window_source : ℕ → List ℕ → Source → Source
unfolding window_at
window_source base buf fallback = record { at = window_at base buf fallback; size = fallback.size }
