-- ===== src/Reader/Open.antt =====
-- mmdb.go: `readMetadata` and `OpenReader`.
use traefik_plugin_ipgeoloca.Base.{
  ℕ, ◌+◌, ◌-◌, ◌*◌, ◌/◌, ◌%◌, ◌^◌, List, none, some, Bool, true, false, not, ltb, ◌==◌, ◌&&◌, ◌||◌,
  if◌then◌else◌, length, Result, ok, err, ◌>>=◌,
}
use traefik_plugin_ipgeoloca.Base.Text.{Str, codes}
use traefik_plugin_ipgeoloca.Base.Int.{pos, int64, eq_ℤ}
use traefik_plugin_ipgeoloca.Source.{
  Source, Error, mem_source, file_source, new_file_source, load_head, file_too_small,
  marker_not_found, metadata_not_map, bad_record_size, zero_nodes, bad_ip_version,
  bad_format_version, tree_does_not_fit,
}
use traefik_plugin_ipgeoloca.Value.{Value, Entries, Float, object}
use traefik_plugin_ipgeoloca.Decode.Values.{decode}
use traefik_plugin_ipgeoloca.Reader.{
  Reader, Metadata, metadata_marker, metadata_max_size, last_index_of_bytes,
}
use traefik_plugin_ipgeoloca.Reader.Coerce.{
  as_string, as_uint, as_string_map, as_string_slice, index,
}
use traefik_plugin_ipgeoloca.Reader.Tree.{find_ipv4_start}

-- `raw.(map[string]interface{})`
unfoldable pub as_map : Value → Result Error Entries
as_map (object m) = ok m
as_map _ = err metadata_not_map

-- The conversions to narrower types wrap around as Go's do.
unfoldable pub metadata_of : (Float → ℕ) → Entries → Metadata
metadata_of uint_of_float m =
    let number = λ (k : Str). as_uint uint_of_float (index m k) in
    record {
      database_type = as_string (index m (codes "database_type"));
      description = as_string_map (index m (codes "description"));
      languages = as_string_slice (index m (codes "languages"));
      build_epoch = int64 (number (codes "build_epoch"));
      ip_version = int64 (number (codes "ip_version"));
      node_count = number (codes "node_count") % 2 ^ 32;
      record_size = number (codes "record_size");
      major_version = int64 (number (codes "binary_format_major_version"));
      minor_version = int64 (number (codes "binary_format_minor_version"));
    }

-- What `readMetadata` does with the metadata it has read, in a file of `total` bytes: the checks,
-- then the sizes. The IPv4 start is not known yet.
unfoldable pub check_metadata : Source → Bool → ℕ → Metadata → Result Error Reader
check_metadata src in_memory total meta =
    let node_size = meta.record_size * 2 / 8 in
    let tree_size = meta.node_count * node_size in
    if not (meta.record_size == 24 || meta.record_size == 28 || meta.record_size == 32)
    then err (bad_record_size meta.record_size)
    else if meta.node_count == 0
    then err zero_nodes
    else if not (eq_ℤ meta.ip_version (pos 4)) && not (eq_ℤ meta.ip_version (pos 6))
    then err bad_ip_version
    else if not (eq_ℤ meta.major_version (pos 2))
    then err bad_format_version
    else if ltb total (tree_size + 16)
    then err (tree_does_not_fit tree_size total)
    else ok (record {
      src = src;
      meta = meta;
      node_size = node_size;
      tree_size = tree_size;
      data_base = tree_size + 16;
      ipv4_start = 0;
      ipv4_start_set = false;
      in_memory = in_memory;
    })

-- `metaStart`: the offset behind the last marker in the window at the end of the file.
unfoldable pub metadata_start : Source → Result Error ℕ
metadata_start src =
    let total = src.size in
    let window = if ltb total metadata_max_size then total else metadata_max_size in
    let start = total - window in
    if ltb total (length metadata_marker) then err (file_too_small total) else (do
      buf ← src.at start window
      elim (last_index_of_bytes buf metadata_marker) [
        | none ↦ err marker_not_found
        | some idx ↦ ok (start + idx + length metadata_marker)
      ])

unfoldable pub read_metadata : (Float → ℕ) → Source → Bool → Result Error Reader
read_metadata uint_of_float src in_memory = do
  meta_start ← metadata_start src
  (raw, _) ← decode src meta_start meta_start 0
  m ← as_map raw
  check_metadata src in_memory src.size (metadata_of uint_of_float m)

-- The last step of `OpenReader`: the IPv4 subtree of an IPv6 database.
unfoldable pub locate_ipv4 : Reader → Result Error Reader
locate_ipv4 r =
    if eq_ℤ r.meta.ip_version (pos 6)
    then (do start ← find_ipv4_start r; ok (record r { ipv4_start = start; ipv4_start_set = true }))
    else ok r

-- `OpenReader` on a file that could be read into memory.
unfoldable pub open_in_memory : (Float → ℕ) → List ℕ → Result Error Reader
open_in_memory uint_of_float content = do
  r ← read_metadata uint_of_float (mem_source content) true
  locate_ipv4 r

-- `OpenReader` on an open file of `total` bytes: the tree is pinned between the two steps.
unfoldable pub open_file : (Float → ℕ) → (ℕ → ℕ → Result Error (List ℕ)) → ℕ → Result Error Reader
open_file uint_of_float read_at total = do
  let file = new_file_source read_at total
  r ← read_metadata uint_of_float (file_source file) false
  pinned ← load_head file r.data_base
  locate_ipv4 (record r { src = file_source pinned })
