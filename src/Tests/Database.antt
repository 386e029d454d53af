-- ===== src/Tests/Database.antt =====
-- A small IPv4 database of one node, its reader, and the theorems on readers applied to it.
use traefik_plugin_ipgeoloca.Base.{
  ℕ, ◌≡◌, refl, List, [], ◌∷◌, ◌++◌, ok, some, Bool, true, false, inl, inr, arith, length, All, map,
}
use traefik_plugin_ipgeoloca.Base.Text.{codes}
use traefik_plugin_ipgeoloca.Base.Int.{pos}
use traefik_plugin_ipgeoloca.Source.{Source, mem_source, mem_at, slice, file_source}
use traefik_plugin_ipgeoloca.Source.Serves.{Serves, Reads, mem_at_within}
use traefik_plugin_ipgeoloca.Value.{Value, Float, object, entry, end, str, from_bits64, from_bits32}
use traefik_plugin_ipgeoloca.Value.Distinct.{value_at}
use traefik_plugin_ipgeoloca.Reader.{Reader, metadata_marker}
use traefik_plugin_ipgeoloca.Reader.Open.{open_in_memory, open_file}
use traefik_plugin_ipgeoloca.Reader.Tree.{Ip, lookup_offset, node_records}
use traefik_plugin_ipgeoloca.Reader.Records.{value}
use traefik_plugin_ipgeoloca.Reader.Paths.{IsByte}
use traefik_plugin_ipgeoloca.Reader.Nodes.{encode_node, node_records-encode_node}
use traefik_plugin_ipgeoloca.Reader.Lookups.{trie_offset, lookup_offset-trie}
use traefik_plugin_ipgeoloca.Reader.Outcomes.{Answer, lookup_offset-Answer}
use traefik_plugin_ipgeoloca.Reader.Valid.{IsReady, open_in_memory-IsReady, open_file-IsReady}
use traefik_plugin_ipgeoloca.Reader.Strategies.{Holds, value-Holds}
use traefik_plugin_ipgeoloca.Fields.Extract.{mmdb_record}
use traefik_plugin_ipgeoloca.Fields.Memo.{new_mmdb_record, record_values, record_values-mmdb_record}
use traefik_plugin_ipgeoloca.Tests.Program.{decoder, reading}

-- One node: addresses below 128.0.0.0 have the record {"a": "x"}, the others none.
abbrev small_tree : List ℕ
small_tree = 0 ∷ 0 ∷ 17 ∷ 0 ∷ 0 ∷ 1 ∷ []

abbrev separator : List ℕ
separator = 0 ∷ 0 ∷ 0 ∷ 0 ∷ 0 ∷ 0 ∷ 0 ∷ 0 ∷ 0 ∷ 0 ∷ 0 ∷ 0 ∷ 0 ∷ 0 ∷ 0 ∷ 0 ∷ []

abbrev small_data : List ℕ
small_data = 0xe1 ∷ 0x41 ∷ b'a' ∷ 0x41 ∷ b'x' ∷ []

abbrev small_metadata : List ℕ
small_metadata =
    0xe4 ∷ 0x4a ∷ codes "node_count"
    ++ 0xc1 ∷ 1 ∷ 0x4b ∷ codes "record_size"
    ++ 0xa1 ∷ 24 ∷ 0x4a ∷ codes "ip_version"
    ++ 0xa1 ∷ 4 ∷ 0x5b ∷ codes "binary_format_major_version"
    ++ 0xa1 ∷ 2 ∷ []

abbrev pub small : List ℕ
small = small_tree ++ separator ++ small_data ++ metadata_marker ++ small_metadata

abbrev pub truncated : Float → ℕ
truncated (from_bits64 n) = n
truncated (from_bits32 n) = n

abbrev small_reader : Source → Bool → Reader
small_reader src in_memory = record {
  src = src;
  meta = record {
    database_type = [];
    description = [];
    languages = [];
    build_epoch = pos 0;
    ip_version = pos 4;
    node_count = 1;
    record_size = 24;
    major_version = pos 2;
    minor_version = pos 0;
  };
  node_size = 6;
  tree_size = 6;
  data_base = 22;
  ipv4_start = 0;
  ipv4_start_set = false;
  in_memory = in_memory;
}

abbrev pub in_memory_reader : Reader
in_memory_reader = small_reader (mem_source small) true

pub open_small : open_in_memory truncated small ≡ ok in_memory_reader
unfolding decoder reading
open_small = refl

in_memory_reader-IsReady : IsReady in_memory_reader small
in_memory_reader-IsReady = (open_in_memory-IsReady truncated small open_small).0

open_in_memory-IsReady_example :
    IsReady in_memory_reader small × (in_memory_reader.in_memory ≡ true)
open_in_memory-IsReady_example = open_in_memory-IsReady truncated small open_small

-- The reader over a file that ends before the data section.
abbrev pub cut_reader : Reader
cut_reader = small_reader (mem_source (small_tree ++ separator)) true

-- The same database read from disk, the tree pinned.
abbrev pub file_reader : Reader
file_reader =
    small_reader
      (file_source (record {
        read_at = mem_at small;
        head = some (slice small 0 22);
        head_len = 22;
        total = length small;
      }))
      false

open_small_file : open_file truncated (mem_at small) (length small) ≡ ok file_reader
unfolding decoder reading
open_small_file = refl

mem_at-Reads : Reads (mem_at small) small
mem_at-Reads off n h = mem_at_within small off n h

open_file-IsReady_example : IsReady file_reader small × (file_reader.in_memory ≡ false)
open_file-IsReady_example =
    open_file-IsReady truncated (mem_at small) small mem_at-Reads open_small_file

abbrev pub small_record : Value
small_record = object (entry (codes "a") (str (codes "x")) end)

pub small_record-Holds : Holds small 22 22 small_record
unfolding decoder reading
small_record-Holds = record { next = 27; decodes = refl; distinct = (refl, tt, tt) }

pub file_reader-Serves : Serves file_reader.src small
file_reader-Serves = open_file-IsReady_example.0.serves

value-Holds_example :
    value file_reader 22 (codes "a" ∷ []) ≡ ok (value_at (codes "a" ∷ []) small_record)
value-Holds_example =
    value-Holds file_reader small file_reader-Serves 22 (codes "a" ∷ []) small_record
      small_record-Holds

abbrev pub address : Ip
address = 10 ∷ 1 ∷ 2 ∷ 3 ∷ []

address-IsByte : All IsByte address
address-IsByte = (omega arith, (omega arith, (omega arith, (omega arith, tt))))

lookup_offset-trie_example :
    lookup_offset file_reader (some address) ≡ trie_offset file_reader address
lookup_offset-trie_example =
    lookup_offset-trie file_reader address open_file-IsReady_example.0.located address-IsByte

lookup_offset-Answer_example : Answer file_reader (lookup_offset file_reader (some address))
lookup_offset-Answer_example =
    lookup_offset-Answer file_reader small open_file-IsReady_example.0 address (inl refl)
      address-IsByte

pub address_offset : lookup_offset file_reader (some address) ≡ ok (some 22)
unfolding decoder reading
address_offset = refl

node_records-encode_node_example : node_records 28 (encode_node 28 0xabcdef1 5) ≡ (0xabcdef1, 5)
node_records-encode_node_example =
    node_records-encode_node 28 0xabcdef1 5 (inr (inl refl)) (omega arith) (omega arith)

-- The marker stands twice; the last one counts.
abbrev two_marks : List ℕ
two_marks = codes "-ab--ab-"

record_values-mmdb_record_example :
    record_values (new_mmdb_record file_reader 22 false) (codes "a" ∷ codes "b" ∷ codes "a" ∷ [])
    ≡ map (mmdb_record file_reader 22 false) (codes "a" ∷ codes "b" ∷ codes "a" ∷ [])
record_values-mmdb_record_example =
    record_values-mmdb_record file_reader 22 false (codes "a" ∷ codes "b" ∷ codes "a" ∷ [])
