-- ===== src/Database.antt =====
-- mmdb.go: `OpenReader` from the path on, and `Changed`. A `FileSystem` is what the disk holds at
-- one moment, through the calls of package os; a time is its count of nanoseconds.
use traefik_plugin_ipgeoloca.Base.{
  ℕ, List, Option, none, some, Bool, false, not, ◌||◌, ◌==◌, if◌then◌else◌, Result, ok, err, ◌>>=◌,
}
use traefik_plugin_ipgeoloca.Base.Text.{Str}
use traefik_plugin_ipgeoloca.Source.{Error}
use traefik_plugin_ipgeoloca.Value.{Float}
use traefik_plugin_ipgeoloca.Reader.{Reader}
use traefik_plugin_ipgeoloca.Reader.Open.{open_in_memory, open_file}

-- os.FileInfo
pub record FileInfo : Type 0 where
  pub is_dir : Bool
  pub size : ℕ
  pub mod_time : ℕ

-- *os.File: the size that its Stat gives, if it gives one, and its ReadAt.
pub record OpenFile : Type 0 where
  pub stat_size : Option ℕ
  pub read_at : ℕ → ℕ → Result Error (List ℕ)

-- os.Stat, os.ReadFile and os.Open; none is an error.
pub record FileSystem : Type 0 where
  pub stat : Str → Option FileInfo
  pub read_file : Str → Option (List ℕ)
  pub open_path : Str → Option OpenFile

pub data OpenError : Type 0 where
  cannot_stat : Str → OpenError
  is_directory : Str → OpenError
  cannot_open : Str → OpenError
  cannot_read : Str → Error → OpenError

-- An open `Reader` with the fields that `Changed` reads.
pub record Database : Type 0 where
  pub path : Str
  pub reader : Reader
  pub file_size : ℕ
  pub mod_time : ℕ

module _ (uint_of_float : Float → ℕ) where
  -- `OpenReader` behind `os.Stat`.
  unfoldable pub open_content : FileSystem → Str → Bool → Result OpenError Reader
  open_content fs path in_memory =
      if in_memory
      then elim (fs.read_file path) [
        | none ↦ err (cannot_open path)
        | some content ↦ elim (open_in_memory uint_of_float content) [
          | ok r ↦ ok r
          | err e ↦ err (cannot_read path e)
        ]
      ]
      else elim (fs.open_path path) [
        | none ↦ err (cannot_open path)
        | some file ↦ elim file.stat_size [
          | none ↦ err (cannot_open path)
          | some total ↦ elim (open_file uint_of_float file.read_at total) [
            | ok r ↦ ok r
            | err e ↦ err (cannot_read path e)
          ]
        ]
      ]

  -- `OpenReader`: the disk may change between its `os.Stat` and its reading of the file.
  unfoldable pub open_reader : FileSystem → FileSystem → Str → Bool → Result OpenError Database
  open_reader at_stat at_open path in_memory = elim (at_stat.stat path) [
    | none ↦ err (cannot_stat path)
    | some st ↦ if st.is_dir then err (is_directory path) else (do
      r ← open_content at_open path in_memory
      ok (record { path = path; reader = r; file_size = st.size; mod_time = st.mod_time }))
  ]

-- `Changed`
unfoldable pub changed : FileSystem → Database → Bool
changed fs d = elim (fs.stat d.path) [
  | none ↦ false
  | some st ↦ not (st.size == d.file_size) || not (st.mod_time == d.mod_time)
]
