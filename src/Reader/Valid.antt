-- ===== src/Reader/Valid.antt =====
-- mmdb.go: the readers that `OpenReader` returns.
use traefik_plugin_ipgeoloca.Base.{
  ℕ, zero, suc, ◌+◌, ◌*◌, ◌/◌, ◌≤◌, ◌<◌, ◌≡◌, refl, sym, ap, List, Bool, true, false, ◌⊎◌, inl, inr,
  length, Result, ok, arith, Bool-cases, Result-cases, >>=-eq-ok, ◌∙◌,
}
use mathlib.Core.Path.{subst}
use traefik_plugin_ipgeoloca.Base.Int.{pos, eq_ℤ}
use traefik_plugin_ipgeoloca.Source.{
  Source, Error, mem_source, file_source, new_file_source, load_head,
}
use traefik_plugin_ipgeoloca.Source.Serves.{
  Serves, Reads, mem_source-Serves, opened-Serves, load_head-Serves,
}
use traefik_plugin_ipgeoloca.Value.{Float}
use traefik_plugin_ipgeoloca.Decode.Values.{decode}
use traefik_plugin_ipgeoloca.Reader.{Reader, Metadata}
use traefik_plugin_ipgeoloca.Reader.Tree.{node_records, read_node, left_loop, find_ipv4_start}
use traefik_plugin_ipgeoloca.Reader.Open.{
  as_map, metadata_of, check_metadata, metadata_start, read_metadata, locate_ipv4, open_in_memory,
  open_file,
}
use traefik_plugin_ipgeoloca.Reader.Nodes.{IsRecordSize}
use traefik_plugin_ipgeoloca.Reader.Paths.{IsLocated}

-- The sizes that `readMetadata` computes and checks, in a file of `total` bytes.
pub record IsSized (r : Reader) (total : ℕ) : Type 0 where
  pub record_size : IsRecordSize r.meta.record_size
  pub node_size : r.node_size ≡ r.meta.record_size * 2 / 8
  pub tree_size : r.tree_size ≡ r.meta.node_count * r.node_size
  pub data_base : r.data_base ≡ r.tree_size + 16
  pub fits : r.data_base ≤ total
  pub nodes : 0 < r.meta.node_count
  pub ip_version : (eq_ℤ r.meta.ip_version (pos 4) ≡ true) ⊎ (eq_ℤ r.meta.ip_version (pos 6) ≡ true)
  pub major_version : eq_ℤ r.meta.major_version (pos 2) ≡ true

check_metadata-IsSized :
    (src : Source) (in_memory : Bool) (total : ℕ) (meta : Metadata) {r : Reader}
    → check_metadata src in_memory total meta ≡ ok r
    → IsSized r total × (r.src ≡ src) × (r.in_memory ≡ in_memory)
unfolding check_metadata
check_metadata-IsSized src in_memory total meta {r} h = ground arith

read_metadata-IsSized :
    (uint_of_float : Float → ℕ) (src : Source) (in_memory : Bool) {r : Reader}
    → read_metadata uint_of_float src in_memory ≡ ok r
    → IsSized r src.size × (r.src ≡ src) × (r.in_memory ≡ in_memory)
unfolding read_metadata
read_metadata-IsSized uint_of_float src in_memory h =
    let (start, e₁, h₁) = >>=-eq-ok (metadata_start src) _ h in
    let ((raw, next), e₂, h₂) = >>=-eq-ok (decode src start start 0) _ h₁ in
    let (m, e₃, h₃) = >>=-eq-ok (as_map raw) _ h₂ in
    check_metadata-IsSized src in_memory src.size (metadata_of uint_of_float m) h₃

-- The IPv4 start changes nothing that the walk reads.
left_loop-located :
    (r : Reader) (start n node : ℕ)
    → left_loop (record r { ipv4_start = start; ipv4_start_set = true }) n node ≡ left_loop r n node
unfolding left_loop read_node
left_loop-located r start zero node = refl
left_loop-located r start (suc n) node =
    elim (Result-cases (r.src.at (node * r.node_size) r.node_size)) [
      | inl (b, e) ↦
          ground (arith, e, left_loop-located r start n (node_records r.meta.record_size b).0)
      | inr (x, e) ↦ ground (arith, e)
    ]

-- `r'` is `r` with the IPv4 subtree located.
abbrev Located : Reader → ℕ → Reader → Type 0
Located r total r' =
    IsSized r' total × IsLocated r' × (r'.src ≡ r.src) × (r'.in_memory ≡ r.in_memory)

IsSized-ipv4 :
    (r : Reader) (start total : ℕ)
    → IsSized r total
    → IsSized (record r { ipv4_start = start; ipv4_start_set = true }) total
IsSized-ipv4 r start total s = record {
  record_size = s.record_size;
  node_size = s.node_size;
  tree_size = s.tree_size;
  data_base = s.data_base;
  fits = s.fits;
  nodes = s.nodes;
  ip_version = s.ip_version;
  major_version = s.major_version;
}

IsSized-src :
    (r : Reader) (src : Source) (total : ℕ)
    → IsSized r total
    → IsSized (record r { src = src }) total
IsSized-src r src total s = record {
  record_size = s.record_size;
  node_size = s.node_size;
  tree_size = s.tree_size;
  data_base = s.data_base;
  fits = s.fits;
  nodes = s.nodes;
  ip_version = s.ip_version;
  major_version = s.major_version;
}

locate_ipv4-Located :
    (r : Reader) (total : ℕ) {r' : Reader}
    → locate_ipv4 r ≡ ok r'
    → IsSized r total
    → Located r total r'
unfolding locate_ipv4
locate_ipv4-Located r total {r'} h sized = elim (Bool-cases (eq_ℤ r.meta.ip_version (pos 6))) [
  | inl six ↦
      let (start, e, h') = >>=-eq-ok (find_ipv4_start r) _ (rw (six, locate_ipv4) at h) in
      let same : record r { ipv4_start = start; ipv4_start_set = true } ≡ r' = cc h' in
      subst (Located r total) same (
        IsSized-ipv4 r start total sized,
        record {
          known = λ _. refl;
          found = λ _. unfold find_ipv4_start in (left_loop-located r start 96 0 ∙ e);
        },
        refl,
        refl,
      )
  | inr four ↦
      let same : r ≡ r' = cc (rw (four, locate_ipv4) at h) in
      subst (Located r total) same
        (sized, record { known = λ six. cc; found = λ six. cc }, refl, refl)
]

-- A reader that is ready for lookups in a file with the bytes `content`.
pub record IsReady (r : Reader) (content : List ℕ) : Type 0 where
  pub sized : IsSized r (length content)
  pub located : IsLocated r
  pub serves : Serves r.src content

-- `OpenReader` in memory returns only readers that are ready: the sizes fit the record size, the
-- node count and the file, the format is one that the code reads, the IPv4 start is where the walk
-- of zero bits ends, and the source serves the content.
pub open_in_memory-IsReady :
    (uint_of_float : Float → ℕ) (content : List ℕ) {r : Reader}
    → open_in_memory uint_of_float content ≡ ok r
    → IsReady r content × (r.in_memory ≡ true)
unfolding open_in_memory
open_in_memory-IsReady uint_of_float content {r} h =
    let src = mem_source content in
    let (r₀, e, h') = >>=-eq-ok (read_metadata uint_of_float src true) _ h in
    let (sized, s, m) = read_metadata-IsSized uint_of_float src true e in
    let (sized', located, s', m') = locate_ipv4-Located r₀ src.size h' sized in
    (
      record {
        sized = subst (IsSized r) (mem_source-Serves content).0 sized';
        located = located;
        serves = subst (λ x. Serves x content) (sym (s' ∙ s)) (mem_source-Serves content);
      },
      m' ∙ m,
    )

-- `OpenReader` on a file returns only readers that are ready, where `ReadAt` reads the bytes of the
-- file: the pinned tree and the reads from disk serve one content.
pub open_file-IsReady :
    (uint_of_float : Float → ℕ) (read_at : ℕ → ℕ → Result Error (List ℕ)) (content : List ℕ)
    {r : Reader}
    → Reads read_at content
    → open_file uint_of_float read_at (length content) ≡ ok r
    → IsReady r content × (r.in_memory ≡ false)
unfolding open_file
open_file-IsReady uint_of_float read_at content {r} reads h =
    let file = new_file_source read_at (length content) in
    let src = file_source file in
    let (r₀, e, h') = >>=-eq-ok (read_metadata uint_of_float src false) _ h in
    let (sized, s, m) = read_metadata-IsSized uint_of_float src false e in
    let (pinned, e', h'') = >>=-eq-ok (load_head file r₀.data_base) _ h' in
    let total = (opened-Serves read_at content reads).0 in
    let (pinned', e'', serves) =
      load_head-Serves read_at content reads r₀.data_base (omega (arith, sized.fits, total)) in
    let same : pinned' ≡ pinned = cc (e', e'') in
    let (sized', located, s', m') =
      locate_ipv4-Located (record r₀ { src = file_source pinned }) src.size h''
        (IsSized-src r₀ (file_source pinned) src.size sized) in
    (
      record {
        sized = subst (IsSized r) total sized';
        located = located;
        serves = subst (λ x. Serves x content) (ap file_source same ∙ sym s') serves;
      },
      m' ∙ m,
    )
