-- ===== src/Source/Serves.antt =====
-- decode.go: the three sources beside the bytes of the file.
use traefik_plugin_ipgeoloca.Base.{
  ℕ, ◌+◌, ◌-◌, ◌≤◌, ◌≡◌, refl, ap, ◌∙◌, fun_ext, List, some, take, drop, length, Result, ok, arith,
  length-take, length-drop, take-drop-take, drop-drop,
}
use traefik_plugin_ipgeoloca.Source.{
  Source, Error, FileSource, slice, mem_at, mem_source, new_file_source, load_head, head_at,
  file_source, window_at, window_source,
}

-- The source answers every read as `memSource` over `content` does, errors included.
abbrev pub Serves : Source → List ℕ → Type 0
Serves s content = (s.size ≡ length content) × ((off n : ℕ) → s.at off n ≡ mem_at content off n)

pub mem_source-Serves : (b : List ℕ) → Serves (mem_source b) b
unfolding mem_source
mem_source-Serves b = (refl, λ off n. refl)

-- A source that serves the content is the content's `memSource`.
pub Serves-eq : {s : Source} (content : List ℕ) → Serves s content → s ≡ mem_source content
unfolding mem_source
Serves-eq {s} content (size, at) =
    λ i. record { at = fun_ext (λ off. fun_ext (λ n. at off n)) i; size = size i }

pub mem_at-ok :
    (b : List ℕ) (off n : ℕ) {r : List ℕ}
    → mem_at b off n ≡ ok r
    → (off + n ≤ length b) × (r ≡ slice b off n)
unfolding mem_at
mem_at-ok b off n h = ground arith

pub mem_at_within :
    (b : List ℕ) (off n : ℕ) → off + n ≤ length b → mem_at b off n ≡ ok (slice b off n)
unfolding mem_at
mem_at_within b off n h = ground arith

-- A read that succeeds returns as many bytes as asked for: indexing the buffer cannot panic.
pub mem_at-length : (b : List ℕ) (off n : ℕ) {r : List ℕ} → mem_at b off n ≡ ok r → length r ≡ n
mem_at-length b off n h =
    let (fits, e) = mem_at-ok b off n h in
    ap length e ∙ length-take n (drop off b) (omega (arith, length-drop off b))

-- What package os documents of `ReadAt` on a regular file whose bytes are `content`: inside the
-- file the buffer is filled.
abbrev pub Reads : (ℕ → ℕ → Result Error (List ℕ)) → List ℕ → Type 0
Reads read_at content =
    (off n : ℕ) → off + n ≤ length content → read_at off n ≡ ok (slice content off n)

module _ (read_at : ℕ → ℕ → Result Error (List ℕ)) (content : List ℕ)
    (reads : Reads read_at content) where
  -- An open file serves its content, before the tree is pinned.
  pub opened-Serves : Serves (file_source (new_file_source read_at (length content))) content
  unfolding file_source new_file_source mem_at
  opened-Serves = (refl, λ off n. ground (arith, reads off n))

  head_at-mem_at :
      (m off n : ℕ)
      → m ≤ length content
      → off + n ≤ length content
      → head_at
          (some (slice content 0 m))
          (record {
            read_at = read_at;
            head = some (slice content 0 m);
            head_len = m;
            total = length content;
          })
          off
          n
        ≡ ok (slice content off n)
  unfolding head_at
  head_at-mem_at m off n hm h = ground (arith, reads off n, take-drop-take n m off content)

  -- Pinning the tree succeeds for a tree inside the file, and the source still serves the content:
  -- the resident part and the reads from disk agree.
  pub load_head-Serves :
      (m : ℕ)
      → m ≤ length content
      → (s : FileSource) × (load_head (new_file_source read_at (length content)) m ≡ ok s)
        × Serves (file_source s) content
  unfolding load_head new_file_source file_source mem_at
  load_head-Serves m h = (
    record {
      read_at = read_at;
      head = some (slice content 0 m);
      head_len = m;
      total = length content;
    },
    ground (arith, reads 0 m),
    (refl, λ off n. ground (arith, head_at-mem_at m off n)),
  )

-- Inside the block a read is the read from the content.
slice_window :
    (content : List ℕ) (base n off k : ℕ)
    → base ≤ off
    → off - base + k ≤ n
    → slice (slice content base n) (off - base) k ≡ slice content off k
slice_window content base n off k h fits =
    take-drop-take k n (off - base) (drop base content) fits
    ∙ ap (take k) (drop-drop (off - base) base off content (omega arith))

-- A block that was read from the content at `base` can be put before any source that serves the
-- content: inside and outside the block the answers are those of the content.
pub window_source-Serves :
    (content : List ℕ) (base n : ℕ) {buf : List ℕ} {s : Source}
    → Serves s content
    → mem_at content base n ≡ ok buf
    → Serves (window_source base buf s) content
unfolding window_source window_at
window_source-Serves content base n {buf} {s} (size, at) h =
    let (fits, e) = mem_at-ok content base n h in
    let len : length buf ≡ n = mem_at-length content base n h in
    (
      size,
      λ off k. ground (
        arith,
        fits,
        e,
        len,
        at off k,
        slice_window content base n off k,
        mem_at_within content off k,
      ),
    )
