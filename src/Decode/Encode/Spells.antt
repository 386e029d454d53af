-- ===== src/Decode/Encode/Spells.antt =====
-- decode.go: a source that holds given bytes at an offset.
use traefik_plugin_ipgeoloca.Base.{
  ℕ, zero, suc, ◌+◌, ◌≤◌, ◌≡◌, refl, ap, ◌∙◌, List, [], ◌∷◌, ◌++◌, length, length-append, ltb,
  false, ok, arith,
}
use traefik_plugin_ipgeoloca.Source.{Source, slice, mem_at, mem_source}
use traefik_plugin_ipgeoloca.Decode.{byte_at}

-- Each read inside the bytes gives them.
abbrev pub Spells : Source → ℕ → List ℕ → Type 0
Spells src off bs = (i n : ℕ) → i + n ≤ length bs → src.at (off + i) n ≡ ok (slice bs i n)

slice-left : (xs ys : List ℕ) (i n : ℕ) → i + n ≤ length xs → slice (xs ++ ys) i n ≡ slice xs i n
slice-left [] ys zero zero h = refl
slice-left [] ys zero (suc n) h = absurd (omega arith)
slice-left [] ys (suc i) n h = absurd (omega arith)
slice-left (x ∷ xs) ys zero zero h = refl
slice-left (x ∷ xs) ys zero (suc n) h = ap (λ l. x ∷ l) (slice-left xs ys zero n (omega arith))
slice-left (x ∷ xs) ys (suc i) n h = slice-left xs ys i n (omega arith)

slice-right : (xs ys : List ℕ) (i j n : ℕ) → j ≡ length xs + i → slice (xs ++ ys) j n ≡ slice ys i n
slice-right [] ys i j n e = ap (λ k. slice ys k n) (omega (arith, e))
slice-right (x ∷ xs) ys i zero n e = absurd (omega (arith, e))
slice-right (x ∷ xs) ys i (suc j) n e = slice-right xs ys i j n (omega (arith, e))

take_all : (bs : List ℕ) (n : ℕ) → length bs ≡ n → slice bs 0 n ≡ bs
take_all [] zero e = refl
take_all [] (suc n) e = absurd (omega (arith, e))
take_all (b ∷ bs) zero e = absurd (omega (arith, e))
take_all (b ∷ bs) (suc n) e = ap (λ l. b ∷ l) (take_all bs n (omega (arith, e)))

module _ (src : Source) where
  pub Spells-left : (off : ℕ) (xs ys : List ℕ) → Spells src off (xs ++ ys) → Spells src off xs
  Spells-left off xs ys h i n inside =
      h i n (omega (arith, inside, length-append xs ys)) ∙ ap ok (slice-left xs ys i n inside)

  pub Spells-right :
      (off : ℕ) (xs ys : List ℕ) → Spells src off (xs ++ ys) → Spells src (off + length xs) ys
  Spells-right off xs ys h i n inside =
      ap (λ k. src.at k n) (omega arith)
      ∙ h (length xs + i) n (omega (arith, inside, length-append xs ys))
      ∙ ap ok (slice-right xs ys i (length xs + i) n refl)

  -- All of the bytes in one read.
  pub Spells-all :
      (off n : ℕ) (bs : List ℕ) → Spells src off bs → length bs ≡ n → src.at off n ≡ ok bs
  Spells-all off n bs h e =
      ap (λ k. src.at k n) (omega arith) ∙ h 0 n (omega (arith, e)) ∙ ap ok (take_all bs n e)

  pub Spells-byte : (off b : ℕ) (bs : List ℕ) → Spells src off (b ∷ bs) → byte_at src off ≡ ok b
  unfolding byte_at
  Spells-byte off b bs h =
      rw (byte_at, Spells-all off 1 (b ∷ []) (Spells-left off (b ∷ []) bs h) refl) refl

-- A file in memory, around the bytes.
pub mem_source-Spells :
    (before bs after : List ℕ) → Spells (mem_source (before ++ (bs ++ after))) (length before) bs
unfolding mem_source mem_at
mem_source-Spells before bs after i n inside =
    let content = before ++ (bs ++ after) in
    let within : ltb (length content) (length before + i + n) ≡ false =
      ground (arith, inside, length-append before (bs ++ after), length-append bs after) in
    rw (mem_at, within)
      (ap ok (
        slice-right before (bs ++ after) i (length before + i) n refl
        ∙ slice-left bs after i n inside))
