-- ===== src/Log.antt =====
-- provider/log.go: the writer that logs the lines of what is written to it.
use terraform_provider_nixos.Base.{
  ℕ, ◌==◌, ◌≡◌, refl, sym, ap, ◌∙◌, ◌≢◌, List, [], ◌∷◌, ◌++◌, length, All, arith, Bool-cases, inl,
  inr, if◌then◌else◌,
}
use mathlib.Core.Path.{subst}
use terraform_provider_nixos.Base.Hex.{Bytes}

abbrev pub newline : ℕ
newline = 10

-- a byte at the front of the first line
before_first : ℕ → List Bytes → List Bytes
before_first b [] = (b ∷ []) ∷ []
before_first b (l ∷ ls) = (b ∷ l) ∷ ls

-- `bytes.Split(buf, []byte{'\n'})`
unfoldable pub split : Bytes → List Bytes
unfolding before_first
split [] = [] ∷ []
split (b ∷ bs) = if b == newline then [] ∷ split bs else before_first b (split bs)

-- `LogWriter.Write`: the lines that are logged, and the number of bytes written
unfoldable pub write : Bytes → List Bytes × ℕ
unfolding split
write buf = (split buf, length buf)

-- lines with newlines between them
unfoldable pub join_lines : List Bytes → Bytes
join_lines [] = []
join_lines (l ∷ []) = l
join_lines (l ∷ m ∷ ls) = l ++ newline ∷ join_lines (m ∷ ls)

-- no byte of the line is a newline
abbrev pub IsLine : Bytes → Type 0
IsLine [] = Unit
IsLine (b ∷ bs) = (b ≢ newline) × IsLine bs

-- There is a first line.
split_first : (bs : Bytes) → (l : Bytes) × (ls : List Bytes) × (split bs ≡ l ∷ ls)
unfolding split before_first
split_first [] = ([], [], refl)
split_first (b ∷ bs) =
    let (l, ls, e) = split_first bs in
    elim (Bool-cases (b == newline)) [
      | inl h ↦ ([], split bs, rw h refl)
      | inr h ↦ (b ∷ l, ls, rw (h, e) refl)
    ]

join_before :
    (b : ℕ) (l : Bytes) (ls : List Bytes)
    → join_lines (before_first b (l ∷ ls)) ≡ b ∷ join_lines (l ∷ ls)
unfolding join_lines before_first
join_before b l [] = refl
join_before b l (m ∷ ls) = refl

join_lines-split : (bs : Bytes) → join_lines (split bs) ≡ bs
unfolding split join_lines
join_lines-split [] = refl
join_lines-split (b ∷ bs) =
    let (l, ls, e) = split_first bs in
    let rest : join_lines (l ∷ ls) ≡ bs = rw (sym e) (join_lines-split bs) in
    elim (Bool-cases (b == newline)) [
      | inl h ↦ let q : b ≡ newline = ground arith in rw (q, e) (ap (λ t. newline ∷ t) rest)
      | inr h ↦ rw (h, e) (join_before b l ls ∙ ap (λ t. b ∷ t) rest)
    ]

All-before :
    (b : ℕ) (l : Bytes) (ls : List Bytes)
    → b ≢ newline
    → All IsLine (l ∷ ls)
    → All IsLine (before_first b (l ∷ ls))
unfolding before_first
All-before b l ls n h = ((n, h.0), h.1)

split-All : (bs : Bytes) → All IsLine (split bs)
unfolding split
split-All [] = (tt, tt)
split-All (b ∷ bs) =
    let (l, ls, e) = split_first bs in
    elim (Bool-cases (b == newline)) [
      | inl h ↦ rw h (tt, split-All bs)
      | inr h ↦ rw (h, e) (All-before b l ls (ground arith) (subst (All IsLine) e (split-All bs)))
    ]

-- The lines that are logged, with newlines between them, are what was written; none of them has a
-- newline; and the whole buffer counts as written.
pub write-lines :
    (buf : Bytes)
    → (join_lines (write buf).0 ≡ buf) × All IsLine (write buf).0 × ((write buf).1 ≡ length buf)
unfolding write
write-lines buf = (join_lines-split buf, split-All buf, refl)
