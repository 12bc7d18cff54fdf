-- ===== src/Command/Readln.antt =====
-- `Readln` of provider/command.go: a line of a buffered reader, put together from its chunks.
-- `bufio.Reader.ReadLine` is a parameter, with the reader's state passed on.
use terraform_provider_nixos.Base.{
  ℕ, zero, suc, ◌<◌, ◌≡◌, refl, sym, ap, ◌∙◌, inl, inr, Bool, true, false, Bool-cases, List, [],
  ◌∷◌, ◌++◌, All, length, Option, Option-cases, none, some, Error, arith, append_assoc,
  if◌then◌else◌,
}
use terraform_provider_nixos.Base.Hex.{Bytes}

-- a chunk of a line, whether more of the line follows, and the error
pub record Chunk : Type 0 where
  pub line : Bytes
  pub is_prefix : Bool
  pub error : Option Error

-- the condition of the loop
abbrev pub goes_on : Chunk → Bool
goes_on c = elim c.error [ none ↦ c.is_prefix | some e ↦ false ]

-- There is no error, and more of the line follows.
abbrev pub IsPart : Chunk → Type 0
IsPart c = (c.is_prefix ≡ true) × (c.error ≡ none)

abbrev pub content : List Chunk → Bytes
content [] = []
content (c ∷ cs) = c.line ++ content cs

goes_on-part : (c : Chunk) → IsPart c → goes_on c ≡ true
goes_on-part c h = ground arith

goes_on-last : (c : Chunk) → ¬ IsPart c → goes_on c ≡ false
goes_on-last c h = elim (Option-cases c.error) [
  | inl e ↦ elim (Bool-cases c.is_prefix) [ inl b ↦ absurd (h (b, e)) | inr b ↦ rw e b ]
  | inr (x, e) ↦ rw e refl
]

module _ {R : Type 0} (read_line : R → Chunk × R) where
  -- the loop, with what was read so far; `none` if the fuel runs out
  readln_loop : ℕ → Bytes → R → Option ((Bytes × Option Error) × R)
  readln_loop zero ln r = none
  readln_loop (suc fuel) ln r =
      let c = (read_line r).0 in
      let rest = readln_loop fuel (ln ++ c.line) (read_line r).1 in
      if goes_on c then rest else some ((ln ++ c.line, c.error), (read_line r).1)

  unfoldable pub readln : ℕ → R → Option ((Bytes × Option Error) × R)
  unfolding readln_loop
  readln fuel r = readln_loop fuel [] r

  -- Reading from the first state gives these chunks, and then is in the second state.
  abbrev pub Reads : R → List Chunk → R → Type 0
  Reads r [] r' = r ≡ r'
  Reads r (c ∷ cs) r' = ((read_line r).0 ≡ c) × Reads (read_line r).1 cs r'

  readln_loop-Reads :
      (fuel : ℕ) (ln : Bytes) (r : R) (parts : List Chunk) (last : Chunk) (r' : R)
      → length parts < fuel
      → All IsPart parts
      → ¬ IsPart last
      → Reads r (parts ++ last ∷ []) r'
      → readln_loop fuel ln r ≡ some ((ln ++ (content parts ++ last.line), last.error), r')
  unfolding readln_loop
  readln_loop-Reads zero ln r parts last r' h p q g = absurd (omega arith)
  readln_loop-Reads (suc fuel) ln r [] last r' h p q g =
      rw (g.0, readln_loop, goes_on-last last q) (rw g.1 refl)
  readln_loop-Reads (suc fuel) ln r (c ∷ cs) last r' h p q g =
      rw (g.0, readln_loop, goes_on-part c p.0)
        (readln_loop-Reads fuel (ln ++ c.line) (read_line r).1 cs last r' (omega arith) p.1 q g.1
          ∙ ap (λ t. some ((t, last.error), r'))
              (append_assoc ln c.line (content cs ++ last.line)
                ∙ ap (λ t. ln ++ t) (sym (append_assoc c.line (content cs) last.line))))

  -- Where the reader gives any number of chunks without an error that the line goes on behind, and
  -- then one that ends the line or has an error, reading with fuel for more rounds than those
  -- returns the content of all of them with the error of the last, and reads nothing more.
  pub readln-Reads :
      (fuel : ℕ) (r : R) (parts : List Chunk) (last : Chunk) (r' : R)
      → length parts < fuel
      → All IsPart parts
      → ¬ IsPart last
      → Reads r (parts ++ last ∷ []) r'
      → readln fuel r ≡ some ((content parts ++ last.line, last.error), r')
  unfolding readln
  readln-Reads fuel r parts last r' h p q g = readln_loop-Reads fuel [] r parts last r' h p q g
