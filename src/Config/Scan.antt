-- ===== src/Config/Scan.antt =====
-- What a call of `fscanf` reads of a configuration file.
use alarm4pi.Prelude.{
  ℕ, zero, suc, ◌+◌, ◌≤◌, ◌<◌, ◌≡◌, refl, Bool, true, false, [], ◌∷◌, arith, ◌==◌, Bool-cases, inl,
  inr, length,
}
use alarm4pi.CString.{Bytes}
use alarm4pi.Config.{
  Stream, skip_space, Literal, matched, mismatch, ended, literal, word, Scanned, word_stored,
  nothing, end_of_file, value_scanned, tag_scanned, scan_variable,
}

pub skip_space-length : (s : Bytes) → length (skip_space s) ≤ length s
unfolding skip_space
skip_space-length [] = omega arith
skip_space-length (c ∷ s) = ground (arith, skip_space-length s)

-- What is left of a text, when something is.
abbrev pub Left : ℕ → Bytes → Literal → Type 0
Left n s (matched r) = n + length r ≡ length s
Left n s (mismatch r) = length r ≤ length s
Left n s ended = Unit

Left-tail : (n c : ℕ) (s : Bytes) (l : Literal) → Left n s l → Left (suc n) (c ∷ s) l
Left-tail n c s (matched r) h = omega arith
Left-tail n c s (mismatch r) h = omega arith
Left-tail n c s ended h = tt

pub literal-Left : (t s : Bytes) → Left (length t) s (literal t s)
unfolding literal
literal-Left [] s = omega arith
literal-Left (t ∷ ts) [] = tt
literal-Left (t ∷ ts) (c ∷ s) = elim (Bool-cases (t == c)) [
  | inl e ↦ rw (e, Left) (Left-tail (length ts) c s (literal ts s) (literal-Left ts s))
  | inr e ↦ rw (e, Left) (omega arith)
]

pub word-length : (n : ℕ) (s : Bytes) → (length (word n s).0 ≤ n) × (length (word n s).1 ≤ length s)
unfolding word
word-length zero s = (omega arith, omega arith)
word-length (suc n) [] = (omega arith, omega arith)
word-length (suc n) (c ∷ s) = let (w, r) = word-length n s in (ground arith, ground arith)

-- What a call returns and leaves: a word that fits with less text, the end of the file, or no more
-- text than before.
abbrev pub Reads : ℕ → ℕ → Scanned × Stream → Type 0
Reads width len (word_stored w, s) = (length w ≤ width) × (length s.rest < len)
Reads width len (nothing, s) = length s.rest ≤ len
Reads width len (end_of_file, s) = s.eof ≡ true

value_scanned-Reads :
    (width len : ℕ) (s : Bytes) → length s < len → Reads width len (value_scanned false width s)
unfolding value_scanned
value_scanned-Reads width len [] h = refl
value_scanned-Reads width len (c ∷ s) h =
    let (w, r) = word-length width (c ∷ s) in
    (w, omega (arith, skip_space-length (word width (c ∷ s)).1))

tag_scanned-Reads :
    (n width : ℕ) (s : Bytes) (eof : Bool) (l : Literal)
    → 0 < n
    → Left n s l
    → Reads width (length s) (tag_scanned false width eof l)
unfolding tag_scanned
tag_scanned-Reads n width s eof (matched r) ne h =
    value_scanned-Reads width (length s) (skip_space r) (omega (arith, skip_space-length r))
tag_scanned-Reads n width s eof (mismatch r) ne h = h
tag_scanned-Reads n width s eof ended ne h = refl

Reads-mono : (width m n : ℕ) (r : Scanned × Stream) → m ≤ n → Reads width m r → Reads width n r
Reads-mono width m n (word_stored w, s) le h = (h.0, omega arith)
Reads-mono width m n (nothing, s) le h = omega arith
Reads-mono width m n (end_of_file, s) le h = h

pub scan_variable-Reads :
    (tag : Bytes) (width : ℕ) (s : Stream)
    → 0 < length tag
    → Reads width (length s.rest) (scan_variable false tag width s)
unfolding scan_variable
scan_variable-Reads tag width s ne =
    let t = skip_space s.rest in
    Reads-mono width (length t) (length s.rest) (tag_scanned false width s.eof (literal tag t))
      (skip_space-length s.rest)
      (tag_scanned-Reads (length tag) width t s.eof (literal tag t) ne (literal-Left tag t))
