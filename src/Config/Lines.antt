-- ===== src/Config/Lines.antt =====
-- Files that assign values to the variables of the loops of src/owncloud.c, src/pushover2.c and
-- src/telegram.c, and what a call of `fscanf` reads of one line.
use alarm4pi.Prelude.{
  ℕ, zero, suc, ◌≤◌, ◌≡◌, refl, Bool, true, false, not, ◌&&◌, List, [], ◌∷◌, ◌++◌, arith, ◌==◌, leb,
  length, set,
}
use alarm4pi.CString.{Bytes}
use alarm4pi.Config.{
  Stream, is_space, is_empty, skip_space, matched, literal, word, word_stored, value_scanned,
  tag_scanned, scan_variable, Variable,
}

abbrev pub first : Bytes → ℕ
first [] = 0
first (c ∷ s) = c

abbrev pub has_first : Bytes → Bool
has_first [] = false
has_first (c ∷ s) = not (is_space c)

-- No other name begins with `c`.
abbrev pub begins_alone : ℕ → List Variable → Bool
begins_alone c [] = true
begins_alone c ((tag, width) ∷ vars) = not (c == first tag) && begins_alone c vars

-- Each name begins with a character that is no white space and that begins no other name.
abbrev pub is_table : List Variable → Bool
is_table [] = true
is_table ((tag, width) ∷ vars) = has_first tag && begins_alone (first tag) vars && is_table vars

abbrev pub has_no_space : Bytes → Bool
has_no_space [] = true
has_no_space (c ∷ s) = not (is_space c) && has_no_space s

-- The variable at an index may have the value.
abbrev pub is_value : List Variable → ℕ → Bytes → Bool
is_value [] index value = false
is_value ((tag, width) ∷ vars) zero value =
    not (is_empty value) && has_no_space value && leb (length value) width
is_value (var ∷ vars) (suc index) value = is_value vars index value

-- A line of a configuration file, and what follows it.
unfoldable pub line : List Variable → ℕ → Bytes → Bytes → Bytes
line [] index value rest = rest
line ((tag, width) ∷ vars) zero value rest = tag ++ (value ++ (10 ∷ rest))
line (var ∷ vars) (suc index) value rest = line vars index value rest

abbrev pub Assignment : Type 0
Assignment = ℕ × Bytes

unfoldable pub file : List Variable → List Assignment → Bytes
file vars [] = []
file vars ((index, value) ∷ more) = line vars index value (file vars more)

abbrev pub are_values : List Variable → List Assignment → Bool
are_values vars [] = true
are_values vars ((index, value) ∷ more) = is_value vars index value && are_values vars more

-- The assignments made one after the other.
unfoldable pub assigned : List Bytes → List Assignment → List Bytes
assigned values [] = values
assigned values ((index, value) ∷ more) = assigned (set values index value) more

-- The text begins with no white space, or there is none.
abbrev pub is_ready : Bytes → Bool
is_ready [] = true
is_ready (c ∷ s) = not (is_space c)

pub skip-is_ready : (s : Bytes) → is_ready s ≡ true → skip_space s ≡ s
unfolding skip_space
skip-is_ready [] h = refl
skip-is_ready (c ∷ s) h = ground arith

literal-append : (tag s : Bytes) → literal tag (tag ++ s) ≡ matched s
unfolding literal
literal-append [] s = refl
literal-append (c ∷ tag) s = ground (arith, literal-append tag s)

word-append :
    (width : ℕ) (value rest : Bytes)
    → has_no_space value ≡ true
    → length value ≤ width
    → word width (value ++ (10 ∷ rest)) ≡ (value, 10 ∷ rest)
unfolding word
word-append zero [] rest h le = refl
word-append zero (c ∷ value) rest h le = absurd (omega arith)
word-append (suc width) [] rest h le = refl
word-append (suc width) (c ∷ value) rest h le = ground (arith, word-append width value rest)

skip_newline : (s : Bytes) → is_ready s ≡ true → skip_space (10 ∷ s) ≡ s
unfolding skip_space
skip_newline s h = skip-is_ready s h

-- The file behind a line.
abbrev pub at : Bytes → Stream
at rest = record { rest = rest; eof = is_empty rest }

value_scanned-append :
    (width : ℕ) (value rest : Bytes)
    → not (is_empty value) ≡ true
    → has_no_space value ≡ true
    → length value ≤ width
    → is_ready rest ≡ true
    → value_scanned false width (skip_space (value ++ (10 ∷ rest))) ≡ (word_stored value, at rest)
unfolding value_scanned
value_scanned-append width [] rest n h le r = absurd (ground arith)
value_scanned-append width (d ∷ value) rest n h le r =
    rw
      (
        skip-is_ready ((d ∷ value) ++ (10 ∷ rest)) (ground arith),
        word-append width (d ∷ value) rest h le,
        skip_newline rest r,
        value_scanned,
      )
      refl

pub scan_variable_same :
    (c : ℕ) (tag value rest : Bytes) (width : ℕ) (eof : Bool)
    → is_space c ≡ false
    → is_value ((c ∷ tag, width) ∷ []) 0 value ≡ true
    → is_ready rest ≡ true
    → scan_variable false
        (c ∷ tag)
        width
        (record { rest = (c ∷ tag) ++ (value ++ (10 ∷ rest)); eof = eof })
      ≡ (word_stored value, at rest)
unfolding scan_variable tag_scanned
scan_variable_same c tag value rest width eof s v r =
    rw
      (
        skip-is_ready ((c ∷ tag) ++ (value ++ (10 ∷ rest))) (ground arith),
        literal-append (c ∷ tag) (value ++ (10 ∷ rest)),
        tag_scanned,
      )
      (value_scanned-append width value rest (ground arith) (ground arith) (ground arith) r)
