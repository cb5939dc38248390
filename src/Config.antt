-- ===== src/Config.antt =====
-- The configuration files of src/owncloud.c, src/pushover2.c and src/telegram.c. Their loops are the
-- same but for the table of variables, an argument here: each variable's name, with the `=` behind
-- it, and the width of its `%s`. A file that is open is the text still to be read and its
-- end-of-file indicator.
pub mod Scan
pub mod Load
pub mod Lines
pub mod Files
pub mod Failing
use alarm4pi.Prelude.{
  ℕ, zero, suc, Bool, true, false, ◌&&◌, ◌||◌, not, Option, none, some, List, [], ◌∷◌, ◌++◌, ◌==◌,
  leb, if◌then◌else◌, length, einval,
}
use alarm4pi.CString.{Bytes}
use alarm4pi.Proc.Paths.{path_max, ExecEnv, is_absolute, in_exec_dir, get_current_exec_path}

pub record Stream : Type 0 where
  pub rest : Bytes
  pub eof : Bool

-- isspace
abbrev pub is_space : ℕ → Bool
is_space c = c == 32 || leb 9 c && leb c 13

abbrev pub is_empty : Bytes → Bool
is_empty [] = true
is_empty (c ∷ s) = false

-- A white-space character of a format.
unfoldable pub skip_space : Bytes → Bytes
skip_space [] = []
skip_space (c ∷ s) = elim (is_space c) [ true ↦ skip_space s | false ↦ c ∷ s ]

-- The other characters of a format: all of them are read, or the first that differs is left, or the
-- text ends.
pub data Literal : Type 0 where
  matched mismatch : Bytes → Literal
  ended : Literal

unfoldable pub literal : Bytes → Bytes → Literal
literal [] s = matched s
literal (t ∷ ts) [] = ended
literal (t ∷ ts) (c ∷ s) = elim (t == c) [ true ↦ literal ts s | false ↦ mismatch (c ∷ s) ]

-- `%Ns` behind the white space that it skips: the word and what follows it.
unfoldable pub word : ℕ → Bytes → Bytes × Bytes
word zero s = ([], s)
word (suc n) [] = ([], [])
word (suc n) (c ∷ s) = elim (is_space c) [
  | true ↦ ([], c ∷ s)
  | false ↦ let (w, r) = word n s in (c ∷ w, r)
]

-- What a call of `fscanf` returns: 1, with the word that it stores, 0 or EOF.
pub data Scanned : Type 0 where
  word_stored : Bytes → Scanned
  nothing end_of_file : Scanned

-- `read_fails`: behind the text a read fails, so that `fscanf` gives EOF and the indicator stays off.
module _ (read_fails : Bool) where
  unfoldable pub value_scanned : ℕ → Bytes → Scanned × Stream
  value_scanned width [] = (end_of_file, record { rest = []; eof = not read_fails })
  value_scanned width (c ∷ s) =
      let (w, r) = word width (c ∷ s) in
      let rest = skip_space r in
      (word_stored w, record { rest = rest; eof = not read_fails && is_empty rest })

  unfoldable pub tag_scanned : ℕ → Bool → Literal → Scanned × Stream
  unfolding value_scanned
  tag_scanned width eof (matched r) = value_scanned width (skip_space r)
  tag_scanned width eof (mismatch r) = (nothing, record { rest = r; eof = eof })
  tag_scanned width eof ended = (end_of_file, record { rest = []; eof = not read_fails })

  -- fscanf(conf_fd, " " TAG " %Ns\n", variable)
  unfoldable pub scan_variable : Bytes → ℕ → Stream → Scanned × Stream
  unfolding tag_scanned
  scan_variable tag width s = tag_scanned width s.eof (literal tag (skip_space s.rest))

-- The name and the width of a variable.
abbrev pub Variable : Type 0
Variable = Bytes × ℕ

-- `fscanf(…) == 0 && …`: the value of the variable, and the rest of the chain.
unfoldable pub or_next :
    Scanned × Stream
    → Bytes
    → List Bytes
    → Bool × (List Bytes × Stream)
    → Bool × (List Bytes × Stream)
or_next (word_stored w, s) value values next = (true, (w ∷ values, s))
or_next (end_of_file, s) value values next = (true, (value ∷ values, s))
or_next (nothing, s) value values (any, (values1, s1)) = (any, (value ∷ values1, s1))

module _ (read_fails : Bool) where
  -- The chain of calls of `fscanf`: whether one of them does not return 0, the variables, and the file.
  unfoldable pub scan_variables : List Variable → List Bytes → Stream → Bool × (List Bytes × Stream)
  unfolding or_next
  scan_variables [] values s = (false, (values, s))
  scan_variables (var ∷ vars) [] s = (false, ([], s))
  scan_variables ((tag, width) ∷ vars) (value ∷ values) s =
      let scanned = scan_variable read_fails tag width s in
      or_next scanned value values (scan_variables vars values scanned.1)

  -- The `while` loop: the code and the variables; `none` is a loop that does not end on that fuel.
  unfoldable pub load_variables : ℕ → List Variable → List Bytes → Stream → Option (ℕ × List Bytes)
  load_variables zero vars values s = none
  load_variables (suc fuel) vars values s =
      let (any, (values1, s1)) = scan_variables vars values s in
      elim s.eof [
        | true ↦ some (0, values)
        | false ↦ elim any [
          | true ↦ load_variables fuel vars values1 s1
          | false ↦ some (einval, values1)
        ]
      ]

abbrev pub cleared : List Variable → List Bytes
cleared [] = []
cleared (var ∷ vars) = [] ∷ cleared vars

module _ (read_fails : Bool) where
  -- From the variables set to empty strings and the file just opened.
  unfoldable pub load_config : List Variable → Bytes → Option (ℕ × List Bytes)
  load_config vars text =
      load_variables read_fails (suc (suc (length text))) vars (cleared vars)
        (record { rest = text; eof = false })

-- The block in which the `_init` functions find the path of the configuration file. What the buffer
-- holds before the call of `get_current_exec_path` is not used.
unfoldable pub conf_path : ExecEnv → Bytes → Bytes
conf_path env conf_filename =
    if is_absolute conf_filename
    then conf_filename
    else in_exec_dir (get_current_exec_path env [] path_max) conf_filename
