-- ===== src/Config/Files.antt =====
-- The loops that load the configuration files in src/owncloud.c, src/pushover2.c and src/telegram.c,
-- on a file that assigns values to the variables.
use alarm4pi.Prelude.{
  ℕ, zero, suc, ◌≤◌, ◌<◌, ◌≡◌, refl, ◌∙◌, ap, Bool, true, false, some, List, [], ◌∷◌, ◌++◌, arith,
  ◌==◌, length, length-append, set, length-set,
}
use alarm4pi.CString.{Bytes}
use alarm4pi.Config.{
  Stream, is_space, is_empty, skip_space, literal, nothing, tag_scanned, scan_variable, Variable,
  or_next, scan_variables, load_variables, cleared, load_config,
}
use alarm4pi.Config.Lines.{
  first, has_first, begins_alone, is_table, is_value, line, Assignment, file, are_values, assigned,
  is_ready, skip-is_ready, at, scan_variable_same,
}

scan_variable_other :
    (tag : Bytes) (c : ℕ) (s : Bytes) (width : ℕ) (eof : Bool)
    → has_first tag ≡ true
    → is_space c ≡ false
    → (c == first tag) ≡ false
    → scan_variable false tag width (record { rest = c ∷ s; eof = eof })
      ≡ (nothing, record { rest = c ∷ s; eof = eof })
unfolding scan_variable tag_scanned literal
scan_variable_other [] c s width eof h n d = cc
scan_variable_other (t ∷ tag) c s width eof h n d =
    let e : (t == c) ≡ false = ground arith in
    rw (skip-is_ready (c ∷ s) (ground arith), e, literal, tag_scanned) refl

-- A line begins with the first character of a name.
abbrev Begins : ℕ → Bytes → Type 0
Begins x s = (c : ℕ) × (t : Bytes) × (s ≡ c ∷ t) × (is_space c ≡ false) × ((c == x) ≡ false)

line-Begins :
    (vars : List Variable) (x index : ℕ) (value rest : Bytes)
    → is_table vars ≡ true
    → begins_alone x vars ≡ true
    → is_value vars index value ≡ true
    → Begins x (line vars index value rest)
unfolding line
line-Begins [] x index value rest t b v = absurd (cc v)
line-Begins (([], width) ∷ vars) x index value rest t b v = absurd (cc t)
line-Begins ((c ∷ tag, width) ∷ vars) x zero value rest t b v =
    (c, tag ++ (value ++ (10 ∷ rest)), refl, ground arith, ground arith)
line-Begins ((c ∷ tag, width) ∷ vars) x (suc index) value rest t b v =
    line-Begins vars x index value rest (ground arith) (ground arith) v

scan_variables-line :
    (vars : List Variable) (values : List Bytes) (index : ℕ) (value rest : Bytes) (eof : Bool)
    → is_table vars ≡ true
    → length values ≡ length vars
    → is_value vars index value ≡ true
    → is_ready rest ≡ true
    → scan_variables false vars values (record { rest = line vars index value rest; eof = eof })
      ≡ (true, (set values index value, at rest))
unfolding scan_variables or_next line
scan_variables-line [] values index value rest eof t e v r = absurd (cc v)
scan_variables-line (var ∷ vars) [] index value rest eof t e v r = absurd (omega arith)
scan_variables-line (([], width) ∷ vars) (old ∷ values) index value rest eof t e v r = absurd (cc t)
scan_variables-line ((c ∷ tag, width) ∷ vars) (old ∷ values) zero value rest eof t e v r =
    rw (scan_variable_same c tag value rest width eof (ground arith) v r, or_next) refl
scan_variables-line ((c ∷ tag, width) ∷ vars) (old ∷ values) (suc index) value rest eof t e v r =
    let (d, s, p, n, ne) = line-Begins vars c index value rest (ground arith) (ground arith) v in
    let same : scan_variable false (c ∷ tag) width
          (record { rest = line vars index value rest; eof = eof })
        ≡ (nothing, record { rest = line vars index value rest; eof = eof }) =
      rw p (scan_variable_other (c ∷ tag) d s width eof (ground arith) n ne) in
    rw
      (
        same,
        scan_variables-line vars values index value rest eof (ground arith) (omega arith) v r,
        or_next,
      )
      refl

-- A line is not empty, and no white space stands before it.
line-is_ready :
    (vars : List Variable) (index : ℕ) (value rest : Bytes)
    → is_table vars ≡ true
    → is_value vars index value ≡ true
    → (is_ready (line vars index value rest) ≡ true)
      × (length rest < length (line vars index value rest))
      × (is_empty (line vars index value rest) ≡ false)
unfolding line
line-is_ready [] index value rest t v = absurd (cc v)
line-is_ready (([], width) ∷ vars) index value rest t v = absurd (cc t)
line-is_ready ((c ∷ tag, width) ∷ vars) zero value rest t v = (
  ground arith,
  omega (arith, length-append tag (value ++ (10 ∷ rest)), length-append value (10 ∷ rest)),
  refl,
)
line-is_ready ((c ∷ tag, width) ∷ vars) (suc index) value rest t v =
    line-is_ready vars index value rest (ground arith) v

file-is_ready :
    (vars : List Variable) (more : List Assignment)
    → is_table vars ≡ true
    → are_values vars more ≡ true
    → (is_ready (file vars more) ≡ true) × (length more ≤ length (file vars more))
unfolding file
file-is_ready vars [] t v = (refl, omega arith)
file-is_ready vars ((index, value) ∷ more) t v =
    let (r, lt, ne) = line-is_ready vars index value (file vars more) t (ground arith) in
    let (_, le) = file-is_ready vars more t (ground arith) in (r, omega arith)

load_variables_on :
    (fuel : ℕ) (vars : List Variable) (values values1 : List Bytes) (s s1 : Stream)
    → s.eof ≡ false
    → scan_variables false vars values s ≡ (true, (values1, s1))
    → load_variables false (suc fuel) vars values s ≡ load_variables false fuel vars values1 s1
unfolding load_variables
load_variables_on fuel vars values values1 s s1 e p =
    let any : (scan_variables false vars values s).0 ≡ true = ap (λ r. r.0) p in
    rw (e, any, load_variables)
      (ap (λ (r : Bool × (List Bytes × Stream)). load_variables false fuel vars r.1.0 r.1.1) p)

at_text : (s : Bytes) → is_empty s ≡ false → at s ≡ record { rest = s; eof = false }
at_text s e = rw e refl

-- The loop at the start of a line, or at the end of the file.
load_variables-file :
    (more : List Assignment) (fuel : ℕ) (vars : List Variable) (values : List Bytes)
    → is_table vars ≡ true
    → length values ≡ length vars
    → are_values vars more ≡ true
    → length more < fuel
    → load_variables false fuel vars values (at (file vars more)) ≡ some (0, assigned values more)
unfolding load_variables assigned file
load_variables-file more zero vars values t e v enough = absurd (omega arith)
load_variables-file [] (suc fuel) vars values t e v enough = refl
load_variables-file ((index, value) ∷ more) (suc fuel) vars values t e v enough =
    let rest = file vars more in
    let (r, lt, ne) = line-is_ready vars index value rest t (ground arith) in
    let (ready, le) = file-is_ready vars more t (ground arith) in
    rw (at_text (line vars index value rest) ne) (
      load_variables_on fuel vars values (set values index value)
        (record { rest = line vars index value rest; eof = false }) (at rest) refl
        (scan_variables-line vars values index value rest false t e (ground arith) ready)
      ∙ load_variables-file more fuel vars (set values index value) t
          (length-set {0} values index value ∙ e) (ground arith) (omega arith))

length-cleared : (vars : List Variable) → length (cleared vars) ≡ length vars
length-cleared [] = refl
length-cleared (var ∷ vars) = ap suc (length-cleared vars)

load_config_text :
    (vars : List Variable) (text : Bytes)
    → is_empty text ≡ false
    → load_config false vars text
      ≡ load_variables false (suc (suc (length text))) vars (cleared vars) (at text)
unfolding load_config
load_config_text vars text e = rw (at_text text e) refl

-- Let each name of the table, which is not empty, begin with a character that is no white space and
-- begins no other name, and let a file assign values, each of them of no white space, not empty and
-- within its variable's width. Then the loop loads it with no error, and each variable is what the
-- assignments of the file make it, one after the other, from the empty string.
pub load_config-assigned :
    (var : Variable) (vars : List Variable) (more : List Assignment)
    → is_table (var ∷ vars) ≡ true
    → are_values (var ∷ vars) more ≡ true
    → load_config false (var ∷ vars) (file (var ∷ vars) more)
      ≡ some (0, assigned (cleared (var ∷ vars)) more)
unfolding load_config load_variables file assigned scan_variables or_next scan_variable tag_scanned
    literal skip_space
load_config-assigned ([], width) vars [] t v = absurd (cc t)
load_config-assigned (c ∷ tag, width) vars [] t v = refl
load_config-assigned var vars ((index, value) ∷ more) t v =
    load_config_text (var ∷ vars) (file (var ∷ vars) ((index, value) ∷ more))
      (line-is_ready (var ∷ vars) index value (file (var ∷ vars) more) t (ground arith)).2
    ∙ load_variables-file ((index, value) ∷ more)
        (suc (suc (length (file (var ∷ vars) ((index, value) ∷ more))))) (var ∷ vars)
        (cleared (var ∷ vars)) t (length-cleared (var ∷ vars)) v
        (omega (arith, (file-is_ready (var ∷ vars) ((index, value) ∷ more) t v).1))
