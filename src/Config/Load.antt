-- ===== src/Config/Load.antt =====
-- The loops that load the configuration files: when they end, and what is in the variables then.
use alarm4pi.Prelude.{
  ℕ, zero, suc, ◌+◌, ◌≤◌, ◌<◌, ◌≡◌, refl, Bool, true, false, ◌&&◌, Option, some, List, [], ◌∷◌,
  arith, ltb, Bool-cases, inl, inr, ◌⊎◌, length, einval,
}
use alarm4pi.CString.{Bytes}
use alarm4pi.Config.{
  Stream, Scanned, word_stored, nothing, end_of_file, scan_variable, Variable, or_next,
  scan_variables, load_variables, cleared, load_config,
}
use alarm4pi.Config.Scan.{Reads, scan_variable-Reads}

-- Every name has a character.
abbrev pub are_named : List Variable → Bool
are_named [] = true
are_named ((tag, width) ∷ vars) = ltb 0 (length tag) && are_named vars

-- Each variable fits in the width of its `%s`.
abbrev pub Fits : List Variable → List Bytes → Type 0
Fits [] [] = Unit
Fits [] (value ∷ values) = ⊥
Fits (var ∷ vars) [] = ⊥
Fits ((tag, width) ∷ vars) (value ∷ values) = (length value ≤ width) × Fits vars values

-- What the chain of calls leaves: variables that fit, and all of the calls returned 0, or the file
-- is at its end, or there is less text.
abbrev pub Steps : List Variable → ℕ → Bool × (List Bytes × Stream) → Type 0
Steps vars len (any, (values, s)) =
    Fits vars values × ((any ≡ false) ⊎ ((s.eof ≡ true) ⊎ (length s.rest < len)))

or_next-Steps :
    (vars : List Variable) (tag : Bytes) (width len : ℕ) (value : Bytes) (values : List Bytes)
    (r : Scanned × Stream) (next : Bool × (List Bytes × Stream))
    → length value ≤ width
    → Fits vars values
    → Reads width len r
    → Steps vars (length r.1.rest) next
    → Steps ((tag, width) ∷ vars) len (or_next r value values next)
unfolding or_next
or_next-Steps vars tag width len value values (word_stored w, s) next f fs (le, lt) st =
    ((le, fs), inr (inr lt))
or_next-Steps vars tag width len value values (end_of_file, s) next f fs h st =
    ((f, fs), inr (inl h))
or_next-Steps vars tag width len value values (nothing, s) (any, (vs, s1)) f fs h (fs1, inl e) =
    ((f, fs1), inl e)
or_next-Steps vars tag width len value values (nothing, s) (any, (vs, s1)) f fs h
      (fs1, inr (inl e)) =
    ((f, fs1), inr (inl e))
or_next-Steps vars tag width len value values (nothing, s) (any, (vs, s1)) f fs h
      (fs1, inr (inr lt)) =
    ((f, fs1), inr (inr (omega arith)))

scan_variables-Steps :
    (vars : List Variable) (values : List Bytes) (s : Stream)
    → are_named vars ≡ true
    → Fits vars values
    → Steps vars (length s.rest) (scan_variables false vars values s)
unfolding scan_variables
scan_variables-Steps [] [] s n f = (tt, inl refl)
scan_variables-Steps [] (value ∷ values) s n f = absurd f
scan_variables-Steps (var ∷ vars) [] s n f = absurd f
scan_variables-Steps ((tag, width) ∷ vars) (value ∷ values) s n (f, fs) =
    let scanned = scan_variable false tag width s in
    or_next-Steps vars tag width (length s.rest) value values scanned
      (scan_variables false vars values scanned.1) f fs
      (scan_variable-Reads tag width s (ground arith))
      (scan_variables-Steps vars values scanned.1 (ground arith) fs)

-- The loop ends with one of its two codes and with variables that fit.
abbrev pub Ends : List Variable → Option (ℕ × List Bytes) → Type 0
Ends vars r =
    (code : ℕ) × (values : List Bytes) × (r ≡ some (code, values))
    × ((code ≡ 0) ⊎ (code ≡ einval))
    × Fits vars values

load_variables-Ends :
    (fuel : ℕ) (vars : List Variable) (values : List Bytes) (s : Stream)
    → are_named vars ≡ true
    → Fits vars values
    → 0 < fuel
    → ((s.eof ≡ true) ⊎ (length s.rest + 2 ≤ fuel))
    → Ends vars (load_variables false fuel vars values s)
unfolding load_variables
load_variables-Ends zero vars values s n f pos enough = absurd (omega arith)
load_variables-Ends (suc fuel) vars values s n f pos enough = elim (Bool-cases s.eof) [
  | inl e ↦ rw (e, load_variables) (0, values, refl, inl refl, f)
  | inr e ↦
      let next = scan_variables false vars values s in
      let (f1, st) = scan_variables-Steps vars values s n f in
      elim (Bool-cases next.0) [
        | inr none_read ↦ rw (e, none_read, load_variables) (einval, next.1.0, refl, inr refl, f1)
        | inl some_read ↦
            rw (e, some_read, load_variables)
              (load_variables-Ends fuel vars next.1.0 next.1.1 n f1 (more enough e)
                (left enough e next.1.1 st some_read))
      ]
]
  where
    more : (s.eof ≡ true) ⊎ (length s.rest + 2 ≤ suc fuel) → s.eof ≡ false → 0 < fuel
    more (inl h) e = absurd (cc (h, e))
    more (inr h) e = omega arith

    left :
        (s.eof ≡ true) ⊎ (length s.rest + 2 ≤ suc fuel)
        → s.eof ≡ false
        → {any : Bool} (s1 : Stream)
        → (any ≡ false) ⊎ ((s1.eof ≡ true) ⊎ (length s1.rest < length s.rest))
        → any ≡ true
        → (s1.eof ≡ true) ⊎ (length s1.rest + 2 ≤ fuel)
    left (inl h) e s1 st a = absurd (cc (h, e))
    left (inr h) e s1 (inl st) a = absurd (cc (st, a))
    left (inr h) e s1 (inr (inl st)) a = inl st
    left (inr h) e s1 (inr (inr st)) a = inr (omega arith)

cleared-Fits : (vars : List Variable) → Fits vars (cleared vars)
cleared-Fits [] = tt
cleared-Fits ((tag, width) ∷ vars) = (omega arith, cleared-Fits vars)

-- Whatever is in the file, if no read of it fails and every variable of the table has a name, the
-- loop that loads it ends, with 0 or EINVAL, and each variable then fits in the width of its `%s`.
pub load_config-Ends :
    (read_fails : Bool) (vars : List Variable) (text : Bytes)
    → read_fails ≡ false
    → are_named vars ≡ true
    → Ends vars (load_config read_fails vars text)
unfolding load_config
load_config-Ends read_fails vars text fine n = rw fine (
    load_variables-Ends (suc (suc (length text))) vars (cleared vars)
      (record { rest = text; eof = false }) n (cleared-Fits vars) (omega arith) (inr (omega arith)))
