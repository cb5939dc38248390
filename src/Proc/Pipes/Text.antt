-- ===== src/Proc/Pipes/Text.antt =====
-- The text that src/proc_helper.c reads from a child and writes to one.
use mathlib.Core.List.{append_assoc, append-nil}
use alarm4pi.Prelude.{
  ℕ, zero, suc, ◌++◌, drop, ◌+◌, ◌-◌, ◌≤◌, ◌≡◌, refl, sym, ◌∙◌, ap, Bool, true, false, not, ◌&&◌,
  ◌||◌, Option, none, some, List, [], ◌∷◌, arith, ◌==◌, ltb, Bool-cases, inl, inr, ◌⊎◌, length,
  take, length-append, length-take, take-append-drop,
}
use alarm4pi.CString.{Bytes}
use alarm4pi.Proc.Pipes.{
  Answer, ready, ready_failed, timeout, select_failed, Turn, NumFdsReady, is_fine, code_after, Sent,
  bytes_written, Turned, end_of_file, turned, chunk_read, read_turn, reads_on, read_output,
  write_turn, writes_on, write_input, proc_output_read_timeout,
}

-- What an iteration leaves in the array fits.
abbrev pub TurnFits : ℕ → Turned → Type 0
TurnFits len end_of_file = Unit
TurnFits len (turned output fds_ready) = length output + 1 ≤ len

chunk_read-TurnFits :
    (len : ℕ) (output chunk : Bytes)
    → length output + length chunk + 1 ≤ len
    → TurnFits len (chunk_read output chunk)
unfolding chunk_read
chunk_read-TurnFits len output [] h = tt
chunk_read-TurnFits len output (c ∷ cs) h = omega (arith, length-append output (c ∷ cs))

read_turn-TurnFits :
    (len : ℕ) (output : Bytes) (a : Answer Bytes)
    → length output + 1 ≤ len
    → TurnFits len (read_turn len output a)
unfolding read_turn
read_turn-TurnFits len output (ready there) h =
    chunk_read-TurnFits len output (take (len - length output - 1) there)
      (omega (arith, length-take (len - length output - 1) there))
read_turn-TurnFits len output (ready_failed e) h = h
read_turn-TurnFits len output timeout h = h
read_turn-TurnFits len output (select_failed e) h = h

Turned-cases :
    (r : Turned)
    → (r ≡ end_of_file)
      ⊎ ((output : Bytes) × (fds_ready : NumFdsReady) × (r ≡ turned output fds_ready))
Turned-cases end_of_file = inl refl
Turned-cases (turned output fds_ready) = inr (output, fds_ready, refl)

-- Whatever the child prints and however the reads go, the text read and its terminating 0 fit in the
-- array, if what was there before does.
pub read_output_fits :
    (output_array_len : ℕ) (turns : List (Turn Bytes)) (output : Bytes)
    → length output + 1 ≤ output_array_len
    → length (read_output output_array_len turns output).0 + 1 ≤ output_array_len
unfolding read_output
read_output_fits len [] output h = h
read_output_fits len (t ∷ ts) output h =
    let fits = read_turn-TurnFits len output t.answer h in
    elim (Turned-cases (read_turn len output t.answer)) [
      | inl e ↦ rw (e, length, read_output) h
      | inr (output1, fds_ready, e) ↦
          let fits1 : length output1 + 1 ≤ len = rw e at fits in
          elim (Bool-cases (reads_on len t.tv_sec output1 fds_ready)) [
            | inl on ↦ rw (e, on, length, read_output) (read_output_fits len ts output1 fits1)
            | inr off ↦ rw (e, off, length, read_output) fits1
          ]
    ]

-- In some iteration the time is up.
abbrev pub is_late : {A : Type 0} → List (Turn A) → Bool
is_late [] = false
is_late (t ∷ ts) = not (ltb t.tv_sec proc_output_read_timeout) || is_late ts

-- The loop has ended by the first iteration in which the time is up, whatever the child does.
pub read_output_ends :
    (output_array_len : ℕ) (turns : List (Turn Bytes)) (output : Bytes)
    → is_late turns ≡ true
    → (code : ℕ) × ((read_output output_array_len turns output).1 ≡ some code)
unfolding read_output
read_output_ends len [] output h = absurd (cc h)
read_output_ends len (t ∷ ts) output h = elim (Turned-cases (read_turn len output t.answer)) [
  | inl e ↦ (0, rw (e, read_output) refl)
  | inr (output1, fds_ready, e) ↦ elim (Bool-cases (reads_on len t.tv_sec output1 fds_ready)) [
    | inl on ↦ rw (e, on, read_output) (read_output_ends len ts output1 (ground arith))
    | inr off ↦ (code_after fds_ready, rw (e, off, read_output) refl)
  ]
]

-- In each iteration there is time left, and an answer that fails has an errno.
abbrev pub errno_of : Answer ℕ → Option ℕ
errno_of (ready_failed errno) = some errno
errno_of (select_failed errno) = some errno
errno_of _ = none

abbrev pub has_errno : Option ℕ → Bool
has_errno none = true
has_errno (some errno) = ltb 0 errno

abbrev pub is_prompt : List (Turn ℕ) → Bool
is_prompt [] = true
is_prompt (t ∷ ts) =
    ltb t.tv_sec proc_output_read_timeout && has_errno (errno_of t.answer) && is_prompt ts

-- The text is what was sent and what is not sent yet.
abbrev pub IsPart : Bytes → Sent → Type 0
IsPart input s = (s.num_input_chars ≡ length s.bytes) × (rest : Bytes) × (input ≡ s.bytes ++ rest)

drop-append : (s t : Bytes) → drop (length s) (s ++ t) ≡ t
drop-append [] t = refl
drop-append (c ∷ s) t = drop-append s t

take_all : (n : ℕ) (s : Bytes) → length s ≤ n → take n s ≡ s
take_all zero [] le = refl
take_all (suc n) [] le = refl
take_all zero (c ∷ s) le = absurd (omega arith)
take_all (suc n) (c ∷ s) le = ap (λ r. c ∷ r) (take_all n s (omega arith))

bytes_written-take :
    (s rest : Bytes) (room : ℕ) → bytes_written (s ++ rest) (length s) room ≡ take room rest
unfolding bytes_written
bytes_written-take s rest room = rw (drop-append s rest) (
    ap (take room)
      (take_all (length (s ++ rest) - length s) rest (omega (arith, length-append s rest))))

sent_more :
    (input : Bytes) (s : Sent) (room : ℕ)
    → IsPart input s
    → IsPart input (write_turn input s (ready room)).0
unfolding write_turn
sent_more input s room (n, rest, e) =
    let same : bytes_written input s.num_input_chars room ≡ take room rest =
      rw (n, e) (bytes_written-take s.bytes rest room) in
    rw same (
      omega (arith, n, length-append s.bytes (take room rest)),
      drop room rest,
      e
          ∙ ap (λ r. s.bytes ++ r) (sym (take-append-drop room rest))
          ∙ sym (append_assoc s.bytes (take room rest) (drop room rest)),
    )

write_turn-IsPart :
    (input : Bytes) (s : Sent) (a : Answer ℕ)
    → IsPart input s
    → IsPart input (write_turn input s a).0
unfolding write_turn
write_turn-IsPart input s (ready room) h = sent_more input s room h
write_turn-IsPart input s (ready_failed e) h = h
write_turn-IsPart input s timeout h = h
write_turn-IsPart input s (select_failed e) h = h

write_turn-code :
    (input : Bytes) (s : Sent) (a : Answer ℕ)
    → has_errno (errno_of a) ≡ true
    → (code_after (write_turn input s a).1 == 0) ≡ is_fine (write_turn input s a).1
unfolding write_turn code_after
write_turn-code input s (ready room) h = refl
write_turn-code input s (ready_failed e) h = ground arith
write_turn-code input s timeout h = refl
write_turn-code input s (select_failed e) h = ground arith

code_zero : (n : ℕ) → some n ≡ some 0 → (n == 0) ≡ true
code_zero n h = ground arith

ends_long :
    {len : ℕ} (n tv_sec : ℕ) (fds_ready : NumFdsReady)
    → is_fine fds_ready ≡ true
    → ltb tv_sec proc_output_read_timeout ≡ true
    → writes_on len tv_sec n fds_ready ≡ false
    → len ≤ n
ends_long n tv_sec fds_ready fine time off = ground arith

whole :
    (input : Bytes) (s : Sent) → IsPart input s → length input ≤ s.num_input_chars → s.bytes ≡ input
whole input s (n, [], e) le = sym (e ∙ append-nil s.bytes)
whole input s (n, (c ∷ rest), e) le =
    absurd (omega (arith, n, ap (λ (l : Bytes). length l) e, length-append s.bytes (c ∷ rest)))

-- If the time is never up, each call that fails has an errno, and what was sent before is a first
-- part of the text, then a loop that ends with code 0 has sent exactly the bytes of the text, in
-- their order, however the pipe cuts them.
pub write_input_whole :
    (input_array : Bytes) (turns : List (Turn ℕ)) (before after : Sent)
    → IsPart input_array before
    → is_prompt turns ≡ true
    → write_input input_array turns before ≡ (after, some 0)
    → after.bytes ≡ input_array
unfolding write_input
write_input_whole input [] s m part p h = absurd (cc (ap (λ (r : Sent × Option ℕ). r.1) h))
write_input_whole input (t ∷ ts) s m part p h =
    let (s1, fds_ready) = write_turn input s t.answer in
    let part1 = write_turn-IsPart input s t.answer part in
    let code = write_turn-code input s t.answer (ground arith) in
    elim (Bool-cases (writes_on (length input) t.tv_sec s1.num_input_chars fds_ready)) [
      | inl on ↦ write_input_whole input ts s1 m part1 (ground arith) (rw (on, write_input) at h)
      | inr off ↦
          let last : (s1, some (code_after fds_ready)) ≡ (m, some 0) = rw (off, write_input) at h in
          let same : s1 ≡ m = ap (λ (r : Sent × Option ℕ). r.0) last in
          let fine : is_fine fds_ready ≡ true =
            sym code ∙ code_zero (code_after fds_ready) (ap (λ (r : Sent × Option ℕ). r.1) last) in
          let long = ends_long s1.num_input_chars t.tv_sec fds_ready fine (ground arith) off in
          ap (λ (r : Sent). r.bytes) (sym same) ∙ whole input s1 part1 long
    ]
