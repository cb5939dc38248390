-- ===== src/Alarm/Text.antt =====
-- What the messages of src/gpio_polling.c use of <stdio.h> and <string.h>.
use alarm4pi.Prelude.{
  ◌≡◌, refl, arith, ℕ, zero, suc, ◌+◌, ◌/◌, ◌%◌, ℤ, pos, negsuc, Bool, true, false, ◌&&◌, [], ◌∷◌,
  ◌==◌, ltb, if◌then◌else◌,
}
use alarm4pi.CString.{Bytes}

-- The digits of `%i` in front of those given; fuel of `suc n` is enough for `n`.
unfoldable pub digits : ℕ → ℕ → Bytes → Bytes
digits zero n after = after
digits (suc fuel) n after =
    let last = (48 + n % 10) ∷ after in
    let more = digits fuel (n / 10) last in if ltb n 10 then last else more

abbrev pub decimal : ℕ → Bytes
decimal n = digits (suc n) n []

-- `%i` of an `int`
abbrev pub decimal_int : ℤ → Bytes
decimal_int (pos n) = decimal n
decimal_int (negsuc n) = b'-' ∷ decimal (n + 1)

-- strcmp(a, b) == 0
unfoldable pub equal_bytes : Bytes → Bytes → Bool
equal_bytes [] [] = true
equal_bytes [] (d ∷ b) = false
equal_bytes (c ∷ a) [] = false
equal_bytes (c ∷ a) (d ∷ b) = c == d && equal_bytes a b

pub equal_bytes_refl : (s : Bytes) → equal_bytes s s ≡ true
unfolding equal_bytes
equal_bytes_refl [] = refl
equal_bytes_refl (c ∷ s) = ground (arith, equal_bytes_refl s)

pub equal_bytes_sound : (a b : Bytes) → equal_bytes a b ≡ true → a ≡ b
unfolding equal_bytes
equal_bytes_sound [] [] h = refl
equal_bytes_sound [] (d ∷ b) h = absurd (cc h)
equal_bytes_sound (c ∷ a) [] h = absurd (cc h)
equal_bytes_sound (c ∷ a) (d ∷ b) h =
    let same : c ≡ d = ground arith in
    let rest : a ≡ b = equal_bytes_sound a b (ground arith) in cc (same, rest)
