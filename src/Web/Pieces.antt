-- ===== src/Web/Pieces.antt =====
-- What `curl_write_callback_fn` of src/telegram.c and src/pushover2.c leaves of a response.
use mathlib.Core.List.{append_assoc, append-nil}
use alarm4pi.Prelude.{
  ℕ, ◌+◌, ◌≤◌, ◌≡◌, refl, sym, ap, ◌∙◌, Bool, true, false, none, some, List, [], ◌∷◌, ◌++◌, ◌==◌,
  arith, ◌⊎◌, inl, inr, Bool-cases, length, length-append, take,
}
use alarm4pi.CString.{Bytes}
use alarm4pi.Web.{Web}
use alarm4pi.Web.Response.{
  Response, has_block, kept_bytes, joined, written, curl_write_callback_fn, received,
}

-- The buffer holds these bytes and a 0 behind them, all inside what was allocated, or it has no block
-- and there are none.
abbrev pub Holds : Bytes → Response → Type 0
Holds s r =
    (r.size ≡ length s)
    × (((r.block ≡ none) × (s ≡ []))
        ⊎ ((r.block ≡ some (s ++ (0 ∷ []))) × (length (s ++ (0 ∷ [])) ≤ r.allocated)))

take-append : (s t : Bytes) → take (length s) (s ++ t) ≡ s
take-append [] t = refl
take-append (c ∷ s) t = ap (λ r. c ∷ r) (take-append s t)

kept_bytes-Holds : (s : Bytes) (r : Response) → Holds s r → kept_bytes r ≡ s
kept_bytes-Holds s r (n, inl (b, e)) = rw b (sym e)
kept_bytes-Holds s r (n, inr (b, fits)) = rw (b, n) (take-append s (0 ∷ []))

module _ (web : Web) where
  open web.host use {World, Curl}

  abbrev Outcome : Bytes → Bytes → ℕ × (Response × World) → Type 0
  Outcome s piece a =
      ((a.0 ≡ length piece) × Holds (s ++ piece) a.1.0) ⊎ ((a.0 ≡ 0) × Holds s a.1.0)

  -- The piece was taken, or nothing changed and the piece is lost.
  written-Holds :
      (s piece : Bytes) (new_size : ℕ) (r : Response) (a : Bool × World)
      → new_size ≡ r.size + length piece + 1
      → Holds s r
      → Outcome s piece (written web piece new_size r a)
  unfolding written
  written-Holds s piece n r (false, w) e h = inr (refl, h)
  written-Holds s piece n r (true, w) e h = inl (
    refl,
    (
      omega (arith, length-append s piece, h.0),
      inr (
        rw (kept_bytes-Holds s r h) (ap some (sym (append_assoc s piece (0 ∷ [])))),
        omega (arith, e, h.0, length-append s piece, length-append (s ++ piece) (0 ∷ [])),
      ),
    ),
  )

  outcome :
      (s piece : Bytes) (r : Response) (w : World)
      → Holds s r
      → Outcome s piece (curl_write_callback_fn web piece r w)
  unfolding curl_write_callback_fn
  outcome s piece r w h =
      let new_size = r.size + length piece + 1 in
      written-Holds s piece new_size r (web.realloc (has_block r.block) new_size w) refl h

  -- A part of the bytes is in the buffer, all of them if the callback took all the pieces.
  abbrev pub Receives : Bytes → Bytes → Bool × (Response × World) → Type 0
  Receives before coming (ok, (r, w)) =
      (got left : Bytes) × (coming ≡ got ++ left)
      × Holds (before ++ got) r
      × ((ok ≡ false) ⊎ (left ≡ []))

  refused :
      (before piece more : Bytes) (a : Response × World)
      → Holds before a.0
      → Receives before (piece ++ more) (false, a)
  refused before piece more (r, w) h = ([], piece ++ more, refl, rw (append-nil before) h, inl refl)

  joined_to :
      (before piece more : Bytes) (a : Bool × (Response × World))
      → Receives (before ++ piece) more a
      → Receives before (piece ++ more) a
  joined_to before piece more (ok, (r, w)) (got, left, e, h, all) = (
    piece ++ got,
    left,
    ap (λ s. piece ++ s) e ∙ sym (append_assoc piece got left),
    rw (sym (append_assoc before piece got)) h,
    all,
  )

  joined_empty :
      (before piece more : Bytes) (a : Bool × (Response × World))
      → piece ≡ []
      → Receives before more a
      → Receives before (piece ++ more) a
  joined_empty before piece more a p h = rw p h

  left_alone :
      (s piece : Bytes) (a : ℕ × (Response × World))
      → (a.0 == length piece) ≡ false
      → Outcome s piece a
      → Holds s a.1.0
  left_alone s piece a n (inl (e, h)) = absurd (ground arith)
  left_alone s piece a n (inr (e, h)) = h

  nothing_long : (s : Bytes) → length s ≡ 0 → s ≡ []
  nothing_long [] e = refl
  nothing_long (c ∷ s) e = absurd (omega arith)

  taken :
      (s piece : Bytes) (a : ℕ × (Response × World))
      → (a.0 == length piece) ≡ true
      → Outcome s piece a
      → Holds (s ++ piece) a.1.0 ⊎ ((piece ≡ []) × Holds s a.1.0)
  taken s piece a n (inl (e, h)) = inl h
  taken s piece a n (inr (e, h)) = inr (nothing_long piece (ground arith), h)

  -- Whatever memory there is, behind the bytes that the buffer holds stands the start of what libcurl
  -- hands to the callback, all of it if the callback took each piece, and a 0 follows; all of this lies inside the bytes that
  -- were allocated.
  pub received-Receives :
      (pieces : List Bytes) (before : Bytes) (r : Response) (w : World)
      → Holds before r
      → Receives before (joined pieces) (received web pieces r w)
  unfolding received
  received-Receives [] before r w h = ([], [], refl, rw (append-nil before) h, inr refl)
  received-Receives (piece ∷ pieces) before r w h =
      let called = curl_write_callback_fn web piece r w in
      elim (Bool-cases (called.0 == length piece)) [
        | inr e ↦
            rw (e, received)
              (refused before piece (joined pieces) called.1
                (left_alone before piece called e (outcome before piece r w h)))
        | inl e ↦ elim (taken before piece called e (outcome before piece r w h)) [
          | inl h1 ↦
              rw (e, received)
                (joined_to before piece (joined pieces) (received web pieces called.1.0 called.1.1)
                  (received-Receives pieces (before ++ piece) called.1.0 called.1.1 h1))
          | inr (p, h1) ↦
              rw (e, received)
                (joined_empty before piece (joined pieces)
                  (received web pieces called.1.0 called.1.1) p
                  (received-Receives pieces before called.1.0 called.1.1 h1))
        ]
      ]
