-- ===== src/Web/Memory.antt =====
-- The block of the response of src/telegram.c and src/pushover2.c: who owns it.
use alarm4pi.Prelude.{
  ℕ, ◌+◌, ◌-◌, ◌≡◌, refl, Bool, true, false, Option, none, some, List, [], ◌∷◌, arith, length,
  handed,
}
use alarm4pi.CString.{Bytes}
use alarm4pi.Web.{Web, WebOwnership, handed_more}
use alarm4pi.Web.Response.{
  Response, no_response, has_block, written, curl_write_callback_fn, received, transferred, perform,
  free_response,
}

handed_more-false : (b : Option Bytes) → handed_more (has_block b) false ≡ 0
handed_more-false none = refl
handed_more-false (some b) = refl

handed_more-true : (b : Option Bytes) → handed_more (has_block b) true + handed b ≡ 1
handed_more-true none = refl
handed_more-true (some b) = refl

module _ (web : Web) (own : WebOwnership web) where
  open web.host use {World, Curl}
  open own.own use {live}

  live-written :
      (contents : Bytes) (size : ℕ) (buf : Response) (n : ℕ) (a : Bool × World)
      → live a.1 ≡ n + handed_more (has_block buf.block) a.0
      → live (written web contents size buf a).1.1 + handed buf.block
        ≡ n + handed (written web contents size buf a).1.0.block
  unfolding written
  live-written contents size buf n (false, w) h = omega (arith, handed_more-false buf.block)
  live-written contents size buf n (true, w) h = omega (arith, handed_more-true buf.block)

  live-curl_write_callback_fn :
      (contents : Bytes) (buf : Response) (w : World)
      → live (curl_write_callback_fn web contents buf w).1.1 + handed buf.block
        ≡ live w + handed (curl_write_callback_fn web contents buf w).1.0.block
  unfolding curl_write_callback_fn
  live-curl_write_callback_fn contents buf w =
      let size = buf.size + length contents + 1 in
      live-written contents size buf (live w) (web.realloc (has_block buf.block) size w)
        (own.realloc_live (has_block buf.block) size w)

  live-received :
      (pieces : List Bytes) (buf : Response) (w : World)
      → live (received web pieces buf w).1.1 + handed buf.block
        ≡ live w + handed (received web pieces buf w).1.0.block
  unfolding received
  live-received [] buf w = refl
  live-received (piece ∷ pieces) buf w =
      let called = curl_write_callback_fn web piece buf w in
      ground
        (arith, live-curl_write_callback_fn piece buf w, live-received pieces called.1.0 called.1.1)

  live-transferred :
      (r : (Bool × List Bytes) × World)
      → live (transferred web r).1.1 ≡ live r.1 + handed (transferred web r).1.0.block
  unfolding transferred
  live-transferred ((ok, pieces), w) = omega (arith, live-received pieces no_response w)

  -- After the transfer the response's block is the only thing more that is held.
  pub live-perform :
      (curl : Curl) (url fields : Bytes) (w : World)
      → live (perform web curl url fields w).1.1
        ≡ live w + handed (perform web curl url fields w).1.0.block
  unfolding perform
  live-perform curl url fields w =
      omega (arith, live-transferred (web.post curl url fields w), own.post_live curl url fields w)

  pub live-free_response :
      (r : Response) (w : World) → live (free_response web r w) ≡ live w - handed r.block
  unfolding free_response
  live-free_response r w = freed r.block
    where
      freed :
          (b : Option Bytes)
          → live (elim (has_block b) [ true ↦ web.free w | false ↦ w ]) ≡ live w - handed b
      freed none = omega arith
      freed (some b) = own.free_live w
