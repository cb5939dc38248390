-- ===== src/Web/Response.antt =====
-- The response of a server, which `curl_write_callback_fn` of src/telegram.c and src/pushover2.c puts
-- together. libcurl hands it the pieces one after the other, and stops when it takes less than it got.
use alarm4pi.Prelude.{
  ℕ, ◌+◌, Bool, true, false, ◌&&◌, Option, none, some, List, [], ◌∷◌, ◌++◌, ◌==◌, length, take,
}
use alarm4pi.CString.{Bytes}
use alarm4pi.Web.{Web}

-- struct curl_response_buffer: the bytes written to the block so far and the field `size`, with the
-- number of bytes that the block was allocated with.
pub record Response : Type 0 where
  pub block : Option Bytes
  pub allocated : ℕ
  pub size : ℕ

abbrev pub no_response : Response
no_response = record { block = none; allocated = 0; size = 0 }

abbrev pub has_block : Option Bytes → Bool
has_block none = false
has_block (some b) = true

-- The bytes of the old block that the new piece stands behind.
abbrev pub kept_bytes : Response → Bytes
kept_bytes r = elim r.block [ none ↦ [] | some b ↦ take r.size b ]

-- The bytes of the pieces.
abbrev pub joined : List Bytes → Bytes
joined [] = []
joined (piece ∷ pieces) = piece ++ joined pieces

module _ (web : Web) where
  open web.host use {World, Curl}

  -- `new_size` is what `realloc` was asked for.
  unfoldable pub written : Bytes → ℕ → Response → Bool × World → ℕ × (Response × World)
  written contents new_size buf (false, w) = (0, (buf, w))
  written contents new_size buf (true, w) = (
    length contents,
    (
      record {
        block = some (kept_bytes buf ++ (contents ++ (0 ∷ [])));
        allocated = new_size;
        size = buf.size + length contents;
      },
      w,
    ),
  )

  -- `contents` has `size * nmemb` bytes.
  unfoldable pub curl_write_callback_fn : Bytes → Response → World → ℕ × (Response × World)
  unfolding written
  curl_write_callback_fn contents buf w =
      let new_size = buf.size + length contents + 1 in
      written contents new_size buf (web.realloc (has_block buf.block) new_size w)

  -- Whether the callback took all the pieces.
  unfoldable pub received : List Bytes → Response → World → Bool × (Response × World)
  received [] buf w = (true, (buf, w))
  received (piece ∷ pieces) buf w =
      let (realsize, (buf1, w1)) = curl_write_callback_fn piece buf w in
      let later = received pieces buf1 w1 in
      elim (realsize == length piece) [ true ↦ later | false ↦ (false, (buf1, w1)) ]

  unfoldable pub transferred : (Bool × List Bytes) × World → Bool × (Response × World)
  transferred ((ok, pieces), w) =
      let (all, rest) = received pieces no_response w in (ok && all, rest)

  -- curl_easy_perform, from `post_response` as it is initialised.
  unfoldable pub perform : Curl → Bytes → Bytes → World → Bool × (Response × World)
  unfolding transferred
  perform curl url fields w = transferred (web.post curl url fields w)

  -- free(post_response.data)
  unfoldable pub free_response : Response → World → World
  free_response buf w = elim (has_block buf.block) [ true ↦ web.free w | false ↦ w ]
