-- ===== src/Gpio/Pins/Owned.antt =====
-- The state of src/gpio_control.c between two calls: what it points at, and what it owns.
use alarm4pi.Prelude.{
  ℕ, zero, suc, ◌+◌, ◌-◌, ◌≤◌, ◌<◌, ◌≡◌, refl, ◌∙◌, true, false, Option, none, some, List, [], ◌∷◌,
  arith, ◌⊎◌, length, get_or, set, replicate, length-set,
}
use alarm4pi.Gpio.Device.{Gpiod, Ownership, handed}
use alarm4pi.Gpio.{Gpio, PinCtx}
use alarm4pi.Gpio.Pins.{fresh_ctx, ctx_at, release_request, release_all_pin_requests, with_ctx}

-- The requests that an array holds.
abbrev pub requests : {R : Type 0} → List (PinCtx R) → ℕ
requests [] = 0
requests (ctx ∷ ctxs) = handed ctx.request + requests ctxs

abbrev pub owned_ctxs : {R : Type 0} → Option (List (PinCtx R)) → ℕ
owned_ctxs none = 0
owned_ctxs (some ctxs) = 1 + requests ctxs

-- The chip, the array and the requests.
abbrev pub owned : {lib : Gpiod} → Gpio lib → ℕ
owned g = handed g.chip + owned_ctxs g.pin_ctxs

pub requests-set :
    {R : Type 0} (ctxs : List (PinCtx R)) (pin : ℕ) (ctx : PinCtx R)
    → pin < length ctxs
    → requests (set ctxs pin ctx) + handed (get_or ctxs pin fresh_ctx).request
      ≡ requests ctxs + handed ctx.request
requests-set [] pin ctx h = absurd (omega arith)
requests-set (x ∷ ctxs) zero ctx h = omega arith
requests-set (x ∷ ctxs) (suc pin) ctx h = omega (arith, requests-set ctxs pin ctx (omega arith))

pub requests-replicate : (R : Type 0) (n : ℕ) → requests {R = R} (replicate n fresh_ctx) ≡ 0
requests-replicate R zero = refl
requests-replicate R (suc n) = omega (arith, requests-replicate R n)

pub get_or-set :
    {R : Type 0} (ctxs : List (PinCtx R)) (pin : ℕ) (ctx : PinCtx R)
    → pin < length ctxs
    → get_or (set ctxs pin ctx) pin fresh_ctx ≡ ctx
get_or-set [] pin ctx h = absurd (omega arith)
get_or-set (x ∷ ctxs) zero ctx h = refl
get_or-set (x ∷ ctxs) (suc pin) ctx h = get_or-set ctxs pin ctx (omega arith)

module _ (lib : Gpiod) (own : Ownership lib) (base : ℕ) where
  open lib use {World, Chip, Request}
  open own use {live}

  -- The library is closed: every static variable has its initial value.
  pub record IsClosed (g : Gpio lib) : Type 0 where
    pub opened : g.library_opened ≡ false
    pub chip : g.chip ≡ none
    pub pin_ctxs : g.pin_ctxs ≡ none
    pub num_lines : g.num_lines ≡ 0
    pub balance : live g.world ≡ base

  -- The library is open: there is a chip and an array with an element for each line.
  pub record IsOpen (g : Gpio lib) : Type 0 where
    pub the_chip : Chip
    pub ctxs : List (PinCtx Request)
    pub opened : g.library_opened ≡ true
    pub chip : g.chip ≡ some the_chip
    pub pin_ctxs : g.pin_ctxs ≡ some ctxs
    pub num_lines : length ctxs ≡ g.num_lines
    pub some_lines : 0 < g.num_lines
    pub balance : live g.world ≡ base + (2 + requests ctxs)

  abbrev pub IsWellFormed : Gpio lib → Type 0
  IsWellFormed g = IsClosed g ⊎ IsOpen g

  pub IsOpen-world :
      (g : Gpio lib) (w : World)
      → IsOpen g
      → live w ≡ live g.world
      → IsOpen (record g { world = w })
  IsOpen-world g w o h = record {
    the_chip = o.the_chip;
    ctxs = o.ctxs;
    opened = o.opened;
    chip = o.chip;
    pin_ctxs = o.pin_ctxs;
    num_lines = o.num_lines;
    some_lines = o.some_lines;
    balance = h ∙ o.balance;
  }

  -- A write to one element keeps the state well formed if the world changes by as many objects as
  -- the element.
  pub IsOpen-with_ctx :
      (g : Gpio lib) (pin : ℕ) (ctx : PinCtx Request) (w : World)
      → IsOpen g
      → pin < g.num_lines
      → live w + handed (ctx_at g.pin_ctxs pin).request ≡ live g.world + handed ctx.request
      → IsOpen (with_ctx lib g pin ctx w)
  unfolding with_ctx
  IsOpen-with_ctx g pin ctx w o lt h = record {
    the_chip = o.the_chip;
    ctxs = set o.ctxs pin ctx;
    opened = o.opened;
    chip = o.chip;
    pin_ctxs = rw o.pin_ctxs;
    num_lines = length-set o.ctxs pin ctx ∙ o.num_lines;
    some_lines = o.some_lines;
    balance =
        let there : live w + handed (get_or o.ctxs pin fresh_ctx).request
            ≡ live g.world + handed ctx.request =
          rw o.pin_ctxs at h in
        omega (arith, o.balance, requests-set o.ctxs pin ctx (omega (arith, o.num_lines)));
  }

  pub ctx_at-with_ctx :
      (g : Gpio lib) (pin : ℕ) (ctx : PinCtx Request) (w : World)
      → IsOpen g
      → pin < g.num_lines
      → ctx_at (with_ctx lib g pin ctx w).pin_ctxs pin ≡ ctx
  unfolding with_ctx
  ctx_at-with_ctx g pin ctx w o lt =
      rw o.pin_ctxs (get_or-set o.ctxs pin ctx (omega (arith, o.num_lines)))

  pub live-release_request :
      (r : Option Request) (w : World) → live (release_request lib r w) ≡ live w - handed r
  unfolding release_request
  live-release_request none w = omega arith
  live-release_request (some r) w = own.request_release_live r w

  -- The request of a line is among the objects owned.
  pub handed-ctx_at-le :
      (g : Gpio lib) (pin : ℕ)
      → IsOpen g
      → pin < g.num_lines
      → handed (ctx_at g.pin_ctxs pin).request ≤ live g.world
  handed-ctx_at-le g pin o lt =
      rw o.pin_ctxs
        (omega (arith, o.balance, requests-set o.ctxs pin fresh_ctx (omega (arith, o.num_lines))))

  pub live-release_all :
      (ctxs : List (PinCtx Request)) (w : World)
      → live (release_all_pin_requests lib ctxs w) ≡ live w - requests ctxs
  unfolding release_all_pin_requests
  live-release_all [] w = omega arith
  live-release_all (ctx ∷ ctxs) w = omega (
    arith,
    live-release_all ctxs (release_request lib ctx.request w),
    live-release_request ctx.request w,
  )
