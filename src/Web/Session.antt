-- ===== src/Web/Session.antt =====
-- What the life of src/telegram.c, src/pushover2.c and src/owncloud.c has in common: a service that is
-- started, used and stopped.
use alarm4pi.Prelude.{ℕ, ◌+◌, ◌-◌, ◌≤◌, ◌≡◌, refl, ◌∙◌, Option, none, some, List, [], ◌∷◌, arith}
use alarm4pi.Web.{Web, WebOwnership}

-- `flag` is the `_initialized` variable; while it is set, the service holds libcurl's
-- global state. `Idle` is what has to hold when it is started.
pub record Service (web : Web) (own : WebOwnership web) : Type 1 where
  pub State : Type 0
  pub Act : Type 0
  pub flag : State → ℕ
  pub world : State → web.host.World
  pub Idle : State → Type 0
  pub start : State → Option (ℕ × State)
  pub act : Act → State → State
  pub stop : State → State
  pub start_held :
      (s : State)
      → Idle s
      → (code : ℕ) × (s1 : State) × (start s ≡ some (code, s1))
        × (flag s1 ≤ 1)
        × (own.own.live (world s1) ≡ own.own.live (world s) + flag s1)
  pub act_flag : (a : Act) (s : State) → flag (act a s) ≡ flag s
  pub act_live : (a : Act) (s : State) → own.own.live (world (act a s)) ≡ own.own.live (world s)
  pub stop_live :
      (s : State) → flag s ≤ 1 → own.own.live (world (stop s)) ≡ own.own.live (world s) - flag s

module _ {web : Web} {own : WebOwnership web} (service : Service web own) where
  open service use {State, Act}
  open own.own use {live}

  unfoldable pub acts : List Act → State → State
  acts [] s = s
  acts (a ∷ more) s = acts more (service.act a s)

  stopped : List Act → Option (ℕ × State) → Option State
  unfolding acts
  stopped l none = none
  stopped l (some (code, s)) = some (service.stop (acts l s))

  -- The service is started, the acts follow each other, and it is stopped.
  unfoldable pub session : List Act → State → Option State
  unfolding stopped
  session l s = stopped l (service.start s)

  acts_held :
      (l : List Act) (s : State)
      → (service.flag (acts l s) ≡ service.flag s)
        × (live (service.world (acts l s)) ≡ live (service.world s))
  unfolding acts
  acts_held [] s = (refl, refl)
  acts_held (a ∷ more) s =
      let (f, h) = acts_held more (service.act a s) in
      (f ∙ service.act_flag a s, h ∙ service.act_live a s)

  -- The service ends, and holds nothing more than before.
  abbrev pub Closes : State → Option State → Type 0
  Closes s r = (s1 : State) × (r ≡ some s1) × (live (service.world s1) ≡ live (service.world s))

  pub session-Closes : (l : List Act) (s : State) → service.Idle s → Closes s (session l s)
  unfolding session stopped
  session-Closes l s off =
      let (code, s1, e, le, h) = service.start_held s off in
      let (f, same) = acts_held l s1 in
      (
        service.stop (acts l s1),
        rw (e, stopped) refl,
        omega (arith, service.stop_live (acts l s1) (omega arith)),
      )
