-- ===== src/Proc/Wait/Safety.antt =====
-- `wait_child_processes` of src/proc_helper.c: its memory and its retries.
use mathlib.Core.Path.{subst}
use alarm4pi.Prelude.{
  ℕ, zero, suc, ◌≤◌, ◌≡◌, refl, sym, ◌∙◌, ℤ, pos, negsuc, Bool, true, false, not, ◌&&◌, Option,
  none, some, List, [], ◌∷◌, arith, Bool-cases, Option-cases, inl, inr, ◌⊎◌, if◌then◌else◌,
}
use alarm4pi.CString.{Bytes}
use alarm4pi.Proc.Paths.{ExecEnv}
use alarm4pi.Proc.Children.{Exec, positive, exec_exited_child_processes}
use alarm4pi.Proc.Children.Restart.{exec_exited_child_processes-Restarted}
use alarm4pi.Proc.Wait.{
  Round, Wait, End, returned, waiting, fault, has_retries, decrement, on_sigchld, retried,
  on_timeout, Next, again, stop, round, wait_loop, Setup, restored, wait_child_processes,
}

-- The retries left never grow: -1, which means no limit, stays, and so does any negative number.
abbrev pub NoMore : ℤ → ℤ → Type 0
NoMore (pos a) (pos b) = a ≤ b
NoMore (negsuc a) (negsuc b) = a ≡ b
NoMore (pos a) (negsuc b) = ⊥
NoMore (negsuc a) (pos b) = ⊥

NoMore-refl : (a : ℤ) → NoMore a a
NoMore-refl (pos a) = omega arith
NoMore-refl (negsuc a) = refl

NoMore-trans : (a b c : ℤ) → NoMore a b → NoMore b c → NoMore a c
NoMore-trans (pos a) (pos b) (pos c) h k = omega arith
NoMore-trans (negsuc a) (negsuc b) (negsuc c) h k = h ∙ k
NoMore-trans (pos a) (pos b) (negsuc c) h k = elim k [ ]
NoMore-trans (pos a) (negsuc b) c h k = elim h [ ]
NoMore-trans (negsuc a) (pos b) c h k = elim h [ ]
NoMore-trans (negsuc a) (negsuc b) (pos c) h k = elim k [ ]

-- Blocks allocated and not freed, and retries, of a later state against an earlier one.
abbrev pub Safe : Wait → Wait → Type 0
Safe w w' = (w'.heap.live ≡ w.heap.live) × NoMore w'.exec_retries_left w.exec_retries_left

Safe-trans : (u v w : Wait) → Safe u v → Safe v w → Safe u w
Safe-trans u v w (h, h') (k, k') =
    (k ∙ h, NoMore-trans w.exec_retries_left v.exec_retries_left u.exec_retries_left k' h')

NoMore-decrement : (b : Bool) (n : ℤ) → NoMore (if b && positive n then decrement n else n) n
unfolding decrement
NoMore-decrement true (pos zero) = omega arith
NoMore-decrement true (pos (suc n)) = ground arith
NoMore-decrement true (negsuc n) = refl
NoMore-decrement false n = NoMore-refl n

retried-Safe :
    (w w' : Wait) (o : Option Exec)
    → ((e : Exec) → o ≡ some e → e.heap.live ≡ w.heap.live)
    → elim o [ none ↦ none | some e ↦ some (retried w e) ] ≡ some w'
    → Safe w w'
unfolding retried
retried-Safe w w' none l h = absurd (cc h)
retried-Safe w w' (some e) l h =
    let back : retried w e ≡ w' = ground arith in
    subst (Safe w) back (l e refl, NoMore-decrement (positive e.n_run_procs) w.exec_retries_left)

on_timeout-Safe :
    (env : ExecEnv) (argvs : List (List Bytes)) (exit_flag : Bool) (w w' : Wait)
    → on_timeout env argvs exit_flag w ≡ some w'
    → Safe w w'
unfolding on_timeout
on_timeout-Safe env argvs exit_flag w w' h =
    elim (Bool-cases (not exit_flag && has_retries w.exec_retries_left)) [
      | inl yes_retry ↦
          retried-Safe w w' (exec_exited_child_processes env argvs w.process_ids w.forks w.heap)
            (λ e h1.
              (exec_exited_child_processes-Restarted env argvs w.process_ids w.forks w.heap e h1).2)
            (rw yes_retry at h)
      | inr no_retry ↦
          subst (Safe w) (let back : w ≡ w' = ground arith in back)
            (refl, NoMore-refl w.exec_retries_left)
    ]

pub Next-cases :
    (n : Next) → ((w : Wait) × (n ≡ again w)) ⊎ ((w : Wait) × (e : End) × (n ≡ stop w e))
Next-cases (again w) = inl (w, refl)
Next-cases (stop w e) = inr (w, e, refl)

-- A round that ends the loop leaves the state alone.
pub round-stop :
    (env : ExecEnv) (argvs : List (List Bytes)) (r : Round) (w w' : Wait) (e : End)
    → round env argvs r w ≡ stop w' e
    → w' ≡ w
unfolding round
round-stop env argvs r w w' e h = ground arith

-- What each round keeps holds after the loop.
module _ {P : Wait → Type 0} (env : ExecEnv) (argvs : List (List Bytes))
    (keeps : (r : Round) (w w' : Wait) → round env argvs r w ≡ again w' → P w → P w') where
  pub wait_loop_keeps : (rounds : List Round) (w : Wait) → P w → P (wait_loop env argvs rounds w).0
  unfolding wait_loop
  wait_loop_keeps [] w h = h
  wait_loop_keeps (r ∷ rounds) w h = elim (Next-cases (round env argvs r w)) [
    | inl (w', e) ↦ rw (e, wait_loop) (wait_loop_keeps rounds w' (keeps r w w' e h))
    | inr (w', end, e) ↦ rw (e, wait_loop) (subst P (sym (round-stop env argvs r w w' end e)) h)
  ]

round-Safe :
    (env : ExecEnv) (argvs : List (List Bytes)) (r : Round) (w w' : Wait)
    → round env argvs r w ≡ again w'
    → Safe w w'
unfolding round on_sigchld
round-Safe env argvs r w w' h =
    ground (arith, on_timeout-Safe env argvs r.exit_at_retry w w', NoMore-refl w.exec_retries_left)

wait_loop-Safe :
    (env : ExecEnv) (argvs : List (List Bytes)) (rounds : List Round) (w : Wait)
    → Safe w (wait_loop env argvs rounds w).0
wait_loop-Safe env argvs rounds w =
    wait_loop_keeps {P = Safe w} env argvs
      (λ r u v h k. Safe-trans w u v k (round-Safe env argvs r u v h)) rounds w
      (refl, NoMore-refl w.exec_retries_left)

restored-state : (o : Option ℕ) (r : Wait × End) → (restored o r).0 ≡ r.0
unfolding restored
restored-state none r = refl
restored-state (some e) (w, returned ret) = refl
restored-state (some e) (w, waiting) = refl
restored-state (some e) (w, fault) = refl

-- The state is that before the loop, or that after it.
pub wait_child_processes-state :
    (env : ExecEnv) (argvs : List (List Bytes)) (s : Setup) (rounds : List Round) (w : Wait)
    → ((wait_child_processes env argvs s rounds w).0 ≡ w)
      ⊎ ((wait_child_processes env argvs s rounds w).0
          ≡ (wait_loop env argvs rounds (on_sigchld s.already w)).0)
unfolding wait_child_processes
wait_child_processes-state env argvs s rounds w = elim (Option-cases s.sigset_error) [
  | inr (n, e) ↦ inl (rw (e, wait_child_processes))
  | inl e ↦ elim (Option-cases s.block_error) [
    | inr (m, b) ↦ inl (rw (e, wait_child_processes, b))
    | inl b ↦ inr (
        rw (e, wait_child_processes, b)
          (restored-state s.restore_error (wait_loop env argvs rounds (on_sigchld s.already w))))
  ]
]

-- Whatever the children and the signals do, and at any point of the loop, all blocks allocated for
-- restarts have been given back, and the retries left have not grown; no limit stays no limit.
pub wait_child_processes-Safe :
    (env : ExecEnv) (argvs : List (List Bytes)) (s : Setup) (rounds : List Round) (w : Wait)
    → Safe w (wait_child_processes env argvs s rounds w).0
unfolding wait_child_processes on_sigchld
wait_child_processes-Safe env argvs s rounds w =
    elim (wait_child_processes-state env argvs s rounds w) [
      | inl same ↦ rw same (refl, NoMore-refl w.exec_retries_left)
      | inr looped ↦ rw looped (wait_loop-Safe env argvs rounds (on_sigchld s.already w))
    ]
