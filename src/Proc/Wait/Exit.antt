-- ===== src/Proc/Wait/Exit.antt =====
-- When `wait_child_processes` of src/proc_helper.c returns, and what the exit flag stops.
use alarm4pi.Prelude.{
  ◌≡◌, refl, ap, ◌∙◌, Bool, true, false, ◌||◌, none, List, [], ◌∷◌, arith, inl, inr, ◌⊎◌,
}
use alarm4pi.CString.{Bytes}
use alarm4pi.Proc.Paths.{ExecEnv}
use alarm4pi.Proc.Children.{count_running_child_processes}
use alarm4pi.Proc.Wait.{
  Round, Wait, End, returned, waiting, has_retries, on_sigchld, on_timeout, again, stop, round,
  wait_loop, Setup, restored, wait_child_processes,
}
use alarm4pi.Proc.Wait.Safety.{Next-cases, wait_child_processes-state}

-- The exit flag was set at some test of the loop.
abbrev pub exit_seen : List Round → Bool
exit_seen [] = false
exit_seen (r ∷ rounds) = r.exit_at_test || exit_seen rounds

-- No call around the loop fails.
abbrev pub Clean : Setup → Type 0
Clean s = (s.sigset_error ≡ none) × (s.block_error ≡ none) × (s.restore_error ≡ none)

abbrev pub Finished : List Round → Wait → Type 0
Finished rounds w =
    (count_running_child_processes w.process_ids ≡ 0)
    × ((exit_seen rounds ≡ true) ⊎ (has_retries w.exec_retries_left ≡ false))

round-returned :
    (env : ExecEnv) (argvs : List (List Bytes)) (r : Round) (w w' : Wait)
    → round env argvs r w ≡ stop w' (returned 0)
    → (count_running_child_processes w'.process_ids ≡ 0)
      × ((r.exit_at_test ≡ true) ⊎ (has_retries w'.exec_retries_left ≡ false))
unfolding round
round-returned env argvs r w w' h = ground arith

later : (r : Round) (rounds : List Round) (w : Wait) → Finished rounds w → Finished (r ∷ rounds) w
later r rounds w f = ground arith

wait_loop-Finished :
    (env : ExecEnv) (argvs : List (List Bytes)) (rounds : List Round) (w w' : Wait)
    → wait_loop env argvs rounds w ≡ (w', returned 0)
    → Finished rounds w'
unfolding wait_loop
wait_loop-Finished env argvs [] w w' h = ground arith
wait_loop-Finished env argvs (r ∷ rounds) w w' h = elim (Next-cases (round env argvs r w)) [
  | inl (w1, e) ↦
      later r rounds w' (wait_loop-Finished env argvs rounds w1 w' (rw (e, wait_loop) at h))
  | inr (w1, end, e) ↦
      let same : (w1, end) ≡ (w', returned 0) = rw (e, wait_loop) at h in
      let stopped : round env argvs r w ≡ stop w' (returned 0) =
        e ∙ ap (λ (t : Wait × End). stop t.0 t.1) same in
      let (none_left, why) = round-returned env argvs r w w' stopped in (none_left, ground arith)
]

-- With no failing call around the loop, `wait_child_processes` returns 0 only when no child of the
-- list is running, and either the exit flag was seen or no retry is left.
pub wait_child_processes-Finished :
    (env : ExecEnv) (argvs : List (List Bytes)) (s : Setup) (rounds : List Round) (w w' : Wait)
    → Clean s
    → wait_child_processes env argvs s rounds w ≡ (w', returned 0)
    → Finished rounds w'
unfolding wait_child_processes restored
wait_child_processes-Finished env argvs s rounds w w' (c0, c1, c2) h =
    wait_loop-Finished env argvs rounds (on_sigchld s.already w) w'
      (rw (c0, c1, c2, wait_child_processes, restored) at h)

-- The exit flag is set at each retry of the loop.
abbrev pub Exiting : List Round → Type 0
Exiting [] = Unit {0}
Exiting (r ∷ rounds) = (r.exit_at_retry ≡ true) × Exiting rounds

round-forks :
    (env : ExecEnv) (argvs : List (List Bytes)) (r : Round) (w w' : Wait)
    → r.exit_at_retry ≡ true
    → (e : End) → (round env argvs r w ≡ again w') ⊎ (round env argvs r w ≡ stop w' e)
    → (w'.forks ≡ w.forks) × (w'.heap ≡ w.heap)
unfolding round on_timeout on_sigchld
round-forks env argvs r w w' x e (inl h) = ground arith
round-forks env argvs r w w' x e (inr h) = ground arith

wait_loop-forks :
    (env : ExecEnv) (argvs : List (List Bytes)) (rounds : List Round) (w : Wait)
    → Exiting rounds
    → ((wait_loop env argvs rounds w).0.forks ≡ w.forks)
      × ((wait_loop env argvs rounds w).0.heap ≡ w.heap)
unfolding wait_loop
wait_loop-forks env argvs [] w x = (refl, refl)
wait_loop-forks env argvs (r ∷ rounds) w (x, xs) = elim (Next-cases (round env argvs r w)) [
  | inl (w1, e) ↦
      let (f, p) = round-forks env argvs r w w1 x waiting (inl e) in
      let (f', p') = wait_loop-forks env argvs rounds w1 xs in rw (e, wait_loop) (f' ∙ f, p' ∙ p)
  | inr (w1, end, e) ↦ rw (e, wait_loop) (round-forks env argvs r w w1 x end (inr e))
]

-- Once the exit flag is set, no process is created again and nothing is allocated, whatever the
-- children and the signals do.
pub wait_child_processes-Exiting :
    (env : ExecEnv) (argvs : List (List Bytes)) (s : Setup) (rounds : List Round) (w : Wait)
    → Exiting rounds
    → ((wait_child_processes env argvs s rounds w).0.forks ≡ w.forks)
      × ((wait_child_processes env argvs s rounds w).0.heap ≡ w.heap)
unfolding on_sigchld
wait_child_processes-Exiting env argvs s rounds w x =
    elim (wait_child_processes-state env argvs s rounds w) [
      | inl same ↦ rw same (refl, refl)
      | inr looped ↦ rw looped (wait_loop-forks env argvs rounds (on_sigchld s.already w) x)
    ]
