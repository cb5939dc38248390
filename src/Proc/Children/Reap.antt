-- ===== src/Proc/Children/Reap.antt =====
-- `update_child_processes_state` of src/proc_helper.c: the slots that it marks.
use mathlib.Core.Path.{fun_ext}
use alarm4pi.Prelude.{
  ℕ, ◌≡◌, refl, ap, sym, ◌∙◌, ◌⊎◌, inl, inr, ℤ, pos, negsuc, eq_ℤ, minus_one, Bool, true, false,
  ◌&&◌, List, [], ◌∷◌, map, arith, if◌then◌else◌, Bool-cases,
}
use alarm4pi.Proc.Children.{
  Status, Reports, is_dead, has_ended, mark_dead, mark_changed, update_child_processes_state,
}

pub eq_of_eq_ℤ : (a b : ℤ) → eq_ℤ a b ≡ true → a ≡ b
eq_of_eq_ℤ (pos a) (pos b) h = ground arith
eq_of_eq_ℤ (negsuc a) (negsuc b) h = ground arith
eq_of_eq_ℤ (pos a) (negsuc b) h = cc
eq_of_eq_ℤ (negsuc a) (pos b) h = cc

-- No slot of the list holds `p`.
abbrev pub Absent : ℤ → List ℤ → Type 0
Absent p [] = Unit {0}
Absent p (q ∷ qs) = (eq_ℤ q p ≡ false) × Absent p qs

-- No PID of a living child stands in two slots.
abbrev pub Distinct : List ℤ → Type 0
Distinct [] = Unit {0}
Distinct (p ∷ ps) = ((is_dead p ≡ true) ⊎ Absent p ps) × Distinct ps

-- Some report says that the child `p` ended.
abbrev pub ended : List (ℕ × Status) → ℤ → Bool
ended [] p = false
ended ((pid, status) ∷ reports) p =
    let rest = ended reports p in if has_ended status && eq_ℤ p (pos pid) then true else rest

abbrev pub bury : List (ℕ × Status) → ℤ → ℤ
bury reports p = if ended reports p then minus_one else p

abbrev bury_one : ℕ → ℤ → ℤ
bury_one pid p = if eq_ℤ p (pos pid) then minus_one else p

map-bury_one-Absent : (pid : ℕ) (ps : List ℤ) → Absent (pos pid) ps → map (bury_one pid) ps ≡ ps
map-bury_one-Absent pid [] h = refl
map-bury_one-Absent pid (p ∷ ps) h = ground (arith, map-bury_one-Absent pid ps)

mark_dead-map : (pid : ℕ) (ps : List ℤ) → Distinct ps → mark_dead ps pid ≡ map (bury_one pid) ps
unfolding mark_dead
mark_dead-map pid [] h = refl
mark_dead-map pid (p ∷ ps) h =
    ground (arith, eq_of_eq_ℤ p (pos pid), mark_dead-map pid ps, map-bury_one-Absent pid ps)

alive : (p : ℤ) → is_dead p ≡ false → eq_ℤ minus_one p ≡ false
alive (pos n) l = refl
alive (negsuc n) l = ground arith

Absent-map :
    (pid : ℕ) (p : ℤ) (ps : List ℤ)
    → is_dead p ≡ false
    → Absent p ps
    → Absent p (map (bury_one pid) ps)
Absent-map pid p [] l h = tt
Absent-map pid p (q ∷ qs) l h = (ground (arith, alive p l), Absent-map pid p qs l h.1)

kept : (pid : ℕ) (p : ℤ) → is_dead (bury_one pid p) ≡ false → bury_one pid p ≡ p
kept pid p h = ground arith

Distinct-map : (pid : ℕ) (ps : List ℤ) → Distinct ps → Distinct (map (bury_one pid) ps)
Distinct-map pid [] h = tt
Distinct-map pid (p ∷ ps) h = (
  elim (Bool-cases (is_dead (bury_one pid p))) [
    | inl dead ↦ inl dead
    | inr lives ↦
        let same = kept pid p lives in
        let l : is_dead p ≡ false = rw (← same) lives in
        elim h.0 [
          | inl dead ↦ absurd (cc (dead, l))
          | inr away ↦ inr (rw same (Absent-map pid p ps l away))
        ]
  ],
  Distinct-map pid ps h.1,
)

ended-minus_one : (reports : List (ℕ × Status)) → ended reports minus_one ≡ false
ended-minus_one [] = refl
ended-minus_one ((pid, status) ∷ reports) = ground (arith, ended-minus_one reports)

bury-bury_one :
    (pid : ℕ) (status : Status) (reports : List (ℕ × Status)) (p : ℤ)
    → has_ended status ≡ true
    → bury reports (bury_one pid p) ≡ bury ((pid, status) ∷ reports) p
bury-bury_one pid status reports p h = ground (arith, ended-minus_one reports)

bury-other :
    (pid : ℕ) (status : Status) (reports : List (ℕ × Status)) (p : ℤ)
    → has_ended status ≡ false
    → bury reports p ≡ bury ((pid, status) ∷ reports) p
bury-other pid status reports p h = ground arith

map-bury-bury_one :
    (pid : ℕ) (status : Status) (reports : List (ℕ × Status)) (ps : List ℤ)
    → has_ended status ≡ true
    → map (bury reports) (map (bury_one pid) ps) ≡ map (bury ((pid, status) ∷ reports)) ps
map-bury-bury_one pid status reports [] h = refl
map-bury-bury_one pid status reports (p ∷ ps) h =
    ground (arith, bury-bury_one pid status reports p h, map-bury-bury_one pid status reports ps h)

mark_changed-map :
    (reports : List (ℕ × Status)) (ps : List ℤ)
    → Distinct ps
    → mark_changed ps reports ≡ map (bury reports) ps
unfolding mark_changed
mark_changed-map [] ps h = sym (map_id ps)
  where
    map_id : (qs : List ℤ) → map (bury []) qs ≡ qs
    map_id [] = refl
    map_id (q ∷ qs) = ap (λ (t : List ℤ). q ∷ t) (map_id qs)
mark_changed-map ((pid, status) ∷ reports) ps h = elim (Bool-cases (has_ended status)) [
  | inl e ↦
      rw (e, mark_dead-map pid ps h)
        (mark_changed-map reports (map (bury_one pid) ps) (Distinct-map pid ps h)
          ∙ map-bury-bury_one pid status reports ps e)
  | inr e ↦ rw e (
      mark_changed-map reports ps h
      ∙ ap (λ (f : ℤ → ℤ). map f ps) (fun_ext (λ p. bury-other pid status reports p e)))
]

-- If no PID of a living child stands in two slots, the update marks exactly the slots of the
-- children that are reported to have exited or to have been killed, and leaves the others.
pub update_child_processes_state-bury :
    (process_ids : List ℤ) (r : Reports)
    → Distinct process_ids
    → (update_child_processes_state process_ids r).0 ≡ map (bury r.changed) process_ids
unfolding update_child_processes_state
update_child_processes_state-bury process_ids r h = mark_changed-map r.changed process_ids h
