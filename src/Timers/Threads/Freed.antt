-- ===== src/Timers/Threads/Freed.antt =====
-- posix/anytimer/timer.c: what a timer that fired leaves behind.
use lhq_linux_c.Base.{
  ℕ, suc, ◌≡◌, refl, sym, ap, ◌∙◌, ◌⊎◌, inl, inr, Option, none, some, List, [], ◌∷◌, arith,
  Bool-cases, Option-cases, get_elem?, pos, eqb_ℤ, leb_ℤ, ◌-ℤ◌,
}
use lhq_linux_c.Table.Loops.{each_slot_dangling}
use lhq_linux_c.Timers.Threads.{
  Tim, Module, Calls, destory_timer, check_from, waits, faults, fires, check_arr, one_less,
  sub_time, tim_routine,
}

-- The loop at a pointer: its timer is live, and it fires or is passed over.
pub record IsFired (p : ℕ) (ps : List (Option ℕ)) (h h' : ℕ → Option Tim) : Type 0 where
  pub rest : Calls
  pub runs : check_from ps (destory_timer p h) ≡ some (rest, h')

visit :
    (p : ℕ) (ps : List (Option ℕ)) (h h' : ℕ → Option Tim) (calls : Calls)
    → check_from (some p ∷ ps) h ≡ some (calls, h')
    → IsFired p ps h h' ⊎ (check_from ps h ≡ some (calls, h'))
unfolding check_from
visit p ps h h' calls e = elim (Option-cases (h p)) [
  | inl n ↦ absurd (let q : none ≡ some (calls, h') = sym (rw (n, check_from) refl) ∙ e in cc)
  | inr (t, s) ↦ elim (Bool-cases (eqb_ℤ t.time (pos 0))) [
    | inl z ↦ elim (Option-cases (check_from ps (destory_timer p h))) [
      | inl n ↦
          absurd (let q : none ≡ some (calls, h') = sym (rw (s, z, n, check_from) refl) ∙ e in cc)
      | inr ((calls', h''), f) ↦ inl (record {
        rest = calls';
        runs =
            f
            ∙ (let q : some ((t.f, t.arg) ∷ calls', h'') ≡ some (calls, h') =
                  sym (rw (s, z, f, check_from) refl) ∙ e in
                ap some (cc));
      })
    ]
    | inr w ↦ inr (sym (rw (s, w, check_from) refl) ∙ e)
  ]
]

-- Memory that is freed stays so.
stays_freed :
    (q : ℕ) (ps : List (Option ℕ)) (h h' : ℕ → Option Tim) (calls : Calls)
    → check_from ps h ≡ some (calls, h')
    → h q ≡ none
    → h' q ≡ none
unfolding check_from destory_timer
stays_freed q [] h h' calls e d =
    (let f : h ≡ h' = ap (λ o. elim o [ none ↦ h | some (c, x) ↦ x ]) e in
      sym (ap (λ x. x q) f) ∙ d)
stays_freed q (none ∷ ps) h h' calls e d = stays_freed q ps h h' calls e d
stays_freed q (some p ∷ ps) h h' calls e d = elim (visit p ps h h' calls e) [
  | inl v ↦ stays_freed q ps (destory_timer p h) h' v.rest v.runs (ground (arith, d))
  | inr f ↦ stays_freed q ps h h' calls f d
]

left_dangling :
    (ps : List (Option ℕ)) (h h' : ℕ → Option Tim) (c : ℕ × ℕ) (calls : Calls)
    → check_from ps h ≡ some (c ∷ calls, h')
    → (p i : ℕ) × (get_elem? ps i ≡ some (some p)) × (h' p ≡ none)
unfolding check_from destory_timer
left_dangling [] h h' c calls e = absurd (cc)
left_dangling (none ∷ ps) h h' c calls e =
    let (p, i, g, d) = left_dangling ps h h' c calls e in (p, suc i, g, d)
left_dangling (some p ∷ ps) h h' c calls e = elim (visit p ps h h' (c ∷ calls) e) [
  | inl v ↦ (p, 0, refl, stays_freed p ps (destory_timer p h) h' v.rest v.runs (ground arith))
  | inr f ↦ let (q, i, g, d) = left_dangling ps h h' c calls f in (q, suc i, g, d)
]

fired :
    (m m' : Module) (c : ℕ × ℕ) (calls : Calls)
    → check_arr m ≡ fires (c ∷ calls) m'
    → (check_from m.arr m.heap ≡ some (c ∷ calls, m'.heap)) × (m'.arr ≡ m.arr)
unfolding check_arr
fired m m' c calls e = elim (Bool-cases (leb_ℤ m.token (pos 0))) [
  | inl w ↦ absurd (let q : waits ≡ fires (c ∷ calls) m' = sym (rw (w, check_arr) refl) ∙ e in cc)
  | inr w ↦ elim (Option-cases (check_from m.arr m.heap)) [
    | inl n ↦
        absurd (let q : faults ≡ fires (c ∷ calls) m' = sym (rw (w, n, check_arr) refl) ∙ e in cc)
    | inr ((calls', h), f) ↦
        (let q : fires calls' (record m { heap = h; token = m.token -ℤ pos 1 })
              ≡ fires (c ∷ calls) m' =
            sym (rw (w, f, check_arr) refl) ∙ e in
          (f ∙ ap some (cc), cc))
  ]
]

-- After a scan that fired a timer, the next second of the timing thread reads memory that was freed:
-- the pointer to the timer that fired is still in `arr`.
pub fires-tim_routine :
    (m m' : Module) (c : ℕ × ℕ) (calls : Calls)
    → check_arr m ≡ fires (c ∷ calls) m'
    → tim_routine m' ≡ none
unfolding tim_routine sub_time one_less
fires-tim_routine m m' c calls e =
    let (f, a) = fired m m' c calls e in
    let (p, i, g, d) = left_dangling m.arr m.heap m'.heap c calls f in
    rw
      (
        each_slot_dangling one_less m'.arr m'.heap p i (ap (λ x. get_elem? x i) a ∙ g) d,
        sub_time,
        tim_routine,
      )
      refl
