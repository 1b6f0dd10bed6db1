-- ===== src/Pool/Control.antt =====
-- socket/processPool: the control of the pool, for a function that adds a task and keeps the counts.
use Prim.{Unit, tt}
use lhq_linux_c.Base.{
  ℕ, zero, suc, ◌+◌, ◌-◌, ◌≡◌, refl, inl, inr, Bool, Option, none, some, ltb, Bool-cases, length, ℤ,
}
use lhq_linux_c.Pool.{
  Pool, Call, outside, exits, returns, del_task, shrink_from, grow_from, control, scan_pool,
  main_round, lowest_idle, max_idle, max_working,
}
use lhq_linux_c.Pool.Slots.{IsCounted, del_task_lem}
use lhq_linux_c.Pool.Scan.{scan_pool_lem}

-- A call that writes nothing outside the pool, and keeps the counts where it returns.
unfoldable pub IsInside : Call → Type 0
IsInside outside = ⊥
IsInside exits = Unit
IsInside (returns r p) = IsCounted p

shrink_keeps : (n i : ℕ) (p : Pool) → IsCounted p → IsCounted (shrink_from n i p)
unfolding shrink_from
shrink_keeps zero i p c = c
shrink_keeps (suc n) i p c =
    let d = del_task_lem p c in
    let rest : IsCounted (shrink_from n (suc i) ((del_task p).2)) =
      shrink_keeps n (suc i) ((del_task p).2) d.counted in
    elim (Bool-cases (ltb (i + max_idle) p.idle)) [ inl e ↦ rw e rest | inr e ↦ rw e c ]

module _ (add : ℤ → Pool → Call)
    (keeps : (pid : ℤ) (p : Pool) → IsCounted p → IsInside (add pid p)) where
  grow_on :
      (forks : ℕ → ℤ) (n i : ℕ) (r : Call)
      → IsInside r
      → ((p : Pool) → IsCounted p → IsInside (grow_from add forks n (suc i) p))
      → IsInside (elim r [
        | outside ↦ outside
        | exits ↦ exits
        | returns r p' ↦ grow_from add forks n (suc i) p'
      ])
  unfolding IsInside
  grow_on forks n i outside h rest = h
  grow_on forks n i exits h rest = tt
  grow_on forks n i (returns r p) h rest = rest p h

  grow_keeps :
      (forks : ℕ → ℤ) (n i : ℕ) (p : Pool) → IsCounted p → IsInside (grow_from add forks n i p)
  unfolding grow_from IsInside
  grow_keeps forks zero i p c = c
  grow_keeps forks (suc n) i p c = elim (Bool-cases (ltb (i + p.idle) lowest_idle)) [
    | inl e ↦
        rw e
          (grow_on forks n i (add (forks i) p) (keeps (forks i) p c) (grow_keeps forks n (suc i)))
    | inr e ↦ rw e c
  ]

  control_keeps : (forks : ℕ → ℤ) (p : Pool) → IsCounted p → IsInside (control add forks p)
  unfolding control IsInside
  control_keeps forks p c = elim (Bool-cases (ltb max_idle p.idle)) [
    | inl e ↦ rw e (shrink_keeps (p.idle - max_idle) 0 p c)
    | inr e ↦ elim (Bool-cases (ltb p.idle lowest_idle)) [
      | inl h ↦ rw (e, h) (grow_keeps forks lowest_idle 0 p c)
      | inr h ↦ rw (e, h) c
    ]
  ]

  round_from :
      (alive : ℤ → Bool) (forks : ℕ → ℤ) (p : Pool) (s : Option Pool)
      → length p.tasks ≡ max_working
      → scan_pool alive p ≡ s
      → IsInside (elim s [ none ↦ exits | some p' ↦ control add forks p' ])
  unfolding IsInside
  round_from alive forks p none l e = tt
  round_from alive forks p (some p') l e =
      let (c, idle, busy, living) = scan_pool_lem alive p p' l e in control_keeps forks p' c

  -- A round of the loop of main keeps the counts.
  pub main_round_keeps :
      (alive : ℤ → Bool) (forks : ℕ → ℤ) (p : Pool)
      → length p.tasks ≡ max_working
      → IsInside (main_round add alive forks p)
  unfolding main_round
  main_round_keeps alive forks p l = round_from alive forks p (scan_pool alive p) l refl
