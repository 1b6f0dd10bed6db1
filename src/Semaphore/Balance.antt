-- ===== src/Semaphore/Balance.antt =====
-- posix/semaphore/sem.c: what is taken from a semaphore was put into it.
use lhq_linux_c.Base.{
  ℕ, ◌+◌, ◌-◌, ◌^◌, ◌≤◌, ◌<◌, ◌≡◌, refl, ap, ◌∙◌, ◌⊎◌, inl, inr, true, false, none, some, List, [],
  ◌∷◌, arith, ltb, Bool-cases, ℤ, pos, ltb_ℤ, ◌+ℤ◌, ◌-ℤ◌, +ℤ_parts, -ℤ_parts, eq_of_parts,
}
use lhq_linux_c.Semaphore.{Sem, sem_ret, sem_sub, Op, ret, sub, run}

abbrev pub put : List Op → ℕ
put [] = 0
put (ret n ∷ ops) = n + put ops
put (sub n ∷ ops) = put ops

abbrev pub taken : List Op → ℕ
taken [] = 0
taken (ret n ∷ ops) = taken ops
taken (sub n ∷ ops) = n + taken ops

sub_waits : (v n : ℕ) → v < n → sem_sub (pos n) (record { srcval = pos v }) ≡ none
unfolding sem_sub
sub_waits v n h = let g : ltb_ℤ (pos v) (pos n) ≡ true = ground arith in rw (sem_sub, g) refl

sub_passes :
    (v n : ℕ)
    → n ≤ v
    → v < 2 ^ 31
    → sem_sub (pos n) (record { srcval = pos v }) ≡ some (pos n, record { srcval = pos (v - n) })
unfolding sem_sub
sub_passes v n h k =
    let g : ltb_ℤ (pos v) (pos n) ≡ false = ground arith in
    let e : pos v -ℤ pos n ≡ pos (v - n) =
      eq_of_parts _ _ (omega (arith, -ℤ_parts (pos v) (pos n))) in
    rw (sem_sub, g, e) refl

ret_adds :
    (v n : ℕ)
    → v + n < 2 ^ 31
    → (sem_ret (pos n) (record { srcval = pos v })).1 ≡ record { srcval = pos (v + n) }
unfolding sem_ret
ret_adds v n h =
    let e : pos v +ℤ pos n ≡ pos (v + n) =
      eq_of_parts _ _ (omega (arith, +ℤ_parts (pos v) (pos n))) in
    rw e refl

run_waits :
    (ops : List Op) (n : ℕ) (s : Sem) → sem_sub (pos n) s ≡ none → run (sub n ∷ ops) s ≡ none
unfolding run
run_waits ops n s e = rw (run, e) refl

run_passes :
    (ops : List Op) (n : ℕ) (r : ℤ) (s s' : Sem)
    → sem_sub (pos n) s ≡ some (r, s')
    → run (sub n ∷ ops) s ≡ run ops s'
unfolding run
run_passes ops n r s s' e = rw (run, e) refl

run_adds :
    (ops : List Op) (n : ℕ) (s s' : Sem)
    → (sem_ret (pos n) s).1 ≡ s'
    → run (ret n ∷ ops) s ≡ run ops s'
unfolding run
run_adds ops n s s' e = ap (λ x. run ops x) e

abbrev pub Balanced : List Op → ℕ → Type 0
Balanced ops v =
    (run ops (record { srcval = pos v }) ≡ none)
    ⊎ ((w : ℕ) × (run ops (record { srcval = pos v }) ≡ some (record { srcval = pos w }))
        × (w + taken ops ≡ v + put ops))

-- A sequence of calls either has one that must wait, or leaves a counter that is not negative and,
-- with all that was taken, is what was there and what was put; the sum is in the range of int.
pub balance : (ops : List Op) (v : ℕ) → v + put ops < 2 ^ 31 → Balanced ops v
unfolding run
balance [] v h = inr (v, refl, refl)
balance (ret n ∷ ops) v h =
    let q =
      run_adds ops n (record { srcval = pos v }) (record { srcval = pos (v + n) })
        (ret_adds v n (omega (arith, h))) in
    elim (balance ops (v + n) (omega (arith, h))) [
      | inl e ↦ inl (q ∙ e)
      | inr (w, e, s) ↦ inr (w, q ∙ e, omega (arith, s))
    ]
balance (sub n ∷ ops) v h =
    let rest : (k : ℕ) → k + put ops < 2 ^ 31 → Balanced ops k = balance ops in
    elim (Bool-cases (ltb v n)) [
      | inl l ↦
          inl (run_waits ops n (record { srcval = pos v }) (sub_waits v n (ground (arith, l))))
      | inr l ↦
          let q =
            run_passes ops n (pos n) (record { srcval = pos v }) (record { srcval = pos (v - n) })
              (sub_passes v n (ground (arith, l)) (omega (arith, h))) in
          elim (rest (v - n) (ground (arith, h, l))) [
            | inl e ↦ inl (q ∙ e)
            | inr (w, e, s) ↦ inr (w, q ∙ e, ground (arith, s, l))
          ]
    ]
