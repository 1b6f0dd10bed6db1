-- ===== src/Timers/Alarm/Refine.antt =====
-- signal/anytimer/timer.c: the counters refine the deadlines.
use lhq_linux_c.Base.{
  ℕ, zero, suc, ◌^◌, ◌<◌, ◌≡◌, refl, ap, ◌∙◌, ◌⊎◌, inl, inr, true, false, Option, none, some, List,
  [], ◌∷◌, arith, ℤ, pos, negsuc, ltb_ℤ, eqb_ℤ, ◌-ℤ◌, IsInt, -ℤ-pos,
}
use Prim.{Unit, tt}
use lhq_linux_c.Timers.Alarm.{Timer, Pool, count_down, check_slot, check_timer}
use lhq_linux_c.Timers.Alarm.Deadlines.{Entry, deadline, is_due, fire}

unfoldable pub entry : ℕ → Timer → Entry
entry now t = record { func = t.tim_handler; arg = t.arg; due = deadline now t.sec }

unfoldable pub view : ℕ → Pool → List (Option Entry)
view now [] = []
view now (none ∷ ts) = none ∷ view now ts
view now (some t ∷ ts) = some (entry now t) ∷ view now ts

-- What becomes of one timer.
abbrev Checked : ℕ → Timer → Type 0
Checked now t =
    ((is_due (suc now) (entry now t).due ≡ true)
      × (check_slot t ≡ (none, (t.tim_handler, t.arg) ∷ [])))
    ⊎ ((t' : Timer) × (is_due (suc now) (entry now t).due ≡ false)
        × (check_slot t ≡ (some t', []))
        × (entry (suc now) t' ≡ entry now t)
        × IsInt t'.sec)

counted :
    (f a n : ℕ)
    → suc n < 2 ^ 31
    → count_down (record { tim_handler = f; sec = pos (suc n); arg = a })
      ≡ record { tim_handler = f; sec = pos n; arg = a }
unfolding count_down
counted f a n h =
    let g : ltb_ℤ (pos 0) (pos (suc n)) ≡ true = ground arith in
    let e : pos (suc n) -ℤ pos 1 ≡ pos n =
      -ℤ-pos (suc n) 1 (omega arith) h ∙ ap pos (omega arith) in
    rw (g, e) refl

refl_count :
    (f a : ℕ)
    → count_down (record { tim_handler = f; sec = pos 0; arg = a })
      ≡ record { tim_handler = f; sec = pos 0; arg = a }
unfolding count_down
refl_count f a = refl

neg_count :
    (f a n : ℕ)
    → count_down (record { tim_handler = f; sec = negsuc n; arg = a })
      ≡ record { tim_handler = f; sec = negsuc n; arg = a }
unfolding count_down
neg_count f a n = let g : ltb_ℤ (pos 0) (negsuc n) ≡ false = ground arith in rw g refl

last_slot :
    (f a : ℕ) (t t' : Timer)
    → count_down t ≡ t'
    → t' ≡ record { tim_handler = f; sec = pos 0; arg = a }
    → check_slot t ≡ (none, (f, a) ∷ [])
unfolding check_slot
last_slot f a t t' e h = rw (e, h) refl

more_slot :
    (t t' : Timer) → count_down t ≡ t' → eqb_ℤ t'.sec (pos 0) ≡ false → check_slot t ≡ (some t', [])
unfolding check_slot
more_slot t t' e h = rw (e, h) refl

checked_by :
    (now f a : ℕ) (n : ℤ) → IsInt n → Checked now (record { tim_handler = f; sec = n; arg = a })
unfolding entry is_due deadline
checked_by now f a (pos zero) h =
    let t : Timer = record { tim_handler = f; sec = pos 0; arg = a } in
    inl (ground arith, last_slot f a t t (refl_count f a) refl)
checked_by now f a (pos (suc zero)) h =
    let t : Timer = record { tim_handler = f; sec = pos 1; arg = a } in
    let t' : Timer = record { tim_handler = f; sec = pos 0; arg = a } in
    inl (ground arith, last_slot f a t t' (counted f a 0 (omega arith)) refl)
checked_by now f a (pos (suc (suc n))) h =
    let t : Timer = record { tim_handler = f; sec = pos (suc (suc n)); arg = a } in
    let t' : Timer = record { tim_handler = f; sec = pos (suc n); arg = a } in
    inr (
      t',
      ground arith,
      more_slot t t' (counted f a (suc n) (omega (arith, h.below))) (ground arith),
      ap (λ (d : ℕ). record { func = f; arg = a; due = some d }) (omega arith),
      omega (arith, h.below),
    )
checked_by now f a (negsuc n) h =
    let t : Timer = record { tim_handler = f; sec = negsuc n; arg = a } in
    inr (t, refl, more_slot t t (neg_count f a n) (ground arith), refl, h)

checked : (now : ℕ) (t : Timer) → IsInt t.sec → Checked now t
checked now t h = checked_by now t.tim_handler t.arg t.sec h

abbrev pub AllInt : Pool → Type 0
AllInt [] = Unit {0}
AllInt (none ∷ ts) = AllInt ts
AllInt (some t ∷ ts) = IsInt t.sec × AllInt ts

-- One alarm at the time `now`.
pub record IsChecked (now : ℕ) (pool : Pool) : Type 0 where
  pub slots : view (suc now) ((check_timer pool).0) ≡ (fire (suc now) (view now pool)).0
  pub calls : (check_timer pool).1 ≡ (fire (suc now) (view now pool)).1
  pub range : AllInt ((check_timer pool).0)

check_some :
    (now : ℕ) (t : Timer) (ts : Pool)
    → Checked now t
    → IsChecked now ts
    → IsChecked now (some t ∷ ts)
unfolding check_timer fire view entry
check_some now t ts (inl (d, e)) v = record {
  slots = rw (d, e) (ap (λ es. none ∷ es) v.slots);
  calls = rw (d, e) (ap (λ cs. (t.tim_handler, t.arg) ∷ cs) v.calls);
  range = rw e v.range;
}
check_some now t ts (inr (t', d, e, s, r)) v = record {
  slots = rw (d, e, s) (ap (λ es. some (entry now t) ∷ es) v.slots);
  calls = rw (d, e) v.calls;
  range = rw e (r, v.range);
}

pub check_timer-IsChecked : (now : ℕ) (pool : Pool) → AllInt pool → IsChecked now pool
unfolding check_timer fire view entry
check_timer-IsChecked now [] h = record { slots = refl; calls = refl; range = tt }
check_timer-IsChecked now (none ∷ ts) h =
    let v : IsChecked now ts = check_timer-IsChecked now ts h in
    record { slots = ap (λ es. none ∷ es) v.slots; calls = v.calls; range = v.range }
check_timer-IsChecked now (some t ∷ ts) (i, h) =
    check_some now t ts (checked now t i) (check_timer-IsChecked now ts h)
