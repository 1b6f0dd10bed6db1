-- ===== src/Timers/Alarm/Runs.antt =====
-- signal/anytimer/timer.c: over every sequence of calls and alarms, the counters make the calls
-- that the deadlines ask for.
use Prim.{Unit, tt}
use lhq_linux_c.Base.{
  ℕ, zero, suc, ◌+◌, ◌≡◌, refl, sym, ap, ap₂, ◌∙◌, inl, inr, Bool, true, false, none, some, List,
  [], ◌∷◌, arith, if◌then◌else◌, set, replicate, ℤ, pos, negsuc, IsInt, first_free, Full,
  first_free_cases,
}
use lhq_linux_c.Timers.Alarm.{
  Timer, Pool, check_timer, t_find_pos, set_timer, Op, sets, alarm, run, start, maxsize,
}
use lhq_linux_c.Timers.Alarm.Deadlines.{Entry, add, spec}
use lhq_linux_c.Timers.Alarm.Refine.{entry, view, AllInt, IsChecked, check_timer-IsChecked}

later :
    (ts : Pool) (k i : ℕ) (t : Timer)
    → first_free (some t ∷ ts) k ≡ pos (k + i)
    → (j : ℕ) × (i ≡ suc j) × (first_free ts (suc k) ≡ pos (suc k + j))
unfolding first_free
later ts k i t e = elim (first_free_cases ts (suc k)) [
  | inl (j, f, g) ↦ (j, (let q : pos (k + i) ≡ pos (suc k + j) = sym e ∙ f in ground arith), f)
  | inr (f, full) ↦ absurd (let q : pos (k + i) ≡ negsuc 0 = sym e ∙ f in cc)
]

-- The slot that the search finds is the one that `add` fills.
placed :
    (now : ℕ) (t : Timer) (ts : Pool) (k i : ℕ)
    → first_free ts k ≡ pos (k + i)
    → view now (set ts i (some t)) ≡ add (entry now t) (view now ts)
unfolding first_free view add
placed now t [] k i e = absurd cc
placed now t (none ∷ ts) k zero e = refl
placed now t (none ∷ ts) k (suc i) e = absurd (ground (arith, e))
placed now t (some x ∷ ts) k i e =
    let (j, s, f) = later ts k i x e in
    rw s (ap (λ es. some (entry now x) ∷ es) (placed now t ts (suc k) j f))

Full-add : (now : ℕ) (e : Entry) (ts : Pool) → Full ts → add e (view now ts) ≡ view now ts
unfolding view add
Full-add now e [] h = refl
Full-add now e (none ∷ ts) h = elim h [ ]
Full-add now e (some x ∷ ts) h = ap (λ es. some (entry now x) ∷ es) (Full-add now e ts h)

AllInt-set : (ts : Pool) (i : ℕ) (t : Timer) → IsInt t.sec → AllInt ts → AllInt (set ts i (some t))
AllInt-set [] i t h a = tt
AllInt-set (none ∷ ts) zero t h a = (h, a)
AllInt-set (some x ∷ ts) zero t h (b, a) = (h, a)
AllInt-set (none ∷ ts) (suc i) t h a = AllInt-set ts i t h a
AllInt-set (some x ∷ ts) (suc i) t h (b, a) = (b, AllInt-set ts i t h a)

-- What a call of setTimer comes to.
pub record IsStored (now : ℕ) (t : Timer) (ts : Pool) (ts' : Pool) : Type 0 where
  pub slots : view now ts' ≡ add (entry now t) (view now ts)
  pub range : AllInt ts'

set_free :
    (b : Bool) (f a i : ℕ) (sec : ℤ) (ts : Pool)
    → first_free ts 0 ≡ pos i
    → (set_timer b sec f a ts).1
      ≡ (if b then set ts i (some (record { tim_handler = f; sec = sec; arg = a })) else ts)
unfolding set_timer t_find_pos
set_free true f a i sec ts e = rw (set_timer, t_find_pos, e) refl
set_free false f a i sec ts e = rw (set_timer, t_find_pos, e) refl

set_full :
    (b : Bool) (f a : ℕ) (sec : ℤ) (ts : Pool)
    → first_free ts 0 ≡ negsuc 0
    → (set_timer b sec f a ts).1 ≡ ts
unfolding set_timer t_find_pos
set_full b f a sec ts e = rw (set_timer, t_find_pos, e) refl

set_timer-IsStored :
    (now f a : ℕ) (sec : ℤ) (ts : Pool)
    → IsInt sec
    → AllInt ts
    → IsStored now
        (record { tim_handler = f; sec = sec; arg = a })
        ts
        ((set_timer true sec f a ts).1)
set_timer-IsStored now f a sec ts h r =
    let t : Timer = record { tim_handler = f; sec = sec; arg = a } in
    elim (first_free_cases ts 0) [
      | inl (i, e, g) ↦
          rw (set_free true f a i sec ts (e ∙ ap pos (omega arith)))
            (record { slots = placed now t ts 0 i e; range = AllInt-set ts i t h r })
      | inr (e, full) ↦
          rw (set_full true f a sec ts e)
            (record { slots = sym (Full-add now (entry now t) ts full); range = r })
    ]

set_timer-fails : (f a : ℕ) (sec : ℤ) (ts : Pool) → (set_timer false sec f a ts).1 ≡ ts
set_timer-fails f a sec ts = elim (first_free_cases ts 0) [
  | inl (i, e, g) ↦ set_free false f a i sec ts (e ∙ ap pos (omega arith))
  | inr (e, full) ↦ set_full false f a sec ts e
]

abbrev pub IntOps : List Op → Type 0
IntOps [] = Unit {0}
IntOps (sets b sec f a ∷ ops) = IsInt sec × IntOps ops
IntOps (alarm ∷ ops) = IntOps ops

run-spec :
    (ops : List Op) (now : ℕ) (ts : Pool)
    → IntOps ops
    → AllInt ts
    → run ops ts ≡ spec ops now (view now ts)
unfolding run spec entry
run-spec [] now ts h r = refl
run-spec (sets true sec f a ∷ ops) now ts (i, h) r =
    let v : IsStored now (record { tim_handler = f; sec = sec; arg = a }) ts
        ((set_timer true sec f a ts).1) =
      set_timer-IsStored now f a sec ts i r in
    run-spec ops now ((set_timer true sec f a ts).1) h v.range ∙ ap (λ es. spec ops now es) v.slots
run-spec (sets false sec f a ∷ ops) now ts (i, h) r =
    ap (λ q. run ops q) (set_timer-fails f a sec ts) ∙ run-spec ops now ts h r
run-spec (alarm ∷ ops) now ts h r =
    let v : IsChecked now ts = check_timer-IsChecked now ts r in
    ap₂ (λ x y. x ∷ y) v.calls
      (run-spec ops (suc now) ((check_timer ts).0) h v.range
        ∙ ap (λ es. spec ops (suc now) es) v.slots)

view-replicate : (n now : ℕ) → view now (replicate n none) ≡ replicate n none
unfolding view
view-replicate zero now = refl
view-replicate (suc n) now = ap (λ es. none ∷ es) (view-replicate n now)

AllInt-replicate : (n : ℕ) → AllInt (replicate n none)
AllInt-replicate zero = tt
AllInt-replicate (suc n) = AllInt-replicate n

-- Every sequence of calls of setTimer, with seconds in the range of int, and alarms makes at each
-- alarm the calls of the timers whose time is due: a timer fires once, at the alarm that its seconds
-- name, or at the next one where they are 0, and never where they are negative.
pub run-refines : (ops : List Op) → IntOps ops → run ops start ≡ spec ops 0 (replicate maxsize none)
unfolding start
run-refines ops h =
    run-spec ops 0 (replicate maxsize none) h (AllInt-replicate maxsize)
    ∙ ap (λ es. spec ops 0 es) (view-replicate maxsize 0)
