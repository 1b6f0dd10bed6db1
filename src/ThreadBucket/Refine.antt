-- ===== src/ThreadBucket/Refine.antt =====
-- posix/other/tbf/mytbf.c: the module answers every sequence of calls as levels of tokens do.
use lhq_linux_c.Base.{
  ℕ, zero, suc, ◌≡◌, refl, sym, ap, ap₂, ◌∙◌, subst, inl, inr, Bool, true, false, none, some, List,
  [], ◌∷◌, arith, ltb, Option-cases, replicate, ℤ, pos, negsuc, first_free, first_free_cases,
}
use lhq_linux_c.Table.Used.{used, used-set, used-free, used-Full}
use lhq_linux_c.ThreadBucket.{
  Bucket, Module, start, new_bucket, mytbf_max, get_free_pos_unlocked, once_load, enlist,
  mytbf_init, Call, inits, fetches, gives_back, destroys, tick, handle, fetched, numbered, step,
  run,
}
use lhq_linux_c.ThreadBucket.Levels.{spec_step, spec, none_yet, Owed, AllOwed}
use lhq_linux_c.ThreadBucket.Sane.{IsSane, IsValid, view-update, start-IsValid, IsValid-enlist}
use lhq_linux_c.ThreadBucket.Steps.{
  abstract, IsStep, store-eq, once-IsValid, fetch_refused, return_refused, fetch-IsStep,
  give-IsStep, destroy-IsStep, tick-IsStep,
}

-- A new bucket gets the first free slot, or there is none and 1024 buckets live.
enlist-IsStep :
    (m : Module) (created : Bool) (p : ℕ) (csp burst : ℤ)
    → IsValid m
    → Owed (inits created (some p) csp burst) (abstract m)
    → IsStep
        (handle (enlist csp burst p m).0, (enlist csp burst p m).1)
        (spec_step (inits created (some p) csp burst) (abstract m))
unfolding enlist get_free_pos_unlocked new_bucket spec_step
enlist-IsStep m created p csp burst v (c, b, f, fresh) = elim (first_free_cases m.job 0) [
  | inl (i, e, free) ↦
      let e' : first_free m.job 0 ≡ pos i = e ∙ ap pos (omega arith) in
      let nothing : m.heap p ≡ none = elim (Option-cases (m.heap p)) [
        | inl n ↦ n
        | inr (x, y) ↦ absurd (ground (arith, y))
      ] in
      let room : ltb (used m.job) mytbf_max ≡ true =
        let l = used-free m.job i free in ground (arith, v.slots) in
      let new : Bucket = new_bucket csp burst i in
      let s : IsSane new = record {
        csp_nonneg = c;
        burst_nonneg = b;
        fits = f;
        nonneg = refl;
        within = omega arith;
      } in
      rw (enlist, get_free_pos_unlocked, e', room)
        (record {
          valid = IsValid-enlist v i p new free nothing refl s;
          same =
              ap (λ x. (handle (some p), x))
                (store-eq (view-update m.heap p (some new)) (used-set m.job i p free));
        })
  | inr (e, full) ↦
      let room : ltb (used m.job) mytbf_max ≡ false =
        let l = used-Full m.job full in ground (arith, v.slots) in
      rw (enlist, get_free_pos_unlocked, e, room) (record { valid = v; same = refl })
]

step-IsStep :
    (c : Call) (m : Module)
    → IsValid m
    → Owed c (abstract m)
    → IsStep (step c m) (spec_step c (abstract m))
unfolding step spec_step mytbf_init fetched numbered
step-IsStep (inits created none csp burst) m v o =
    let (w, a) = once-IsValid created m v in
    record { valid = w; same = ap (λ s. (handle none, s)) a }
step-IsStep (inits created (some p) csp burst) m v o =
    let (w, a) = once-IsValid created m v in
    subst
      (λ s.
        IsStep (step (inits created (some p) csp burst) m)
          (spec_step (inits created (some p) csp burst) s))
      a
      (enlist-IsStep (once_load created m) created p csp burst w
        (subst (λ s. Owed (inits created (some p) csp burst) s) (sym a) o))
step-IsStep (fetches p (pos (suc n))) m v o = fetch-IsStep m p n v
step-IsStep (fetches p (pos zero)) m v o =
    rw (fetch_refused p (pos 0) m (ground arith)) (record { valid = v; same = refl })
step-IsStep (fetches p (negsuc n)) m v o =
    rw (fetch_refused p (negsuc n) m (ground arith)) (record { valid = v; same = refl })
step-IsStep (gives_back p (pos (suc n))) m v o = give-IsStep m p n v o
step-IsStep (gives_back p (pos zero)) m v o =
    rw (return_refused p (pos 0) m (ground arith)) (record { valid = v; same = refl })
step-IsStep (gives_back p (negsuc n)) m v o =
    rw (return_refused p (negsuc n) m (ground arith)) (record { valid = v; same = refl })
step-IsStep (destroys p) m v o = destroy-IsStep m p v
step-IsStep tick m v o = tick-IsStep m v

run-spec :
    (cs : List Call) (m : Module)
    → IsValid m
    → AllOwed cs (abstract m)
    → run cs m ≡ spec cs (abstract m)
unfolding run spec
run-spec [] m v o = refl
run-spec (c ∷ cs) m v (o, os) =
    let r = step-IsStep c m v o in
    ap₂ (λ a as'. a ∷ as') (ap (λ x. x.0) r.same)
      (run-spec cs (step c m).1 r.valid (subst (λ x. AllOwed cs x.1) (sym r.same) os)
        ∙ ap (λ x. spec cs x.1) r.same)

no_slots : (n : ℕ) → used (replicate n none) ≡ 0
no_slots zero = refl
no_slots (suc n) = no_slots n

-- From the start of the program, every sequence of calls in which rates and bursts are not negative
-- and with returned tokens stay in int, and malloc returns free memory, gets the answers of the
-- levels: the table and its slots cannot be seen from outside, and a new bucket is refused where
-- there is no memory or 1024 buckets live.
pub run-levels : (cs : List Call) → AllOwed cs none_yet → run cs start ≡ spec cs none_yet
unfolding none_yet
run-levels cs o =
    let empty : abstract start ≡ none_yet = store-eq refl (no_slots mytbf_max) in
    run-spec cs start start-IsValid (subst (λ s. AllOwed cs s) (sym empty) o)
    ∙ ap (λ s. spec cs s) empty
