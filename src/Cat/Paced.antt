-- ===== src/Cat/Paced.antt =====
-- signal/leaky_bucket.c: the output is the beginning of the file, and no faster than the alarms.
use Prim.{tt}
use lhq_linux_c.Base.{
  ℕ, zero, suc, ◌+◌, ◌-◌, ◌*◌, ◌≤◌, ◌≡◌, refl, ◌∙◌, inl, inr, Bool, true, false, List, [], ◌∷◌,
  ◌++◌, arith, ◌==◌, Bool-cases, length, take, drop, length-append, length-take,
}
use lhq_linux_c.Cat.{
  Answer, done, interrupted, failed, opening, reading, writing, exits, Copy, State, open_step,
  read_step, loop_test, write_step, copy_step, Fits, start, Event, answers, alarm, leaky_bufsize,
  flag_after, leaky_step, leaky_run, LeakyFits, AllLeakyFit,
}
use lhq_linux_c.Cat.Whole.{whole, Idle, IsKept, copy_step-IsKept}

unfoldable pub alarms : List Event → ℕ
alarms [] = 0
alarms (alarm ∷ es) = suc (alarms es)
alarms (answers a ∷ es) = alarms es

abbrev spent : Copy → ℕ
spent c = length c.out + c.len

-- What was written and what waits in the buffer, with ten bytes more where a read may come.
paid : Bool × State → ℕ
paid (b, (opening, c)) = spent c
paid (true, (reading, c)) = spent c
paid (false, (reading, c)) = spent c + leaky_bufsize
paid (true, (writing, c)) = spent c
paid (false, (writing, c)) = spent c + leaky_bufsize
paid (b, (exits n, c)) = spent c

loop_test-paid : (b : Bool) (c : Copy) → paid (b, loop_test c) ≡ paid (b, (writing, c))
unfolding loop_test paid
loop_test-paid true c = elim (Bool-cases (c.len == 0)) [
  | inl z ↦ rw (z, loop_test) refl
  | inr w ↦ rw (w, loop_test) refl
]
loop_test-paid false c = elim (Bool-cases (c.len == 0)) [
  | inl z ↦ rw (z, loop_test) refl
  | inr w ↦ rw (w, loop_test) refl
]

spent_wrote :
    (c : Copy) (k : ℕ)
    → k ≤ c.len
    → length (c.out ++ take k (drop c.pos c.buf)) + (c.len - k) ≤ spent c
spent_wrote c k h =
    omega
      (arith, h, length-append c.out (take k (drop c.pos c.buf)), length-take k (drop c.pos c.buf))

written-paid :
    (b : Bool) (a : Answer) (c : Copy)
    → Fits leaky_bufsize a (writing, c)
    → paid (b, write_step a c) ≤ paid (b, (writing, c))
unfolding write_step Fits paid
written-paid true (done k) c (p, f) =
    let c' : Copy = record c {
      pos = c.pos + k;
      len = c.len - k;
      out = c.out ++ take k (drop c.pos c.buf);
    } in
    omega (arith, loop_test-paid true c', spent_wrote c k f)
written-paid false (done k) c (p, f) =
    let c' : Copy = record c {
      pos = c.pos + k;
      len = c.len - k;
      out = c.out ++ take k (drop c.pos c.buf);
    } in
    omega (arith, loop_test-paid false c', spent_wrote c k f)
written-paid true interrupted c f = omega arith
written-paid false interrupted c f = omega arith
written-paid true failed c f = omega arith
written-paid false failed c f = omega arith

alarm-paid : (s : Bool × State) → paid (leaky_step alarm s) ≤ paid s + leaky_bufsize
unfolding leaky_step paid
alarm-paid (b, (opening, c)) = omega arith
alarm-paid (true, (reading, c)) = omega arith
alarm-paid (false, (reading, c)) = omega arith
alarm-paid (true, (writing, c)) = omega arith
alarm-paid (false, (writing, c)) = omega arith
alarm-paid (b, (exits n, c)) = omega arith

-- What a call's answer keeps.
record IsPaced (s s' : Bool × State) : Type 0 where
  kept : IsKept s.1.1 s'.1
  paid_for : paid s' ≤ paid s

answer-IsPaced :
    (a : Answer) (s : Bool × State)
    → Idle s.1
    → LeakyFits (answers a) s
    → IsPaced s (leaky_step (answers a) s)
unfolding leaky_step LeakyFits flag_after Fits open_step read_step paid write_step copy_step
answer-IsPaced (done fd) (b, (opening, c)) i f = record {
  kept = record { same = refl; idle = i };
  paid_for = omega arith;
}
answer-IsPaced interrupted (b, (opening, c)) i f = record {
  kept = record { same = refl; idle = i };
  paid_for = omega arith;
}
answer-IsPaced failed (b, (opening, c)) i f = record {
  kept = record { same = refl; idle = tt };
  paid_for = omega arith;
}
answer-IsPaced a (true, (reading, c)) i f = record {
  kept = record { same = refl; idle = i };
  paid_for = omega arith;
}
answer-IsPaced (done zero) (false, (reading, c)) i f = record {
  kept = copy_step-IsKept leaky_bufsize (done zero) (reading, c) i f;
  paid_for = omega arith;
}
answer-IsPaced (done (suc k)) (false, (reading, c)) i f = record {
  kept = copy_step-IsKept leaky_bufsize (done (suc k)) (reading, c) i f;
  paid_for = omega (arith, f.0, i);
}
answer-IsPaced interrupted (false, (reading, c)) i f = record {
  kept = record { same = refl; idle = i };
  paid_for = omega arith;
}
answer-IsPaced failed (false, (reading, c)) i f = record {
  kept = record { same = refl; idle = tt };
  paid_for = omega arith;
}
answer-IsPaced a (true, (writing, c)) i f = record {
  kept = copy_step-IsKept leaky_bufsize a (writing, c) i f;
  paid_for = written-paid true a c f;
}
answer-IsPaced a (false, (writing, c)) i f = record {
  kept = copy_step-IsKept leaky_bufsize a (writing, c) i f;
  paid_for = written-paid false a c f;
}
answer-IsPaced a (b, (exits n, c)) i f = record {
  kept = record { same = refl; idle = tt };
  paid_for = omega arith;
}

-- What a run keeps, for the alarms that it saw.
record IsTimed (n : ℕ) (s s' : Bool × State) : Type 0 where
  same : whole s'.1.1 ≡ whole s.1.1
  in_time : paid s' ≤ paid s + n * leaky_bufsize

run-IsTimed :
    (es : List Event) (s : Bool × State)
    → Idle s.1
    → AllLeakyFit es s
    → IsTimed (alarms es) s (leaky_run es s)
unfolding leaky_run AllLeakyFit alarms leaky_step
run-IsTimed [] s i f = record { same = refl; in_time = omega arith }
run-IsTimed (alarm ∷ es) s i (f, fs) =
    let r = run-IsTimed es (false, s.1) i fs in
    record { same = r.same; in_time = omega (arith, r.in_time, alarm-paid s) }
run-IsTimed (answers a ∷ es) s i (f, fs) =
    let k = answer-IsPaced a s i f in
    let r = run-IsTimed es (leaky_step (answers a) s) k.kept.idle fs in
    record { same = r.same ∙ k.kept.same; in_time = omega (arith, r.in_time, k.paid_for) }

spent-paid : (s : Bool × State) → spent s.1.1 ≤ paid s
unfolding paid
spent-paid (b, (opening, c)) = omega arith
spent-paid (true, (reading, c)) = omega arith
spent-paid (false, (reading, c)) = omega arith
spent-paid (true, (writing, c)) = omega arith
spent-paid (false, (writing, c)) = omega arith
spent-paid (b, (exits n, c)) = omega arith

-- In every run of leaky_bucket.c, with errors and with alarms at any moment, the output is the
-- beginning of the file, and no more than ten bytes for each alarm until then.
pub leaky_run_lem :
    (file : List ℕ) (es : List Event)
    → AllLeakyFit es (false, start file)
    → (whole (leaky_run es (false, start file)).1.1 ≡ file)
      × (length (leaky_run es (false, start file)).1.1.out ≤ 10 * alarms es)
unfolding start paid
leaky_run_lem file es f =
    let r = run-IsTimed es (false, start file) refl f in
    (r.same, omega (arith, r.in_time, spent-paid (leaky_run es (false, start file))))
