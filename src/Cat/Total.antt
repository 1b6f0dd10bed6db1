-- ===== src/Cat/Total.antt =====
-- signal/mycat.c and signal/AIgeCat.c: with enough answers they end, and the file is written.
use Prim.{Unit, tt}
use mathlib.Core.List.{append-nil}
use lhq_linux_c.Base.{
  ℕ, zero, suc, ◌+◌, ◌-◌, ◌≤◌, ◌≡◌, refl, sym, ap, ap₂, ◌∙◌, subst, inl, inr, List, [], ◌∷◌, ◌++◌,
  arith, ◌==◌, Bool-cases, length, take, drop, length-drop,
}
use lhq_linux_c.Cat.{
  Answer, done, interrupted, failed, opening, reading, writing, exits, Copy, State, open_step,
  read_step, loop_test, write_step, copy_step, Fits, run, AllFit, start, mycat, bufsize,
}
use lhq_linux_c.Cat.Whole.{whole, Idle, copy_step-IsKept}

-- How many calls are answered by a number, where none ends in an error.
unfoldable pub dones : List Answer → ℕ
dones [] = 0
dones (done k ∷ as') = suc (dones as')
dones (interrupted ∷ as') = dones as'
dones (failed ∷ as') = dones as'

unfoldable pub Calm : List Answer → Type 0
Calm [] = Unit {0}
Calm (done k ∷ as') = Calm as'
Calm (interrupted ∷ as') = Calm as'
Calm (failed ∷ as') = ⊥

-- At most this many more calls are answered by a number.
to_do : State → ℕ
to_do (opening, c) = length c.file + length c.file + c.len + 2
to_do (reading, c) = length c.file + length c.file + c.len + 1
to_do (writing, c) = length c.file + length c.file + c.len + 1
to_do (exits n, c) = 0

-- A program that has ended has done its work.
Ended : State → Type 0
Ended (opening, c) = Unit {0}
Ended (reading, c) = Unit {0}
Ended (writing, c) = Unit {0}
Ended (exits n, c) = (n ≡ 0) × (c.len ≡ 0) × (c.file ≡ [])

loop_test-to_do : (c : Copy) → to_do (loop_test c) ≡ length c.file + length c.file + c.len + 1
unfolding loop_test to_do
loop_test-to_do c = elim (Bool-cases (c.len == 0)) [
  | inl z ↦ rw (z, loop_test) refl
  | inr w ↦ rw (w, loop_test) refl
]

loop_test-Ended : (c : Copy) → Ended (loop_test c)
unfolding loop_test Ended
loop_test-Ended c = elim (Bool-cases (c.len == 0)) [
  | inl z ↦ rw (z, loop_test) tt
  | inr w ↦ rw (w, loop_test) tt
]

done-to_do :
    (n k : ℕ) (s : State) → Idle s → Fits n (done k) s → to_do (copy_step (done k) s) ≤ to_do s - 1
unfolding copy_step open_step read_step write_step Fits to_do
done-to_do n k (opening, c) i f = omega arith
done-to_do n zero (reading, c) i f = omega arith
done-to_do n (suc k) (reading, c) i (f, g, h) = omega (arith, i, g, length-drop (suc k) c.file)
done-to_do n k (writing, c) i (p, f) =
    let c' : Copy = record c {
      pos = c.pos + k;
      len = c.len - k;
      out = c.out ++ take k (drop c.pos c.buf);
    } in
    omega (arith, p, f, loop_test-to_do c')
done-to_do n k (exits m, c) i f = omega arith

interrupted-eq : (s : State) → copy_step interrupted s ≡ s
unfolding copy_step open_step read_step write_step
interrupted-eq (opening, c) = refl
interrupted-eq (reading, c) = refl
interrupted-eq (writing, c) = refl
interrupted-eq (exits n, c) = refl

done-Ended :
    (n k : ℕ) (s : State) → Idle s → Fits n (done k) s → Ended s → Ended (copy_step (done k) s)
unfolding copy_step open_step read_step write_step Fits Ended
done-Ended n k (opening, c) i f e = tt
done-Ended n zero (reading, c) i (f, g, h) e = (refl, refl, h refl)
done-Ended n (suc k) (reading, c) i f e = tt
done-Ended n k (writing, c) i f e =
    loop_test-Ended
      (record c { pos = c.pos + k; len = c.len - k; out = c.out ++ take k (drop c.pos c.buf) })
done-Ended n k (exits m, c) i f e = e

-- The end of a run: exit code 0, and everything written.
abbrev pub Written : State → List ℕ → Type 0
Written s file = (c : Copy) × (s ≡ (exits 0, c)) × (c.out ≡ file)

ended : (s : State) → Ended s → to_do s ≤ 0 → Written s (whole s.1)
unfolding Ended to_do
ended (opening, c) e h = absurd (omega (arith, h))
ended (reading, c) e h = absurd (omega (arith, h))
ended (writing, c) e h = absurd (omega (arith, h))
ended (exits n, c) (z, l, f) h = (
  c,
  ap (λ k. (exits k, c)) z,
  sym (ap₂ (λ m rest. c.out ++ (take m (drop c.pos c.buf) ++ rest)) l f ∙ append-nil c.out),
)

run-Written :
    (n : ℕ) (answers : List Answer) (s : State)
    → Idle s
    → Ended s
    → AllFit n answers s
    → Calm answers
    → to_do s ≤ dones answers
    → Written (run answers s) (whole s.1)
unfolding run AllFit Calm dones
run-Written n [] s i e f q h = ended s e h
run-Written n (done k ∷ answers) s i e (f, fs) q h =
    let kept = copy_step-IsKept n (done k) s i f in
    subst (λ l. Written (run answers (copy_step (done k) s)) l) kept.same
      (run-Written n answers (copy_step (done k) s) kept.idle (done-Ended n k s i f e) fs q
        (omega (arith, h, done-to_do n k s i f)))
run-Written n (interrupted ∷ answers) s i e (f, fs) q h =
    let same = interrupted-eq s in
    rw same (run-Written n answers s i e (subst (λ t. AllFit n answers t) same fs) q h)
run-Written n (failed ∷ answers) s i e f q h = elim q [ ]

-- Where no call ends in an error other than EINTR, the program ends with exit code 0 and the output
-- is the file, after at most two calls more than twice the length of the file are answered by a
-- number; answers may be partial and interruptions may stand anywhere.
pub mycat-Written :
    (file : List ℕ) (answers : List Answer)
    → AllFit bufsize answers (start file)
    → Calm answers
    → length file + length file + 2 ≤ dones answers
    → Written (mycat file answers) file
unfolding mycat start Ended to_do
mycat-Written file answers f q h =
    run-Written bufsize answers (start file) refl tt f q (omega (arith, h))
