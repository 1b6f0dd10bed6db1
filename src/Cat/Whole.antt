-- ===== src/Cat/Whole.antt =====
-- signal/mycat.c and signal/AIgeCat.c: what is written is the file.
use Prim.{Unit, tt}
use mathlib.Core.List.{append_assoc}
use lhq_linux_c.Base.{
  ℕ, zero, suc, ◌+◌, ◌-◌, ◌≤◌, ◌≡◌, refl, sym, ap, ◌∙◌, inl, inr, List, [], ◌∷◌, ◌++◌, arith, ◌==◌,
  Bool-cases, take, drop, take-append-drop,
}
use lhq_linux_c.Cat.{
  Answer, done, interrupted, failed, opening, reading, writing, exits, Copy, State, open_step,
  read_step, loop_test, write_step, copy_step, Fits, run, AllFit, start, mycat, bufsize,
}

take_nil : (n : ℕ) → take {A = ℕ} n [] ≡ []
take_nil zero = refl
take_nil (suc n) = refl

drop_nil : (n : ℕ) → drop {A = ℕ} n [] ≡ []
drop_nil zero = refl
drop_nil (suc n) = refl

drop-drop : (p k : ℕ) (l : List ℕ) → drop (p + k) l ≡ drop k (drop p l)
drop-drop zero k l = ap (λ n. drop n l) (omega arith)
drop-drop (suc p) k [] = drop_nil (suc p + k) ∙ sym (drop_nil k)
drop-drop (suc p) k (x ∷ l) =
    let e : suc p + k ≡ suc (p + k) = omega arith in ap (λ n. drop n (x ∷ l)) e ∙ drop-drop p k l

take_split : (k n : ℕ) (l : List ℕ) → k ≤ n → take n l ≡ take k l ++ take (n - k) (drop k l)
take_split zero n l h = ap (λ m. take m l) (omega arith)
take_split (suc k) zero l h = absurd (omega (arith, h))
take_split (suc k) (suc n) [] h = sym (take_nil (suc n - suc k))
take_split (suc k) (suc n) (x ∷ l) h =
    ap (λ m. x ∷ m)
      (take_split k n l (omega (arith, h))
        ∙ ap (λ m. take k l ++ take m (drop k l)) (omega (arith, h)))

take-take : (n : ℕ) (l : List ℕ) → take n (take n l) ≡ take n l
take-take zero l = refl
take-take (suc n) [] = refl
take-take (suc n) (x ∷ l) = ap (λ m. x ∷ m) (take-take n l)

-- What was written, what waits in the buffer, and what is not read yet.
abbrev pub whole : Copy → List ℕ
whole c = c.out ++ (take c.len (drop c.pos c.buf) ++ c.file)

abbrev pub Idle : State → Type 0
Idle (opening, c) = c.len ≡ 0
Idle (reading, c) = c.len ≡ 0
Idle (writing, c) = Unit {0}
Idle (exits n, c) = Unit {0}

write-whole :
    (c : Copy) (k : ℕ)
    → k ≤ c.len
    → (c.out ++ take k (drop c.pos c.buf)) ++ (take (c.len - k) (drop (c.pos + k) c.buf) ++ c.file)
      ≡ whole c
write-whole c k h =
    let d = drop c.pos c.buf in
    let t = take (c.len - k) (drop k d) in
    ap (λ x. (c.out ++ take k d) ++ (take (c.len - k) x ++ c.file)) (drop-drop c.pos k c.buf)
    ∙ append_assoc c.out (take k d) (t ++ c.file)
    ∙ ap (λ x. c.out ++ x) (sym (append_assoc (take k d) t c.file))
    ∙ ap (λ x. c.out ++ (x ++ c.file)) (sym (take_split k c.len d h))

-- A step keeps the whole, and reads with an empty buffer.
pub record IsKept (c : Copy) (s : State) : Type 0 where
  pub same : whole s.1 ≡ whole c
  pub idle : Idle s

loop_test-IsKept : (c c' : Copy) → whole c' ≡ whole c → IsKept c (loop_test c')
unfolding loop_test
loop_test-IsKept c c' e = elim (Bool-cases (c'.len == 0)) [
  | inl z ↦ rw (z, loop_test) (record { same = e; idle = ground (arith, z) })
  | inr w ↦ rw (w, loop_test) (record { same = e; idle = tt })
]

pub read_step-IsKept : (n : ℕ) (a : Answer) (c : Copy) → c.len ≡ 0 → IsKept c (read_step a c)
unfolding read_step
read_step-IsKept n (done zero) c z = record {
  same = ap (λ m. c.out ++ (take m (drop c.pos c.buf) ++ c.file)) (sym z);
  idle = tt;
}
read_step-IsKept n (done (suc k)) c z = record {
  same =
      ap (λ x. c.out ++ (x ++ drop (suc k) c.file)) (take-take (suc k) c.file)
      ∙ ap (λ x. c.out ++ x) (take-append-drop (suc k) c.file)
      ∙ ap (λ m. c.out ++ (take m (drop c.pos c.buf) ++ c.file)) (sym z);
  idle = tt;
}
read_step-IsKept n interrupted c z = record { same = refl; idle = z }
read_step-IsKept n failed c z = record { same = refl; idle = tt }

pub copy_step-IsKept :
    (n : ℕ) (a : Answer) (s : State) → Idle s → Fits n a s → IsKept s.1 (copy_step a s)
unfolding copy_step open_step write_step Fits
copy_step-IsKept n (done fd) (opening, c) i f = record { same = refl; idle = i }
copy_step-IsKept n interrupted (opening, c) i f = record { same = refl; idle = i }
copy_step-IsKept n failed (opening, c) i f = record { same = refl; idle = tt }
copy_step-IsKept n a (reading, c) i f = read_step-IsKept n a c i
copy_step-IsKept n (done k) (writing, c) i (p, f) =
    loop_test-IsKept c
      (record c { pos = c.pos + k; len = c.len - k; out = c.out ++ take k (drop c.pos c.buf) })
      (write-whole c k f)
copy_step-IsKept n interrupted (writing, c) i f = record { same = refl; idle = tt }
copy_step-IsKept n failed (writing, c) i f = record { same = refl; idle = tt }
copy_step-IsKept n a (exits k, c) i f = record { same = refl; idle = tt }

run-IsKept :
    (n : ℕ) (answers : List Answer) (s : State)
    → Idle s
    → AllFit n answers s
    → IsKept s.1 (run answers s)
unfolding run AllFit
run-IsKept n [] s i f = record { same = refl; idle = i }
run-IsKept n (a ∷ answers) s i (f, fs) =
    let k = copy_step-IsKept n a s i f in
    let r = run-IsKept n answers (copy_step a s) k.idle fs in
    record { same = r.same ∙ k.same; idle = r.idle }

-- Whatever the system answers, errors included, and however far a run has come, the output is the
-- beginning of the file, and the rest of it is what waits in the buffer and what is not read yet.
pub mycat-whole :
    (file : List ℕ) (answers : List Answer)
    → AllFit bufsize answers (start file)
    → whole (mycat file answers).1 ≡ file
unfolding mycat start
mycat-whole file answers f = (run-IsKept bufsize answers (start file) refl f).same
