-- ===== src/Relay/Writes.antt =====
-- advancdIO: the writes of `branch`.
use lhq_linux_c.Base.{
  ℕ, zero, suc, ◌+◌, ◌^◌, ◌≤◌, ◌<◌, ◌≡◌, refl, ap, true, false, none, some, List, [], ◌∷◌, arith,
  ltb, leb, ◌==◌, lt→ltb, length, take, pos, ◌+ℤ◌, ◌-ℤ◌, +ℤ_parts, eq_of_parts,
}
use lhq_linux_c.Relay.{
  state_wr, done, Fsm, Io, halts, goes, outside, bufsize, chunk, branch, branch_wr,
}

take_all : (n : ℕ) (xs : List ℕ) → length xs ≤ n → take n xs ≡ xs
take_all zero [] h = refl
take_all zero (x ∷ xs) h = absurd (omega (arith, h))
take_all (suc n) [] h = refl
take_all (suc n) (x ∷ xs) h = ap (λ ys. x ∷ ys) (take_all n xs (omega arith))

inside : (f : Fsm) → f.pos ≡ pos 0 → length f.buf ≡ bufsize → chunk f ≡ some f.buf
unfolding chunk
inside f p l =
    let t : leb (0 + bufsize) (length f.buf) ≡ true = ground arith in
    rw (p, t) (ap some (take_all bufsize f.buf (omega (arith, l))))

past : (f : Fsm) (n : ℕ) → f.pos ≡ pos (suc n) → length f.buf ≡ bufsize → chunk f ≡ none
unfolding chunk
past f n p l =
    let t : leb (suc n + bufsize) (length f.buf) ≡ false = ground arith in
    let z : leb (0 + 0) (suc n + 0) ≡ true = ground arith in rw (p, t, z) refl

pos-+ℤ : (n : ℕ) → n < 2 ^ 31 → pos 0 +ℤ pos n ≡ pos n
pos-+ℤ n h = eq_of_parts _ _ (omega (arith, +ℤ_parts (pos 0) (pos n)))

halts_past : (io : Io) (f : Fsm) → f.state ≡ state_wr → chunk f ≡ none → branch io f ≡ halts outside
unfolding branch
halts_past io f s c = rw (branch, s, c) refl

writes_once :
    (io : Io) (n : ℕ) (f : Fsm)
    → f.state ≡ state_wr
    → chunk f ≡ some f.buf
    → io.write_fd f.fdd f.buf ≡ done (suc n)
    → branch io f
      ≡ goes
          (take (suc n) f.buf)
          (record f { state = state_wr; len = f.len -ℤ pos (suc n); pos = f.pos +ℤ pos (suc n) })
unfolding branch branch_wr
writes_once io n f s c e =
    let h : ltb 0 (suc n) ≡ true = lt→ltb 0 (suc n) (omega arith) in
    let z : (suc n == 0) ≡ false = ground arith in rw (branch, s, c, branch_wr, e, h, z) refl

-- When a machine writes the first bytes of its full buffer, it writes the front of the buffer and
-- stays in STATE_WR, and whatever the system answers then, its next step reads outside the buffer.
pub second_write_outside :
    (io : Io) (n : ℕ) (f : Fsm)
    → f.state ≡ state_wr
    → f.pos ≡ pos 0
    → length f.buf ≡ bufsize
    → io.write_fd f.fdd f.buf ≡ done (suc n)
    → (f' : Fsm) × (branch io f ≡ goes (take (suc n) f.buf) f')
      × (f'.state ≡ state_wr)
      × ((io' : Io) → branch io' f' ≡ halts outside)
second_write_outside io n f s p l e =
    let small : suc n ≤ length f.buf = io.write_within f.fdd f.buf (suc n) e in
    let q : f.pos +ℤ pos (suc n) ≡ pos (suc n) = rw p (pos-+ℤ (suc n) (omega arith)) in
    let f' : Fsm = record f {
      state = state_wr;
      len = f.len -ℤ pos (suc n);
      pos = f.pos +ℤ pos (suc n);
    } in
    (f', writes_once io n f s (inside f p l) e, refl, λ io'. halts_past io' f' refl (past f' n q l))
