-- ===== src/Relay/Branch.antt =====
-- advancdIO: the moves of `branch`, and what follows for every relay.
use lhq_linux_c.Base.{
  ℕ, zero, suc, ◌≡◌, refl, sym, subst, ◌⊎◌, inl, inr, true, false, List, [], ◌∷◌, arith, ltb, ◌==◌,
  lt→ltb, Option-cases,
}
use lhq_linux_c.Relay.{
  Answer, done, failed, State, state_wr, state_rd, state_end, state_err, state_divide, Fsm, Io,
  Step, halts, goes, bufsize, chunk, branch_rd, branch_wr, branch,
}
use Prim.{Unit, tt}

-- The moves that `branch` makes, from state to state.
pub data Moves : State → State → Type 0 where
  reads : Moves state_rd state_wr
  ends : Moves state_rd state_end
  waits_read : Moves state_rd state_rd
  fails_read : Moves state_rd state_err
  writes : Moves state_wr state_wr
  fails_write : Moves state_wr state_err
  stays_end : Moves state_end state_end
  stays_err : Moves state_err state_err

-- A machine that has read something or failed.
pub data IsStuck : State → Type 0 where
  in_wr : IsStuck state_wr
  in_err : IsStuck state_err

pub IsStuck-forever : {s t : State} → Moves s t → IsStuck s → IsStuck t
IsStuck-forever writes in_wr = in_wr
IsStuck-forever fails_write in_wr = in_err
IsStuck-forever stays_err in_err = in_err
IsStuck-forever reads h = elim h [ ]
IsStuck-forever ends h = elim h [ ]
IsStuck-forever waits_read h = elim h [ ]
IsStuck-forever fails_read h = elim h [ ]
IsStuck-forever stays_end h = elim h [ ]

-- A step of a machine in the state `s`: a move, and bytes only where it has read or failed.
unfoldable pub StepOk : State → Step → Type 0
StepOk s (halts why) = Unit
StepOk s (goes w f) = Moves s f.state × ((w ≡ []) ⊎ IsStuck s)

rd_lem : (a : Answer (List ℕ)) (f : Fsm) → StepOk state_rd (branch_rd a f)
unfolding branch_rd StepOk
rd_lem (done []) f = (ends, inl refl)
rd_lem (done (x ∷ xs)) f = (reads, inl refl)
rd_lem (failed true) f = (waits_read, inl refl)
rd_lem (failed false) f = (fails_read, inl refl)

wr_lem :
    (bytes : List ℕ) (a : Answer ℕ) (f : Fsm)
    → f.state ≡ state_wr
    → StepOk state_wr (branch_wr bytes a f)
unfolding branch_wr StepOk
wr_lem bytes (failed true) f e = (writes, inr in_wr)
wr_lem bytes (failed false) f e = (fails_write, inr in_wr)
wr_lem bytes (done zero) f e = (subst (λ s. Moves state_wr s) (sym e) writes, inr in_wr)
wr_lem bytes (done (suc n)) f e =
    let h : ltb 0 (suc n) ≡ true = lt→ltb 0 (suc n) (omega arith) in
    let z : (suc n == 0) ≡ false = ground arith in rw (h, z) (writes, inr in_wr)

by_state : (s : State) (io : Io) (f : Fsm) → f.state ≡ s → StepOk s (branch io f)
unfolding StepOk branch
by_state state_rd io f e = rw (e, branch) (rd_lem (io.read_fd f.fds bufsize) f)
by_state state_wr io f e = elim (Option-cases (chunk f)) [
  | inl n ↦ rw (branch, e, n) tt
  | inr (bytes, h) ↦ rw (branch, e, h) (wr_lem bytes (io.write_fd f.fdd bytes) f e)
]
by_state state_end io f e =
    rw (branch, e) (subst (λ s. Moves state_end s) (sym e) stays_end, inl refl)
by_state state_err io f e =
    rw (branch, e) (subst (λ s. Moves state_err s) (sym e) stays_err, inl refl)
by_state state_divide io f e = rw (branch, e) tt

-- Every step of `branch` that does not stop the process is one of `Moves`, and only a machine that
-- has read or failed writes bytes.
pub branch_lem : (io : Io) (f : Fsm) → StepOk f.state (branch io f)
branch_lem io f = by_state f.state io f refl
