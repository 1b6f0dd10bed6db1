-- ===== src/Relay/Returns.antt =====
-- advancdIO: what a relay has done that returns, and when it returns.
use lhq_linux_c.Base.{
  ℕ, zero, suc, ◌≡◌, refl, Bool, true, false, ◌||◌, List, [], ltb, if◌then◌else◌, ℤ, pos, ◌+ℤ◌,
}
use Prim.{tt}
use lhq_linux_c.Relay.{
  Fsm, Io, Relay, Round, stops, next, Stop, blocks, code, wanted, Run, stopped, exits, returned,
  loop, start, fcntl_wrong,
}
use lhq_linux_c.Relay.Rounds.{RoundOk, branch_both_lem, loop_quiet}
use lhq_linux_c.Relay.Copy
use lhq_linux_c.Relay.Select
use lhq_linux_c.Relay.Poll

unguard :
    (b : Bool) (x : Run) (r : Relay)
    → (if b then stopped exits else x) ≡ returned r
    → x ≡ returned r
unguard true x r e = absurd cc
unguard false x r e = e

copy_ok : (a : Io × Io) (r : Relay) → RoundOk r (Copy.round a r)
unfolding Copy.round
copy_ok (io12, io21) r = branch_both_lem true true io12 io21 r

stays_ok : (r : Relay) → RoundOk r (next r)
unfolding RoundOk
stays_ok r = record { quiet = λ h. h; stuck12 = λ h. h; stuck21 = λ h. h }

stops_ok : (r : Relay) (why : Stop) → RoundOk r (stops why)
unfolding RoundOk
stops_ok r why = tt

feedback_ok :
    (fd1 fd2 : ℤ) (a : Select.Answers) (rd wr : Select.FdSet) (r : Relay)
    → RoundOk r (Select.feedback fd1 fd2 a rd wr r)
unfolding Select.feedback
feedback_ok fd1 fd2 a rd wr r =
    branch_both_lem (rd fd1 || wr fd2 || ltb 3 (code r.fsm12.state))
      (rd fd2 || wr fd1 || ltb 3 (code r.fsm21.state)) a.io12 a.io21 r

selected_ok :
    (fd1 fd2 : ℤ) (a : Select.Answers) (s : Select.Selected) (r : Relay)
    → RoundOk r (elim s [
      | Select.error true ↦ next r
      | Select.error false ↦ stops exits
      | Select.ready rd wr ↦ Select.feedback fd1 fd2 a rd wr r
    ])
selected_ok fd1 fd2 a (Select.error true) r = stays_ok r
selected_ok fd1 fd2 a (Select.error false) r = stops_ok r exits
selected_ok fd1 fd2 a (Select.ready rd wr) r = feedback_ok fd1 fd2 a rd wr r

either_ok :
    (b : Bool) (x y : Round) (r : Relay)
    → RoundOk r x
    → RoundOk r y
    → RoundOk r (if b then x else y)
either_ok true x y r hx hy = hx
either_ok false x y r hx hy = hy

select_ok : (fd1 fd2 : ℤ) (a : Select.Answers) (r : Relay) → RoundOk r (Select.round fd1 fd2 a r)
unfolding Select.round
select_ok fd1 fd2 a r =
    either_ok (ltb (code r.fsm12.state) 3 || ltb (code r.fsm21.state) 3) _ _ r
      (selected_ok fd1 fd2 a (a.selects (Select.max fd1 fd2 +ℤ pos 1) (Select.rdf r) (Select.wrf r))
        r)
      (feedback_ok fd1 fd2 a (Select.rdf r) (Select.wrf r) r)

polled_ok :
    (n i : ℕ) (a : Poll.Answers) (p : Poll.Polled) (r : Relay)
    → RoundOk r (Poll.poll_from n (suc i) a r)
    → RoundOk r (elim p [
      | Poll.error true ↦ Poll.poll_from n (suc i) a r
      | Poll.error false ↦ stops exits
      | Poll.ready rev1 rev2 ↦ Poll.feedback a rev1 rev2 r
    ])
unfolding Poll.feedback
polled_ok n i a (Poll.error true) r h = h
polled_ok n i a (Poll.error false) r h = stops_ok r exits
polled_ok n i a (Poll.ready rev1 rev2) r h =
    branch_both_lem (rev1.input || rev2.output || ltb 3 (code r.fsm12.state))
      (rev1.input || rev2.output || ltb 3 (code r.fsm21.state)) a.io12 a.io21 r

poll_from_ok : (n i : ℕ) (a : Poll.Answers) (r : Relay) → RoundOk r (Poll.poll_from n i a r)
unfolding Poll.poll_from
poll_from_ok zero i a r = stops_ok r blocks
poll_from_ok (suc n) i a r =
    polled_ok n i a (a.poll_call (wanted r.fsm12.state) (wanted r.fsm21.state) i) r
      (poll_from_ok n (suc i) a r)

poll_ok : (a : Poll.Answers) (r : Relay) → RoundOk r (Poll.round a r)
unfolding Poll.round
poll_ok a r = poll_from_ok a.tries 0 a r

-- If transport of mycpy.c returns, no byte was written to either file.
pub copy_quiet :
    (set_fd : ℤ → ℤ) (fd1 fd2 : ℤ) (memory12 memory21 : Fsm) (answers : List (Io × Io)) (r : Relay)
    → Copy.transport set_fd fd1 fd2 memory12 memory21 answers ≡ returned r
    → r.written ≡ []
unfolding Copy.transport start
copy_quiet set_fd fd1 fd2 m12 m21 answers r e =
    loop_quiet Copy.round copy_ok answers (start fd1 fd2 m12 m21) r refl
      (unguard (fcntl_wrong set_fd fd1 fd2) (loop Copy.round answers (start fd1 fd2 m12 m21)) r e)

-- If transport of select.c returns, no byte was written to either file.
pub select_quiet :
    (set_fd : ℤ → ℤ) (fd1 fd2 : ℤ) (memory12 memory21 : Fsm) (answers : List Select.Answers)
    (r : Relay)
    → Select.transport set_fd fd1 fd2 memory12 memory21 answers ≡ returned r
    → r.written ≡ []
unfolding Select.transport start
select_quiet set_fd fd1 fd2 m12 m21 answers r e =
    loop_quiet (Select.round fd1 fd2) (select_ok fd1 fd2) answers (start fd1 fd2 m12 m21) r refl (
      unguard (fcntl_wrong set_fd fd1 fd2)
        (loop (Select.round fd1 fd2) answers (start fd1 fd2 m12 m21)) r e)

-- If transport of poll.c returns, no byte was written to either file.
pub poll_quiet :
    (set_fd : ℤ → ℤ) (fd1 fd2 : ℤ) (memory12 memory21 : Fsm) (answers : List Poll.Answers)
    (r : Relay)
    → Poll.transport set_fd fd1 fd2 memory12 memory21 answers ≡ returned r
    → r.written ≡ []
unfolding Poll.transport start
poll_quiet set_fd fd1 fd2 m12 m21 answers r e =
    loop_quiet Poll.round poll_ok answers (start fd1 fd2 m12 m21) r refl
      (unguard (fcntl_wrong set_fd fd1 fd2) (loop Poll.round answers (start fd1 fd2 m12 m21)) r e)
