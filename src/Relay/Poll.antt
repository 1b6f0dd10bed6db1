-- ===== src/Relay/Poll.antt =====
-- advancdIO/poll.c: `transport` runs its machines by what `poll` reports.
use lhq_linux_c.Base.{
  ℕ, zero, suc, Bool, true, false, ◌||◌, none, some, List, ltb, if◌then◌else◌, ℤ,
}
use lhq_linux_c.Relay.{
  State, Fsm, Io, Events, Relay, Round, Run, Step, code, wanted, branch_both, loop, start,
  fcntl_wrong, open_both, stopped, exits, blocks, stops, next,
}
use lhq_linux_c.Relay

unfoldable pub branch : Io → Fsm → Step
unfolding Relay.branch
branch io f = Relay.branch io f

-- What one call of `poll` answers: an error, which is EINTR or not, or `revents` of both files.
pub data Polled : Type 0 where
  error : Bool → Polled
  ready : Events → Events → Polled

-- One round's answers; `poll_call` gives the answer of each repeated call, and after `tries` calls
-- `poll` blocks.
pub record Answers : Type 0 where
  pub tries : ℕ
  pub poll_call : Events → Events → ℕ → Polled
  pub io12 : Io
  pub io21 : Io

-- The feedback of `revents`; both conditions test the same two bits.
unfoldable pub feedback : Answers → Events → Events → Relay → Round
feedback a rev1 rev2 r =
    branch_both (rev1.input || rev2.output || ltb 3 (code r.fsm12.state))
      (rev1.input || rev2.output || ltb 3 (code r.fsm21.state)) a.io12 a.io21 r

-- `while (poll(pfd, 2, -1) < 0)`, and the rest of the round.
unfoldable pub poll_from : ℕ → ℕ → Answers → Relay → Round
poll_from zero i a r = stops blocks
poll_from (suc n) i a r = elim (a.poll_call (wanted r.fsm12.state) (wanted r.fsm21.state) i) [
  | error true ↦ poll_from n (suc i) a r
  | error false ↦ stops exits
  | ready rev1 rev2 ↦ feedback a rev1 rev2 r
]

unfoldable pub round : Answers → Relay → Round
round a r = poll_from a.tries 0 a r

unfoldable pub transport : (ℤ → ℤ) → ℤ → ℤ → Fsm → Fsm → List Answers → Run
transport set_fd fd1 fd2 memory12 memory21 answers =
    if fcntl_wrong set_fd fd1 fd2
    then stopped exits
    else loop round answers (start fd1 fd2 memory12 memory21)

unfoldable pub main : (ℤ → ℤ) → ℤ → ℤ → Fsm → Fsm → List Answers → Run
main set_fd fd1 fd2 memory12 memory21 answers = elim (open_both fd1 fd2) [
  | none ↦ stopped exits
  | some (a, b) ↦ transport set_fd a b memory12 memory21 answers
]
