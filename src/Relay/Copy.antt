-- ===== src/Relay/Copy.antt =====
-- advancdIO/mycpy.c: `transport` runs both machines in every round.
use lhq_linux_c.Base.{true, none, some, List, if◌then◌else◌, ℤ}
use lhq_linux_c.Relay.{
  Fsm, Io, Relay, Round, Run, branch_both, loop, start, fcntl_wrong, open_both, stopped, exits,
}

-- `while (...) { branch(&fsm12); branch(&fsm21); }`
unfoldable pub round : Io × Io → Relay → Round
round (io12, io21) r = branch_both true true io12 io21 r

unfoldable pub transport : (ℤ → ℤ) → ℤ → ℤ → Fsm → Fsm → List (Io × Io) → Run
transport set_fd fd1 fd2 memory12 memory21 answers =
    if fcntl_wrong set_fd fd1 fd2
    then stopped exits
    else loop round answers (start fd1 fd2 memory12 memory21)

unfoldable pub main : (ℤ → ℤ) → ℤ → ℤ → Fsm → Fsm → List (Io × Io) → Run
main set_fd fd1 fd2 memory12 memory21 answers = elim (open_both fd1 fd2) [
  | none ↦ stopped exits
  | some (a, b) ↦ transport set_fd a b memory12 memory21 answers
]
