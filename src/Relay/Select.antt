-- ===== src/Relay/Select.antt =====
-- advancdIO/select.c: `transport` runs a machine where `select` has marked one of its files.
use lhq_linux_c.Base.{
  Bool, true, false, ◌||◌, none, some, List, ltb, ◌==◌, if◌then◌else◌, ℤ, pos, ltb_ℤ, eqb_ℤ, ◌+ℤ◌,
}
use lhq_linux_c.Relay.{
  State, state_wr, state_rd, Fsm, Io, Relay, Round, Run, Step, code, branch_both, loop, start,
  fcntl_wrong, open_both, stopped, exits, stops, next,
}
use lhq_linux_c.Relay

unfoldable pub branch : Io → Fsm → Step
unfolding Relay.branch
branch io f = Relay.branch io f

unfoldable pub max : ℤ → ℤ → ℤ
max f1 f2 = if ltb_ℤ f2 f1 then f1 else f2

-- `fd_set`.
abbrev pub FdSet : Type 0
FdSet = ℤ → Bool

fd_set_if : Bool → ℤ → FdSet → FdSet
fd_set_if b fd s fd' = if b then (if eqb_ℤ fd fd' then true else s fd') else s fd'

abbrev pub is_rd : State → Bool
is_rd s = code s == 2

abbrev pub is_wr : State → Bool
is_wr s = code s == 1

unfoldable pub rdf : Relay → FdSet
unfolding fd_set_if
rdf r =
    fd_set_if (is_rd r.fsm21.state) r.fsm21.fds
      (fd_set_if (is_rd r.fsm12.state) r.fsm12.fds (λ fd. false))

unfoldable pub wrf : Relay → FdSet
unfolding fd_set_if
wrf r =
    fd_set_if (is_wr r.fsm21.state) r.fsm21.fdd
      (fd_set_if (is_wr r.fsm12.state) r.fsm12.fdd (λ fd. false))

-- What `select` answers: an error, which is EINTR or not, or the sets of the files that are ready.
pub data Selected : Type 0 where
  error : Bool → Selected
  ready : FdSet → FdSet → Selected

-- The descriptors of `transport`, and one round's answers of the system.
pub record Answers : Type 0 where
  pub selects : ℤ → FdSet → FdSet → Selected
  pub io12 : Io
  pub io21 : Io

-- The feedback of the sets.
unfoldable pub feedback : ℤ → ℤ → Answers → FdSet → FdSet → Relay → Round
feedback fd1 fd2 a rd wr r =
    branch_both (rd fd1 || wr fd2 || ltb 3 (code r.fsm12.state))
      (rd fd2 || wr fd1 || ltb 3 (code r.fsm21.state)) a.io12 a.io21 r

-- One round; an interrupted `select` starts the next one.
unfoldable pub round : ℤ → ℤ → Answers → Relay → Round
round fd1 fd2 a r =
    if ltb (code r.fsm12.state) 3 || ltb (code r.fsm21.state) 3
    then (elim (a.selects (max fd1 fd2 +ℤ pos 1) (rdf r) (wrf r)) [
      | error true ↦ next r
      | error false ↦ stops exits
      | ready rd wr ↦ feedback fd1 fd2 a rd wr r
    ])
    else feedback fd1 fd2 a (rdf r) (wrf r) r

unfoldable pub transport : (ℤ → ℤ) → ℤ → ℤ → Fsm → Fsm → List Answers → Run
transport set_fd fd1 fd2 memory12 memory21 answers =
    if fcntl_wrong set_fd fd1 fd2
    then stopped exits
    else loop (round fd1 fd2) answers (start fd1 fd2 memory12 memory21)

unfoldable pub main : (ℤ → ℤ) → ℤ → ℤ → Fsm → Fsm → List Answers → Run
main set_fd fd1 fd2 memory12 memory21 answers = elim (open_both fd1 fd2) [
  | none ↦ stopped exits
  | some (a, b) ↦ transport set_fd a b memory12 memory21 answers
]
