-- ===== src/Relay/Epoll.antt =====
-- advancdIO/epoll.c: `transport` runs a machine by the event that `epoll_wait` reports.
use lhq_linux_c.Base.{
  ℕ, zero, suc, ◌≡◌, Bool, true, false, ◌&&◌, ◌||◌, none, some, List, ltb, if◌then◌else◌, ℤ, pos,
  ltb_ℤ, eqb_ℤ,
}
use lhq_linux_c.Relay.{
  State, Fsm, Io, Events, Relay, Round, Run, Step, code, wanted, branch_both, loop, start,
  fcntl_wrong, open_both, stopped, exits, blocks, stops, next,
}
use lhq_linux_c.Relay

unfoldable pub branch : Io → Fsm → Step
unfolding Relay.branch
branch io f = Relay.branch io f

-- `struct epoll_event`.
pub record Event : Type 0 where
  pub fd : ℤ
  pub events : Events

abbrev no_events : Events
no_events = record { input = false; output = false }

-- What the kernel watches for: every file is added with `events = 0`, and no call changes it.
unfoldable pub interest : ℤ → Events
interest fd = no_events

-- What one call of `epoll_wait` answers: an error, which is EINTR or not, or an event.
pub data Waited : Type 0 where
  error : Bool → Waited
  happens : Event → Waited

-- One round's answers; `wait_call` gives the answer of each repeated call for what is watched, and
-- after `tries` calls `epoll_wait` blocks. It reports only bits that are watched for.
pub record Answers : Type 0 where
  pub tries : ℕ
  pub wait_call : (ℤ → Events) → ℕ → Waited
  pub watched_input :
      (watch : ℤ → Events) (i : ℕ) (e : Event)
      → wait_call watch i ≡ happens e
      → e.events.input ≡ true
      → (watch e.fd).input ≡ true
  pub watched_output :
      (watch : ℤ → Events) (i : ℕ) (e : Event)
      → wait_call watch i ≡ happens e
      → e.events.output ≡ true
      → (watch e.fd).output ≡ true
  pub io12 : Io
  pub io21 : Io

-- The feedback of the event.
unfoldable pub feedback : ℤ → ℤ → Answers → Event → Relay → Round
feedback fd1 fd2 a e r =
    branch_both
      ((eqb_ℤ e.fd fd1 && e.events.input)
        || (eqb_ℤ e.fd fd2 && e.events.output)
        || ltb 3 (code r.fsm12.state))
      ((eqb_ℤ e.fd fd2 && e.events.input)
        || (eqb_ℤ e.fd fd1 && e.events.output)
        || ltb 3 (code r.fsm21.state))
      a.io12 a.io21 r

-- `while (epoll_wait(epoll_fd, &EPevent, 1, -1) < 0)`, and the rest of the round.
unfoldable pub wait_from : ℕ → ℕ → ℤ → ℤ → Answers → Relay → Round
wait_from zero i fd1 fd2 a r = stops blocks
wait_from (suc n) i fd1 fd2 a r = elim (a.wait_call interest i) [
  | error true ↦ wait_from n (suc i) fd1 fd2 a r
  | error false ↦ stops exits
  | happens e ↦ feedback fd1 fd2 a e r
]

-- One round; `EPevent` is set for fd1 and at once for fd2.
unfoldable pub round : ℤ → ℤ → Answers → Relay → Round
round fd1 fd2 a r =
    if ltb (code r.fsm12.state) 3 || ltb (code r.fsm21.state) 3
    then wait_from a.tries 0 fd1 fd2 a r
    else feedback fd1 fd2 a (record { fd = fd2; events = wanted r.fsm21.state }) r

unfoldable pub transport : (ℤ → ℤ) → ℤ → ℤ → ℤ → Fsm → Fsm → List Answers → Run
transport set_fd epoll_fd fd1 fd2 memory12 memory21 answers =
    if fcntl_wrong set_fd fd1 fd2
    then stopped exits
    else (if ltb_ℤ epoll_fd (pos 0)
        then stopped exits
        else loop (round fd1 fd2) answers (start fd1 fd2 memory12 memory21))

unfoldable pub main : (ℤ → ℤ) → ℤ → ℤ → ℤ → Fsm → Fsm → List Answers → Run
main set_fd epoll_fd fd1 fd2 memory12 memory21 answers = elim (open_both fd1 fd2) [
  | none ↦ stopped exits
  | some (a, b) ↦ transport set_fd epoll_fd a b memory12 memory21 answers
]
