-- ===== src/Relay/Tests.antt =====
-- Tests of the relays, and their theorems at concrete inputs.
use lhq_linux_c.Base.{
  ℕ, zero, suc, ◌≤◌, ◌≡◌, refl, subst, ◌⊎◌, true, false, none, List, [], ◌∷◌, ◌++◌, arith, ◌==◌,
  if◌then◌else◌, length, replicate, length-replicate, ℤ, pos,
}
use lhq_linux_c.Relay.{
  State, state_rd, state_wr, state_end, state_err, Answer, done, failed, Fsm, Io, Events, Relay,
  Round, stops, next, Step, halts, goes, outside, exits, Stop, Run, stopped, running, returned,
  bufsize, branch, loop, start, fcntl_wrong,
}
use lhq_linux_c.Relay.Copy
use lhq_linux_c.Relay.Select
use lhq_linux_c.Relay.Poll
use lhq_linux_c.Relay.Epoll
use lhq_linux_c.Relay.Branch.{StepOk, branch_lem}
use lhq_linux_c.Relay.Writes.{second_write_outside}
use lhq_linux_c.Relay.Returns.{copy_quiet, select_quiet, poll_quiet}
use lhq_linux_c.Relay.Idle.{Fresh, poll_misses, epoll_never_relays}
use lhq_linux_c.Relay.Eof.{eof_returns}

-- `write` takes the first byte; `read` answers the end of the file, EAGAIN, or two bytes.
abbrev one_byte : ℤ → List ℕ → Answer ℕ
one_byte fd [] = failed true
one_byte fd (x ∷ xs) = done 1

one_byte_within : (fd : ℤ) (bs : List ℕ) (n : ℕ) → one_byte fd bs ≡ done n → n ≤ length bs
one_byte_within fd [] n e = absurd cc
one_byte_within fd (x ∷ xs) n e = let q : 1 ≡ n = cc in omega (arith, q)

eof_within : (fd : ℤ) (n : ℕ) (bs : List ℕ) → done [] ≡ done bs → length bs ≤ n
eof_within fd n bs e = let q : [] ≡ bs = cc in subst (λ xs. length xs ≤ n) q (omega arith)

abbrev again : Answer (List ℕ)
again = failed true

again_within : (fd : ℤ) (n : ℕ) (bs : List ℕ) → again ≡ done bs → length bs ≤ n
again_within fd n bs e = absurd cc

abbrev at_eof : Io
at_eof = record {
  read_fd = λ fd n. done [];
  write_fd = one_byte;
  read_within = eof_within;
  write_within = one_byte_within;
}

abbrev not_ready : Io
not_ready = record {
  read_fd = λ fd n. again;
  write_fd = one_byte;
  read_within = again_within;
  write_within = one_byte_within;
}

abbrev memory : Fsm
memory = record {
  state = state_err;
  fds = pos 0;
  fdd = pos 0;
  buf = 7 ∷ replicate 1023 7;
  len = pos 9;
  pos = pos 5;
  strerr = none;
}

abbrev ended : Fsm
ended = record memory { fds = pos 3; fdd = pos 4; len = pos 0; state = state_end }

abbrev ended_back : Fsm
ended_back = record memory { fds = pos 4; fdd = pos 3; len = pos 0; state = state_end }

abbrev both_ended : Relay
both_ended = record { fsm12 = ended; fsm21 = ended_back; written = [] }

abbrev fcntl_ok : ℤ → ℤ
fcntl_ok fd = pos 0

copy_run :
    Copy.transport fcntl_ok (pos 3) (pos 4) memory memory ((at_eof, at_eof) ∷ [])
    ≡ returned both_ended
unfolding Copy.transport Copy.round loop start lhq_linux_c.Relay.branch_both
    lhq_linux_c.Relay.branch12 lhq_linux_c.Relay.branch21 branch lhq_linux_c.Relay.branch_rd
copy_run = refl

copy_quiet_example : both_ended.written ≡ []
copy_quiet_example =
    copy_quiet fcntl_ok (pos 3) (pos 4) memory memory ((at_eof, at_eof) ∷ []) both_ended copy_run

abbrev no_event : Events
no_event = record { input = false; output = false }

abbrev may_read : Events
may_read = record { input = true; output = false }

abbrev select_both : Select.Answers
select_both = record { selects = λ n rd wr. Select.ready rd wr; io12 = at_eof; io21 = at_eof }

-- The first call of `poll` is interrupted.
abbrev poll_twice : Poll.Answers
poll_twice = record {
  tries = 2;
  poll_call = λ e1 e2 i. if i == 0 then Poll.error true else Poll.ready may_read may_read;
  io12 = at_eof;
  io21 = at_eof;
}

select_run :
    Select.transport fcntl_ok (pos 3) (pos 4) memory memory (select_both ∷ []) ≡ returned both_ended
unfolding Select.transport Select.round Select.feedback Select.rdf Select.wrf loop start
    lhq_linux_c.Relay.branch_both lhq_linux_c.Relay.branch12 lhq_linux_c.Relay.branch21 branch
    lhq_linux_c.Relay.branch_rd
select_run = refl

select_quiet_test : both_ended.written ≡ []
select_quiet_test =
    select_quiet fcntl_ok (pos 3) (pos 4) memory memory (select_both ∷ []) both_ended select_run

poll_run :
    Poll.transport fcntl_ok (pos 3) (pos 4) memory memory (poll_twice ∷ []) ≡ returned both_ended
unfolding Poll.transport Poll.round Poll.poll_from Poll.feedback loop start
    lhq_linux_c.Relay.branch_both lhq_linux_c.Relay.branch12 lhq_linux_c.Relay.branch21 branch
    lhq_linux_c.Relay.branch_rd
poll_run = refl

poll_quiet_test : both_ended.written ≡ []
poll_quiet_test =
    poll_quiet fcntl_ok (pos 3) (pos 4) memory memory (poll_twice ∷ []) both_ended poll_run

abbrev full : Fsm
full = record memory { state = state_wr; pos = pos 0 }

sevens : length full.buf ≡ 1024
sevens = let seven : ℕ = 7 in omega (arith, length-replicate 1023 seven)

second_write_outside_example :
    (f' : Fsm) × (branch at_eof full ≡ goes (7 ∷ []) f')
    × (f'.state ≡ state_wr)
    × ((io' : Io) → branch io' f' ≡ halts outside)
second_write_outside_example =
    second_write_outside at_eof 0 full refl refl (omega (arith, sevens)) refl

branch_test : StepOk state_wr (branch at_eof full)
branch_test = branch_lem at_eof full

abbrev fresh : Relay
fresh = start (pos 3) (pos 4) memory memory

fresh-Fresh : Fresh fresh
unfolding start
fresh-Fresh = (refl, refl)

poll_misses_test : Poll.feedback poll_twice no_event may_read fresh ≡ next fresh
poll_misses_test = poll_misses poll_twice no_event may_read fresh fresh-Fresh refl refl

eof_returns_test :
    (r : Relay) × (Copy.transport fcntl_ok
        (pos 3)
        (pos 4)
        memory
        memory
        (replicate 2 (not_ready, not_ready) ++ (at_eof, at_eof) ∷ [])
      ≡ returned r)
    × (r.written ≡ [])
eof_returns_test =
    eof_returns fcntl_ok (pos 3) (pos 4) memory memory 2 (not_ready, not_ready) (at_eof, at_eof) []
      refl (record { read12 = refl; read21 = refl }) (record { read12 = refl; read21 = refl })

-- The first call of `epoll_wait` is interrupted; the second reports what is watched of fd 3.
abbrev hang_call : (ℤ → Events) → ℕ → Epoll.Waited
hang_call watch zero = Epoll.error true
hang_call watch (suc i) = Epoll.happens (record { fd = pos 3; events = watch (pos 3) })

hang_input :
    (watch : ℤ → Events) (i : ℕ) (e : Epoll.Event)
    → hang_call watch i ≡ Epoll.happens e
    → e.events.input ≡ true
    → (watch e.fd).input ≡ true
hang_input watch zero e h = absurd cc
hang_input watch (suc i) e h =
    let ev : Epoll.Event = record { fd = pos 3; events = watch (pos 3) } in
    let q : ev ≡ e = cc in subst (λ x. x.events.input ≡ true → (watch x.fd).input ≡ true) q (λ t. t)

hang_output :
    (watch : ℤ → Events) (i : ℕ) (e : Epoll.Event)
    → hang_call watch i ≡ Epoll.happens e
    → e.events.output ≡ true
    → (watch e.fd).output ≡ true
hang_output watch zero e h = absurd cc
hang_output watch (suc i) e h =
    let ev : Epoll.Event = record { fd = pos 3; events = watch (pos 3) } in
    let q : ev ≡ e = cc in
    subst (λ x. x.events.output ≡ true → (watch x.fd).output ≡ true) q (λ t. t)

abbrev hang_up : Epoll.Answers
hang_up = record {
  tries = 2;
  wait_call = hang_call;
  watched_input = hang_input;
  watched_output = hang_output;
  io12 = at_eof;
  io21 = at_eof;
}

epoll_never_relays_example :
    ((why : Stop) × (Epoll.transport fcntl_ok (pos 5) (pos 3) (pos 4) memory memory (hang_up ∷ [])
        ≡ stopped why))
    ⊎ (Epoll.transport fcntl_ok (pos 5) (pos 3) (pos 4) memory memory (hang_up ∷ [])
        ≡ running (start (pos 3) (pos 4) memory memory))
epoll_never_relays_example =
    epoll_never_relays fcntl_ok (pos 5) (pos 3) (pos 4) memory memory (hang_up ∷ [])
