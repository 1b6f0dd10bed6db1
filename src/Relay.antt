-- ===== src/Relay.antt =====
-- advancdIO/mycpy.c, select.c, poll.c and epoll.c: the relay of bytes between two terminals. The
-- four programs have the same `struct fsm_st` and the same `branch`, which stand here; the loop of
-- `transport` of each is a child module. What the system answers to a call is an argument.
pub mod Branch
pub mod Writes
pub mod Idle
pub mod Eof
pub mod Rounds
pub mod Returns
pub mod Copy
pub mod Select
pub mod Poll
pub mod Epoll
mod Tests
use lhq_linux_c.Base.{
  ℕ, zero, suc, ◌+◌, ◌-◌, ◌*◌, ◌/◌, ◌%◌, ◌^◌, ◌≤◌, ◌<◌, ◌≡◌, refl, sym, ap, ap₂, ◌∙◌, subst,
  fun_ext, ◌≢◌, ◌⊎◌, inl, inr, ◌↔◌, Bool, true, false, ◌&&◌, ◌||◌, not, Option, none, some, List,
  [], ◌∷◌, ◌++◌, map, arith, ltb, leb, ◌==◌, if◌then◌else◌, ltb→lt, lt→ltb, ==_iff, tests,
  Bool-cases, Option-cases, update, length, get_elem?, set, take, drop, replicate, length-append,
  length-set, length-replicate, length-take, length-drop, get_elem?-set_self, get_elem?-set_ne,
  lt_of_get_elem?, take-append, drop-append, take-append-drop, get_elem?-of_lt, ℤ, pos, negsuc,
  pos_part, neg_part, sub_ℕ, ◌≤ℤ◌, ◌<ℤ◌, ltb_ℤ, eqb_ℤ, leb_ℤ, wrap_int, ◌+ℤ◌, ◌-ℤ◌, IsInt, +ℤ_parts,
  -ℤ_parts, +ℤ-IsInt, -ℤ-IsInt, eq_of_parts, int_laws, first_free, Full, first_free_cases,
}

abbrev pub bufsize : ℕ
bufsize = 1024

-- `state_divide` is not a state of mycpy.c.
pub data State : Type 0 where
  state_wr : State
  state_rd : State
  state_divide : State
  state_end : State
  state_err : State

-- The value of a state, for the tests `<` and `>` of select.c, poll.c and epoll.c.
abbrev pub code : State → ℕ
code state_wr = 1
code state_rd = 2
code state_divide = 3
code state_end = 4
code state_err = 5

abbrev pub is_end : State → Bool
is_end state_end = true
is_end state_wr = false
is_end state_rd = false
is_end state_divide = false
is_end state_err = false

-- `struct fsm_st`; `strerr` is the name of the call that failed.
pub record Fsm : Type 0 where
  pub state : State
  pub fds : ℤ
  pub fdd : ℤ
  pub buf : List ℕ
  pub len : ℤ
  pub pos : ℤ
  pub strerr : Option (List ℕ)

-- An answer of `read` or `write`: an error, which is EAGAIN or not, or what was transferred.
pub data Answer {ℓ} (A : Type ℓ) : Type ℓ where
  failed : Bool → Answer A
  done : A → Answer A

-- The calls that one run of `branch` may make.
pub record Io : Type 0 where
  pub read_fd : ℤ → ℕ → Answer (List ℕ)
  pub write_fd : ℤ → List ℕ → Answer ℕ
  pub read_within : (fd : ℤ) (n : ℕ) (bs : List ℕ) → read_fd fd n ≡ done bs → length bs ≤ n
  pub write_within : (fd : ℤ) (bs : List ℕ) (n : ℕ) → write_fd fd bs ≡ done n → n ≤ length bs

-- How the process stops: `abort`, a read outside `buf`, `exit`, or a call that does not return.
pub data Stop : Type 0 where
  aborts : Stop
  outside : Stop
  exits : Stop
  blocks : Stop

-- The bits of an event mask that the programs use: POLLIN and POLLOUT, or EPOLLIN and EPOLLOUT.
pub record Events : Type 0 where
  pub input : Bool
  pub output : Bool

-- `events |= POLLIN` in STATE_RD, `events |= POLLOUT` in STATE_WR.
unfoldable pub wanted : State → Events
wanted s = record { input = code s == 2; output = code s == 1 }

-- The end of `branch`: with the bytes that were written.
pub data Step : Type 0 where
  halts : Stop → Step
  goes : List ℕ → Fsm → Step

-- The BUFSIZE bytes from `buf + pos`, where they are all in `buf`.
unfoldable pub chunk : Fsm → Option (List ℕ)
chunk f =
    if leb_ℤ (pos 0) f.pos && leb (pos_part f.pos + bufsize) (length f.buf)
    then some (take bufsize (drop (pos_part f.pos) f.buf))
    else none

-- The case STATE_RD: what was read is at the front of `buf`.
unfoldable pub branch_rd : Answer (List ℕ) → Fsm → Step
branch_rd (done []) f = goes [] (record f { len = pos 0; state = state_end })
branch_rd (done (x ∷ xs)) f = goes [] (record f {
  state = state_wr;
  buf = (x ∷ xs) ++ drop (length (x ∷ xs)) f.buf;
  len = pos (length (x ∷ xs));
  pos = pos 0;
})
branch_rd (failed true) f = goes [] (record f { len = negsuc 0; state = state_rd })
branch_rd (failed false) f = goes [] (record f {
  len = negsuc 0;
  state = state_err;
  strerr = some (b'r' ∷ b'e' ∷ b'a' ∷ b'd' ∷ b'(' ∷ b')' ∷ []);
})

-- The case STATE_WR, for what `write` answers on `bytes`; the test `ret == 0` inside `ret > 0` is kept.
unfoldable pub branch_wr : List ℕ → Answer ℕ → Fsm → Step
branch_wr bytes (failed true) f = goes [] (record f { state = state_wr })
branch_wr bytes (failed false) f = goes [] (record f {
  state = state_err;
  strerr = some (b'w' ∷ b'r' ∷ b'i' ∷ b't' ∷ b'e' ∷ b'(' ∷ b')' ∷ []);
})
branch_wr bytes (done n) f =
    if ltb 0 n
    then goes (take n bytes) (record f {
      len = f.len -ℤ pos n;
      pos = f.pos +ℤ pos n;
      state = if n == 0 then state_rd else state_wr;
    })
    else goes [] f

unfoldable pub branch : Io → Fsm → Step
branch io f = elim f.state [
  | state_rd ↦ branch_rd (io.read_fd f.fds bufsize) f
  | state_wr ↦ elim (chunk f) [
    | none ↦ halts outside
    | some bytes ↦ branch_wr bytes (io.write_fd f.fdd bytes) f
  ]
  | state_end ↦ goes [] f
  | state_err ↦ goes [] f
  | state_divide ↦ halts aborts
]

-- The two machines of `transport`, and the bytes that were written so far.
pub record Relay : Type 0 where
  pub fsm12 : Fsm
  pub fsm21 : Fsm
  pub written : List ℕ

-- What one round of the loop does.
pub data Round : Type 0 where
  stops : Stop → Round
  next : Relay → Round

unfoldable pub branch12 : Io → Relay → Round
branch12 io r = elim (branch io r.fsm12) [
  | halts s ↦ stops s
  | goes w f ↦ next (record r { fsm12 = f; written = r.written ++ w })
]

unfoldable pub branch21 : Io → Relay → Round
branch21 io r = elim (branch io r.fsm21) [
  | halts s ↦ stops s
  | goes w f ↦ next (record r { fsm21 = f; written = r.written ++ w })
]

-- `if (...) branch(&fsm12); if (...) branch(&fsm21);`
unfoldable pub branch_both : Bool → Bool → Io → Io → Relay → Round
branch_both go12 go21 io12 io21 r = elim (if go12 then branch12 io12 r else next r) [
  | stops s ↦ stops s
  | next r' ↦ if go21 then branch21 io21 r' else next r'
]

-- The end of a run of `transport`; `running` is a run whose answers are used up.
pub data Run : Type 0 where
  stopped : Stop → Run
  running : Relay → Run
  returned : Relay → Run

-- `while (fsm12.state != STATE_END || fsm21.state != STATE_END)`, a round for each answer.
unfoldable pub loop : {A : Type 0} → (A → Relay → Round) → List A → Relay → Run
loop round [] r = if is_end r.fsm12.state && is_end r.fsm21.state then returned r else running r
loop round (a ∷ answers) r =
    if is_end r.fsm12.state && is_end r.fsm21.state
    then returned r
    else (elim (round a r) [ stops s ↦ stopped s | next r' ↦ loop round answers r' ])

-- The machines before the loop; the other fields hold what the memory holds.
unfoldable pub start : ℤ → ℤ → Fsm → Fsm → Relay
start fd1 fd2 memory12 memory21 = record {
  fsm12 = record memory12 { fds = fd1; fdd = fd2; state = state_rd };
  fsm21 = record memory21 { fds = fd2; fdd = fd1; state = state_rd };
  written = [];
}

-- The test behind the calls of `fcntl`, for what F_SETFD answers.
abbrev pub fcntl_wrong : (ℤ → ℤ) → ℤ → ℤ → Bool
fcntl_wrong set_fd fd1 fd2 =
    if eqb_ℤ (set_fd fd1) (pos 0) then not (eqb_ℤ (set_fd fd2) (pos 0)) else true

-- `main`: the descriptors that reach `transport`, or none, for what `open` answers.
unfoldable pub open_both : ℤ → ℤ → Option (ℤ × ℤ)
open_both fd1 fd2 =
    if ltb_ℤ fd1 (pos 0) then none else (if ltb_ℤ fd1 (pos 0) then none else some (fd1, fd2))
