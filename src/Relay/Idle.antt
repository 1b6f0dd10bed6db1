-- ===== src/Relay/Idle.antt =====
-- advancdIO: what the relays do without data.
use lhq_linux_c.Base.{
  ℕ, zero, suc, ◌≡◌, refl, ◌≢◌, ◌⊎◌, inl, inr, Bool, true, false, ◌&&◌, ◌||◌, List, [], ◌∷◌, ltb,
  Bool-cases, ℤ, pos, ltb_ℤ, eqb_ℤ,
}
use lhq_linux_c.Relay.{
  state_rd, Fsm, Events, Relay, Round, stops, next, Stop, exits, code, Run, stopped, running,
  branch_both, is_end, loop, start, fcntl_wrong,
}
use Prim.{Unit, tt}
use lhq_linux_c.Relay.Poll
use lhq_linux_c.Relay.Epoll

-- What a relay does that has done nothing yet: its machines read.
abbrev pub Fresh : Relay → Type 0
Fresh r = (r.fsm12.state ≡ state_rd) × (r.fsm21.state ≡ state_rd)

-- A round of poll.c in which only fd2 can be read or fd1 can be written does nothing, since the
-- test for fsm21 is the test for fsm12.
pub poll_misses :
    (a : Poll.Answers) (rev1 rev2 : Events) (r : Relay)
    → Fresh r
    → rev1.input ≡ false
    → rev2.output ≡ false
    → Poll.feedback a rev1 rev2 r ≡ next r
unfolding Poll.feedback branch_both
poll_misses a rev1 rev2 r (s, t) i o = rw (s, t, i, o) refl

and_false : (b c : Bool) → c ≡ false → (b && c) ≡ false
and_false true c e = e
and_false false c e = refl

epoll_none :
    (fd1 fd2 : ℤ) (a : Epoll.Answers) (e : Epoll.Event) (r : Relay)
    → Fresh r
    → e.events.input ≡ false
    → e.events.output ≡ false
    → Epoll.feedback fd1 fd2 a e r ≡ next r
unfolding Epoll.feedback branch_both
epoll_none fd1 fd2 a e r (s, t) i o =
    rw
      (
        and_false (eqb_ℤ e.fd fd1) e.events.input i,
        and_false (eqb_ℤ e.fd fd2) e.events.output o,
        and_false (eqb_ℤ e.fd fd2) e.events.input i,
        and_false (eqb_ℤ e.fd fd1) e.events.output o,
        s,
        t,
      )
      refl

-- A round that stops the process or changes nothing.
pub Nothing : Relay → Round → Type 0
Nothing r (stops why) = Unit
Nothing r (next r') = r' ≡ r

Nothing-next : (r : Relay) (o : Round) → o ≡ next r → Nothing r o
unfolding Nothing
Nothing-next r o e = rw e refl

not_true : (b : Bool) → b ≢ true → b ≡ false
not_true true h = absurd (h refl)
not_true false h = refl

reported :
    (i : ℕ) (fd1 fd2 : ℤ) (a : Epoll.Answers) (e : Epoll.Event) (r : Relay)
    → Fresh r
    → a.wait_call Epoll.interest i ≡ Epoll.happens e
    → Epoll.feedback fd1 fd2 a e r ≡ next r
unfolding Epoll.interest
reported i fd1 fd2 a e r h w =
    epoll_none fd1 fd2 a e r h
      (not_true e.events.input
        (λ t. let q : false ≡ true = a.watched_input Epoll.interest i e w t in absurd cc))
      (not_true e.events.output
        (λ t. let q : false ≡ true = a.watched_output Epoll.interest i e w t in absurd cc))

waited :
    (n i : ℕ) (fd1 fd2 : ℤ) (a : Epoll.Answers) (r : Relay) (w : Epoll.Waited)
    → Fresh r
    → a.wait_call Epoll.interest i ≡ w
    → Nothing r (Epoll.wait_from n (suc i) fd1 fd2 a r)
    → Nothing r (elim w [
      | Epoll.error true ↦ Epoll.wait_from n (suc i) fd1 fd2 a r
      | Epoll.error false ↦ stops exits
      | Epoll.happens e ↦ Epoll.feedback fd1 fd2 a e r
    ])
unfolding Nothing
waited n i fd1 fd2 a r (Epoll.error true) h e rest = rest
waited n i fd1 fd2 a r (Epoll.error false) h e rest = tt
waited n i fd1 fd2 a r (Epoll.happens ev) h e rest =
    Nothing-next r (Epoll.feedback fd1 fd2 a ev r) (reported i fd1 fd2 a ev r h e)

epoll_wait_none :
    (n i : ℕ) (fd1 fd2 : ℤ) (a : Epoll.Answers) (r : Relay)
    → Fresh r
    → Nothing r (Epoll.wait_from n i fd1 fd2 a r)
unfolding Epoll.wait_from Nothing
epoll_wait_none zero i fd1 fd2 a r h = tt
epoll_wait_none (suc n) i fd1 fd2 a r h =
    waited n i fd1 fd2 a r (a.wait_call Epoll.interest i) h refl
      (epoll_wait_none n (suc i) fd1 fd2 a r h)

epoll_round :
    (fd1 fd2 : ℤ) (a : Epoll.Answers) (r : Relay) → Fresh r → Nothing r (Epoll.round fd1 fd2 a r)
unfolding Epoll.round
epoll_round fd1 fd2 a r (s, t) =
    let c : (ltb (code r.fsm12.state) 3 || ltb (code r.fsm21.state) 3) ≡ true = rw s refl in
    rw c (epoll_wait_none a.tries 0 fd1 fd2 a r (s, t))

-- The run has stopped the process, or it goes on at `r`.
pub Idle : Relay → Run → Type 0
Idle r run = ((why : Stop) × (run ≡ stopped why)) ⊎ (run ≡ running r)

after :
    (fd1 fd2 : ℤ) (answers : List Epoll.Answers) (r : Relay) (o : Round)
    → Nothing r o
    → Idle r (loop (Epoll.round fd1 fd2) answers r)
    → Idle r (elim o [ stops s ↦ stopped s | next r' ↦ loop (Epoll.round fd1 fd2) answers r' ])
unfolding Nothing Idle
after fd1 fd2 answers r (stops why) h rest = inl (why, refl)
after fd1 fd2 answers r (next r') h rest = rw h rest

reading : (r : Relay) → Fresh r → (is_end r.fsm12.state && is_end r.fsm21.state) ≡ false
reading r (s, t) = rw s refl

epoll_loop :
    (fd1 fd2 : ℤ) (answers : List Epoll.Answers) (r : Relay)
    → Fresh r
    → Idle r (loop (Epoll.round fd1 fd2) answers r)
unfolding loop Idle
epoll_loop fd1 fd2 [] r h = inr (rw (reading r h) refl)
epoll_loop fd1 fd2 (a ∷ answers) r h =
    let rest : Idle r (loop (Epoll.round fd1 fd2) answers r) = epoll_loop fd1 fd2 answers r h in
    rw (reading r h)
      (after fd1 fd2 answers r (Epoll.round fd1 fd2 a r) (epoll_round fd1 fd2 a r h) rest)

-- transport of epoll.c moves no byte, whatever arrives: every run either stops the process or goes
-- on with both machines as they were before the loop.
pub epoll_never_relays :
    (set_fd : ℤ → ℤ) (epoll_fd fd1 fd2 : ℤ) (memory12 memory21 : Fsm) (answers : List Epoll.Answers)
    → ((why : Stop) × (Epoll.transport set_fd epoll_fd fd1 fd2 memory12 memory21 answers
          ≡ stopped why))
      ⊎ (Epoll.transport set_fd epoll_fd fd1 fd2 memory12 memory21 answers
          ≡ running (start fd1 fd2 memory12 memory21))
unfolding Epoll.transport start Idle
epoll_never_relays set_fd epoll_fd fd1 fd2 m12 m21 answers =
    elim (Bool-cases (fcntl_wrong set_fd fd1 fd2)) [
      | inl e ↦ inl (exits, rw e refl)
      | inr e ↦ elim (Bool-cases (ltb_ℤ epoll_fd (pos 0))) [
        | inl n ↦ inl (exits, rw (e, n) refl)
        | inr n ↦ rw (e, n) (epoll_loop fd1 fd2 answers (start fd1 fd2 m12 m21) (refl, refl))
      ]
    ]
