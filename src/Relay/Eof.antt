-- ===== src/Relay/Eof.antt =====
-- advancdIO/mycpy.c: a relay of two files that are at their end.
use lhq_linux_c.Base.{
  ℕ, zero, suc, ◌≡◌, refl, ap, ◌∙◌, true, false, ◌&&◌, List, [], ◌∷◌, ◌++◌, replicate, ℤ, pos,
  negsuc,
}
use lhq_linux_c.Relay.{
  state_rd, state_end, Answer, done, failed, Fsm, Io, Relay, next, goes, returned, bufsize, branch,
  branch_rd, branch12, branch21, branch_both, is_end, loop, start, fcntl_wrong,
}
use lhq_linux_c.Relay.Copy
use lhq_linux_c.Relay.Idle.{Fresh}

-- The two reads of a round answer `x` and `y`.
pub record Reads (a : Io × Io) (fd1 fd2 : ℤ) (x y : Answer (List ℕ)) : Type 0 where
  pub read12 : (a.0).read_fd fd1 bufsize ≡ x
  pub read21 : (a.1).read_fd fd2 bufsize ≡ y

branch_again :
    (io : Io) (f : Fsm)
    → f.state ≡ state_rd
    → io.read_fd f.fds bufsize ≡ failed true
    → branch io f ≡ goes [] (record f { len = negsuc 0; state = state_rd })
unfolding branch branch_rd
branch_again io f s e = rw (branch, s, e, branch_rd) refl

branch_eof :
    (io : Io) (f : Fsm)
    → f.state ≡ state_rd
    → io.read_fd f.fds bufsize ≡ done []
    → branch io f ≡ goes [] (record f { len = pos 0; state = state_end })
unfolding branch branch_rd
branch_eof io f s e = rw (branch, s, e, branch_rd) refl

one :
    (io : Io) (r : Relay) (f : Fsm)
    → branch io r.fsm12 ≡ goes [] f
    → branch12 io r ≡ next (record r { fsm12 = f; written = r.written ++ [] })
unfolding branch12
one io r f e = rw (branch12, e) refl

two :
    (io : Io) (r : Relay) (f : Fsm)
    → branch io r.fsm21 ≡ goes [] f
    → branch21 io r ≡ next (record r { fsm21 = f; written = r.written ++ [] })
unfolding branch21
two io r f e = rw (branch21, e) refl

append-[]-right : (xs : List ℕ) → xs ++ [] ≡ xs
append-[]-right [] = refl
append-[]-right (x ∷ xs) = ap (λ ys. x ∷ ys) (append-[]-right xs)

round_goes :
    (a : Io × Io) (r : Relay) (f g : Fsm)
    → branch (a.0) r.fsm12 ≡ goes [] f
    → branch (a.1) r.fsm21 ≡ goes [] g
    → Copy.round a r ≡ next (record { fsm12 = f; fsm21 = g; written = r.written })
unfolding Copy.round branch_both
round_goes (io12, io21) r f g e h =
    rw
      (
        Copy.round,
        branch_both,
        one io12 r f e,
        two io21 (record r { fsm12 = f; written = r.written ++ [] }) g h,
      )
      (ap (λ w. next (record { fsm12 = f; fsm21 = g; written = w }))
        (append-[]-right (r.written ++ []) ∙ append-[]-right r.written))

reading : (r : Relay) → Fresh r → (is_end r.fsm12.state && is_end r.fsm21.state) ≡ false
reading r (s, t) = rw s refl

loop-round :
    (a : Io × Io) (answers : List (Io × Io)) (r r' : Relay)
    → Fresh r
    → Copy.round a r ≡ next r'
    → loop Copy.round (a ∷ answers) r ≡ loop Copy.round answers r'
unfolding loop
loop-round a answers r r' h e = rw (reading r h, e) refl

loop_ended :
    (answers : List (Io × Io)) (r : Relay)
    → (is_end r.fsm12.state && is_end r.fsm21.state) ≡ true
    → loop Copy.round answers r ≡ returned r
unfolding loop
loop_ended [] r e = rw e refl
loop_ended (a ∷ answers) r e = rw e refl

waits_then_ends :
    (k : ℕ) (waits ends : Io × Io) (more : List (Io × Io)) (r : Relay)
    → Fresh r
    → Reads waits r.fsm12.fds r.fsm21.fds (failed true) (failed true)
    → Reads ends r.fsm12.fds r.fsm21.fds (done []) (done [])
    → (r' : Relay) × (loop Copy.round (replicate k waits ++ ends ∷ more) r ≡ returned r')
      × (r'.written ≡ r.written)
waits_then_ends zero waits ends more r (s, t) w e =
    let f : Fsm = record r.fsm12 { len = pos 0; state = state_end } in
    let g : Fsm = record r.fsm21 { len = pos 0; state = state_end } in
    let r' : Relay = record { fsm12 = f; fsm21 = g; written = r.written } in
    (
      r',
      loop-round ends more r r' (s, t)
            (round_goes ends r f g (branch_eof (ends.0) r.fsm12 s e.read12)
              (branch_eof (ends.1) r.fsm21 t e.read21))
          ∙ loop_ended more r' refl,
      refl,
    )
waits_then_ends (suc k) waits ends more r (s, t) w e =
    let f : Fsm = record r.fsm12 { len = negsuc 0; state = state_rd } in
    let g : Fsm = record r.fsm21 { len = negsuc 0; state = state_rd } in
    let r' : Relay = record { fsm12 = f; fsm21 = g; written = r.written } in
    let (last, run, kept) =
      waits_then_ends k waits ends more r' (refl, refl)
        (record { read12 = w.read12; read21 = w.read21 })
        (record { read12 = e.read12; read21 = e.read21 }) in
    (
      last,
      loop-round waits (replicate k waits ++ ends ∷ more) r r' (s, t)
            (round_goes waits r f g (branch_again (waits.0) r.fsm12 s w.read12)
              (branch_again (waits.1) r.fsm21 t w.read21))
          ∙ run,
      kept,
    )

-- If both reads answer EAGAIN for k rounds and then the end of the file, transport of mycpy.c
-- returns, and nothing was written.
pub eof_returns :
    (set_fd : ℤ → ℤ) (fd1 fd2 : ℤ) (memory12 memory21 : Fsm) (k : ℕ) (waits ends : Io × Io)
    (more : List (Io × Io))
    → fcntl_wrong set_fd fd1 fd2 ≡ false
    → Reads waits fd1 fd2 (failed true) (failed true)
    → Reads ends fd1 fd2 (done []) (done [])
    → (r : Relay) × (Copy.transport set_fd fd1 fd2 memory12 memory21
          (replicate k waits ++ ends ∷ more)
        ≡ returned r)
      × (r.written ≡ [])
unfolding Copy.transport start
eof_returns set_fd fd1 fd2 m12 m21 k waits ends more c w e = rw c (
    waits_then_ends k waits ends more (start fd1 fd2 m12 m21) (refl, refl)
      (record { read12 = w.read12; read21 = w.read21 })
      (record { read12 = e.read12; read21 = e.read21 }))
