-- ===== src/Relay/Rounds.antt =====
-- advancdIO: what the rounds of every relay keep, and what a relay that returns has done.
use lhq_linux_c.Base.{
  ℕ, ◌≡◌, refl, subst, ◌≢◌, ◌⊎◌, inl, inr, Bool, true, false, ◌&&◌, List, [], ◌∷◌, ◌++◌,
  if◌then◌else◌, Bool-cases,
}
use Prim.{Unit, tt}
use lhq_linux_c.Relay.{
  State, state_rd, state_wr, state_end, state_divide, state_err, Io, Relay, Round, stops, next,
  Step, halts, goes, Run, stopped, running, returned, is_end, branch, branch12, branch21,
  branch_both, loop,
}
use lhq_linux_c.Relay.Branch.{Moves, IsStuck, StepOk, branch_lem, IsStuck-forever}

-- No byte is written, or a machine has read something or failed.
pub Quiet : Relay → Type 0
Quiet r = (r.written ≡ []) ⊎ IsStuck r.fsm12.state ⊎ IsStuck r.fsm21.state

-- What a round keeps.
pub record Keeps (r r' : Relay) : Type 0 where
  pub quiet : Quiet r → Quiet r'
  pub stuck12 : IsStuck r.fsm12.state → IsStuck r'.fsm12.state
  pub stuck21 : IsStuck r.fsm21.state → IsStuck r'.fsm21.state

unfoldable pub RoundOk : Relay → Round → Type 0
RoundOk r (stops why) = Unit
RoundOk r (next r') = Keeps r r'

Keeps-refl : (r : Relay) → Keeps r r
Keeps-refl r = record { quiet = λ h. h; stuck12 = λ h. h; stuck21 = λ h. h }

Keeps-Keeps : {r s t : Relay} → Keeps r s → Keeps s t → Keeps r t
Keeps-Keeps k h = record {
  quiet = λ q. h.quiet (k.quiet q);
  stuck12 = λ q. h.stuck12 (k.stuck12 q);
  stuck21 = λ q. h.stuck21 (k.stuck21 q);
}

Keeps-trans : (r : Relay) {s : Relay} (o : Round) → Keeps r s → RoundOk s o → RoundOk r o
unfolding RoundOk
Keeps-trans r (stops why) k h = tt
Keeps-trans r (next t) k h = Keeps-Keeps k h

append-[] : (xs w : List ℕ) → xs ≡ [] → w ≡ [] → xs ++ w ≡ []
append-[] xs w e h = rw (e, h) refl

quiet_next :
    (ws w : List ℕ) (s s' : State) (Other : Type 0)
    → Moves s s'
    → ((w ≡ []) ⊎ IsStuck s)
    → ((ws ≡ []) ⊎ IsStuck s ⊎ Other)
    → (ws ++ w ≡ []) ⊎ IsStuck s' ⊎ Other
quiet_next ws w s s' Other m h (inr (inl k)) = inr (inl (IsStuck-forever m k))
quiet_next ws w s s' Other m h (inr (inr k)) = inr (inr k)
quiet_next ws w s s' Other m (inr k) (inl e) = inr (inl (IsStuck-forever m k))
quiet_next ws w s s' Other m (inl z) (inl e) = inl (append-[] ws w e z)

swap : {A B C : Type 0} → A ⊎ B ⊎ C → A ⊎ C ⊎ B
swap (inl a) = inl a
swap (inr (inl b)) = inr (inr b)
swap (inr (inr c)) = inr (inl c)

step12 :
    (r : Relay) (s : Step)
    → StepOk r.fsm12.state s
    → RoundOk r (elim s [
      | halts why ↦ stops why
      | goes w f ↦ next (record r { fsm12 = f; written = r.written ++ w })
    ])
unfolding RoundOk StepOk Quiet
step12 r (halts why) h = tt
step12 r (goes w f) (m, h) = record {
  quiet = quiet_next r.written w r.fsm12.state f.state (IsStuck r.fsm21.state) m h;
  stuck12 = IsStuck-forever m;
  stuck21 = λ q. q;
}

step21 :
    (r : Relay) (s : Step)
    → StepOk r.fsm21.state s
    → RoundOk r (elim s [
      | halts why ↦ stops why
      | goes w f ↦ next (record r { fsm21 = f; written = r.written ++ w })
    ])
unfolding RoundOk StepOk Quiet
step21 r (halts why) h = tt
step21 r (goes w f) (m, h) = record {
  quiet =
      λ q. swap (quiet_next r.written w r.fsm21.state f.state (IsStuck r.fsm12.state) m h (swap q));
  stuck12 = λ q. q;
  stuck21 = IsStuck-forever m;
}

branch12_lem : (io : Io) (r : Relay) → RoundOk r (branch12 io r)
unfolding branch12
branch12_lem io r = step12 r (branch io r.fsm12) (branch_lem io r.fsm12)

branch21_lem : (io : Io) (r : Relay) → RoundOk r (branch21 io r)
unfolding branch21
branch21_lem io r = step21 r (branch io r.fsm21) (branch_lem io r.fsm21)

guarded : (go : Bool) (r : Relay) (o : Round) → RoundOk r o → RoundOk r (if go then o else next r)
unfolding RoundOk
guarded true r o h = h
guarded false r o h = Keeps-refl r

then21 :
    (go : Bool) (io : Io) (r : Relay) (o : Round)
    → RoundOk r o
    → RoundOk r (elim o [ stops s ↦ stops s | next r' ↦ if go then branch21 io r' else next r' ])
unfolding RoundOk
then21 go io r (stops why) h = tt
then21 go io r (next r') h =
    Keeps-trans r (if go then branch21 io r' else next r') h
      (guarded go r' (branch21 io r') (branch21_lem io r'))

pub branch_both_lem :
    (go12 go21 : Bool) (io12 io21 : Io) (r : Relay) → RoundOk r (branch_both go12 go21 io12 io21 r)
unfolding branch_both
branch_both_lem go12 go21 io12 io21 r =
    then21 go21 io21 r (if go12 then branch12 io12 r else next r)
      (guarded go12 r (branch12 io12 r) (branch12_lem io12 r))

abbrev BothEnd : Relay → Type 0
BothEnd r = (r.fsm12.state ≡ state_end) × (r.fsm21.state ≡ state_end)

-- What holds of the end of a run: a relay that returns is quiet, and neither machine is stuck.
pub RunOk : Relay → Run → Type 0
RunOk r (stopped why) = Unit
RunOk r (running r') = Unit
RunOk r (returned r') = Keeps r r' × BothEnd r'

is_end_iff : (s : State) → is_end s ≡ true → s ≡ state_end
is_end_iff state_end e = refl
is_end_iff state_wr e = absurd cc
is_end_iff state_rd e = absurd cc
is_end_iff state_divide e = absurd cc
is_end_iff state_err e = absurd cc

both_end :
    (s t : State) (a b : Bool)
    → is_end s ≡ a
    → is_end t ≡ b
    → (a && b) ≡ true
    → (s ≡ state_end) × (t ≡ state_end)
both_end s t true true ea eb e = (is_end_iff s ea, is_end_iff t eb)
both_end s t false b ea eb e = absurd cc
both_end s t true false ea eb e = absurd cc

run_trans : (r s : Relay) (x : Run) → Keeps r s → RunOk s x → RunOk r x
unfolding RunOk
run_trans r s (stopped why) k h = tt
run_trans r s (running t) k h = tt
run_trans r s (returned t) k (k', h) = (Keeps-Keeps k k', h)

go_on :
    {A : Type 0} (round : A → Relay → Round) (answers : List A) (r : Relay) (o : Round)
    → RoundOk r o
    → ((s : Relay) → RunOk s (loop round answers s))
    → RunOk r (elim o [ stops s ↦ stopped s | next r' ↦ loop round answers r' ])
unfolding RoundOk RunOk
go_on round answers r (stops why) k h = tt
go_on round answers r (next s) k h = run_trans r s (loop round answers s) k (h s)

loop_lem :
    {A : Type 0} (round : A → Relay → Round)
    → ((a : A) (r : Relay) → RoundOk r (round a r))
    → (answers : List A) (r : Relay) → RunOk r (loop round answers r)
unfolding loop RunOk
loop_lem round ok [] r = elim (Bool-cases (is_end r.fsm12.state && is_end r.fsm21.state)) [
  | inl e ↦ rw e (
    Keeps-refl r,
    both_end r.fsm12.state r.fsm21.state (is_end r.fsm12.state) (is_end r.fsm21.state) refl refl e,
  )
  | inr e ↦ rw e tt
]
loop_lem round ok (a ∷ answers) r =
    let rest : (s : Relay) → RunOk s (loop round answers s) = loop_lem round ok answers in
    elim (Bool-cases (is_end r.fsm12.state && is_end r.fsm21.state)) [
      | inl e ↦ rw e (
        Keeps-refl r,
        both_end r.fsm12.state r.fsm21.state (is_end r.fsm12.state) (is_end r.fsm21.state) refl refl
            e,
      )
      | inr e ↦ rw e (go_on round answers r (round a r) (ok a r) rest)
    ]

not_stuck : (s : State) → s ≡ state_end → IsStuck s → ⊥
not_stuck s e h = elim (subst IsStuck e h) [ ]

pub loop_quiet :
    {A : Type 0} (round : A → Relay → Round)
    → ((a : A) (r : Relay) → RoundOk r (round a r))
    → (answers : List A) (r r' : Relay) → r.written ≡ []
    → loop round answers r ≡ returned r'
    → r'.written ≡ []
unfolding RunOk Quiet
loop_quiet round ok answers r r' w e =
    let (k, (e12, e21)) = subst (RunOk r) e (loop_lem round ok answers r) in
    elim (k.quiet (inl w)) [
      | inl z ↦ z
      | inr (inl h) ↦ absurd (not_stuck r'.fsm12.state e12 h)
      | inr (inr h) ↦ absurd (not_stuck r'.fsm21.state e21 h)
    ]

pub loop_stuck :
    {A : Type 0} (round : A → Relay → Round)
    → ((a : A) (r : Relay) → RoundOk r (round a r))
    → (answers : List A) (r r' : Relay) → IsStuck r.fsm12.state ⊎ IsStuck r.fsm21.state
    → loop round answers r ≢ returned r'
unfolding RunOk
loop_stuck round ok answers r r' (inl h) e =
    let (k, (e12, e21)) = subst (RunOk r) e (loop_lem round ok answers r) in
    not_stuck r'.fsm12.state e12 (k.stuck12 h)
loop_stuck round ok answers r r' (inr h) e =
    let (k, (e12, e21)) = subst (RunOk r) e (loop_lem round ok answers r) in
    not_stuck r'.fsm21.state e21 (k.stuck21 h)
