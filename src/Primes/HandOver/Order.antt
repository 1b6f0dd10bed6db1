-- ===== src/Primes/HandOver/Order.antt =====
-- posix/ai.c: every number is in one place: not given yet, in the shared variable, with a thread, or
-- behind its test.
use Prim.{Unit, tt}
use lhq_linux_c.Base.{
  ℕ, zero, suc, ◌+◌, ◌≤◌, ◌≡◌, refl, inl, inr, Bool, true, false, ◌&&◌, ◌||◌, Option, none, some,
  List, [], ◌∷◌, arith, ltb, leb, ◌==◌, if◌then◌else◌, Option-cases, get_elem?, set,
}
use lhq_linux_c.Primes
use lhq_linux_c.Primes.HandOver.{
  System, Flag, Worker, ready, asleep, testing, exited, Main, gives, sleeps, joins, returned, left,
  right, Waiter, nobody, the_main, the_worker, rouse_main, sleeping, main_sleeping, some_sleeps,
  wake, wake_main, signal,
}

-- One for a number that is `x` and passes the test.
unfoldable pub hit : ℕ → ℕ → ℕ
hit x n = if n == x then (if Primes.flag x then 1 else 0) else 0

unfoldable pub weight : ℕ → Worker → ℕ
weight x ready = 0
weight x asleep = 0
weight x (testing n) = hit x n
weight x exited = 0

-- The threads that test `x`.
unfoldable pub busy : ℕ → List Worker → ℕ
busy x [] = 0
busy x (w ∷ ws) = weight x w + busy x ws

unfoldable pub count : ℕ → List ℕ → ℕ
count x [] = 0
count x (y ∷ ys) = (if y == x then 1 else 0) + count x ys

unfoldable pub pending : ℕ → Flag → ℕ → ℕ
pending x Flag.filled n = hit x n
pending x Flag.taken n = 0
pending x Flag.over n = 0

unfoldable pub total : ℕ → System → ℕ
total x s = count x s.printed + busy x s.workers + pending x s.flag s.num

-- The first number that main has not given.
unfoldable pub next : Main → ℕ
next (gives i) = i
next (sleeps i) = i
next joins = right
next returned = right

unfoldable pub ended : Main → Bool
ended (gives i) = false
ended (sleeps i) = false
ended joins = true
ended returned = true

unfoldable pub gone : Main → Bool
gone (gives i) = false
gone (sleeps i) = false
gone joins = false
gone returned = true

-- One for a number that is given before `i` and passes the test.
unfoldable pub given : ℕ → ℕ → ℕ
given x i = if leb left x && ltb x i then (if Primes.flag x then 1 else 0) else 0

pub record IsSound (s : System) : Type 0 where
  pub total : (x : ℕ) → total x s ≡ given x (next s.main)
  pub low : left ≤ next s.main
  pub high : next s.main ≤ right
  pub closed : ended s.main ≡ true → s.flag ≡ Flag.over
  pub quiet : gone s.main ≡ true → (x : ℕ) → busy x s.workers ≡ 0

unfoldable pub OptSound : Option System → Type 0
OptSound none = Unit
OptSound (some s) = IsSound s

pub busy-set :
    (x k : ℕ) (ws : List Worker) (w w' : Worker)
    → get_elem? ws k ≡ some w
    → busy x (set ws k w') + weight x w ≡ busy x ws + weight x w'
unfolding busy
busy-set x k [] w w' e = absurd cc
busy-set x zero (v ∷ ws) w w' e = let q : v ≡ w = cc in rw q (omega arith)
busy-set x (suc k) (v ∷ ws) w w' e = omega (arith, busy-set x k ws w w' e)

pub given-suc : (x i : ℕ) → left ≤ i → given x (suc i) ≡ given x i + hit x i
unfolding given hit
given-suc x i h = ground arith

-- A thread that changes to a place of the same weight.
pub replace :
    (k : ℕ) (s : System) (w w' : Worker)
    → get_elem? s.workers k ≡ some w
    → ((x : ℕ) → weight x w' ≡ weight x w)
    → IsSound s
    → IsSound (record s { workers = set s.workers k w' })
unfolding total
replace k s w w' e same v = record {
  total = λ x. omega (arith, v.total x, busy-set x k s.workers w w' e, same x);
  low = v.low;
  high = v.high;
  closed = v.closed;
  quiet = λ g x. omega (arith, v.quiet g x, busy-set x k s.workers w w' e, same x);
}

wake_at :
    (k : ℕ) (s : System) (w : Worker)
    → get_elem? s.workers k ≡ some w
    → IsSound s
    → OptSound (if sleeping w then some (record s { workers = set s.workers k ready }) else none)
unfolding OptSound weight
wake_at k s asleep e v = replace k s asleep ready e (λ x. refl) v
wake_at k s ready e v = tt
wake_at k s (testing n) e v = tt
wake_at k s exited e v = tt

pub wake-OptSound : (k : ℕ) (s : System) → IsSound s → OptSound (wake k s)
unfolding wake OptSound
wake-OptSound k s v = elim (Option-cases (get_elem? s.workers k)) [
  | inl n ↦ rw (wake, n) tt
  | inr (w, e) ↦ rw (wake, e) (wake_at k s w e v)
]

main_awake :
    (s : System) (m : Main)
    → s.main ≡ m
    → IsSound s
    → OptSound (if main_sleeping m then some (record s { main = rouse_main m }) else none)
unfolding OptSound rouse_main next ended gone total
main_awake s (sleeps i) e v =
    let n : next s.main ≡ i = rw e refl in
    record {
      total = λ x. rw (← n) (v.total x);
      low = rw (← n) v.low;
      high = rw (← n) v.high;
      closed = λ h. absurd cc;
      quiet = λ h. absurd cc;
    }
main_awake s (gives i) e v = tt
main_awake s joins e v = tt
main_awake s returned e v = tt

pub wake_main-OptSound : (s : System) → IsSound s → OptSound (wake_main s)
unfolding wake_main
wake_main-OptSound s v = main_awake s s.main refl v

unless : (b : Bool) (s : System) → IsSound s → OptSound (if b then none else some s)
unfolding OptSound
unless true s v = tt
unless false s v = v

pub signal-OptSound : (who : Waiter) (s : System) → IsSound s → OptSound (signal who s)
unfolding signal
signal-OptSound nobody s v = unless (main_sleeping s.main || some_sleeps s.workers) s v
signal-OptSound the_main s v = wake_main-OptSound s v
signal-OptSound (the_worker k) s v = wake-OptSound k s v
