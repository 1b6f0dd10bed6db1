-- ===== src/Primes/HandOver/Steps.antt =====
-- posix/ai.c: the steps of the threads and of main keep the place of every number.
use Prim.{tt}
use lhq_linux_c.Base.{
  ℕ, suc, ◌+◌, ◌≤◌, ◌<◌, ◌≡◌, refl, sym, ◌∙◌, ◌≢◌, inl, inr, true, false, some, List, [], ◌∷◌, ◌++◌,
  map, arith, ◌==◌, if◌then◌else◌, Bool-cases, Option-cases, get_elem?, set,
}
use lhq_linux_c.Primes
use lhq_linux_c.Primes.HandOver.{
  System, Flag, Worker, ready, asleep, testing, exited, Main, gives, sleeps, joins, returned, left,
  right, Waiter, rouse, rouse_main, signal, broadcast, worker_at, worker_step, all_exited,
}
use lhq_linux_c.Primes.HandOver.Order.{
  hit, weight, busy, busy-set, count, pending, total, next, ended, gone, given, given-suc, IsSound,
  OptSound, replace, signal-OptSound,
}

count-snoc :
    (x n : ℕ) (ys : List ℕ) → count x (ys ++ n ∷ []) ≡ count x ys + (if n == x then 1 else 0)
unfolding count
count-snoc x n [] = omega arith
count-snoc x n (y ∷ ys) = omega (arith, count-snoc x n ys)

-- A print of `n`, where it passes the test, is a hit.
print-hit :
    (x n : ℕ) (ys : List ℕ)
    → count x (if Primes.flag n then ys ++ n ∷ [] else ys) ≡ count x ys + hit x n
unfolding hit
print-hit x n ys = elim (Bool-cases (n == x)) [
  | inl same ↦
      let q : n ≡ x = ground (arith, same) in
      elim (Bool-cases (Primes.flag x)) [
        | inl p ↦
            let p' : Primes.flag n ≡ true = rw q p in
            rw (p', same, p) (count-snoc x n ys ∙ (rw same refl))
        | inr p ↦ let p' : Primes.flag n ≡ false = rw q p in rw (p', same, p) (omega arith)
      ]
  | inr other ↦ elim (Bool-cases (Primes.flag n)) [
    | inl p ↦ rw (p, other) (count-snoc x n ys ∙ (rw other refl))
    | inr p ↦ rw (p, other) (omega arith)
  ]
]

tested :
    (k n : ℕ) (s : System)
    → get_elem? s.workers k ≡ some (testing n)
    → IsSound s
    → IsSound (record s {
      workers = set s.workers k ready;
      printed = if Primes.flag n then s.printed ++ n ∷ [] else s.printed;
    })
unfolding total weight
tested k n s e v = record {
  total = λ x.
      omega (arith, v.total x, busy-set x k s.workers (testing n) ready e, print-hit x n s.printed);
  low = v.low;
  high = v.high;
  closed = v.closed;
  quiet = λ g x. omega (arith, v.quiet g x, busy-set x k s.workers (testing n) ready e);
}

gone-ended : (m : Main) → gone m ≡ true → ended m ≡ true
unfolding gone ended
gone-ended (gives i) h = absurd cc
gone-ended (sleeps i) h = absurd cc
gone-ended joins h = refl
gone-ended returned h = refl

-- Where the shared variable is not over, main has not ended its loop.
open_end : (s : System) (f : Flag) → s.flag ≡ f → f ≢ Flag.over → IsSound s → ended s.main ≢ true
open_end s f e n v h = n (sym e ∙ v.closed h)

takes :
    (k : ℕ) (s : System)
    → get_elem? s.workers k ≡ some ready
    → s.flag ≡ Flag.filled
    → IsSound s
    → IsSound (record s { workers = set s.workers k (testing s.num); flag = Flag.taken })
unfolding total weight pending
takes k s e f v =
    let p : (x : ℕ) → pending x s.flag s.num ≡ hit x s.num = λ x. rw f refl in
    let o : ended s.main ≢ true = open_end s Flag.filled f (λ q. cc) v in
    record {
      total = λ x. omega (arith, v.total x, busy-set x k s.workers ready (testing s.num) e, p x);
      low = v.low;
      high = v.high;
      closed = λ h. absurd (o h);
      quiet = λ h x. absurd (o (gone-ended s.main h));
    }

worker_ready :
    (k : ℕ) (who : Waiter) (s : System) (f : Flag)
    → s.flag ≡ f
    → get_elem? s.workers k ≡ some ready
    → IsSound s
    → OptSound (elim f [
      | Flag.over ↦ some (record s { workers = set s.workers k exited })
      | Flag.taken ↦ some (record s { workers = set s.workers k asleep })
      | Flag.filled ↦
          signal who (record s { workers = set s.workers k (testing s.num); flag = Flag.taken })
    ])
unfolding OptSound weight
worker_ready k who s Flag.over f e v = replace k s ready exited e (λ x. refl) v
worker_ready k who s Flag.taken f e v = replace k s ready asleep e (λ x. refl) v
worker_ready k who s Flag.filled f e v =
    signal-OptSound who (record s { workers = set s.workers k (testing s.num); flag = Flag.taken })
      (takes k s e f v)

worker_at-OptSound :
    (k : ℕ) (who : Waiter) (w : Worker) (s : System)
    → get_elem? s.workers k ≡ some w
    → IsSound s
    → OptSound (worker_at k who w s)
unfolding worker_at OptSound
worker_at-OptSound k who asleep s e v = tt
worker_at-OptSound k who exited s e v = tt
worker_at-OptSound k who (testing n) s e v = tested k n s e v
worker_at-OptSound k who ready s e v = worker_ready k who s s.flag refl e v

pub worker_step-OptSound :
    (k : ℕ) (who : Waiter) (s : System) → IsSound s → OptSound (worker_step k who s)
unfolding worker_step OptSound
worker_step-OptSound k who s v = elim (Option-cases (get_elem? s.workers k)) [
  | inl n ↦ rw (worker_step, n) tt
  | inr (w, e) ↦ rw (worker_step, e) (worker_at-OptSound k who w s e v)
]

busy-rouse : (x : ℕ) (ws : List Worker) → busy x (map rouse ws) ≡ busy x ws
unfolding busy rouse weight
busy-rouse x [] = refl
busy-rouse x (ready ∷ ws) = omega (arith, busy-rouse x ws)
busy-rouse x (asleep ∷ ws) = omega (arith, busy-rouse x ws)
busy-rouse x (testing n ∷ ws) = omega (arith, busy-rouse x ws)
busy-rouse x (exited ∷ ws) = omega (arith, busy-rouse x ws)

pub busy-all_exited : (x : ℕ) (ws : List Worker) → all_exited ws ≡ true → busy x ws ≡ 0
unfolding busy all_exited weight
busy-all_exited x [] h = refl
busy-all_exited x (ready ∷ ws) h = absurd cc
busy-all_exited x (asleep ∷ ws) h = absurd cc
busy-all_exited x (testing n ∷ ws) h = absurd cc
busy-all_exited x (exited ∷ ws) h = omega (arith, busy-all_exited x ws h)

pub fills :
    (i : ℕ) (s : System)
    → s.main ≡ gives i
    → s.flag ≡ Flag.taken
    → i < right
    → IsSound s
    → IsSound (record s { num = i; flag = Flag.filled; main = gives (suc i) })
unfolding total pending next ended gone
fills i s m f h v =
    let n : next s.main ≡ i = rw m refl in
    let p : (x : ℕ) → pending x s.flag s.num ≡ 0 = λ x. rw f refl in
    let low : left ≤ i = rw (← n) v.low in
    record {
      total = λ x.
          let t : given x (next s.main) ≡ given x i = rw n refl in
          omega (arith, v.total x, p x, given-suc x i low, t);
      low = omega (arith, low);
      high = omega (arith, h);
      closed = λ q. absurd cc;
      quiet = λ q. absurd cc;
    }

pub stays :
    (i : ℕ) (s : System) → s.main ≡ gives i → IsSound s → IsSound (record s { main = sleeps i })
unfolding total next ended gone
stays i s m v =
    let n : next s.main ≡ i = rw m refl in
    record {
      total = λ x. rw (← n) (v.total x);
      low = rw (← n) v.low;
      high = rw (← n) v.high;
      closed = λ q. absurd cc;
      quiet = λ q. absurd cc;
    }

pub closes :
    (i : ℕ) (s : System)
    → s.main ≡ gives i
    → s.flag ≡ Flag.taken
    → right ≤ i
    → IsSound s
    → IsSound (broadcast (record s { flag = Flag.over; main = joins }))
unfolding broadcast rouse_main total pending next ended gone
closes i s m f h v =
    let n : next s.main ≡ right =
      rw m (omega (arith, h, (let b : i ≤ right = rw m at v.high in b))) in
    let p : (x : ℕ) → pending x s.flag s.num ≡ 0 = λ x. rw f refl in
    record {
      total = λ x.
          let t : given x (next s.main) ≡ given x right = rw n refl in
          omega (arith, v.total x, p x, busy-rouse x s.workers, t);
      low = omega arith;
      high = omega arith;
      closed = λ q. refl;
      quiet = λ q. absurd cc;
    }
