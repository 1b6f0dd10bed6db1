-- ===== src/Primes/Spinning/Stuck.antt =====
-- posix/thread_pool.c: the first number is never taken.
use Prim.{Unit, tt}
use lhq_linux_c.Base.{
  ℕ, ◌≡◌, refl, sym, ap, ◌∙◌, ◌⊎◌, inl, inr, Bool, true, false, List, [], ◌∷◌, ◌++◌, arith,
  if◌then◌else◌,
}
use lhq_linux_c.Primes
use lhq_linux_c.Primes.Spinning.{
  left, taken, filled, Main, gives, waits, Shared, Step, searches, spins, leaves, puts, waits_on,
  goes_on, ends, Reach, here, then_step, start,
}

abbrev pub AllZero : List ℕ → Type 0
AllZero [] = Unit {0}
AllZero (x ∷ xs) = (x ≡ 0) × AllZero xs

AllZero-snoc : (xs : List ℕ) (n : ℕ) → AllZero xs → n ≡ 0 → AllZero (xs ++ n ∷ [])
AllZero-snoc [] n h e = (e, tt)
AllZero-snoc (x ∷ xs) n (z, h) e = (z, AllZero-snoc xs n h e)

-- Main is in front of the first number, or waits for it to be taken; what is printed is 0.
pub data IsStuck (s : Shared) : Type 0 where
  before : s.main ≡ gives left → s.flag ≡ taken → s.num ≡ 0 → AllZero s.printed → IsStuck s
  waiting : s.main ≡ waits left → s.flag ≡ filled → AllZero s.printed → IsStuck s

print_zero :
    (b : Bool) (xs : List ℕ) (n : ℕ) → AllZero xs → n ≡ 0 → AllZero (if b then xs ++ n ∷ [] else xs)
print_zero true xs n h e = AllZero-snoc xs n h e
print_zero false xs n h e = h

gives_same : (i j : ℕ) (m : Main) → m ≡ gives i → m ≡ gives j → i ≡ j
gives_same i j m e h = cc

Step-IsStuck : {s t : Shared} → Step s t → IsStuck s → IsStuck t
Step-IsStuck {s} (searches k h f) (before m e z a) =
    before m e z (print_zero (Primes.flag s.num) s.printed s.num a z)
Step-IsStuck (searches k h f) (waiting m e a) = absurd (let q : taken ≡ filled = sym f ∙ e in cc)
Step-IsStuck (spins k h f) (before m e z a) = before m e z a
Step-IsStuck (spins k h f) (waiting m e a) = waiting m e a
Step-IsStuck (leaves k h f) (before m e z a) = before m e z a
Step-IsStuck (leaves k h f) (waiting m e a) = waiting m e a
Step-IsStuck (puts i h g l) (before m e z a) = waiting (ap waits (gives_same i left _ g m)) refl a
Step-IsStuck (puts i h g l) (waiting m e a) =
    absurd (let q : gives i ≡ waits left = sym g ∙ m in cc)
Step-IsStuck (waits_on i h g f) v = v
Step-IsStuck (goes_on i h g f) (before m e z a) =
    absurd (let q : waits i ≡ gives left = sym g ∙ m in cc)
Step-IsStuck (goes_on i h g f) (waiting m e a) = absurd (let q : taken ≡ filled = sym f ∙ e in cc)
Step-IsStuck (ends i h g l) (before m e z a) = absurd (omega (arith, gives_same i left _ g m))
Step-IsStuck (ends i h g l) (waiting m e a) =
    absurd (let q : gives i ≡ waits left = sym g ∙ m in cc)

Reach-IsStuck : {s t : Shared} → IsStuck s → Reach s t → IsStuck t
Reach-IsStuck v here = v
Reach-IsStuck v (then_step r st) = Step-IsStuck st (Reach-IsStuck v r)

stuck :
    (s : Shared) → IsStuck s → ((s.main ≡ gives left) ⊎ (s.main ≡ waits left)) × AllZero s.printed
stuck s (before m e z a) = (inl m, a)
stuck s (waiting m e a) = (inr m, a)

-- Whatever the scheduler does, main never passes the first number, and everything that the threads
-- print is 0, which is not a number of the range.
pub first_number_stays :
    (s : Shared)
    → Reach start s
    → ((s.main ≡ gives left) ⊎ (s.main ≡ waits left)) × AllZero s.printed
unfolding start
first_number_stays s r = stuck s (Reach-IsStuck (before refl refl refl tt) r)
