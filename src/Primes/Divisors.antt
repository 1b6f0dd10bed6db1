-- ===== src/Primes/Divisors.antt =====
-- posix/prime.c, posix/ai.c, posix/thread_pool.c: what the test of one number decides.
use lhq_linux_c.Base.{
  ℕ, zero, suc, ◌+◌, ◌-◌, ◌/◌, ◌%◌, ◌≤◌, ◌<◌, ◌≡◌, refl, ◌∙◌, ◌≢◌, inl, inr, ◌↔◌, true, false,
  arith, ltb, ◌==◌, Bool-cases,
}
use native.Mathlib.Nat.{mod-eq_of_lt, mod-eq-sub-mod}
use lhq_linux_c.Primes.{flag_from, flag}

-- No number from `i` up to `hi`, without `hi`, divides `n`.
pub NoDivisor : ℕ → ℕ → ℕ → Type 0
NoDivisor i hi n = (d : ℕ) → i ≤ d → d < hi → n % d ≢ 0

pub record IsPrime (n : ℕ) : Type 0 where
  pub above : 2 ≤ n
  pub prime : NoDivisor 2 n n

flag_from_sound : (k i n : ℕ) → n / 2 ≤ i + k → flag_from k i n ≡ true → NoDivisor i (n / 2) n
unfolding flag_from NoDivisor
flag_from_sound zero i n h e d lo hi = absurd (omega arith)
flag_from_sound (suc k) i n h e d lo hi = elim (Bool-cases (ltb i (n / 2))) [
  | inr out ↦ absurd (ground (arith, out))
  | inl in_range ↦ elim (Bool-cases (n % i == 0)) [
    | inl z ↦ absurd (let q : false ≡ true = rw (in_range, z) at e in cc)
    | inr z ↦
        let rest : flag_from k (suc i) n ≡ true = rw (in_range, z) at e in
        elim (Bool-cases (d == i)) [
          | inl same ↦ let q : d ≡ i = ground (arith, same) in rw q (ground (arith, z))
          | inr other ↦
              flag_from_sound k (suc i) n (omega (arith, h)) rest d (ground (arith, other)) hi
        ]
  ]
]

flag_from_complete : (k i n : ℕ) → NoDivisor i (n / 2) n → flag_from k i n ≡ true
unfolding flag_from NoDivisor
flag_from_complete zero i n h = refl
flag_from_complete (suc k) i n h =
    let rest : flag_from k (suc i) n ≡ true =
      flag_from_complete k (suc i) n (λ d lo hi. h d (omega arith) hi) in
    elim (Bool-cases (ltb i (n / 2))) [
      | inr out ↦ rw out refl
      | inl in_range ↦
          let z : (n % i == 0) ≡ false =
            ground (arith, h i (omega arith) (ground (arith, in_range))) in
          rw (in_range, z) rest
    ]

-- Halves of a number that have a divisor between them leave room for 2.
no_upper : (n d : ℕ) → 5 ≤ n → n % 2 ≢ 0 → n / 2 ≤ d → d < n → n % d ≢ 0
no_upper n d five odd lo hi e = elim (Bool-cases (ltb (n - d) d)) [
  | inl once ↦
      let m : n % d ≡ n - d = mod-eq-sub-mod (omega arith) ∙ mod-eq_of_lt (ground (arith, once)) in
      absurd (omega (arith, m, e))
  | inr twice ↦
      let t : d ≤ n - d = ground (arith, twice) in
      let m : n % d ≡ (n - d) % d = mod-eq-sub-mod (omega arith) in
      let m' : (n - d) % d ≡ (n - d - d) % d = mod-eq-sub-mod t in
      let m'' : (n - d - d) % d ≡ n - d - d = mod-eq_of_lt (omega arith) in
      absurd (omega (arith, m, m', m'', e, odd, t))
]

upper : (n : ℕ) → 5 ≤ n → NoDivisor 2 (n / 2) n → NoDivisor 2 n n
unfolding NoDivisor
upper n five low d lo hi =
    let odd : n % 2 ≢ 0 = λ z. low 2 (omega arith) (omega (arith, z)) z in
    elim (Bool-cases (ltb d (n / 2))) [
      | inl small ↦ low d lo (ground (arith, small))
      | inr large ↦ no_upper n d five odd (ground (arith, large)) hi
    ]

-- For every number from 5 on, the flag that the loop leaves says whether the number is prime,
-- although the loop stops in front of n / 2.
pub flag_iff : (n : ℕ) → 5 ≤ n → (flag n ≡ true) ↔ IsPrime n
unfolding flag NoDivisor
flag_iff n five = (
  λ e.
      let low : NoDivisor 2 (n / 2) n = flag_from_sound n 2 n (omega arith) e in
      record { above = omega arith; prime = upper n five low },
  λ p. flag_from_complete n 2 n (λ d lo hi. p.prime d lo (omega arith)),
)
