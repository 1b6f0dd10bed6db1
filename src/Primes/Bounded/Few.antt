-- ===== src/Primes/Bounded/Few.antt =====
-- posix/semaphore/main.c: how many threads hold what main took for them from the semaphore, and
-- that main is never stuck.
use Prim.{Unit, tt}
use lhq_linux_c.Base.{
  ℕ, suc, ◌+◌, ◌-◌, ◌≤◌, ◌<◌, ◌≡◌, refl, ap, ◌∙◌, subst, ◌⊎◌, inl, inr, Bool, true, false, none,
  some, List, [], ◌∷◌, ◌++◌, arith, ltb, Bool-cases, Option-cases, length, get_elem?, take, drop,
  length-append, length-take, length-drop, lt_of_get_elem?, ℤ, pos, ◌+ℤ◌, ◌-ℤ◌, +ℤ-pos, -ℤ-pos,
}
use lhq_linux_c.Semaphore.{Sem, sem_sub, sem_ret}
use lhq_linux_c.Primes.Bounded.{
  right, thrdnum, Search, Event, creates, prints, gives_back, leaves, without, print_thread,
  return_thread, leave_thread, Next, waits, exits, goes, create, step, run, start,
}

-- The threads that have not returned what main took for them.
abbrev pub taken_by : Search → ℕ
taken_by s = length s.testing + length s.holding

-- The semaphore counts the threads that may still be created.
pub record IsCounted (s : Search) : Type 0 where
  pub few : taken_by s ≤ thrdnum
  pub left_over : (s.sem).srcval ≡ pos (thrdnum - taken_by s)

abbrev NextCounted : Next → Type 0
NextCounted waits = Unit {0}
NextCounted exits = Unit {0}
NextCounted (goes s) = IsCounted s

taken :
    (s : Search)
    → IsCounted s
    → taken_by s < thrdnum
    → sem_sub (pos 1) s.sem ≡ some (pos 1, record { srcval = pos (thrdnum - suc (taken_by s)) })
unfolding sem_sub
taken s c h =
    let v = c.left_over in
    let minus : pos (thrdnum - taken_by s) -ℤ pos 1 ≡ pos (thrdnum - suc (taken_by s)) =
      -ℤ-pos (thrdnum - taken_by s) 1 (omega (arith, h)) (omega arith) ∙ ap pos (omega arith) in
    ground (arith, v, minus, h)

refused : (s : Search) → IsCounted s → taken_by s ≡ thrdnum → sem_sub (pos 1) s.sem ≡ none
unfolding sem_sub
refused s c h = let v = c.left_over in ground (arith, v, h)

room : (s : Search) → IsCounted s → (taken_by s < thrdnum) ⊎ (taken_by s ≡ thrdnum)
room s c =
    let f = c.few in
    elim (Bool-cases (ltb (taken_by s) thrdnum)) [
      | inl l ↦ inl (ground (arith, l))
      | inr l ↦ inr (ground (arith, l, f))
    ]

create-NextCounted : (made : Bool) (s : Search) → IsCounted s → NextCounted (create made s)
unfolding create
create-NextCounted true s c = elim (room s c) [
  | inl l ↦
      let one_more = length-append s.testing (s.next ∷ []) in
      rw (taken s c l, create)
        (record { few = omega (arith, l, one_more); left_over = ap pos (omega (arith, one_more)) })
  | inr l ↦ rw (refused s c l, create) tt
]
create-NextCounted false s c = elim (room s c) [
  | inl l ↦ rw (taken s c l, create) tt
  | inr l ↦ rw (refused s c l, create) tt
]

length-without :
    (i n : ℕ) (ns : List ℕ) → get_elem? ns i ≡ some n → suc (length (without i ns)) ≡ length ns
unfolding without
length-without i n ns e = omega (
  arith,
  lt_of_get_elem? ns i n e,
  length-append (take i ns) (drop (suc i) ns),
  length-take i ns,
  length-drop (suc i) ns,
)

print-NextCounted : (i : ℕ) (s : Search) → IsCounted s → NextCounted (print_thread i s)
unfolding print_thread
print-NextCounted i s c = elim (Option-cases (get_elem? s.testing i)) [
  | inl n ↦ rw (n, print_thread) tt
  | inr (x, e) ↦
      let one_less = length-without i x s.testing e in
      let one_more = length-append s.holding (x ∷ []) in
      let f = c.few in
      rw (e, print_thread)
        (record {
          few = omega (arith, one_less, one_more, f);
          left_over = c.left_over ∙ ap pos (omega (arith, one_less, one_more, f));
        })
]

return-NextCounted : (i : ℕ) (s : Search) → IsCounted s → NextCounted (return_thread i s)
unfolding return_thread sem_ret
return-NextCounted i s c = elim (Option-cases (get_elem? s.holding i)) [
  | inl n ↦ rw (n, return_thread) tt
  | inr (x, e) ↦
      let one_less = length-without i x s.holding e in
      let f = c.few in
      let plus : (s.sem).srcval +ℤ pos 1 ≡ pos (thrdnum - taken_by s + 1) =
        ap (λ (z : ℤ). z +ℤ pos 1) c.left_over ∙ +ℤ-pos (thrdnum - taken_by s) 1 (omega arith) in
      rw (e, return_thread)
        (record {
          few = omega (arith, one_less, f);
          left_over = plus ∙ ap pos (omega (arith, one_less, f));
        })
]

leave-NextCounted : (i : ℕ) (s : Search) → IsCounted s → NextCounted (leave_thread i s)
unfolding leave_thread
leave-NextCounted i s c = elim (Option-cases (get_elem? s.leaving i)) [
  | inl n ↦ rw (n, leave_thread) tt
  | inr (x, e) ↦ rw (e, leave_thread) (record { few = c.few; left_over = c.left_over })
]

step-NextCounted : (e : Event) (s : Search) → IsCounted s → NextCounted (step e s)
unfolding step
step-NextCounted (creates made) s c = elim (Bool-cases (ltb s.next right)) [
  | inl l ↦ rw (l, step) (create-NextCounted made s c)
  | inr l ↦ rw (l, step) tt
]
step-NextCounted (prints i) s c = print-NextCounted i s c
step-NextCounted (gives_back i) s c = return-NextCounted i s c
step-NextCounted (leaves i) s c = leave-NextCounted i s c

run-NextCounted : (es : List Event) (s : Search) → IsCounted s → NextCounted (run es s)
unfolding run
run-NextCounted [] s c = c
run-NextCounted (e ∷ es) s c =
    by_next (step e s) (step-NextCounted e s c) (λ s' c'. run-NextCounted es s' c')
  where
    by_next :
        (n : Next)
        → NextCounted n
        → ((s' : Search) → IsCounted s' → NextCounted (run es s'))
        → NextCounted
            (elim n as (λ x. Next) [ waits ↦ run es s | exits ↦ exits | goes s' ↦ run es s' ])
    by_next waits k go = go s c
    by_next exits k go = tt
    by_next (goes s') k go = go s' k

-- In every state that a run of main and its threads reaches at most four threads have not returned
-- what main took for them from the semaphore, and while numbers are left main can go on to the next
-- one where pthread_create succeeds, unless there are four such threads; threads that have returned
-- it and have not ended are not counted.
pub run-few :
    (es : List Event) (s : Search)
    → run es start ≡ goes s
    → (taken_by s ≤ thrdnum)
      × ((thrdnum ≤ taken_by s)
          ⊎ (right ≤ s.next)
          ⊎ ((s' : Search) × (step (creates true) s ≡ goes s') × (s'.next ≡ suc s.next)))
unfolding start step create
run-few es s e =
    let c : IsCounted s =
      subst NextCounted e
        (run-NextCounted es start (record { few = omega arith; left_over = refl })) in
    (
      c.few,
      elim (room s c) [
        | inr l ↦ inl (omega (arith, l))
        | inl l ↦ elim (Bool-cases (ltb s.next right)) [
          | inr r ↦ inr (inl (ground (arith, r)))
          | inl r ↦
              let sem' : Sem = record { srcval = pos (thrdnum - suc (taken_by s)) } in
              let s' : Search = record s {
                sem = sem';
                next = suc s.next;
                testing = s.testing ++ s.next ∷ [];
              } in
              inr (inr (s', rw (r, taken s c l, create, step) refl, refl))
        ]
      ],
    )
