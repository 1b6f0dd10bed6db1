-- ===== src/TokenBucket/Rate.antt =====
-- The promise of mytbf.c to its clients: over any sequence of ticks, fetches and returns no more
-- tokens leave a bucket than it held, was refilled with, and got back; and a tick ends a wait.
use lhq_linux_c.Base.{
  ℕ, suc, ◌+◌, ◌*◌, ◌^◌, ◌≤◌, ◌<◌, ◌≡◌, refl, ap, ◌∙◌, ◌⊎◌, inl, inr, false, Option, none, some,
  List, [], ◌∷◌, arith, ◌==◌, if◌then◌else◌, Bool-cases, ltb, ◌-◌, update, ℤ, pos, pos_part,
}
use lhq_linux_c.TokenBucket.{
  Bucket, Module, refill, alrm_handle, fault, waits, took, mytbf_fetchtoken, mytbf_returntoken,
}
use lhq_linux_c.TokenBucket.Invariant.{IsValid, refill_lem, refill-rate, alrm_handle_lem}
use lhq_linux_c.TokenBucket.Fetch.{mytbf_fetchtoken_lem}
use lhq_linux_c.TokenBucket.Calls.{topped_up, mytbf_returntoken_lem}

-- A tick of the timer, or a call with a size of at least 0.
pub data Call : Type 0 where
  tick : Call
  fetch : ℕ → ℕ → Call
  give : ℕ → ℕ → Call

-- How many tokens a call hands out from the bucket at `p`.
abbrev handed_out : ℕ → ℕ → ℤ → ℕ
handed_out p q n = if q == p then pos_part n else 0

-- A call and the module after it; `none` is a fault. A caller that waits has no token yet.
unfoldable pub apply : ℕ → Call → Module → Option (ℕ × Module)
apply p tick m = elim (alrm_handle m) [ none ↦ none | some m' ↦ some (0, m') ]
apply p (fetch q size) m = elim (mytbf_fetchtoken q (pos size) m) [
  | fault ↦ none
  | waits ↦ some (0, m)
  | took n m' ↦ some (handed_out p q n, m')
]
apply p (give q size) m = elim (mytbf_returntoken q (pos size) m) [
  | none ↦ none
  | some (r, m') ↦ some (0, m')
]

unfoldable pub run : ℕ → List Call → Module → Option (ℕ × Module)
unfolding apply
run p [] m = some (0, m)
run p (c ∷ cs) m = elim (apply p c m) [
  | none ↦ none
  | some (k, m') ↦ elim (run p cs m') [ none ↦ none | some (l, m2) ↦ some (k + l, m2) ]
]

abbrev pub ticks : List Call → ℕ
ticks [] = 0
ticks (tick ∷ cs) = suc (ticks cs)
ticks (fetch _ _ ∷ cs) = ticks cs
ticks (give _ _ ∷ cs) = ticks cs

abbrev given_by : ℕ → Call → ℕ
given_by p tick = 0
given_by p (fetch _ _) = 0
given_by p (give q n) = if q == p then n else 0

abbrev pub given : ℕ → List Call → ℕ
given p [] = 0
given p (c ∷ cs) = given_by p c + given p cs

abbrev refills : Call → ℕ
refills tick = 1
refills (fetch _ _) = 0
refills (give _ _) = 0

-- The call names a live bucket, and its size is in the range of `int`.
abbrev pub Ready : Module → Call → Type 0
Ready m tick = Unit {0}
Ready m (fetch q n) = ((b : Bucket) × (m.heap q ≡ some b)) × (n < 2 ^ 31)
Ready m (give q n) = (b : Bucket) × (m.heap q ≡ some b) × (n + pos_part b.burst < 2 ^ 31)

abbrev pub AllReady : Module → List Call → Type 0
AllReady m [] = Unit {0}
AllReady m (c ∷ cs) = Ready m c × AllReady m cs

-- Every live bucket is still there, with its rate.
abbrev Like : Module → Module → Type 0
Like m m' =
    (q : ℕ) (b : Bucket)
    → m.heap q ≡ some b
    → (b' : Bucket) × (m'.heap q ≡ some b') × (b'.cps ≡ b.cps) × (b'.burst ≡ b.burst)

Like-Ready : (m m' : Module) (c : Call) → Like m m' → Ready m c → Ready m' c
Like-Ready m m' tick l r = tt
Like-Ready m m' (fetch q n) l ((b, e), h) = let (b', e', _, _) = l q b e in ((b', e'), h)
Like-Ready m m' (give q n) l (b, e, h) = let (b', e', _, s) = l q b e in (b', e', rw s h)

Like-AllReady : (m m' : Module) (cs : List Call) → Like m m' → AllReady m cs → AllReady m' cs
Like-AllReady m m' [] l r = tt
Like-AllReady m m' (c ∷ cs) l (r, rs) = (Like-Ready m m' c l r, Like-AllReady m m' cs l rs)

-- What one call comes to, for the bucket `b` at `p`.
abbrev Stepped : ℕ → Call → Module → Bucket → Type 0
Stepped p c m b =
    (k : ℕ) × (m' : Module) × (b' : Bucket) × (apply p c m ≡ some (k, m'))
    × IsValid m'
    × Like m m'
    × (m'.heap p ≡ some b')
    × (b'.cps ≡ b.cps)
    × (k + pos_part b'.token ≤ pos_part b.token + refills c * pos_part b.cps + given_by p c)

step_tick : (p : ℕ) (m : Module) (b : Bucket) → IsValid m → m.heap p ≡ some b → Stepped p tick m b
unfolding apply
step_tick p m b v e =
    let (m', f, v', at) = alrm_handle_lem m v in
    (
      0,
      m',
      refill b,
      rw (f, apply),
      v',
      (λ q c g. (refill c, at q ∙ rw g, (refill-rate c).0, (refill-rate c).1)),
      at p ∙ rw e,
      (refill-rate b).0,
      ground (arith, refill_lem b (v.sane p b e), v.sane p b e),
    )

-- A write to the bucket at `q` that keeps its rate.
Like-write :
    (m m' : Module) (q : ℕ) (b b' : Bucket)
    → m.heap q ≡ some b
    → m'.heap ≡ update m.heap q (some b')
    → b'.cps ≡ b.cps
    → b'.burst ≡ b.burst
    → Like m m'
Like-write m m' q b b' e f g h r c k = elim (Bool-cases (q == r)) [
  | inl same ↦
      (b', ground (arith, ap (λ (t : ℕ → Option Bucket). t r) f), ground arith, ground arith)
  | inr other ↦ (c, ground (arith, ap (λ (t : ℕ → Option Bucket). t r) f), refl, refl)
]

-- The bucket at `p` after a write to the one at `q`.
written_at :
    (m m' : Module) (p q : ℕ) (b c c' : Bucket)
    → m.heap p ≡ some b
    → m.heap q ≡ some c
    → m'.heap ≡ update m.heap q (some c')
    → ((q ≡ p) × (b ≡ c) × (m'.heap p ≡ some c')) ⊎ (((q == p) ≡ false) × (m'.heap p ≡ some b))
written_at m m' p q b c c' e f h = elim (Bool-cases (q == p)) [
  | inl same ↦
      inl (ground arith, ground arith, ap (λ (t : ℕ → Option Bucket). t p) h ∙ ground arith)
  | inr other ↦ inr (other, ap (λ (t : ℕ → Option Bucket). t p) h ∙ ground arith)
]

step_fetch :
    (p q n : ℕ) (m : Module) (b : Bucket)
    → IsValid m
    → m.heap p ≡ some b
    → Ready m (fetch q n)
    → Stepped p (fetch q n) m b
unfolding apply
step_fetch p q n m b v e ((c, f), h) = elim (mytbf_fetchtoken_lem m q n c v h f) [
  | inl (_, w) ↦ (0, m, b, rw (w, apply), v, (λ r d g. (d, g, refl, refl)), e, refl, omega arith)
  | inr (k, t, m', w, s, _, _, v', _, u) ↦
      let like = Like-write m m' q c (record c { token = pos t }) f u refl refl in
      elim (written_at m m' p q b c (record c { token = pos t }) e f u) [
        | inl (same, eq, g) ↦ (
          handed_out p q (pos k),
          m',
          record c { token = pos t },
          rw (w, apply),
          v',
          like,
          g,
          ground arith,
          ground arith,
        )
        | inr (other, g) ↦
            (handed_out p q (pos k), m', b, rw (w, apply), v', like, g, refl, ground arith)
      ]
]

step_give :
    (p q n : ℕ) (m : Module) (b : Bucket)
    → IsValid m
    → m.heap p ≡ some b
    → Ready m (give q n)
    → Stepped p (give q n) m b
unfolding apply
step_give p q n m b v e (c, f, h) =
    let (m', w, v', _, u) = mytbf_returntoken_lem m q n c v (ground (arith, v.sane q c f)) f in
    let like = Like-write m m' q c (topped_up c n) f u refl refl in
    elim (written_at m m' p q b c (topped_up c n) e f u) [
      | inl (same, eq, g) ↦
          (0, m', topped_up c n, rw (w, apply), v', like, g, ground arith, ground arith)
      | inr (other, g) ↦ (0, m', b, rw (w, apply), v', like, g, refl, ground arith)
    ]

step :
    (p : ℕ) (c : Call) (m : Module) (b : Bucket)
    → IsValid m
    → m.heap p ≡ some b
    → Ready m c
    → Stepped p c m b
step p tick m b v e r = step_tick p m b v e
step p (fetch q n) m b v e r = step_fetch p q n m b v e r
step p (give q n) m b v e r = step_give p q n m b v e r

ticks-cons : (c : Call) (cs : List Call) (x : ℕ) → ticks (c ∷ cs) * x ≡ refills c * x + ticks cs * x
ticks-cons tick cs x = omega arith
ticks-cons (fetch q n) cs x = omega arith
ticks-cons (give q n) cs x = omega arith

-- Any sequence of calls on live buckets, with sizes to fetch in the range of int and sizes to return
-- that are so together with the burst, runs without a fault and keeps the invariant, and the callers
-- that name the bucket at `p` are handed, with what is left in it, at most what it held, what they
-- gave back, and `cps` for each tick.
pub rate_limit :
    (p : ℕ) (cs : List Call) (m : Module) (b : Bucket)
    → IsValid m
    → m.heap p ≡ some b
    → AllReady m cs
    → (k : ℕ) × (m' : Module) × (b' : Bucket) × (run p cs m ≡ some (k, m'))
      × IsValid m'
      × (m'.heap p ≡ some b')
      × (k + pos_part b'.token ≤ pos_part b.token + ticks cs * pos_part b.cps + given p cs)
unfolding run
rate_limit p [] m b v e r = (0, m, b, refl, v, e, omega arith)
rate_limit p (c ∷ cs) m b v e (r, rs) =
    let (k, m1, b1, f, v1, like, e1, same, bound) = step p c m b v e r in
    let (l, m2, b2, g, v2, e2, bound') =
      rate_limit p cs m1 b1 v1 e1 (Like-AllReady m m1 cs like rs) in
    let rest : l + pos_part b2.token ≤ pos_part b1.token + ticks cs * pos_part b.cps + given p cs =
      rw (ap pos_part same) at bound' in
    (
      k + l,
      m2,
      b2,
      rw (f, run, g),
      v2,
      e2,
      ground (arith, bound, rest, ticks-cons c cs (pos_part b.cps)),
    )

-- After a tick of the handler, a fetch from a live bucket whose rate and burst are not 0, for a size
-- that is not 0 and in the range of int, does not wait: it takes all that is left in the bucket,
-- which is at least one token, or the size that it was given where that is less, and the bucket
-- keeps the rest.
pub tick_ends_wait :
    (m : Module) (p size : ℕ) (b : Bucket)
    → IsValid m
    → m.heap p ≡ some b
    → 0 < pos_part b.cps
    → 0 < pos_part b.burst
    → 0 < size
    → size < 2 ^ 31
    → (n : ℕ) × (m1 m2 : Module) × (alrm_handle m ≡ some m1)
      × (mytbf_fetchtoken p (pos size) m1 ≡ took (pos n) m2)
      × (0 < pos_part (refill b).token)
      × (n ≡ (if ltb (pos_part (refill b).token) size then pos_part (refill b).token else size))
      × (0 < n)
      × (m2.heap p ≡ some (record (refill b) { token = pos (pos_part (refill b).token - n) }))
tick_ends_wait m p size b v e c_pos b_pos s_pos s_int =
    let (m1, f, v1, at) = alrm_handle_lem m v in
    let e1 : m1.heap p ≡ some (refill b) = at p ∙ rw e in
    let some_token : 0 < pos_part (refill b).token = ground (arith, refill_lem b (v.sane p b e)) in
    elim (mytbf_fetchtoken_lem m1 p size (refill b) v1 s_int e1) [
      | inl (empty, _) ↦ absurd (omega (arith, ap pos_part empty))
      | inr (n, t, m2, w, q, left, c, _, _, u) ↦
          let total : pos_part (refill b).token ≡ n + t = ap pos_part q in
          (
            n,
            m1,
            m2,
            f,
            w,
            some_token,
            ground (arith, c, total),
            ground (arith, c),
            ap (λ (h : ℕ → Option Bucket). h p) u ∙ ground (arith, total),
          )
    ]
