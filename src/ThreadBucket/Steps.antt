-- ===== src/ThreadBucket/Steps.antt =====
-- posix/other/tbf/mytbf.c: what each call on a bucket comes to, against the levels.
use lhq_linux_c.Base.{
  ℕ, suc, ◌-◌, ◌^◌, ◌<◌, ◌≡◌, refl, sym, ap, ap₂, ◌∙◌, inl, inr, Bool, true, false, Option, none,
  some, arith, ltb, ◌==◌, if◌then◌else◌, Bool-cases, Option-cases, update, ℤ, pos, pos_part, leb_ℤ,
  ◌-ℤ◌, -ℤ-pos,
}
use lhq_linux_c.Table.Invariant.{each_slot-table}
use lhq_linux_c.Table.Used.{used, used-unset}
use lhq_linux_c.ThreadBucket.{
  Bucket, Module, add_tokens, refill, handler, mod_load, once_load, einval, waits, gives, min,
  mytbf_fetchtoken, mytbf_returntoken, mytbf_destroy, fetches, gives_back, destroys, tick, Answer,
  number, ticked, fetched, numbered, round, step,
}
use lhq_linux_c.ThreadBucket.Levels.{Level, Store, put, take_from, give_to, remove, spec_step, Owed}
use lhq_linux_c.ThreadBucket.Sane.{
  IsSane, IsValid, level_of, view, view-update, add_tokens-IsRaised, IsValid-write, IsValid-remove,
  IsValid-each, refilled-each,
}

abbrev pub abstract : Module → Store
abstract m = record { buckets = λ p. view (m.heap p); live = used m.job }

-- What a call is to come to: the answer of the description, and a state that stands for its state.
pub record IsStep (r : Answer × Module) (r' : Answer × Store) : Type 0 where
  pub valid : IsValid r.1
  pub same : (r.0, abstract r.1) ≡ r'

pub store-eq : {s s' : Store} → s.buckets ≡ s'.buckets → s.live ≡ s'.live → s ≡ s'
store-eq {s} {s'} e f = ap₂ (λ b l. record { buckets = b; live = l }) e f

written :
    (m : Module) (p : ℕ) (b' : Bucket)
    → abstract (record m { heap = update m.heap p (some b') }) ≡ put p (level_of b') (abstract m)
unfolding put
written m p b' = store-eq (view-update m.heap p (some b')) refl

once-fields :
    (created : Bool) (m : Module)
    → ((once_load created m).job ≡ m.job) × ((once_load created m).heap ≡ m.heap)
unfolding once_load mod_load
once-fields created m = (ground arith, ground arith)

pub once-IsValid :
    (created : Bool) (m : Module)
    → IsValid m
    → IsValid (once_load created m) × (abstract (once_load created m) ≡ abstract m)
once-IsValid created m v =
    let (e, f) = once-fields created m in
    (
      record { table = rw (e, f) v.table; sane = rw f v.sane; slots = rw e v.slots },
      store-eq (ap {B = ℕ → Option Level} (λ h p. view (h p)) f) (ap used e),
    )

positive : (n : ℕ) → leb_ℤ (pos (suc n)) (pos 0) ≡ false
positive n = ground arith

pub fetch_refused :
    (p : ℕ) (size : ℤ) (m : Module)
    → leb_ℤ size (pos 0) ≡ true
    → mytbf_fetchtoken p size m ≡ gives einval m
unfolding mytbf_fetchtoken
fetch_refused p size m e = rw (e, mytbf_fetchtoken) refl

pub return_refused :
    (p : ℕ) (size : ℤ) (m : Module)
    → leb_ℤ size (pos 0) ≡ true
    → mytbf_returntoken p size m ≡ some (einval, m)
unfolding mytbf_returntoken
return_refused p size m e = rw (e, mytbf_returntoken) refl

min-pos : (t n : ℕ) → min (pos t) (pos n) ≡ pos (if ltb t n then t else n)
unfolding min
min-pos t n = ground arith

-- A fetch from a bucket that is not empty.
took :
    (m : Module) (p n t k : ℕ) (b : Bucket)
    → m.heap p ≡ some b
    → b.token ≡ pos t
    → 0 < t
    → t < 2 ^ 31
    → k ≡ (if ltb t (suc n) then t else suc n)
    → mytbf_fetchtoken p (pos (suc n)) m
      ≡ gives
          (pos k)
          (record m { heap = update m.heap p (some (record b { token = pos (t - k) })) })
unfolding mytbf_fetchtoken
took m p n t k b e q more small c =
    let smaller : min (pos t) (pos (suc n)) ≡ pos k = min-pos t (suc n) ∙ ap pos (sym c) in
    let rest : pos t -ℤ pos k ≡ pos (t - k) = -ℤ-pos t k (ground arith) small in
    ground (arith, e, q, smaller, rest)

pub fetch-IsStep :
    (m : Module) (p n : ℕ)
    → IsValid m
    → IsStep (step (fetches p (pos (suc n))) m) (take_from p (suc n) (view (m.heap p)) (abstract m))
unfolding step fetched mytbf_fetchtoken take_from
fetch-IsStep m p n v = elim (Option-cases (m.heap p)) [
  | inl e ↦ rw (e, positive n, mytbf_fetchtoken) (record { valid = v; same = refl })
  | inr (b, e) ↦ elim (Bool-cases (pos_part b.token == 0)) [
    | inl empty ↦
        let q : b.token ≡ pos 0 = let s = v.sane p b e in ground (arith, s) in
        let w : mytbf_fetchtoken p (pos (suc n)) m ≡ waits = ground (arith, e, q) in
        rw (w, e, empty) (record { valid = v; same = refl })
    | inr more ↦
        let s = v.sane p b e in
        let t = pos_part b.token in
        let k = (if ltb t (suc n) then t else suc n) in
        let w =
          took m p n t k b e (ground (arith, s)) (ground (arith, more))
            (omega (arith, s.fits, s.within)) refl in
        let b' : Bucket = record b { token = pos (t - k) } in
        let s' : IsSane b' = record {
          csp_nonneg = s.csp_nonneg;
          burst_nonneg = s.burst_nonneg;
          fits = s.fits;
          nonneg = refl;
          within = omega (arith, s.within);
        } in
        rw (w, e, more)
          (record {
            valid = IsValid-write v p b b' e refl s';
            same = ap (λ x. (number (pos k), x)) (written m p b');
          })
  ]
]

pub give-IsStep :
    (m : Module) (p n : ℕ)
    → IsValid m
    → Owed (gives_back p (pos (suc n))) (abstract m)
    → IsStep
        (step (gives_back p (pos (suc n))) m)
        (give_to p (suc n) (view (m.heap p)) (abstract m))
unfolding step numbered mytbf_returntoken give_to
give-IsStep m p n v owed = elim (Option-cases (m.heap p)) [
  | inl e ↦ rw (e, positive n, mytbf_returntoken) (record { valid = v; same = refl })
  | inr (b, e) ↦
      let s = v.sane p b e in
      let b' = add_tokens (pos (suc n)) b in
      let r =
        add_tokens-IsRaised b (suc n) s
          (let o = owed (level_of b) (rw e refl) in omega (arith, o)) in
      rw (e, positive n, mytbf_returntoken)
        (record {
          valid = IsValid-write v p b b' e r.slot r.sane;
          same =
              ap (λ x. (number (pos (suc n)), x))
                (written m p b' ∙ ap (λ l. put p l (abstract m)) r.levels);
        })
]

pub destroy-IsStep :
    (m : Module) (p : ℕ)
    → IsValid m
    → IsStep (step (destroys p) m) (remove p (view (m.heap p)) (abstract m))
unfolding step numbered mytbf_destroy remove
destroy-IsStep m p v = elim (Option-cases (m.heap p)) [
  | inl e ↦ rw (e, mytbf_destroy) (record { valid = v; same = refl })
  | inr (b, e) ↦
      let count = used-unset m.job b.pos p (v.table.live p b e) in
      rw (e, mytbf_destroy)
        (record {
          valid = IsValid-remove v p b e;
          same =
              ap (λ x. (number (pos 0), x))
                (store-eq (view-update m.heap p none) (omega (arith, count)));
        })
]

pub tick-IsStep : (m : Module) → IsValid m → IsStep (step tick m) (spec_step tick (abstract m))
unfolding step round handler spec_step
tick-IsStep m v =
    rw (each_slot-table v.table refill, handler)
      (record {
        valid = IsValid-each v;
        same = ap (λ s. (ticked, s)) (store-eq (refilled-each v) refl);
      })
