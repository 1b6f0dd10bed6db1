-- ===== src/TokenBucket/Fetch.antt =====
-- `mytbf_fetchtoken` of mytbf.c: when the caller waits, and what it takes.
use lhq_linux_c.Base.{
  -ℤ-pos, ℕ, ◌+◌, ◌-◌, ◌^◌, ◌<◌, ◌≡◌, refl, ap, ◌∙◌, ◌⊎◌, inl, inr, some, arith, ltb, ◌==◌,
  if◌then◌else◌, Bool-cases, update, pos, pos_part, ◌-ℤ◌,
}
use lhq_linux_c.TokenBucket.{Bucket, Module, min, waits, took, mytbf_fetchtoken}
use lhq_linux_c.TokenBucket.Invariant.{IsSane, IsValid, IsValid-write}

-- What a nonnegative token count is, and what `min` and the subtraction make of it.
pub token-eq : (b : Bucket) → IsSane b → b.token ≡ pos (pos_part b.token)
token-eq b s = ground arith

min-pos : (t n : ℕ) → min (pos t) (pos n) ≡ pos (if ltb t n then t else n)
unfolding min
min-pos t n = ground arith

fetch-took :
    (m : Module) (p size n t : ℕ) (b : Bucket)
    → m.heap p ≡ some b
    → b.token ≡ pos (n + t)
    → 0 < n + t
    → n + t < 2 ^ 31
    → (n ≡ size) ⊎ ((t ≡ 0) × (n < size))
    → mytbf_fetchtoken p (pos size) m
      ≡ took (pos n) (record m { heap = update m.heap p (some (record b { token = pos t })) })
unfolding mytbf_fetchtoken
fetch-took m p size n t b e q some_left small c =
    let smaller : min (pos (n + t)) (pos size) ≡ pos n = min-pos (n + t) size ∙ ground arith in
    let rest : pos (n + t) -ℤ pos n ≡ pos t =
      -ℤ-pos (n + t) n (omega arith) small ∙ ap pos (omega arith) in
    ground (arith, e, q, smaller, rest)

-- What a fetch of `size` from bucket `b` at `p` comes to.
abbrev pub Fetched : Module → ℕ → ℕ → Bucket → Type 0
Fetched m p size b =
    ((b.token ≡ pos 0) × (mytbf_fetchtoken p (pos size) m ≡ waits))
    ⊎ ((n t : ℕ) × (m' : Module) × (mytbf_fetchtoken p (pos size) m ≡ took (pos n) m')
        × (b.token ≡ pos (n + t))
        × (0 < n + t)
        × ((n ≡ size) ⊎ ((t ≡ 0) × (n < size)))
        × IsValid m'
        × (m'.job ≡ m.job)
        × (m'.heap ≡ update m.heap p (some (record b { token = pos t }))))

fetch_done :
    (m : Module) (p size n t : ℕ) (b : Bucket)
    → IsValid m
    → m.heap p ≡ some b
    → b.token ≡ pos (n + t)
    → 0 < n + t
    → (n ≡ size) ⊎ ((t ≡ 0) × (n < size))
    → Fetched m p size b
fetch_done m p size n t b v e q some_left c =
    let s = v.sane p b e in
    let small : n + t < 2 ^ 31 = ground (arith, s) in
    let sane : IsSane (record b { token = pos t }) = record {
      rate = s.rate;
      nonneg = refl;
      within = ground (arith, s);
    } in
    inr (
      n,
      t,
      _,
      fetch-took m p size n t b e q some_left small c,
      q,
      some_left,
      c,
      IsValid-write v p e (record b { token = pos t }) refl sane,
      refl,
      refl,
    )

-- A fetch that is given a size of at least 0 waits if the bucket is empty, and otherwise takes
-- the smaller of the size and what the bucket holds; no other bucket changes.
pub mytbf_fetchtoken_lem :
    (m : Module) (p size : ℕ) (b : Bucket)
    → IsValid m
    → size < 2 ^ 31
    → m.heap p ≡ some b
    → Fetched m p size b
unfolding mytbf_fetchtoken
mytbf_fetchtoken_lem m p size b v h e =
    let k = pos_part b.token in
    let q = token-eq b (v.sane p b e) in
    elim (Bool-cases (k == 0)) [
      | inl empty ↦ inl (ground (arith, q), ground (arith, e, q))
      | inr more ↦ elim (Bool-cases (ltb k size)) [
        | inl all ↦
            fetch_done m p size k 0 b v e (q ∙ ap pos (omega arith)) (ground arith)
              (inr (refl, ground arith))
        | inr part ↦
            fetch_done m p size size (k - size) b v e (q ∙ ap pos (ground arith)) (ground arith)
              (inl refl)
      ]
    ]
