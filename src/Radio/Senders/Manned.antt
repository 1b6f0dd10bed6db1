-- ===== src/Radio/Senders/Manned.antt =====
-- socket/stream_media/server/thr_channel.c: a table in which every entry has a thread of its own.
use Prim.{Unit, tt}
use lhq_linux_c.Base.{
  ℕ, zero, suc, ◌≤◌, ◌<◌, ◌≡◌, refl, sym, ap, ◌∙◌, subst, fun_ext, ◌⊎◌, inl, inr, Bool, true, false,
  ◌&&◌, ◌||◌, Option, some, List, [], ◌∷◌, arith, ltb, ◌==◌, if◌then◌else◌, Bool-cases, update,
  length, get_elem?, set,
}
use lhq_linux_c.Radio.{chnnum}
use lhq_linux_c.Radio.Senders.{
  Thread, absent, running, joined, Sender, blank, Senders, stop, gone, destroy_each,
}

abbrev pub active : Sender → Bool
active s = ltb 0 s.chnid

abbrev pub member : ℕ → List Sender → Bool
member p [] = false
member p (s ∷ ss) = (active s && (s.pid == p)) || member p ss

-- Every entry in use has a running thread of its own.
abbrev pub Manned : (ℕ → Thread) → List Sender → Type 0
Manned th [] = Unit {0}
Manned th (s ∷ ss) =
    (active s ≡ true → (th s.pid ≡ running) × (member s.pid ss ≡ false)) × Manned th ss

-- The table knows every thread that runs, but for one that sends no channel, if there is one.
pub record IsValid (lister : Option ℕ) (m : Senders) : Type 0 where
  pub manned : Manned m.threads m.thr_channel
  pub known : (p : ℕ) → m.threads p ≡ running → (member p m.thr_channel ≡ true) ⊎ (lister ≡ some p)
  pub apart : (p : ℕ) → lister ≡ some p → (m.threads p ≡ running) × (member p m.thr_channel ≡ false)
  pub free : (i : ℕ) → m.tid_pos ≤ i → i < chnnum → get_elem? m.thr_channel i ≡ some blank
  pub slots : length m.thr_channel ≡ chnnum

pub Manned-update :
    (th : ℕ → Thread) (p : ℕ) (t : Thread) (ss : List Sender)
    → member p ss ≡ false
    → Manned th ss
    → Manned (update th p t) ss
Manned-update th p t [] f l = tt
Manned-update th p t (s ∷ ss) f (h, l) = (
  (λ a. let (r, n) = h a in (ground (arith, r, a, f), n)),
  Manned-update th p t ss (ground (arith, f)) l,
)

-- Joining every thread of the table.
pub joins :
    (ss : List Sender) (th : ℕ → Thread)
    → Manned th ss
    → (ss' : List Sender) × (destroy_each ss th
        ≡ some (ss', λ q. if member q ss then joined else th q))
unfolding destroy_each stop
joins [] th l = ([], refl)
joins (s ∷ ss) th (h, l) = elim (Bool-cases (active s)) [
  | inl a ↦
      let (r, n) = h a in
      let u = update th s.pid joined in
      let (ss', e) = joins ss u (Manned-update th s.pid joined ss n l) in
      let w : stop s.pid th ≡ some u = rw (r, stop) refl in
      (
        gone s ∷ ss',
        rw (a, w, e, destroy_each)
            (ap (λ t. some (gone s ∷ ss', t)) (fun_ext λ q. ground (arith, a))),
      )
  | inr a ↦ let (ss', e) = joins ss th l in (s ∷ ss', rw (a, e, destroy_each) refl)
]

member-running :
    (th : ℕ → Thread) (p : ℕ) (ss : List Sender)
    → Manned th ss
    → member p ss ≡ true
    → th p ≡ running
member-running th p [] l e = absurd cc
member-running th p (s ∷ ss) (h, l) e = elim (Bool-cases (active s && (s.pid == p))) [
  | inl here ↦
      let (r, n) = h (ground (arith, here)) in
      let q : s.pid ≡ p = ground (arith, here) in subst (λ x. th x ≡ running) q r
  | inr there ↦ member-running th p ss l (ground (arith, e, there))
]

-- An entry is put where the table has none.
module _ (e : Sender) (u : active e ≡ true) where
  pub member-set :
      (ss : List Sender) (i q : ℕ)
      → get_elem? ss i ≡ some blank
      → member q (set ss i e) ≡ ((e.pid == q) || member q ss)
  member-set [] i q g = absurd cc
  member-set (s ∷ ss) zero q g =
      let b : s ≡ blank = (let f : some s ≡ some blank = g in cc) in
      let a : active s ≡ false = ap (λ x. active x) b in ground (arith, a, u)
  member-set (s ∷ ss) (suc i) q g = ground (arith, member-set ss i q g)

  pub Manned-set :
      (th : ℕ → Thread) (ss : List Sender) (i : ℕ)
      → get_elem? ss i ≡ some blank
      → th e.pid ≡ absent
      → Manned th ss
      → Manned (update th e.pid running) (set ss i e)
  Manned-set th [] i g n l = absurd cc
  Manned-set th (s ∷ ss) zero g n (h, l) =
      let fresh : member e.pid ss ≡ false = elim (Bool-cases (member e.pid ss)) [
        | inl m ↦ absurd (let c : absent ≡ running = sym n ∙ member-running th e.pid ss l m in cc)
        | inr m ↦ m
      ] in
      ((λ a. (ground arith, fresh)), Manned-update th e.pid running ss fresh l)
  Manned-set th (s ∷ ss) (suc i) g n (h, l) = (
    (λ a.
        let (r, m) = h a in
        let other : (e.pid == s.pid) ≡ false = elim (Bool-cases (e.pid == s.pid)) [
          | inl same ↦ absurd (
              let q : e.pid ≡ s.pid = ground (arith, same) in
              let c : absent ≡ running = sym n ∙ ap th q ∙ r in cc)
          | inr x ↦ x
        ] in
        (rw other r, rw (member-set ss i s.pid g, other, m) refl)),
    Manned-set th ss i g n l,
  )
