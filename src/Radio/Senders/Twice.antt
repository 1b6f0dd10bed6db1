-- ===== src/Radio/Senders/Twice.antt =====
-- socket/stream_media/server/thr_channel.c: a thread that is destroyed by its channel, and then
-- with the others.
use lhq_linux_c.Base.{
  ℕ, zero, suc, ◌<◌, ◌≡◌, refl, sym, ap, ap₂, ◌∙◌, ◌⊎◌, inl, inr, true, false, none, some, List, [],
  ◌∷◌, arith, ltb, ◌==◌, Bool-cases, Option-cases, update, get_elem?, ℤ, pos,
}
use lhq_linux_c.Radio.Senders.{
  Thread, absent, running, joined, Sender, Senders, stop, gone, destroy_first, destroy_each,
  thr_channel_destroy, thr_channel_destroyall,
}

pub stop_cases :
    (p : ℕ) (th : ℕ → Thread)
    → (stop p th ≡ none) ⊎ ((th p ≡ running) × (stop p th ≡ some (update th p joined)))
unfolding stop
stop_cases p th = by_thread (th p) refl
  where
    by_thread :
        (t : Thread)
        → th p ≡ t
        → (stop p th ≡ none) ⊎ ((th p ≡ running) × (stop p th ≡ some (update th p joined)))
    by_thread absent e = inl (rw (e, stop) refl)
    by_thread running e = inr (e, rw (e, stop) refl)
    by_thread joined e = inl (rw (e, stop) refl)

-- An entry that is in use and whose thread was joined.
destroy_each-joined :
    (ss : List Sender) (th : ℕ → Thread) (i : ℕ) (s : Sender)
    → get_elem? ss i ≡ some s
    → 0 < s.chnid
    → th s.pid ≡ joined
    → destroy_each ss th ≡ none
unfolding destroy_each
destroy_each-joined [] th i s e h j = absurd cc
destroy_each-joined (x ∷ ss) th zero s e h j =
    let q : x ≡ s = (let f : some x ≡ some s = e in cc) in
    let a : ltb 0 x.chnid ≡ true = ground (arith, q, h) in
    let d : stop x.pid th ≡ none = elim (stop_cases x.pid th) [
      | inl n ↦ n
      | inr (r, f) ↦
          absurd
            (let c : joined ≡ running = sym j ∙ ap (λ (y : Sender). th y.pid) (sym q) ∙ r in cc)
    ] in
    rw (a, d, destroy_each) refl
destroy_each-joined (x ∷ ss) th (suc i) s e h j = elim (Bool-cases (ltb 0 x.chnid)) [
  | inl a ↦ elim (stop_cases x.pid th) [
    | inl n ↦ rw (a, n, destroy_each) refl
    | inr (r, f) ↦
        rw
          (
            a,
            f,
            destroy_each,
            destroy_each-joined ss (update th x.pid joined) i s e h (ground (arith, j)),
          )
          refl
  ]
  | inr a ↦ rw (a, destroy_each, destroy_each-joined ss th i s e h j) refl
]

behind :
    (c i : ℕ) (x s : Sender) (ss : List Sender)
    → get_elem? (x ∷ ss) i ≡ some s
    → s.chnid ≡ c
    → (x.chnid == c) ≡ false
    → (j : ℕ) × (get_elem? ss j ≡ some s)
behind c zero x s ss e h f =
    absurd (let q : x ≡ s = (let g : some x ≡ some s = e in cc) in ground (arith, q, h, f))
behind c (suc i) x s ss e h f = (i, e)

-- What the first loop leaves at the entry that it finds.
left_joined :
    (c : ℕ) (ss ss' : List Sender) (th th' : ℕ → Thread) (i : ℕ) (s : Sender)
    → get_elem? ss i ≡ some s
    → s.chnid ≡ c
    → destroy_first c ss th ≡ some (ss', th')
    → (k : ℕ) × (t : Sender) × (get_elem? ss' k ≡ some (gone t)) × (th' t.pid ≡ joined)
unfolding destroy_first
left_joined c [] ss' th th' i s e h d = absurd cc
left_joined c (x ∷ ss) ss' th th' i s e h d = elim (Bool-cases (x.chnid == c)) [
  | inl here ↦ elim (stop_cases x.pid th) [
    | inl n ↦
        absurd (let q : none ≡ some (ss', th') = sym (rw (here, n, destroy_first) refl) ∙ d in cc)
    | inr (r, f) ↦
        let q : some (gone x ∷ ss, update th x.pid joined) ≡ some (ss', th') =
          sym (rw (here, f, destroy_first) refl) ∙ d in
        let a : gone x ∷ ss ≡ ss' = cc in
        let b : update th x.pid joined ≡ th' = cc in
        (0, x, sym (ap (λ l. get_elem? l 0) a), sym (ap (λ t. t x.pid) b) ∙ ground arith)
  ]
  | inr there ↦ elim (Option-cases (destroy_first c ss th)) [
    | inl n ↦
        absurd (let q : none ≡ some (ss', th') = sym (rw (there, n, destroy_first) refl) ∙ d in cc)
    | inr ((rest, u), f) ↦
        let q : some (x ∷ rest, u) ≡ some (ss', th') =
          sym (rw (there, f, destroy_first) refl) ∙ d in
        let a : x ∷ rest ≡ ss' = cc in
        let b : u ≡ th' = cc in
        let (i', e') = behind c i x s ss e h there in
        let (k, t, g, j) = left_joined c ss rest th u i' s e' h f in
        (suc k, t, sym (ap (λ l. get_elem? l (suc k)) a) ∙ g, sym (ap (λ w. w t.pid) b) ∙ j)
  ]
]

destroyed :
    (c : ℕ) (r : ℤ) (m m' : Senders)
    → thr_channel_destroy c m ≡ some (r, m')
    → destroy_first c m.thr_channel m.threads ≡ some (m'.thr_channel, m'.threads)
unfolding thr_channel_destroy
destroyed c r m m' d = elim (Option-cases (destroy_first c m.thr_channel m.threads)) [
  | inl n ↦ absurd (let q : none ≡ some (r, m') = sym (rw (n, thr_channel_destroy) refl) ∙ d in cc)
  | inr ((ss, th), f) ↦
      let q : some (pos 0, record m { thr_channel = ss; threads = th }) ≡ some (r, m') =
        sym (rw (f, thr_channel_destroy) refl) ∙ d in
      let e : record m { thr_channel = ss; threads = th } ≡ m' = cc in
      f
      ∙ ap₂ (λ x y. some (x, y)) (ap (λ (w : Senders). w.thr_channel) e)
          (ap (λ (w : Senders). w.threads) e)
]

-- After the thread of one channel was destroyed, to destroy all of them cancels and joins it again:
-- the number -1 that marks its entry is 255 in the eight bits of the field, which is not 0.
pub destroy-destroyall :
    (c i : ℕ) (s : Sender) (r : ℤ) (m m' : Senders)
    → get_elem? m.thr_channel i ≡ some s
    → s.chnid ≡ c
    → thr_channel_destroy c m ≡ some (r, m')
    → thr_channel_destroyall m' ≡ none
unfolding thr_channel_destroyall
destroy-destroyall c i s r m m' e h d =
    let (k, t, g, j) =
      left_joined c m.thr_channel m'.thr_channel m.threads m'.threads i s e h
        (destroyed c r m m' d) in
    rw
      (
        destroy_each-joined m'.thr_channel m'.threads k (gone t) g (ground arith) j,
        thr_channel_destroyall,
      )
      refl
