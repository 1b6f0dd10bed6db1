-- ===== src/Radio/Senders/Joined.antt =====
-- socket/stream_media/server/thr_channel.c: the threads that are created are all joined.
use Prim.{tt}
use lhq_linux_c.Base.{
  ℕ, zero, suc, ◌<◌, ◌≡◌, refl, sym, ap, ◌∙◌, ◌≢◌, ◌⊎◌, inl, inr, true, false, Option, none, some,
  arith, ◌==◌, if◌then◌else◌, lt→ltb, Bool-cases, update, get_elem?, set, replicate, length-set,
  length-replicate, get_elem?-set_ne, pos,
}
use lhq_linux_c.Radio.{chnnum}
use lhq_linux_c.Radio.Senders.{
  Thread, absent, running, joined, Sender, blank, Senders, start, made, thr_channel_create,
  thr_channel_destroyall,
}
use lhq_linux_c.Radio.Senders.Manned.{
  active, member, Manned, IsValid, Manned-update, joins, member-set, Manned-set,
}

-- A thread that is created is entered in the table.
pub create-IsValid :
    (lister : Option ℕ) (m : Senders) (p c : ℕ)
    → IsValid lister m
    → m.threads p ≡ absent
    → 0 < c
    → m.tid_pos < chnnum
    → (m' : Senders) × (thr_channel_create (made p) c m ≡ some (pos 0, m'))
      × IsValid lister m'
      × (m'.tid_pos ≡ suc m.tid_pos)
      × (m'.threads ≡ update m.threads p running)
unfolding thr_channel_create
create-IsValid lister m p c v n h l =
    let e : Sender = record { chnid = c; pid = p } in
    let u : active e ≡ true = ground (arith, h) in
    let here = v.free m.tid_pos (omega arith) l in
    (
      record {
        thr_channel = set m.thr_channel m.tid_pos e;
        tid_pos = suc m.tid_pos;
        threads = update m.threads p running;
      },
      rw (lt→ltb m.tid_pos chnnum l, thr_channel_create) refl,
      record {
        manned = Manned-set e u m.threads m.thr_channel m.tid_pos here n v.manned;
        known = λ q r. known' q r;
        apart = λ q r. apart' q r;
        free = λ i g s.
            get_elem?-set_ne m.thr_channel m.tid_pos i e (omega (arith, g))
            ∙ v.free i (omega (arith, g)) s;
        slots = length-set m.thr_channel m.tid_pos e ∙ v.slots;
      },
      refl,
      refl,
    )
  where
    e' : Sender
    e' = record { chnid = c; pid = p }

    u' : active e' ≡ true
    u' = ground (arith, h)

    here' : get_elem? m.thr_channel m.tid_pos ≡ some blank
    here' = v.free m.tid_pos (omega arith) l

    known' :
        (q : ℕ)
        → update m.threads p running q ≡ running
        → (member q (set m.thr_channel m.tid_pos e') ≡ true) ⊎ (lister ≡ some q)
    known' q r = elim (Bool-cases (p == q)) [
      | inl same ↦ inl (member-set e' u' m.thr_channel m.tid_pos q here' ∙ ground (arith, same))
      | inr other ↦ elim (v.known q (ground (arith, r, other))) [
        | inl k ↦ inl (member-set e' u' m.thr_channel m.tid_pos q here' ∙ ground (arith, k))
        | inr k ↦ inr k
      ]
    ]

    apart' :
        (q : ℕ)
        → lister ≡ some q
        → (update m.threads p running q ≡ running)
          × (member q (set m.thr_channel m.tid_pos e') ≡ false)
    apart' q r =
        let (x, y) = v.apart q r in
        let other : (p == q) ≡ false = elim (Bool-cases (p == q)) [
          | inl same ↦ absurd (
              let z : p ≡ q = ground (arith, same) in
              let c' : absent ≡ running = sym n ∙ ap m.threads z ∙ x in cc)
          | inr w ↦ w
        ] in
        (
          ground (arith, x),
          member-set e' u' m.thr_channel m.tid_pos q here' ∙ ground (arith, y, other),
        )

-- From a table that knows every running thread, thr_channel_destroyall returns 0 and no thread that
-- the table holds is joined twice; afterwards none of them runs.
pub thr_channel_destroyall_lem :
    (m : Senders)
    → IsValid none m
    → (m' : Senders) × (thr_channel_destroyall m ≡ some (pos 0, m'))
      × ((p : ℕ) → m'.threads p ≢ running)
unfolding thr_channel_destroyall
thr_channel_destroyall_lem m v =
    let (ss', e) = joins m.thr_channel m.threads v.manned in
    (
      record m {
        thr_channel = ss';
        threads = λ q. if member q m.thr_channel then joined else m.threads q;
      },
      rw (e, thr_channel_destroyall) refl,
      λ p r. elim (Bool-cases (member p m.thr_channel)) [
        | inl x ↦ absurd (let c : joined ≡ running = (let y = rw x at r in y) in cc)
        | inr x ↦ (elim (v.known p (rw x at r)) [
          | inl k ↦ absurd (ground (arith, x, k))
          | inr k ↦ absurd (cc k)
        ])
      ],
    )

Manned-blank : (n : ℕ) (th : ℕ → Thread) → Manned th (replicate n blank)
Manned-blank zero th = tt
Manned-blank (suc n) th = ((λ a. absurd (ground (arith, a))), Manned-blank n th)

get_elem?-replicate : (n i : ℕ) → i < n → get_elem? (replicate n blank) i ≡ some blank
get_elem?-replicate zero i h = absurd (omega (arith, h))
get_elem?-replicate (suc n) zero h = refl
get_elem?-replicate (suc n) (suc i) h = get_elem?-replicate n i (omega (arith, h))

-- The other thread is joined first.
pub joined-IsValid :
    (m : Senders) (p : ℕ)
    → IsValid (some p) m
    → IsValid none (record m { threads = update m.threads p joined })
joined-IsValid m p v =
    let (r, n) = v.apart p refl in
    record {
      manned = Manned-update m.threads p joined m.thr_channel n v.manned;
      known = λ q s. elim (Bool-cases (p == q)) [
        | inl same ↦ absurd (ground (arith, same, s))
        | inr other ↦ elim (v.known q (ground (arith, other, s))) [
          | inl k ↦ inl k
          | inr k ↦ absurd (let z : p ≡ q = cc in ground (arith, z, other))
        ]
      ];
      apart = λ q k. absurd (cc k);
      free = v.free;
      slots = v.slots;
    }

-- A thread that is created first and sends no channel.
pub lister-IsValid :
    (p : ℕ) → IsValid (some p) (record start { threads = update start.threads p running })
unfolding start
lister-IsValid p = record {
  manned = Manned-blank chnnum (update start.threads p running);
  known = λ q s. elim (Bool-cases (p == q)) [
    | inl same ↦ inr (ap some (ground (arith, same)))
    | inr other ↦ absurd (ground (arith, other, s))
  ];
  apart = λ q k. ((let z : p ≡ q = cc in ground (arith, z)), no_member chnnum q);
  free = λ i g s. get_elem?-replicate chnnum i s;
  slots = length-replicate chnnum blank;
}
  where
    no_member : (n q : ℕ) → member q (replicate n blank) ≡ false
    no_member zero q = refl
    no_member (suc n) q = ground (arith, no_member n q)
