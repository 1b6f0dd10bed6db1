-- ===== src/Radio/Library/Reading.antt =====
-- `mlib_readchn` of medialib.c: what it takes from its bucket and gives back, when it ends, and when
-- it does not.
use lhq_linux_c.Base.{
  -ℤ-pos, ℕ, zero, suc, ◌+◌, ◌-◌, ◌%◌, ◌^◌, ◌≤◌, ◌<◌, ◌≡◌, refl, ap, ◌∙◌, fun_ext, ◌≢◌, ◌⊎◌, inl,
  inr, Option, none, some, List, [], ◌∷◌, arith, ltb, Bool-cases, Option-cases, update, length, ℤ,
  pos, negsuc, pos_part, neg_part, ◌-ℤ◌, true, if◌then◌else◌, sym,
}
use native.Mathlib.Nat.{mod-lt}
use lhq_linux_c.TokenBucket.{Bucket, Module, FetchResult, mytbf_fetchtoken}
use lhq_linux_c.TokenBucket.Invariant.{IsValid, IsSane}
use lhq_linux_c.TokenBucket.Fetch.{mytbf_fetchtoken_lem}
use lhq_linux_c.TokenBucket.Calls.{mytbf_returntoken_lem, topped_up}
use lhq_linux_c.Radio.{to_size}
use lhq_linux_c.Radio.Library.{
  Channel, Disk, open_next, next_song, in_pathv, Loop, faults, running, stopped, read_loop, waits,
  runs_on, returns, give_rest, mlib_readchn,
}
use lhq_linux_c.Radio.Library.Songs.{Opens, open_next_lem, open_next_inside}

-- Two contexts of one channel, whose present song is one of the list.
abbrev pub SameList : Channel → Channel → Type 0
SameList c c' =
    (c'.tbf ≡ c.tbf) × (c'.songs ≡ c.songs) × (c'.pos < length c'.songs) × (c'.chnid ≡ c.chnid)

-- The next song leaves the list, or a song fails where the channel's id is behind `gl_pathv`.
abbrev pub Moved : Disk → Channel → Type 0
Moved d c =
    ((r : ℤ) × (c' : Channel) × (next_song d c ≡ some (r, c')) × SameList c c')
    ⊎ ((length c.songs < c.chnid) × (next_song d c ≡ none))

next_song_lem : (d : Disk) (c : Channel) → c.pos < length c.songs → next_song d c ≡ open_next d c
unfolding next_song
next_song_lem d c h =
    let here : in_pathv c c.pos ≡ true = ground (arith, h) in rw (next_song, here) refl

next_song-Moved : (d : Disk) (c : Channel) → c.pos < length c.songs → Moved d c
next_song-Moved d c h =
    let s = next_song_lem d c h in
    elim (open_next_lem d c h) [
      | inl (k, fd, _, _, _, _, e) ↦
          inl (pos 0, _, s ∙ e, (refl, refl, mod-lt (c.pos + suc k) (omega arith), refl))
      | inr (inl (_, (fd, _, _, e))) ↦ inl (negsuc 0, _, s ∙ e, (refl, refl, h, refl))
      | inr (inr (l, _, e)) ↦ inr (l, s ∙ e)
    ]

-- What the loop comes to: the fuel is out, a log line reads outside `gl_pathv`, or it has read at
-- most `n` bytes.
abbrev pub Looped : Disk → ℕ → ℕ → Channel → Type 0
Looped d fuel n c =
    (read_loop d fuel (pos n) c ≡ running)
    ⊎ ((length c.songs < c.chnid) × (read_loop d fuel (pos n) c ≡ Loop.fault))
    ⊎ ((bytes : List ℕ) × (c' : Channel) × (read_loop d fuel (pos n) c
          ≡ stopped (pos (length bytes)) bytes c')
        × (length bytes ≤ n)
        × SameList c c')

read_cases :
    (o : Option (List ℕ))
    → (o ≡ none) ⊎ (o ≡ some []) ⊎ ((x : ℕ) × (xs : List ℕ) × (o ≡ some (x ∷ xs)))
read_cases none = inl refl
read_cases (some []) = inr (inl refl)
read_cases (some (x ∷ xs)) = inr (inr (x, xs, refl))

read_loop_lem : (d : Disk) (fuel n : ℕ) (c : Channel) → c.pos < length c.songs → Looped d fuel n c
unfolding read_loop to_size
read_loop_lem d zero n c h = inl refl
read_loop_lem d (suc fuel) n c h = elim (read_cases (d.pread c.fd n c.offset)) [
  | inl p ↦ elim (next_song-Moved d c h) [
    | inr (l, e) ↦ inr (inl (l, ground (arith, p, e)))
    | inl (r, c1, e, (t, s, i, a)) ↦ elim (read_loop_lem d fuel n c1 i) [
      | inl run ↦ inl (ground (arith, p, e, run))
      | inr (inl (l, f)) ↦ inr (inl (rw (s, a) at l, ground (arith, p, e, f)))
      | inr (inr (bytes, c2, f, l, (t2, s2, i2, a2))) ↦
          inr (inr (bytes, c2, ground (arith, p, e, f), l, (t2 ∙ t, s2 ∙ s, i2, a2 ∙ a)))
    ]
  ]
  | inr (inl p) ↦ elim (next_song-Moved d c h) [
    | inr (l, e) ↦ inr (inl (l, ground (arith, p, e)))
    | inl (r, c1, e, same) ↦ inr (inr ([], c1, ground (arith, p, e), omega arith, same))
  ]
  | inr (inr (x, xs, p)) ↦ inr (
      inr (
        x ∷ xs,
        record c { offset = c.offset + length (x ∷ xs) },
        ground (arith, p),
        d.within c.fd n c.offset (x ∷ xs) p,
        (refl, refl, h, refl),
      ))
]

topped_up-none : (b : Bucket) → IsSane b → topped_up b 0 ≡ b
topped_up-none b s =
    let t : pos (
          if ltb (pos_part b.burst) (pos_part b.token + 0)
          then pos_part b.burst
          else pos_part b.token + 0)
        ≡ b.token =
      ground (arith, s) in
    ap (λ (z : ℤ). record b { token = z }) t

-- What was not read of `n` tokens goes back to the bucket, as far as it has room.
give_rest_lem :
    (m : Module) (p n l : ℕ) (b : Bucket)
    → IsValid m
    → m.heap p ≡ some b
    → n + pos_part b.burst < 2 ^ 31
    → l ≤ n
    → (m' : Module) × (give_rest (pos n) (pos l) p m ≡ some m')
      × IsValid m'
      × (m'.heap ≡ update m.heap p (some (topped_up b (n - l))))
unfolding give_rest
give_rest_lem m p n l b v e small le =
    let sane = v.sane p b e in
    let within : pos_part b.token ≤ pos_part b.burst = ground (arith, sane) in
    let rest : pos n -ℤ pos l ≡ pos (n - l) = -ℤ-pos n l le (omega arith) in
    elim (Bool-cases (ltb 0 (n - l))) [
      | inl some_left ↦
          let (m', g, v', _, u') = mytbf_returntoken_lem m p (n - l) b v (omega arith) e in
          (m', ground (arith, rest, g, some_left), v', u')
      | inr all_used ↦
          let nothing : n - l ≡ 0 = ground (arith, all_used) in
          let same : topped_up b (n - l) ≡ b = ap (topped_up b) nothing ∙ topped_up-none b sane in
          let keeps : m.heap ≡ update m.heap p (some b) = fun_ext (λ r. ground (arith, e)) in
          (
            m,
            ground (arith, rest, all_used),
            v,
            keeps ∙ ap (λ (x : Bucket). update m.heap p (some x)) (sym same),
          )
    ]

-- What happens between the fetch and the return keeps the table of buckets, and the bucket `p` in
-- use with the same burst.
abbrev pub Keeps : (Module → Module) → ℕ → Type 0
Keeps others p =
    (m : Module) (b : Bucket)
    → IsValid m
    → m.heap p ≡ some b
    → IsValid (others m) × ((b' : Bucket) × ((others m).heap p ≡ some b') × (b'.burst ≡ b.burst))

-- How a call of `mlib_readchn` ends, for a channel whose bucket is `b`: it takes `n` tokens, the
-- smaller of the size and what there is, returns at most `n` bytes, and gives back the rest.
abbrev pub ReadDone : Disk → ℕ → ℕ → (Module → Module) → Channel → Module → Bucket → Type 0
ReadDone d fuel size others c m b =
    (bytes : List ℕ) × (c' : Channel) × (m1 m' : Module) × (n t : ℕ) × (b1 : Bucket) × (mlib_readchn
        d fuel size others c m
      ≡ returns (pos (length bytes)) bytes c' m')
    × (length bytes ≤ n)
    × SameList c c'
    × (b.token ≡ pos (n + t))
    × ((n ≡ size) ⊎ ((t ≡ 0) × (n < size)))
    × (m1.heap ≡ update m.heap c.tbf (some (record b { token = pos t })))
    × ((others m1).heap c.tbf ≡ some b1)
    × IsValid m'
    × (m'.heap ≡ update (others m1).heap c.tbf (some (topped_up b1 (n - length bytes))))

readchn_done :
    (d : Disk) (fuel size n t : ℕ) (others : Module → Module) (c c' : Channel) (m m1 : Module)
    (b : Bucket) (bytes : List ℕ)
    → Keeps others c.tbf
    → size + pos_part b.burst < 2 ^ 31
    → mytbf_fetchtoken c.tbf (pos size) m ≡ FetchResult.took (pos n) m1
    → b.token ≡ pos (n + t)
    → (n ≡ size) ⊎ ((t ≡ 0) × (n < size))
    → IsValid m1
    → m1.heap ≡ update m.heap c.tbf (some (record b { token = pos t }))
    → read_loop d fuel (pos n) c ≡ stopped (pos (length bytes)) bytes c'
    → length bytes ≤ n
    → SameList c c'
    → ReadDone d fuel size others c m b
unfolding mlib_readchn
readchn_done d fuel size n t others c c' m m1 b bytes keeps small f q least v1 u loop short same =
    let here : m1.heap c.tbf ≡ some (record b { token = pos t }) =
      ap (λ (h : ℕ → Option Bucket). h c.tbf) u ∙ ground arith in
    let (v2, (b1, e1, burst)) = keeps m1 (record b { token = pos t }) v1 here in
    let fits : n + pos_part b1.burst < 2 ^ 31 = ground (arith, least, small, burst) in
    let (m', g, v', u') = give_rest_lem (others m1) c.tbf n (length bytes) b1 v2 e1 fits short in
    (
      bytes,
      c',
      m1,
      m',
      n,
      t,
      b1,
      ground (arith, f, loop, g, same),
      short,
      same,
      q,
      least,
      u,
      e1,
      v',
      u',
    )

-- A read of a channel waits where its bucket is empty. Otherwise, for a present song of the list,
-- a size that fits an int together with the burst, and other threads that between the fetch and the
-- return keep the table of buckets and this bucket in use: it ends, unless the fuel of its loop
-- runs out or, where the channel's id is greater than the number of its songs, a log line reads
-- outside `gl_pathv`. Where it ends, it took the smaller of the size and the tokens there were, the
-- number that it returns is that of the bytes, at most what it took, and the rest has gone back to
-- the bucket, up to its burst, as the other threads left it.
pub mlib_readchn_lem :
    (d : Disk) (fuel size : ℕ) (others : Module → Module) (c : Channel) (m : Module) (b : Bucket)
    → IsValid m
    → m.heap c.tbf ≡ some b
    → c.pos < length c.songs
    → size + pos_part b.burst < 2 ^ 31
    → Keeps others c.tbf
    → ((b.token ≡ pos 0) × (mlib_readchn d fuel size others c m ≡ waits))
      ⊎ ((0 < pos_part b.token)
          × ((mlib_readchn d fuel size others c m ≡ runs_on)
              ⊎ ((length c.songs < c.chnid) × (mlib_readchn d fuel size others c m ≡ faults))
              ⊎ ReadDone d fuel size others c m b))
unfolding mlib_readchn
mlib_readchn_lem d fuel size others c m b v e h s keeps =
    elim (mytbf_fetchtoken_lem m c.tbf size b v (omega (arith, s)) e) [
      | inl (z, w) ↦ inl (z, ground (arith, w))
      | inr (n, t, m1, f, q, held, least, v1, _, u) ↦ inr (
        ground (arith, q, held),
        elim (read_loop_lem d fuel n c h) [
          | inl run ↦ inl (ground (arith, f, run))
          | inr (inl (l, out)) ↦ inr (inl (l, ground (arith, f, out)))
          | inr (inr (bytes, c', loop, short, same)) ↦ inr (
              inr (
                readchn_done d fuel size n t others c c' m m1 b bytes keeps s f q least v1 u loop
                  short same))
        ],
      )
    ]

-- Every descriptor that is open can be read.
abbrev pub Readable : Disk → Type 0
Readable d = (fd : ℤ) (n off : ℕ) → neg_part fd ≡ 0 → (bs : List ℕ) × (d.pread fd n off ≡ some bs)

one_round :
    (d : Disk) (fuel n : ℕ) (c : Channel)
    → c.pos < length c.songs
    → (bs : List ℕ) × (d.pread c.fd n c.offset ≡ some bs)
    → read_loop d (suc fuel) (pos n) c ≢ running
unfolding read_loop to_size
one_round d fuel n c h ([], p) run = elim (next_song-Moved d c h) [
  | inl (r, c1, e, _) ↦ absurd (ground (arith, p, e, run))
  | inr (_, e) ↦ absurd (ground (arith, p, e, run))
]
one_round d fuel n c h (x ∷ xs, p) run = absurd (ground (arith, p, run))

two_rounds :
    (d : Disk) (fuel n k : ℕ) (fd : ℤ) (c : Channel)
    → c.pos < length c.songs
    → c.chnid ≤ length c.songs
    → k < length c.songs
    → Opens d c (suc k) fd
    → Readable d
    → read_loop d (suc (suc fuel)) (pos n) c ≢ running
unfolding read_loop to_size
two_rounds d fuel n k fd c h i l o rd run = elim (open_next_inside d c h i) [
  | inr (fd', f, _, e) ↦ let (fd2, e2, neg) = f k l in absurd (ground (arith, o, e2, neg))
  | inl (k', fd', l', o', f, e) ↦ elim (Option-cases (d.pread c.fd n c.offset)) [
    | inr p ↦ one_round d (suc fuel) n c h p run
    | inl p ↦
        let c1 = record c { pos = (c.pos + suc k') % length c.songs; fd = fd'; offset = 0 } in
        let next = next_song_lem d c h ∙ e in
        one_round d fuel n c1 (mod-lt (c.pos + suc k') (omega arith)) (rd fd' n 0 o'.1)
          (ground (arith, p, next, run))
  ]
]

-- Where some song of the channel can be opened, open songs can be read, and the channel's id is at
-- most the number of its songs, two rounds of the loop are enough: a read from a bucket that is not
-- empty, of a size that fits an int together with the burst, returns, if the other threads keep the
-- bucket in use in between and the present song is one of the list.
pub mlib_readchn_total :
    (d : Disk) (fuel size k : ℕ) (others : Module → Module) (fd : ℤ) (c : Channel) (m : Module)
    (b : Bucket)
    → IsValid m
    → m.heap c.tbf ≡ some b
    → 0 < pos_part b.token
    → c.pos < length c.songs
    → c.chnid ≤ length c.songs
    → size + pos_part b.burst < 2 ^ 31
    → Keeps others c.tbf
    → k < length c.songs
    → Opens d c (suc k) fd
    → Readable d
    → ReadDone d (suc (suc fuel)) size others c m b
mlib_readchn_total d fuel size k others fd c m b v e some_token h i s keeps l o rd =
    elim (mytbf_fetchtoken_lem m c.tbf size b v (omega (arith, s)) e) [
      | inl (z, w) ↦ absurd (ground (arith, z))
      | inr (n, t, m1, f, q, _, least, v1, _, u) ↦ elim (read_loop_lem d (suc (suc fuel)) n c h) [
        | inl run ↦ absurd (two_rounds d fuel n k fd c h i l o rd run)
        | inr (inl (out, _)) ↦ absurd (omega (arith, out, i))
        | inr (inr (bytes, c', loop, short, same)) ↦
            readchn_done d (suc (suc fuel)) size n t others c c' m m1 b bytes keeps s f q least v1 u
              loop short same
      ]
    ]
