-- ===== src/Radio/Library/Songs.antt =====
-- `open_next` of medialib.c: which song it opens, going round the list once.
use lhq_linux_c.Base.{
  ℕ, zero, suc, ◌+◌, ◌%◌, ◌<◌, ◌≡◌, refl, sym, ap, ◌∙◌, ◌⊎◌, inl, inr, Option, none, some, arith,
  ◌==◌, if◌then◌else◌, Bool-cases, length, get_elem?, get_elem?-of_lt, ℤ, pos, negsuc, neg_part,
  ltb_ℤ, ltb, ◌≤◌, ◌-◌, true, false,
}
use native.Mathlib.Nat.{mod-add-mod, mod-eq_of_lt, mod-lt, add-mod_right}
use lhq_linux_c.Radio.Library.{Channel, Disk, next_pos, open_from, open_next, in_pathv}

-- What opening gives for the song `k` behind the present one, round the list.
abbrev pub fd_at : Disk → Channel → ℕ → Option ℤ
fd_at d c k = elim (get_elem? c.songs ((c.pos + k) % length c.songs)) [
  | none ↦ none
  | some path ↦ some (d.open_file path)
]

-- That song can be opened, with this descriptor, or cannot.
abbrev pub Opens : Disk → Channel → ℕ → ℤ → Type 0
Opens d c k fd = (fd_at d c k ≡ some fd) × (neg_part fd ≡ 0)

abbrev pub Fails : Disk → Channel → ℕ → Type 0
Fails d c k = (fd : ℤ) × (fd_at d c k ≡ some fd) × (0 < neg_part fd)

turn : (p n : ℕ) → p < n → (if suc p == n then 0 else suc p) ≡ (p + 1) % n
turn p n h = elim (Bool-cases (suc p == n)) [
  | inl last ↦
      let e : p + 1 ≡ 0 + n = ground arith in
      rw last
        (sym (ap (λ k. k % n) e ∙ add-mod_right 0 n ∙ mod-eq_of_lt {n = 0} {m = n} (omega arith)))
  | inr inner ↦ rw inner (omega arith ∙ sym (mod-eq_of_lt {n = p + 1} {m = n} (ground arith)))
]

next_pos_lem : (c : Channel) → c.pos < length c.songs → next_pos c ≡ (c.pos + 1) % length c.songs
unfolding next_pos
next_pos_lem c h = turn c.pos (length c.songs) h

-- One round of the loop: the channel with the next song as its present one.
abbrev moved : Disk → Channel → ℤ → Channel
moved d c fd = record c { pos = (c.pos + 1) % length c.songs; fd = fd }

-- The song at an index of the list.
abbrev opened : Disk → Channel → ℕ → Option ℤ
opened d c i = elim (get_elem? c.songs i) [ none ↦ none | some path ↦ some (d.open_file path) ]

fd_at-moved :
    (d : Disk) (c : Channel) (fd : ℤ) (k : ℕ) → fd_at d (moved d c fd) k ≡ fd_at d c (suc k)
fd_at-moved d c fd k =
    ap (opened d c)
      (mod-add-mod (c.pos + 1) (length c.songs) k ∙ ap (λ n. n % length c.songs) (omega arith))

opened_inside :
    (d : Disk) (c : Channel) (i : ℕ) → i < length c.songs → (fd : ℤ) × (opened d c i ≡ some fd)
opened_inside d c i h =
    let (path, e) = get_elem?-of_lt c.songs i h in (d.open_file path, ground (arith, e))

open_from_step :
    (d : Disk) (n : ℕ) (c : Channel) (fd : ℤ)
    → opened d c (next_pos c) ≡ some fd
    → in_pathv c c.chnid ≡ true
    → open_from d (suc n) c ≡ (
        if ltb_ℤ fd (pos 0)
        then open_from d n (record c { pos = next_pos c; fd = fd })
        else some (pos 0, record c { pos = next_pos c; fd = fd; offset = 0 }))
unfolding open_from
open_from_step d n c fd e i = ground (arith, e, i)

-- One round reads the next song from the list and tries to open it.
round :
    (d : Disk) (n : ℕ) (c : Channel)
    → c.pos < length c.songs
    → in_pathv c c.chnid ≡ true
    → (fd : ℤ) × (fd_at d c 1 ≡ some fd)
      × (open_from d (suc n) c ≡ (
          if ltb_ℤ fd (pos 0)
          then open_from d n (moved d c fd)
          else some (pos 0, record (moved d c fd) { offset = 0 })))
round d n c h i =
    let p = next_pos_lem c h in
    let (fd, e) =
      opened_inside d c ((c.pos + 1) % length c.songs) (mod-lt (c.pos + 1) (omega arith)) in
    (fd, e, rw p at (open_from_step d n c fd (rw p e) i))

-- How a search of `n` rounds ends: with the first song that opens, or after `n` that do not.
abbrev Searched : Disk → ℕ → Channel → Type 0
Searched d n c =
    ((k : ℕ) × (fd : ℤ) × (k < n)
      × Opens d c (suc k) fd
      × ((j : ℕ) → j < k → Fails d c (suc j))
      × (open_from d n c
          ≡ some (pos 0, record c { pos = (c.pos + suc k) % length c.songs; fd = fd; offset = 0 })))
    ⊎ ((fd : ℤ) × ((j : ℕ) → j < n → Fails d c (suc j))
        × (((n ≡ 0) × (fd ≡ c.fd)) ⊎ (0 < neg_part fd))
        × (open_from d n c
            ≡ some (negsuc 0, record c { pos = (c.pos + n) % length c.songs; fd = fd })))

Fails-moved :
    (d : Disk) (c : Channel) (fd : ℤ) (k : ℕ)
    → Fails d c 1
    → ((j : ℕ) → j < k → Fails d (moved d c fd) (suc j))
    → (j : ℕ) → j < suc k
    → Fails d c (suc j)
Fails-moved d c fd k first later zero h = first
Fails-moved d c fd k first later (suc j) h =
    let (fd', e, neg) = later j (omega arith) in (fd', sym (fd_at-moved d c fd (suc j)) ∙ e, neg)

place-moved :
    (c : Channel) (n : ℕ)
    → ((c.pos + 1) % length c.songs + n) % length c.songs ≡ (c.pos + suc n) % length c.songs
place-moved c n =
    mod-add-mod (c.pos + 1) (length c.songs) n ∙ ap (λ k. k % length c.songs) (omega arith)

search_cons :
    (d : Disk) (n : ℕ) (c : Channel) (fd : ℤ)
    → Fails d c 1
    → 0 < neg_part fd
    → open_from d (suc n) c ≡ open_from d n (moved d c fd)
    → Searched d n (moved d c fd)
    → Searched d (suc n) c
search_cons d n c fd first neg e (inl (k, fd', l, (o, p), f, r)) = inl (
  suc k,
  fd',
  omega arith,
  (sym (fd_at-moved d c fd (suc k)) ∙ o, p),
  Fails-moved d c fd k first f,
  e
      ∙ r
      ∙ ap (λ (i : ℕ). some (pos 0, record c { pos = i; fd = fd'; offset = 0 }))
          (place-moved c (suc k)),
)
search_cons d n c fd first neg e (inr (fd', f, w, r)) = inr (
  fd',
  Fails-moved d c fd n first f,
  inr (ground (arith, w, neg)),
  e ∙ r ∙ ap (λ (i : ℕ). some (negsuc 0, record c { pos = i; fd = fd' })) (place-moved c n),
)

open_from_lem :
    (d : Disk) (n : ℕ) (c : Channel)
    → c.pos < length c.songs
    → in_pathv c c.chnid ≡ true
    → Searched d n c
unfolding open_from
open_from_lem d zero c h i =
    let same : c.pos ≡ (c.pos + 0) % length c.songs =
      sym (ap (λ k. k % length c.songs) (omega arith) ∙ mod-eq_of_lt h) in
    inr (
      c.fd,
      (λ j l. absurd (omega arith)),
      inl (refl, refl),
      ap (λ (i : ℕ). some (negsuc 0, record c { pos = i })) same,
    )
open_from_lem d (suc n) c h i =
    let (fd, e, step) = round d n c h i in
    elim (Bool-cases (ltb_ℤ fd (pos 0))) [
      | inr good ↦ inl (
        0,
        fd,
        omega arith,
        (e, ground (arith, good)),
        (λ j l. absurd (omega arith)),
        step ∙ rw good,
      )
      | inl bad ↦
          search_cons d n c fd (fd, e, ground (arith, bad)) (ground (arith, bad)) (step ∙ rw bad)
            (open_from_lem d n (moved d c fd) (mod-lt (c.pos + 1) (omega arith)) i)
    ]

-- The search of `open_next` where the log line of a failed song reads inside `gl_pathv`.
pub open_next_inside :
    (d : Disk) (c : Channel)
    → c.pos < length c.songs
    → c.chnid ≤ length c.songs
    → ((k : ℕ) × (fd : ℤ) × (k < length c.songs)
        × Opens d c (suc k) fd
        × ((j : ℕ) → j < k → Fails d c (suc j))
        × (open_next d c
            ≡ some
                (pos 0, record c { pos = (c.pos + suc k) % length c.songs; fd = fd; offset = 0 })))
      ⊎ ((fd : ℤ) × ((j : ℕ) → j < length c.songs → Fails d c (suc j))
          × (0 < neg_part fd)
          × (open_next d c ≡ some (negsuc 0, record c { fd = fd })))
unfolding open_next
open_next_inside d c h l = elim (open_from_lem d (length c.songs) c h (ground (arith, l))) [
  | inl found ↦ inl found
  | inr (fd, f, w, r) ↦
      let back : (c.pos + length c.songs) % length c.songs ≡ c.pos =
        add-mod_right c.pos (length c.songs) ∙ mod-eq_of_lt h in
      inr (
        fd,
        f,
        ground (arith, w),
        r ∙ ap (λ (i : ℕ). some (negsuc 0, record c { pos = i; fd = fd })) back,
      )
]

outside_step :
    (d : Disk) (n : ℕ) (c : Channel) (fd : ℤ)
    → opened d c (next_pos c) ≡ some fd
    → in_pathv c c.chnid ≡ false
    → open_from d (suc n) c ≡ (
        if ltb_ℤ fd (pos 0)
        then none
        else some (pos 0, record c { pos = next_pos c; fd = fd; offset = 0 }))
unfolding open_from
outside_step d n c fd e i = ground (arith, e, i)

-- Where the channel's id is behind the end of `gl_pathv`, only the next song can be opened.
pub open_next_outside :
    (d : Disk) (c : Channel)
    → c.pos < length c.songs
    → length c.songs < c.chnid
    → ((fd : ℤ) × Opens d c 1 fd
        × (open_next d c
            ≡ some (pos 0, record c { pos = (c.pos + 1) % length c.songs; fd = fd; offset = 0 })))
      ⊎ (Fails d c 1 × (open_next d c ≡ none))
unfolding open_next
open_next_outside d c h l =
    let p = next_pos_lem c h in
    let (fd, e) =
      opened_inside d c ((c.pos + 1) % length c.songs) (mod-lt (c.pos + 1) (omega arith)) in
    let size : suc (length c.songs - 1) ≡ length c.songs = omega (arith, h) in
    let step = rw p at (outside_step d (length c.songs - 1) c fd (rw p e) (ground (arith, l))) in
    let whole = ap (λ n. open_from d n c) (sym size) ∙ step in
    elim (Bool-cases (ltb_ℤ fd (pos 0))) [
      | inr good ↦ inl (fd, (e, ground (arith, good)), whole ∙ rw good)
      | inl bad ↦ inr ((fd, e, ground (arith, bad)), whole ∙ rw bad)
    ]

-- `open_next` opens the first song behind the present one, going round the list, that can be
-- opened, and begins it at offset 0; it returns -1 only where none of them can be, and the channel
-- then stands at the song where it stood. But a song that cannot be opened is logged with the
-- element of `gl_pathv` at the id of the channel: where the id is greater than the number of songs,
-- `open_next` reads outside the array if the next song cannot be opened.
pub open_next_lem :
    (d : Disk) (c : Channel)
    → c.pos < length c.songs
    → ((k : ℕ) × (fd : ℤ) × (k < length c.songs)
        × ((k ≡ 0) ⊎ (c.chnid ≤ length c.songs))
        × Opens d c (suc k) fd
        × ((j : ℕ) → j < k → Fails d c (suc j))
        × (open_next d c
            ≡ some
                (pos 0, record c { pos = (c.pos + suc k) % length c.songs; fd = fd; offset = 0 })))
      ⊎ ((c.chnid ≤ length c.songs)
          × ((fd : ℤ) × ((j : ℕ) → j < length c.songs → Fails d c (suc j))
              × (0 < neg_part fd)
              × (open_next d c ≡ some (negsuc 0, record c { fd = fd }))))
      ⊎ ((length c.songs < c.chnid) × Fails d c 1 × (open_next d c ≡ none))
open_next_lem d c h = elim (Bool-cases (ltb (length c.songs) c.chnid)) [
  | inl l ↦ elim (open_next_outside d c h (ground (arith, l))) [
    | inl (fd, o, e) ↦ inl (0, fd, omega (arith, h), inl refl, o, (λ j b. absurd (omega arith)), e)
    | inr (f, e) ↦ inr (inr (ground (arith, l), f, e))
  ]
  | inr l ↦ elim (open_next_inside d c h (ground (arith, l))) [
    | inl (k, fd, b, o, f, e) ↦ inl (k, fd, b, inr (ground (arith, l)), o, f, e)
    | inr none_opens ↦ inr (inl (ground (arith, l), none_opens))
  ]
]
