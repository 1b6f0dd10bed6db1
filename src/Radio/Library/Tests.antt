-- ===== src/Radio/Library/Tests.antt =====
-- Tests of the reading of channels, and its theorems at concrete inputs.
use lhq_linux_c.Base.{
  ℕ, suc, ◌+◌, ◌%◌, ◌≤◌, ◌<◌, ◌≡◌, refl, subst, ◌⊎◌, Option, none, some, List, [], ◌∷◌, arith, ◌==◌,
  if◌then◌else◌, length, take, drop, length-take, ℤ, pos, negsuc, neg_part, pos_part, sym, ap, ◌∙◌,
}
use lhq_linux_c.TokenBucket.{Module, refill, alrm_handle}
use lhq_linux_c.Table.Loops.{over}
use lhq_linux_c.TokenBucket.Invariant.{IsValid, alrm_handle_lem, refill-rate}
use lhq_linux_c.TokenBucket.Tests.{two_left, one_bucket, one_bucket-IsValid}
use lhq_linux_c.Radio.Library.{
  Channel, Disk, open_next, open_from, next_pos, mlib_readchn, waits, runs_on, faults,
}
use lhq_linux_c.Radio.Library.Songs.{Opens, Fails, open_next_lem}
use lhq_linux_c.Radio.Library.Reading.{
  Keeps, ReadDone, Readable, mlib_readchn_lem, mlib_readchn_total,
}

-- Song 1 cannot be opened, song 2 has the descriptor 9; every open file holds three bytes.
abbrev three_bytes : ℕ → ℕ → List ℕ
three_bytes n off = take n (drop off (5 ∷ 6 ∷ 7 ∷ []))

abbrev two_songs_open : ℕ → ℤ
two_songs_open path = if path == 2 then pos 9 else negsuc 0

abbrev two_songs_pread : ℤ → ℕ → ℕ → Option (List ℕ)
two_songs_pread (pos fd) n off = some (three_bytes n off)
two_songs_pread (negsuc fd) n off = none

two_songs_within :
    (fd : ℤ) (n off : ℕ) (bs : List ℕ) → two_songs_pread fd n off ≡ some bs → length bs ≤ n
two_songs_within (pos fd) n off bs e =
    let xs : List ℕ = drop off (5 ∷ 6 ∷ 7 ∷ []) in
    let l : length (take n xs) ≤ n = omega (arith, length-take n xs) in
    let s : three_bytes n off ≡ bs = cc in subst (λ ys. length ys ≤ n) s l
two_songs_within (negsuc fd) n off bs e = absurd (cc)

abbrev two_songs : Disk
two_songs = record {
  open_file = two_songs_open;
  pread = two_songs_pread;
  within = two_songs_within;
}

abbrev no_songs : Disk
no_songs = record {
  open_file = λ path. negsuc 0;
  pread = two_songs_pread;
  within = two_songs_within;
}

abbrev channel : Channel
channel = record {
  chnid = 1;
  desc = b'p' ∷ [];
  songs = 2 ∷ 1 ∷ [];
  pos = 0;
  fd = pos 4;
  offset = 0;
  tbf = 7;
}

-- Past song 1, back to song 2.
next_of_two : open_next two_songs channel ≡ some (pos 0, record channel { pos = 0; fd = pos 9 })
unfolding open_next open_from next_pos
next_of_two = refl

open_next_example :
    ((k : ℕ) × (fd : ℤ) × (k < 2)
      × ((k ≡ 0) ⊎ (1 ≤ 2))
      × Opens two_songs channel (suc k) fd
      × ((j : ℕ) → j < k → Fails two_songs channel (suc j))
      × (open_next two_songs channel
          ≡ some (pos 0, record channel { pos = (0 + suc k) % 2; fd = fd; offset = 0 })))
    ⊎ ((1 ≤ 2)
        × ((fd : ℤ) × ((j : ℕ) → j < 2 → Fails two_songs channel (suc j))
            × (0 < neg_part fd)
            × (open_next two_songs channel ≡ some (negsuc 0, record channel { fd = fd }))))
    ⊎ ((2 < 1) × Fails two_songs channel 1 × (open_next two_songs channel ≡ none))
open_next_example = open_next_lem two_songs channel (omega arith)

-- Between the fetch and the return the timer ticks.
abbrev ticked : Option Module → Module → Module
ticked none m = m
ticked (some m') m = m'

abbrev one_tick : Module → Module
one_tick m = ticked (alrm_handle m) m

one_tick-Keeps : Keeps one_tick 7
one_tick-Keeps m b v e =
    let (m', r, v', u) = alrm_handle_lem m v in
    let here : m'.heap 7 ≡ some (refill b) = u 7 ∙ ap (over refill) e in
    let same : one_tick m ≡ m' = ap (λ o. ticked o m) r in
    (
      subst IsValid (sym same) v',
      (refill b, ap (λ (x : Module). x.heap 7) same ∙ here, (refill-rate b).1),
    )

mlib_readchn_example :
    ((two_left.token ≡ pos 0) × (mlib_readchn two_songs 3 8 one_tick channel one_bucket ≡ waits))
    ⊎ ((0 < pos_part two_left.token)
        × ((mlib_readchn two_songs 3 8 one_tick channel one_bucket ≡ runs_on)
            ⊎ ((2 < 1) × (mlib_readchn two_songs 3 8 one_tick channel one_bucket ≡ faults))
            ⊎ ReadDone two_songs 3 8 one_tick channel one_bucket two_left))
mlib_readchn_example =
    mlib_readchn_lem two_songs 3 8 one_tick channel one_bucket two_left one_bucket-IsValid refl
      (omega arith) (omega arith) one_tick-Keeps

two_songs-Readable : Readable two_songs
two_songs-Readable (pos fd) n off h = (three_bytes n off, refl)
two_songs-Readable (negsuc fd) n off h = absurd (omega (arith, h))

mlib_readchn_total_example : ReadDone two_songs 2 8 one_tick channel one_bucket two_left
mlib_readchn_total_example =
    mlib_readchn_total two_songs 0 8 1 one_tick (pos 9) channel one_bucket two_left
      one_bucket-IsValid refl (omega arith) (omega arith) (omega arith) (omega arith) one_tick-Keeps
      (omega arith) (refl, refl) two_songs-Readable

-- The only song of channel 3 does not open: the log line reads outside `gl_pathv`.
reads_outside : open_next no_songs (record channel { chnid = 3; songs = 2 ∷ [] }) ≡ none
unfolding open_next open_from next_pos
reads_outside = refl
