-- ===== src/Radio/Library.antt =====
-- socket/stream_media/server/medialib.c: the directories of music as channels, and the reading of
-- a channel at the rate of its token bucket. What the system answers to one call (files, memory)
-- is an argument of that call.
pub mod Songs
pub mod Reading
mod Tests
use lhq_linux_c.Base.{
  ℕ, zero, suc, ◌+◌, ◌-◌, ◌*◌, ◌/◌, ◌%◌, ◌^◌, ◌≤◌, ◌<◌, ◌≡◌, refl, sym, ap, ap₂, ◌∙◌, subst,
  fun_ext, ◌≢◌, ◌⊎◌, inl, inr, ◌↔◌, Bool, true, false, ◌&&◌, ◌||◌, not, Option, none, some, List,
  [], ◌∷◌, ◌++◌, map, arith, ltb, leb, ◌==◌, if◌then◌else◌, ltb→lt, lt→ltb, ==_iff, tests,
  Bool-cases, Option-cases, update, length, get_elem?, set, take, drop, replicate, length-append,
  length-set, length-replicate, length-take, length-drop, get_elem?-set_self, get_elem?-set_ne,
  lt_of_get_elem?, take-append, drop-append, take-append-drop, ℤ, pos, negsuc, pos_part, neg_part,
  sub_ℕ, ◌≤ℤ◌, ◌<ℤ◌, ltb_ℤ, leb_ℤ, wrap_int, ◌+ℤ◌, ◌-ℤ◌, IsInt, +ℤ_parts, -ℤ_parts, +ℤ-IsInt,
  -ℤ-IsInt, eq_of_parts, int_laws, first_free, Full, first_free_cases,
}
use lhq_linux_c.TokenBucket
use lhq_linux_c.TokenBucket.{
  Module, InitCalls, mytbf_init, InitResult, FetchResult, mytbf_fetchtoken, mytbf_returntoken,
}
use lhq_linux_c.Radio.{ListInfo, minchnid, maxchnid, to_size}

-- `struct channel_context_st`; a path is a number, and `songs` is `mp3glob`.
pub record Channel : Type 0 where
  pub chnid : ℕ
  pub desc : List ℕ
  pub songs : List ℕ
  pub pos : ℕ
  pub fd : ℤ
  pub offset : ℕ
  pub tbf : ℕ

-- The files, as they are during one call: `open`, and `pread` of a file descriptor for a number
-- of bytes at an offset, where `none` is an error.
pub record Disk : Type 0 where
  pub open_file : ℕ → ℤ
  pub pread : ℤ → ℕ → ℕ → Option (List ℕ)
  pub within : (fd : ℤ) (n off : ℕ) (bs : List ℕ) → pread fd n off ≡ some bs → length bs ≤ n

-- The next song: the one behind `pos`, or the first.
unfoldable pub next_pos : Channel → ℕ
next_pos c = if suc c.pos == length c.songs then 0 else suc c.pos

-- Whether `gl_pathv` has an element `i`: the paths, and behind them the null pointer.
abbrev pub in_pathv : Channel → ℕ → Bool
in_pathv c i = leb i (length c.songs)

-- The loop of `open_next`, for the rounds that are left; `none` is a read outside `gl_pathv`. A
-- song that does not open is logged with the element of `gl_pathv` at the channel's id.
unfoldable pub open_from : Disk → ℕ → Channel → Option (ℤ × Channel)
open_from d zero c = some (negsuc 0, c)
open_from d (suc n) c = elim (get_elem? c.songs (next_pos c)) [
  | none ↦ none
  | some path ↦
      let c' = record c { pos = next_pos c; fd = d.open_file path } in
      elim (ltb_ℤ c'.fd (pos 0)) [
        | true ↦ elim (in_pathv c c.chnid) [ false ↦ none | true ↦ open_from d n c' ]
        | false ↦ some (pos 0, record c' { offset = 0 })
      ]
]

unfoldable pub open_next : Disk → Channel → Option (ℤ × Channel)
open_next d c = open_from d (length c.songs) c

-- The end of the reading loop: the bytes, their number as `len`, and the channel.
pub data Loop : Type 0 where
  fault : Loop
  running : Loop
  stopped : ℤ → List ℕ → Channel → Loop

-- `open_next` behind the log line that names the present song.
unfoldable pub next_song : Disk → Channel → Option (ℤ × Channel)
next_song d c = elim (in_pathv c c.pos) [ false ↦ none | true ↦ open_next d c ]

-- `while (1)` of `mlib_readchn`, with fuel.
unfoldable pub read_loop : Disk → ℕ → ℤ → Channel → Loop
read_loop d zero tbfsize c = running
read_loop d (suc fuel) tbfsize c = elim (d.pread c.fd (to_size tbfsize) c.offset) [
  | none ↦ elim (next_song d c) [ none ↦ fault | some (r, c') ↦ read_loop d fuel tbfsize c' ]
  | some [] ↦ elim (next_song d c) [ none ↦ fault | some (r, c') ↦ stopped (pos 0) [] c' ]
  | some (x ∷ xs) ↦
      stopped (pos (length (x ∷ xs))) (x ∷ xs) (record c { offset = c.offset + length (x ∷ xs) })
]

pub data Read : Type 0 where
  faults : Read
  waits : Read
  runs_on : Read
  returns : ℤ → List ℕ → Channel → Module → Read

-- The tokens that are left over go back to the bucket.
give_rest : ℤ → ℤ → ℕ → Module → Option Module
give_rest tbfsize len p m =
    if ltb_ℤ (pos 0) (tbfsize -ℤ len)
    then (elim (mytbf_returntoken p (tbfsize -ℤ len) m) [ none ↦ none | some (r, m') ↦ some m' ])
    else some m

finish : ℤ → Module → Loop → Read
unfolding give_rest
finish tbfsize m fault = faults
finish tbfsize m running = runs_on
finish tbfsize m (stopped len bytes c) = elim (give_rest tbfsize len c.tbf m) [
  | none ↦ faults
  | some m' ↦ returns len bytes c m'
]

-- `others` is what the other threads and the timer do to the buckets between the fetch and the
-- return, which are two critical sections; the log line behind the fetch, which only reads the
-- bucket, is left out.
unfoldable pub mlib_readchn : Disk → ℕ → ℕ → (Module → Module) → Channel → Module → Read
unfolding finish
mlib_readchn d fuel size others c m = elim (mytbf_fetchtoken c.tbf (pos size) m) [
  | FetchResult.fault ↦ faults
  | FetchResult.waits ↦ waits
  | FetchResult.took tbfsize m' ↦ finish tbfsize (others m') (read_loop d fuel tbfsize c)
]
