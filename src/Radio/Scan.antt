-- ===== src/Radio/Scan.antt =====
-- socket/stream_media/server/medialib.c: the media directory as a list of channels. What the
-- system answers for one directory is a `Directory`; the building of path names is not modelled.
pub mod Listed
mod Tests
use lhq_linux_c.Base.{
  ℕ, zero, suc, ◌+◌, ◌-◌, ◌*◌, ◌/◌, ◌%◌, ◌^◌, ◌≤◌, ◌<◌, ◌≡◌, refl, sym, ap, ap₂, ◌∙◌, subst,
  fun_ext, ◌≢◌, ◌⊎◌, inl, inr, ◌↔◌, Bool, true, false, ◌&&◌, ◌||◌, not, Option, none, some, List,
  [], ◌∷◌, ◌++◌, map, arith, ltb, leb, ◌==◌, if◌then◌else◌, ltb→lt, lt→ltb, ==_iff, tests,
  Bool-cases, Option-cases, update, length, get_elem?, set, take, drop, replicate, length-append,
  length-set, length-replicate, length-take, length-drop, get_elem?-set_self, get_elem?-set_ne,
  lt_of_get_elem?, take-append, drop-append, take-append-drop, get_elem?-of_lt, ℤ, pos, negsuc,
  pos_part, neg_part, sub_ℕ, ◌≤ℤ◌, ◌<ℤ◌, ltb_ℤ, leb_ℤ, wrap_int, ◌+ℤ◌, ◌-ℤ◌, IsInt, +ℤ_parts,
  -ℤ_parts, +ℤ-IsInt, -ℤ-IsInt, eq_of_parts, int_laws, first_free, Full, first_free_cases,
}
use lhq_linux_c.TokenBucket.{Module, InitCalls, mytbf_init, InitResult}
use lhq_linux_c.Radio.{ListInfo, minchnid, maxchnid}
use lhq_linux_c.Radio.Library.{Channel}

-- `MP3_BITRATE / 8`, and `MP3_BITRATE / 8 * 5`, as the macro expands.
abbrev pub mp3_cps : ℤ
mp3_cps = pos (320 * 1024 / 8)

abbrev pub mp3_burst : ℤ
mp3_burst = pos (320 * 1024 / 8 * 5)

-- Whether desc.txt opens, its first line, whether there is memory, the answers to `mytbf_init`,
-- the songs that `glob` finds, and what opening the songs gives.
pub record Directory : Type 0 where
  pub desc_opens : Bool
  pub line : Option (List ℕ)
  pub memory : Bool
  pub calls : InitCalls
  pub songs : Option (List ℕ)
  pub open_file : ℕ → ℤ

-- The static variable of `path2entry`, and the token buckets.
pub record State : Type 0 where
  pub curr_id : ℕ
  pub buckets : Module

-- `curr_id++`, for a `chnid_t`.
abbrev pub next_id : State → State
next_id s = record s { curr_id = (s.curr_id + 1) % 256 }

pub data Entry : Type 0 where
  exits : Entry
  fault : Entry
  null : State → Entry
  entry : Channel → State → Entry

-- The first song is opened; the context gets the present id.
open_first : Directory → List ℕ → ℕ → List ℕ → State → Entry
open_first d line p [] s = fault
open_first d line p (song ∷ songs) s =
    let c : Channel = record {
      chnid = s.curr_id;
      desc = line;
      songs = song ∷ songs;
      pos = 0;
      fd = d.open_file song;
      offset = 0;
      tbf = p;
    } in
    if ltb_ℤ (d.open_file song) (pos 0) then null s else entry c (next_id s)

with_bucket : Directory → List ℕ → InitResult → State → Entry
unfolding open_first
with_bucket d line InitResult.exits s = exits
with_bucket d line (InitResult.null m) s = null (record s { buckets = m })
with_bucket d line (InitResult.handle p m) s = elim d.songs [
  | none ↦ null (next_id (record s { buckets = m }))
  | some songs ↦ open_first d line p songs (record s { buckets = m })
]

unfoldable pub path2entry : Directory → State → Entry
unfolding with_bucket
path2entry d s = if not d.desc_opens then null s else elim d.line [
  | none ↦ null s
  | some line ↦
      if not d.memory
      then null s
      else with_bucket d line (mytbf_init d.calls mp3_cps mp3_burst s.buckets) s
]

-- The channels that a scan lists, the array `channel`, and the state; or the end of the process,
-- or a store outside `channel`.
pub data Scanned : Type 0 where
  ends : Scanned
  faults : Scanned
  done : List ListInfo → List Channel → State → Scanned

list_one : Channel → Scanned → Scanned
list_one c ends = ends
list_one c faults = faults
list_one c (done is cs s) = done (record { chnid = c.chnid; desc = c.desc } ∷ is) cs s

-- The loop of `mlisb_getchnlist` over the directories.
unfoldable pub scan : List Directory → List Channel → State → Scanned
unfolding list_one
scan [] cs s = done [] cs s
scan (d ∷ ds) cs s = elim (path2entry d s) [
  | exits ↦ ends
  | fault ↦ faults
  | null s' ↦ scan ds cs s'
  | entry c s' ↦ elim (ltb c.chnid (length cs)) [
    | false ↦ faults
    | true ↦ list_one c (scan ds (set cs c.chnid c) s')
  ]
]

-- `channel[i].chnid = -1`, in a `chnid_t`.
abbrev pub no_channel : Channel → Channel
no_channel c = record c { chnid = 255 }

-- `none` is -1: the media directory cannot be listed. `memory` is whether `malloc` succeeds. The
-- debug prints read three elements of the array of paths, which ends with a null pointer behind the
-- directories.
unfoldable pub mlisb_getchnlist :
    Option (List Directory) → Bool → List Channel → State → Option Scanned
mlisb_getchnlist none memory cs s = none
mlisb_getchnlist (some ds) false cs s = some ends
mlisb_getchnlist (some ds) true cs s =
    if leb 2 (length ds) then some (scan ds (map no_channel cs) s) else some faults
