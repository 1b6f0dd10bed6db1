-- ===== src/Radio/Senders.antt =====
-- socket/stream_media/server/thr_channel.c: the table of the threads that send the channels. `none`
-- is an access outside the table, or a thread that is cancelled and joined though it does not run.
pub mod Manned
pub mod Joined
pub mod Twice
use lhq_linux_c.Base.{
  ℕ, zero, suc, ◌+◌, ◌-◌, ◌*◌, ◌/◌, ◌%◌, ◌^◌, ◌≤◌, ◌<◌, ◌≡◌, refl, sym, ap, ap₂, ◌∙◌, subst,
  fun_ext, ◌≢◌, ◌⊎◌, inl, inr, ◌↔◌, Bool, true, false, ◌&&◌, ◌||◌, not, Option, none, some, List,
  [], ◌∷◌, ◌++◌, map, arith, ltb, leb, ◌==◌, if◌then◌else◌, ltb→lt, lt→ltb, ==_iff, tests,
  Bool-cases, Option-cases, update, length, get_elem?, set, take, drop, replicate, length-append,
  length-set, length-replicate, length-take, length-drop, get_elem?-set_self, get_elem?-set_ne,
  lt_of_get_elem?, take-append, drop-append, take-append-drop, get_elem?-of_lt, ℤ, pos, negsuc,
  pos_part, neg_part, sub_ℕ, ◌≤ℤ◌, ◌<ℤ◌, ltb_ℤ, eqb_ℤ, leb_ℤ, wrap_int, ◌+ℤ◌, ◌-ℤ◌, IsInt, +ℤ_parts,
  -ℤ_parts, +ℤ-IsInt, -ℤ-IsInt, eq_of_parts, +ℤ-pos, -ℤ-pos, int_laws, first_free, Full,
  first_free_cases,
}
use lhq_linux_c.Radio.{chnnum}

pub data Thread : Type 0 where
  absent : Thread
  running : Thread
  joined : Thread

-- `struct thr_channel_ent_st`; the channel is a number of eight bits.
pub record Sender : Type 0 where
  pub chnid : ℕ
  pub pid : ℕ

abbrev pub blank : Sender
blank = record { chnid = 0; pid = 0 }

-- `thr_channel`, `tid_pos`, and the threads of the process.
pub record Senders : Type 0 where
  pub thr_channel : List Sender
  pub tid_pos : ℕ
  pub threads : ℕ → Thread

unfoldable pub start : Senders
start = record { thr_channel = replicate chnnum blank; tid_pos = 0; threads = λ p. absent }

-- What pthread_create answers: a thread, or the error `suc e`.
pub data Created : Type 0 where
  made : ℕ → Created
  refused : ℕ → Created

unfoldable pub thr_channel_create : Created → ℕ → Senders → Option (ℤ × Senders)
thr_channel_create (refused e) chnid m = some (negsuc e, m)
thr_channel_create (made p) chnid m =
    let e : Sender = record { chnid = chnid; pid = p } in
    if ltb m.tid_pos chnnum
    then some (
      pos 0,
      record {
        thr_channel = set m.thr_channel m.tid_pos e;
        tid_pos = suc m.tid_pos;
        threads = update m.threads p running;
      },
    )
    else none

-- pthread_cancel and pthread_join.
unfoldable pub stop : ℕ → (ℕ → Thread) → Option (ℕ → Thread)
stop p th = elim (th p) [ running ↦ some (update th p joined) | absent ↦ none | joined ↦ none ]

-- `thr_channel[i].chnid = -1`, in eight bits.
abbrev pub gone : Sender → Sender
gone s = record s { chnid = 2 ^ 8 - 1 }

abbrev pub before :
    Sender → Option (List Sender × (ℕ → Thread)) → Option (List Sender × (ℕ → Thread))
before s none = none
before s (some (ss, th)) = some (s ∷ ss, th)

-- The loop of `thr_channel_destroy`.
unfoldable pub destroy_first : ℕ → List Sender → (ℕ → Thread) → Option (List Sender × (ℕ → Thread))
destroy_first chnid [] th = some ([], th)
destroy_first chnid (s ∷ ss) th =
    let rest = before s (destroy_first chnid ss th) in
    if s.chnid == chnid
    then (elim (stop s.pid th) [ none ↦ none | some th' ↦ some (gone s ∷ ss, th') ])
    else rest

-- The loop of `thr_channel_destroyall`; the error of pthread_cancel is not negative.
unfoldable pub destroy_each : List Sender → (ℕ → Thread) → Option (List Sender × (ℕ → Thread))
destroy_each [] th = some ([], th)
destroy_each (s ∷ ss) th = elim (ltb 0 s.chnid) [
  | true ↦ elim (stop s.pid th) [ none ↦ none | some th' ↦ before (gone s) (destroy_each ss th') ]
  | false ↦ before s (destroy_each ss th)
]

abbrev pub with_table : Senders → Option (List Sender × (ℕ → Thread)) → Option (ℤ × Senders)
with_table m none = none
with_table m (some (ss, th)) = some (pos 0, record m { thr_channel = ss; threads = th })

unfoldable pub thr_channel_destroy : ℕ → Senders → Option (ℤ × Senders)
unfolding destroy_first
thr_channel_destroy chnid m = with_table m (destroy_first chnid m.thr_channel m.threads)

unfoldable pub thr_channel_destroyall : Senders → Option (ℤ × Senders)
unfolding destroy_each
thr_channel_destroyall m = with_table m (destroy_each m.thr_channel m.threads)
