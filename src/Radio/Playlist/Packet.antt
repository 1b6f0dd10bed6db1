-- ===== src/Radio/Playlist/Packet.antt =====
-- The packet that thr_list.c builds: its bytes, with no store outside the memory for it.
use lhq_linux_c.Base.{
  ℕ, suc, ◌+◌, ◌%◌, ◌^◌, ◌<◌, ◌≤◌, false, if◌then◌else◌, ◌≡◌, refl, sym, ap, ◌∙◌, true, some, List,
  [], ◌∷◌, ◌++◌, arith, ltb, lt→ltb, length, set, take, drop, length-append, length-take,
  length-drop, take-append-drop,
}
use mathlib.Core.List.{append_assoc, append-nil}
use lhq_linux_c.Radio.{chnlist, sizeof_chnid, ListInfo}
use lhq_linux_c.Radio.Playlist.{
  entry_size, int_size, total_from, totalsize, store, entry_bytes, fill_from, pack, thr_list,
  log_reads_outside,
}

-- The bytes of the entries, one after the other.
abbrev pub entries_bytes : List ListInfo → List ℕ
entries_bytes [] = []
entries_bytes (e ∷ es) = entry_bytes e ++ entries_bytes es

pub entry_size_pos : (e : ListInfo) → 4 ≤ entry_size e
unfolding entry_size
entry_size_pos e = omega arith

pub length-entry_bytes : (e : ListInfo) → length (entry_bytes e) ≡ entry_size e
unfolding entry_bytes entry_size
length-entry_bytes e = omega (arith, length-append e.desc (0 ∷ []))

pub int_size_lem : (e : ListInfo) → entry_size e < 2 ^ 32 → int_size e ≡ entry_size e
unfolding int_size
int_size_lem e h = omega (arith, h)

total_from_lem :
    (n : ℕ) (es : List ListInfo)
    → n + length (entries_bytes es) < 2 ^ 31
    → total_from n es ≡ n + length (entries_bytes es)
unfolding total_from
total_from_lem n [] h = omega arith
total_from_lem n (e ∷ es) h =
    let sizes = length-append (entry_bytes e) (entries_bytes es) in
    let this = length-entry_bytes e in
    let same : (n + entry_size e) % 2 ^ 32 ≡ n + entry_size e = omega (arith, h, sizes, this) in
    ap (λ k. total_from k es) same
    ∙ total_from_lem (n + entry_size e) es (omega (arith, h, sizes, this))
    ∙ omega (arith, sizes, this)

-- The packet fits an int.
abbrev pub FitsInt : List ListInfo → Type 0
FitsInt es = 1 + length (entries_bytes es) < 2 ^ 31

pub totalsize_lem : (es : List ListInfo) → FitsInt es → totalsize es ≡ 1 + length (entries_bytes es)
unfolding totalsize
totalsize_lem es h = total_from_lem sizeof_chnid es h

set-append :
    (pre : List ℕ) (o x : ℕ) (rest : List ℕ)
    → set (pre ++ (o ∷ rest)) (length pre) x ≡ pre ++ (x ∷ rest)
set-append [] o x rest = refl
set-append (p ∷ pre) o x rest = ap (λ l. p ∷ l) (set-append pre o x rest)

-- `xs` stored behind `pre` replaces as many bytes of what follows.
pub store_lem :
    (pre old xs rest : List ℕ)
    → length old ≡ length xs
    → store (pre ++ (old ++ rest)) (length pre) xs ≡ some (pre ++ (xs ++ rest))
unfolding store
store_lem pre [] [] rest h = refl
store_lem pre (o ∷ old) [] rest h = absurd (omega (arith, h))
store_lem pre [] (x ∷ xs) rest h = absurd (omega (arith, h))
store_lem pre (o ∷ old) (x ∷ xs) rest h =
    let inside : ltb (length pre) (length (pre ++ (o ∷ (old ++ rest)))) ≡ true =
      lt→ltb (length pre) (length (pre ++ (o ∷ (old ++ rest))))
        (omega (arith, length-append pre (o ∷ (old ++ rest)))) in
    let next : suc (length pre) ≡ length (pre ++ (x ∷ [])) =
      omega (arith, length-append pre (x ∷ [])) in
    let tail = store_lem (pre ++ (x ∷ [])) old xs rest (omega (arith, h)) in
    rw (inside, set-append pre o x (old ++ rest), next, ← append_assoc pre (x ∷ []) (old ++ rest))
      (tail ∙ ap some (append_assoc pre (x ∷ []) (xs ++ rest)))

fill_from_lem :
    (es : List ListInfo) (pre old rest : List ℕ)
    → length old ≡ length (entries_bytes es)
    → length (entries_bytes es) < 2 ^ 31
    → fill_from (pre ++ (old ++ rest)) (length pre) es ≡ some (pre ++ (entries_bytes es ++ rest))
unfolding fill_from
fill_from_lem [] pre [] rest h f = refl
fill_from_lem [] pre (o ∷ old) rest h f = absurd (omega (arith, h))
fill_from_lem (e ∷ es) pre old rest h f =
    let k = length (entry_bytes e) in
    let sizes = length-append (entry_bytes e) (entries_bytes es) in
    let first : length (take k old) ≡ length (entry_bytes e) =
      length-take k old ∙ omega (arith, h, sizes) in
    let later : length (drop k old) ≡ length (entries_bytes es) =
      length-drop k old ∙ omega (arith, h, sizes) in
    let stored = store_lem pre (take k old) (entry_bytes e) (drop k old ++ rest) first in
    let split : old ++ rest ≡ take k old ++ (drop k old ++ rest) =
      ap (λ l. l ++ rest) (sym (take-append-drop k old))
      ∙ append_assoc (take k old) (drop k old) rest in
    let this = length-entry_bytes e in
    let same = int_size_lem e (omega (arith, f, sizes, this)) in
    let next : length pre + int_size e ≡ length (pre ++ entry_bytes e) =
      omega (arith, same, length-append pre (entry_bytes e), this) in
    let tail =
      fill_from_lem es (pre ++ entry_bytes e) (drop k old) rest later (omega (arith, f, sizes)) in
    rw (split, stored, fill_from, next, ← append_assoc pre (entry_bytes e) (drop k old ++ rest))
      (tail
        ∙ ap some (
            append_assoc pre (entry_bytes e) (entries_bytes es ++ rest)
            ∙ ap (λ l. pre ++ l) (sym (append_assoc (entry_bytes e) (entries_bytes es) rest))))

pub packed_lem :
    (es : List ListInfo) (memory : List ℕ)
    → FitsInt es
    → length memory ≡ totalsize es
    → pack memory es ≡ some (chnlist ∷ entries_bytes es)
unfolding pack store
packed_lem es [] f h = absurd (omega (arith, h, totalsize_lem es f))
packed_lem es (o ∷ old) f h =
    let size : length old ≡ length (entries_bytes es) = omega (arith, h, totalsize_lem es f) in
    let filled = fill_from_lem es (chnlist ∷ []) old [] size (omega (arith, f)) in
    let room : ltb 0 (suc (length old)) ≡ true = lt→ltb 0 (suc (length old)) (omega arith) in
    rw (room, pack) (rw (append-nil old, append-nil (entries_bytes es)) at filled)

log_reads_cons :
    (size off : ℕ) (e : ListInfo) (es : List ListInfo)
    → log_reads_outside size off (e ∷ es)
      ≡ (if ltb (off + int_size e + 2) size then 0 else 1)
        + log_reads_outside size (off + int_size e) es
unfolding log_reads_outside
log_reads_cons size off e es = refl

log_reads_nil : (size off : ℕ) → log_reads_outside size off [] ≡ 0
unfolding log_reads_outside
log_reads_nil size off = refl

log_reads_lem :
    (size off : ℕ) (e : ListInfo) (es : List ListInfo)
    → off + length (entries_bytes (e ∷ es)) ≡ size
    → size < 2 ^ 31
    → log_reads_outside size off (e ∷ es) ≡ 1
log_reads_lem size off e [] h f =
    let sizes = length-append (entry_bytes e) [] in
    let this = length-entry_bytes e in
    let same = int_size_lem e (omega (arith, h, f, sizes, this)) in
    let last : ltb (off + int_size e + 2) size ≡ false = ground (arith, h, sizes, this, same) in
    let one : ◌≡◌ {A = ℕ} (if ltb (off + int_size e + 2) size then 0 else 1) 1 = rw last refl in
    log_reads_cons size off e [] ∙ omega (arith, one, log_reads_nil size (off + int_size e))
log_reads_lem size off e (e' ∷ es) h f =
    let sizes = length-append (entry_bytes e) (entries_bytes (e' ∷ es)) in
    let this = length-entry_bytes e in
    let same = int_size_lem e (omega (arith, h, f, sizes, this)) in
    let rest : off + int_size e + length (entries_bytes (e' ∷ es)) ≡ size =
      omega (arith, h, sizes, this, same) in
    let inside : ltb (off + int_size e + 2) size ≡ true = lt→ltb (off + int_size e + 2) size (
      omega (
        arith,
        rest,
        length-append (entry_bytes e') (entries_bytes es),
        length-entry_bytes e',
        entry_size_pos e',
      )) in
    let none_here : ◌≡◌ {A = ℕ} (if ltb (off + int_size e + 2) size then 0 else 1) 0 =
      rw inside refl in
    log_reads_cons size off e (e' ∷ es)
    ∙ omega (arith, none_here, log_reads_lem size (off + int_size e) e' es rest f)

-- The reads of the log line that are outside the packet: the last, if there is an entry.
abbrev pub past_end : List ListInfo → ℕ
past_end [] = 0
past_end (e ∷ es) = 1

past_end_lem :
    (es : List ListInfo)
    → FitsInt es
    → log_reads_outside (totalsize es) sizeof_chnid es ≡ past_end es
past_end_lem [] f = log_reads_nil (totalsize []) sizeof_chnid
past_end_lem (e ∷ es) f =
    let t = totalsize_lem (e ∷ es) f in
    log_reads_lem (totalsize (e ∷ es)) sizeof_chnid e es (sym t) (omega (arith, t, f))

-- For a packet whose size is in the range of int, whatever `malloc` gives: every store of `thr_list`
-- stays inside its `totalsize` bytes, and the packet is the playlist's channel and then the entries,
-- with no byte of the old content left. Of the reads of the log line exactly one is outside the
-- packet, the last, unless there is no entry.
pub thr_list_lem :
    (es : List ListInfo) (memory : List ℕ)
    → FitsInt es
    → length memory ≡ totalsize es
    → thr_list memory es ≡ some (chnlist ∷ entries_bytes es, past_end es)
unfolding thr_list
thr_list_lem es memory f h =
    rw (packed_lem es memory f h, thr_list)
      (ap (λ n. some (chnlist ∷ entries_bytes es, n)) (past_end_lem es f))
