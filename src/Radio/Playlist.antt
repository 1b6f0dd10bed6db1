-- ===== src/Radio/Playlist.antt =====
-- socket/stream_media/server/thr_list.c: the packet that announces the channels, and the loop of
-- client/client.c that lists them.
pub mod Packet
pub mod Listing
mod Tests
use lhq_linux_c.Base.{
  ℕ, zero, suc, ◌+◌, ◌-◌, ◌*◌, ◌/◌, ◌%◌, ◌^◌, ◌≤◌, ◌<◌, ◌≡◌, refl, sym, ap, ap₂, ◌∙◌, subst,
  fun_ext, ◌≢◌, ◌⊎◌, inl, inr, ◌↔◌, Bool, true, false, ◌&&◌, ◌||◌, not, Option, none, some, List,
  [], ◌∷◌, ◌++◌, map, arith, ltb, leb, ◌==◌, if◌then◌else◌, ltb→lt, lt→ltb, ==_iff, tests,
  Bool-cases, Option-cases, update, length, get_elem?, set, take, drop, replicate, length-append,
  length-set, length-replicate, length-take, length-drop, get_elem?-set_self, get_elem?-set_ne,
  lt_of_get_elem?, take-append, drop-append, take-append-drop, ℤ, pos, negsuc, pos_part, neg_part,
  sub_ℕ, ◌≤ℤ◌, ◌<ℤ◌, ltb_ℤ, leb_ℤ, wrap_int, ◌+ℤ◌, ◌-ℤ◌, IsInt, +ℤ_parts, -ℤ_parts, +ℤ-IsInt,
  -ℤ-IsInt, eq_of_parts, int_laws, first_free, Full, first_free_cases,
}
use lhq_linux_c.Radio.{
  to_size, chnlist, sizeof_chnid, sizeof_listinfo, sizeof_msg_list, ListInfo, u8, net_high, net_low,
}

-- The size of one entry, a size_t, and `size`, an int, and `totalsize` of the packet. An int is
-- written as its 32 bits, and is negative from 2 ^ 31 on.
unfoldable pub entry_size : ListInfo → ℕ
entry_size e = sizeof_listinfo + length e.desc

unfoldable pub int_size : ListInfo → ℕ
int_size e = entry_size e % 2 ^ 32

total_from : ℕ → List ListInfo → ℕ
total_from total [] = total
total_from total (e ∷ es) = total_from ((total + entry_size e) % 2 ^ 32) es

unfoldable pub totalsize : List ListInfo → ℕ
unfolding total_from
totalsize es = total_from sizeof_chnid es

-- Stores to consecutive bytes of a buffer; `none` is a store outside it.
unfoldable pub store : List ℕ → ℕ → List ℕ → Option (List ℕ)
store buf off [] = some buf
store buf off (x ∷ xs) = if ltb off (length buf) then store (set buf off x) (suc off) xs else none

-- The stores of one entry: its channel, its length in network order, and `strcpy` of its text.
unfoldable pub entry_bytes : ListInfo → List ℕ
entry_bytes e = u8 e.chnid ∷ net_high (int_size e) ∷ net_low (int_size e) ∷ (e.desc ++ (0 ∷ []))

-- The second loop of `thr_list`, `entryptr` at offset `off`.
unfoldable pub fill_from : List ℕ → ℕ → List ListInfo → Option (List ℕ)
fill_from buf off [] = some buf
fill_from buf off (e ∷ es) = elim (store buf off (entry_bytes e)) [
  | none ↦ none
  | some buf' ↦ fill_from buf' (off + int_size e) es
]

-- The last line of that loop logs `entryptr->len`, the two bytes from offset 1 of the next entry on:
-- how many of these reads are outside the `size` bytes of the packet.
unfoldable pub log_reads_outside : ℕ → ℕ → List ListInfo → ℕ
log_reads_outside size off [] = 0
log_reads_outside size off (e ∷ es) =
    let next = off + int_size e in
    (if ltb (next + 2) size then 0 else 1) + log_reads_outside size next es

-- The stores of `thr_list`; `memory` is what `malloc(totalsize)` gives, with any content.
unfoldable pub pack : List ℕ → List ListInfo → Option (List ℕ)
pack memory es = elim (store memory 0 (chnlist ∷ [])) [
  | none ↦ none
  | some buf ↦ fill_from buf sizeof_chnid es
]

-- `thr_list` up to its sending loop: the packet, and the number of reads of the log line that are
-- outside it. `none` is a store outside.
unfoldable pub thr_list : List ℕ → List ListInfo → Option (List ℕ × ℕ)
thr_list memory es = elim (pack memory es) [
  | none ↦ none
  | some packet ↦ some (packet, log_reads_outside (totalsize es) sizeof_chnid es)
]

-- The receiving loop of the client takes the first message that passes these tests.
unfoldable pub accepts_list : ℤ → List ℕ → Bool
accepts_list len buf =
    not (ltb (to_size len) sizeof_msg_list)
    && (elim (get_elem? buf 0) [ none ↦ false | some c ↦ c == chnlist ])

-- A C string in memory, up to its end; `none` where memory ends first.
unfoldable pub c_string : List ℕ → Option (List ℕ)
c_string [] = none
c_string (zero ∷ xs) = some []
c_string (suc x ∷ xs) = elim (c_string xs) [ none ↦ none | some s ↦ some (suc x ∷ s) ]

pub data Shown : Type 0 where
  listed : List ListInfo → Shown
  fault : Shown
  running : Shown

prepend : ListInfo → Shown → Shown
prepend e (listed es) = listed (e ∷ es)
prepend e fault = fault
prepend e running = running

-- What the loop prints of the entry at `cursor`, and how far it moves on.
unfoldable pub entry_at : List ℕ → Option (ListInfo × ℕ)
entry_at (c ∷ h ∷ l ∷ text) = elim (c_string text) [
  | none ↦ none
  | some s ↦ some (record { chnid = c; desc = s }, h * 256 + l)
]
entry_at _ = none

-- The listing loop over a message of `len` bytes in `buf`; `running` where the fuel runs out.
unfoldable pub list_from : ℕ → List ℕ → ℕ → ℕ → Shown
unfolding prepend
list_from zero buf len at = running
list_from (suc fuel) buf len at = elim (ltb at len) [
  | false ↦ listed []
  | true ↦ elim (entry_at (drop at buf)) [
    | none ↦ fault
    | some (e, n) ↦ prepend e (list_from fuel buf len (at + n))
  ]
]

-- The loop begins behind the channel of the message.
unfoldable pub list_channels : ℕ → List ℕ → ℕ → Shown
list_channels fuel buf len = list_from fuel buf len sizeof_chnid
