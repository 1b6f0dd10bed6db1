-- ===== src/Radio/Playlist/Listing.antt =====
-- The client's loop over the playlist: it lists what the server has put in, and what it does with
-- messages that no server sends.
use lhq_linux_c.Base.{
  ℕ, zero, suc, ◌+◌, ◌*◌, ◌^◌, ◌≤◌, ◌<◌, ◌≡◌, refl, sym, ap, ◌∙◌, ◌↔◌, true, some, List, [], ◌∷◌,
  ◌++◌, arith, lt→ltb, length, drop, length-append, drop-append, pos, negsuc,
}
use mathlib.Core.List.{append_assoc}
use lhq_linux_c.Radio.{
  to_size, chnlist, sizeof_msg_list, msg_listpack_max, ListInfo, u8, net_high, net_low,
}
use lhq_linux_c.Radio.Playlist.{
  entry_size, int_size, totalsize, entry_bytes, thr_list, accepts_list, c_string, prepend, listed,
  running, entry_at, list_from, list_channels,
}
use lhq_linux_c.Radio.Playlist.Packet.{
  entries_bytes, entry_size_pos, length-entry_bytes, int_size_lem, totalsize_lem, thr_list_lem,
  past_end, FitsInt,
}

-- No byte of a C string is its end.
abbrev pub NoEnd : List ℕ → Type 0
NoEnd [] = Unit {0}
NoEnd (x ∷ xs) = (0 < x) × NoEnd xs

-- An entry that fits the fields of `struct msg_listinfo_t`.
pub record IsEntry (e : ListInfo) : Type 0 where
  pub byte : e.chnid < 256
  pub text : NoEnd e.desc
  pub short : entry_size e < 65536

abbrev pub AllEntries : List ListInfo → Type 0
AllEntries [] = Unit {0}
AllEntries (e ∷ es) = IsEntry e × AllEntries es

c_string_lem : (s rest : List ℕ) → NoEnd s → c_string (s ++ (0 ∷ rest)) ≡ some s
unfolding c_string
c_string_lem [] rest h = refl
c_string_lem (zero ∷ s) rest h = absurd (omega (arith, h.0))
c_string_lem (suc x ∷ s) rest h = rw (c_string_lem s rest h.1, c_string)

net_value : (n : ℕ) → n < 65536 → net_high n * 256 + net_low n ≡ n
net_value n h = omega arith

-- The texts are lines that `fgets` has read into 1024 bytes.
abbrev pub AllShort : List ListInfo → Type 0
AllShort [] = Unit {0}
AllShort (e ∷ es) = (length e.desc < 1024) × AllShort es

entries_bytes_bound :
    (es : List ListInfo) → AllShort es → length (entries_bytes es) ≤ 1027 * length es
unfolding entry_size
entries_bytes_bound [] s = omega arith
entries_bytes_bound (e ∷ es) (s, ss) = omega (
  arith,
  length-append (entry_bytes e) (entries_bytes es),
  length-entry_bytes e,
  entries_bytes_bound es ss,
)

-- The entry at the cursor is the one that was stored there.
entry_at_lem :
    (e : ListInfo) (rest : List ℕ)
    → IsEntry e
    → entry_at (entry_bytes e ++ rest) ≡ some (e, entry_size e)
unfolding entry_at entry_bytes
entry_at_lem e rest v =
    let text : c_string ((e.desc ++ (0 ∷ [])) ++ rest) ≡ some e.desc =
      ap c_string (append_assoc e.desc (0 ∷ []) rest) ∙ c_string_lem e.desc rest v.text in
    let channel : u8 e.chnid ≡ e.chnid = ground (arith, v) in
    let short : entry_size e < 65536 = v.short in
    let same = int_size_lem e (omega (arith, short)) in
    let value : net_high (int_size e) * 256 + net_low (int_size e) ≡ entry_size e =
      ap (λ n. net_high n * 256 + net_low n) same ∙ net_value (entry_size e) short in
    rw (text, entry_at, value, channel)

list_from_step :
    (fuel : ℕ) (buf : List ℕ) (len at n : ℕ) (e : ListInfo)
    → at < len
    → entry_at (drop at buf) ≡ some (e, n)
    → list_from (suc fuel) buf len at ≡ prepend e (list_from fuel buf len (at + n))
unfolding list_from
list_from_step fuel buf len at n e h z = rw (lt→ltb at len h, list_from, z)

list_from_end :
    (fuel : ℕ) (buf : List ℕ) (len at : ℕ) → len ≤ at → list_from (suc fuel) buf len at ≡ listed []
unfolding list_from
list_from_end fuel buf len at h = ground arith

list_from_lem :
    (es : List ListInfo) (fuel : ℕ) (pre rest : List ℕ)
    → AllEntries es
    → length es < fuel
    → list_from fuel
        (pre ++ (entries_bytes es ++ rest))
        (length pre + length (entries_bytes es))
        (length pre)
      ≡ listed es
unfolding prepend
list_from_lem es zero pre rest v h = absurd (omega (arith, h))
list_from_lem [] (suc fuel) pre rest v h = list_from_end fuel _ _ _ (omega arith)
list_from_lem (e ∷ es) (suc fuel) pre rest (ve, v) h =
    let at = length pre in
    let body = entries_bytes es in
    let all = entry_bytes e ++ body in
    let sizes : length all ≡ entry_size e + length body =
      length-append (entry_bytes e) body ∙ ap (λ n. n + length body) (length-entry_bytes e) in
    let inside : at < at + length all = omega (arith, sizes, entry_size_pos e) in
    let cursor : drop at (pre ++ (all ++ rest)) ≡ entry_bytes e ++ (body ++ rest) =
      drop-append pre (all ++ rest) ∙ append_assoc (entry_bytes e) body rest in
    let shown : entry_at (drop at (pre ++ (all ++ rest))) ≡ some (e, entry_size e) =
      ap entry_at cursor ∙ entry_at_lem e (body ++ rest) ve in
    let next : length (pre ++ entry_bytes e) ≡ at + entry_size e =
      length-append pre (entry_bytes e) ∙ ap (λ n. at + n) (length-entry_bytes e) in
    let end : length (pre ++ entry_bytes e) + length body ≡ at + length all =
      omega (arith, next, sizes) in
    let memory : (pre ++ entry_bytes e) ++ (body ++ rest) ≡ pre ++ (all ++ rest) =
      append_assoc pre (entry_bytes e) (body ++ rest)
      ∙ ap (λ l. pre ++ l) (sym (append_assoc (entry_bytes e) body rest)) in
    let tail = list_from_lem es fuel (pre ++ entry_bytes e) rest v (omega (arith, h)) in
    list_from_step fuel (pre ++ (all ++ rest)) (at + length all) at (entry_size e) e inside shown
    ∙ cc (memory, next, end, tail)

-- What the server packs, the client lists: for entries that fit their fields, in a packet whose size
-- is in the range of int, the packet takes `totalsize` bytes, and the client's loop, over that packet
-- in a buffer with anything behind it, ends and shows the same channels and texts in the same order.
-- A log line of the server reads outside the packet once, unless there is no entry.
pub playlist_roundtrip :
    (es : List ListInfo) (memory rest : List ℕ) (fuel : ℕ)
    → AllEntries es
    → FitsInt es
    → length memory ≡ totalsize es
    → length es < fuel
    → (packet : List ℕ) × (thr_list memory es ≡ some (packet, past_end es))
      × (length packet ≡ totalsize es)
      × (list_channels fuel (packet ++ rest) (length packet) ≡ listed es)
unfolding list_channels
playlist_roundtrip es memory rest fuel v i h f = (
  chnlist ∷ entries_bytes es,
  thr_list_lem es memory i h,
  omega (arith, totalsize_lem es i),
  ap (λ n. list_from fuel (chnlist ∷ (entries_bytes es ++ rest)) n 1) (omega arith)
      ∙ list_from_lem es fuel (chnlist ∷ []) rest v f,
)

-- The client takes a message as a playlist exactly when it is at least as long as one entry with
-- no text and begins with the playlist's channel.
pub accepts_list_iff :
    (n c : ℕ) (buf : List ℕ)
    → (accepts_list (pos n) (c ∷ buf) ≡ true) ↔ ((sizeof_msg_list ≤ n) × (c ≡ chnlist))
unfolding accepts_list to_size
accepts_list_iff n c buf = (λ h. ground arith, λ h. ground arith)

-- An error of `recvfrom` passes the test of the length, which compares it as a `size_t`: a buffer
-- whose first byte happens to be 0 is then taken for a playlist, and nothing is listed.
pub accepts_error :
    (n : ℕ) (buf : List ℕ) → n < 2 ^ 31 → accepts_list (negsuc n) (chnlist ∷ buf) ≡ true
unfolding accepts_list to_size
accepts_error n buf h = ground arith

-- An entry whose length field is 0 holds the client's loop where it stands: no number of rounds
-- ends it.
pub zero_length_hangs :
    (fuel : ℕ) (buf : List ℕ) (len at : ℕ) {e : ListInfo}
    → at < len
    → entry_at (drop at buf) ≡ some (e, 0)
    → list_from fuel buf len at ≡ running
unfolding list_from prepend
zero_length_hangs zero buf len at h z = refl
zero_length_hangs (suc fuel) buf len at {e} h z =
    let again : list_from fuel buf len (at + 0) ≡ running =
      ap (λ k. list_from fuel buf len k) (omega arith) ∙ zero_length_hangs fuel buf len at h z in
    list_from_step fuel buf len at 0 e h z ∙ ap (prepend e) again

-- A playlist of at most 63 channels, whose texts fit the line buffer of medialib.c, fits the
-- largest message that the client receives.
pub totalsize_bound :
    (es : List ListInfo) → AllShort es → length es ≤ 63 → totalsize es ≤ msg_listpack_max
totalsize_bound es s h =
    let b = entries_bytes_bound es s in omega (arith, totalsize_lem es (omega (arith, b, h)), b)
