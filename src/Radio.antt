-- ===== src/Radio.antt =====
-- socket/stream_media: a radio that multicasts its channels, and its client. This file has the
-- constants and the packet types of include/proto.h and include/typeset.h.
pub mod Playlist
pub mod Library
pub mod Scan
pub mod Writen
pub mod Senders
pub mod Server
pub mod Client
mod Tests
use lhq_linux_c.Base.{
  ℕ, zero, suc, ◌+◌, ◌-◌, ◌*◌, ◌/◌, ◌%◌, ◌^◌, ◌≤◌, ◌<◌, ◌≡◌, refl, sym, ap, ap₂, ◌∙◌, subst,
  fun_ext, ◌≢◌, ◌⊎◌, inl, inr, ◌↔◌, Bool, true, false, ◌&&◌, ◌||◌, not, Option, none, some, List,
  [], ◌∷◌, ◌++◌, map, arith, ltb, leb, ◌==◌, if◌then◌else◌, ltb→lt, lt→ltb, ==_iff, tests,
  Bool-cases, Option-cases, update, length, get_elem?, set, take, drop, replicate, length-append,
  length-set, length-replicate, length-take, length-drop, get_elem?-set_self, get_elem?-set_ne,
  lt_of_get_elem?, take-append, drop-append, take-append-drop, ℤ, pos, negsuc, pos_part, neg_part,
  sub_ℕ, ◌≤ℤ◌, ◌<ℤ◌, ltb_ℤ, leb_ℤ, wrap_int, ◌+ℤ◌, ◌-ℤ◌, IsInt, +ℤ_parts, -ℤ_parts, +ℤ-IsInt,
  -ℤ-IsInt, eq_of_parts, int_laws, first_free, Full, first_free_cases,
}

abbrev pub chnnum : ℕ
chnnum = 100

-- The channel of the playlist.
abbrev pub chnlist : ℕ
chnlist = 0

abbrev pub minchnid : ℕ
minchnid = 1

abbrev pub maxchnid : ℕ
maxchnid = minchnid + chnnum - 1

abbrev pub sizeof_chnid : ℕ
sizeof_chnid = 1

-- The packed `struct msg_listinfo_t`: a channel, a length of 16 bits, the first byte of the text.
abbrev pub sizeof_listinfo : ℕ
sizeof_listinfo = sizeof_chnid + 2 + 1

-- The packed `struct msg_list_st` and `struct msg_channel_st`.
abbrev pub sizeof_msg_list : ℕ
sizeof_msg_list = sizeof_chnid + sizeof_listinfo

abbrev pub sizeof_msg_channel : ℕ
sizeof_msg_channel = sizeof_chnid + 1

abbrev pub msg_chnpack_max : ℕ
msg_chnpack_max = 65536 - 20 - 8

abbrev pub max_data : ℕ
max_data = msg_chnpack_max - sizeof_chnid

abbrev pub msg_listpack_max : ℕ
msg_listpack_max = 65536 - 20 - 8

-- `struct mlib_listinfo_t`: a channel and its description, a C string without its end.
pub record ListInfo : Type 0 where
  pub chnid : ℕ
  pub desc : List ℕ

-- A byte in memory, and the two bytes of a number in network order, `htons` and `ntohs`.
abbrev pub u8 : ℕ → ℕ
u8 n = n % 256

abbrev pub net_high : ℕ → ℕ
net_high n = n % 65536 / 256

abbrev pub net_low : ℕ → ℕ
net_low n = n % 256

-- An `int` where a `size_t` is wanted.
unfoldable pub to_size : ℤ → ℕ
to_size (pos n) = n
to_size (negsuc n) = 2 ^ 64 - 1 - n
