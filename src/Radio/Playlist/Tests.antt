-- ===== src/Radio/Playlist/Tests.antt =====
-- Tests of the playlist, and its theorems at concrete inputs.
use lhq_linux_c.Base.{
  ℕ, ◌≤◌, ◌≡◌, refl, ◌↔◌, true, some, List, [], ◌∷◌, ◌++◌, arith, length, drop, replicate, pos,
  negsuc,
}
use lhq_linux_c.Radio.{chnlist, sizeof_msg_list, ListInfo, msg_listpack_max}
use lhq_linux_c.Radio.Playlist.{
  entry_size, int_size, totalsize, entry_bytes, thr_list, accepts_list, c_string, listed, fault,
  running, entry_at, list_from, list_channels, store, fill_from, pack, log_reads_outside,
}
use lhq_linux_c.Radio.Playlist.Packet.{thr_list_lem, entries_bytes}
use lhq_linux_c.Radio.Playlist.Listing.{
  AllEntries, playlist_roundtrip, accepts_list_iff, accepts_error, zero_length_hangs,
  totalsize_bound,
}

abbrev two_channels : List ListInfo
two_channels =
    record { chnid = 1; desc = b'p' ∷ b'o' ∷ b'p' ∷ [] }
    ∷ record { chnid = 2; desc = b'r' ∷ [] }
    ∷ []

abbrev memory : List ℕ
memory = replicate 13 99

abbrev packed : List ℕ
packed = 0 ∷ 1 ∷ 0 ∷ 7 ∷ b'p' ∷ b'o' ∷ b'p' ∷ 0 ∷ 2 ∷ 0 ∷ 5 ∷ b'r' ∷ 0 ∷ []

packs : thr_list memory two_channels ≡ some (packed, 1)
unfolding thr_list pack log_reads_outside totalsize fill_from store entry_bytes entry_size int_size
packs = refl

lists : list_channels 3 (packed ++ 77 ∷ []) 13 ≡ listed two_channels
unfolding list_channels list_from entry_at c_string
lists = refl

-- The message has ended before the text of its entry does, and so has memory.
cut_short : list_channels 3 (0 ∷ 1 ∷ 0 ∷ 7 ∷ b'p' ∷ []) 5 ≡ fault
unfolding list_channels list_from entry_at c_string
cut_short = refl

thr_list_example : thr_list memory two_channels ≡ some (chnlist ∷ entries_bytes two_channels, 1)
unfolding totalsize entry_size entry_bytes int_size
thr_list_example = thr_list_lem two_channels memory (omega arith) refl

two_channels-AllEntries : AllEntries two_channels
unfolding entry_size
two_channels-AllEntries = omega arith

playlist_roundtrip_example :
    (packet : List ℕ) × (thr_list memory two_channels ≡ some (packet, 1))
    × (length packet ≡ totalsize two_channels)
    × (list_channels 3 (packet ++ 77 ∷ []) (length packet) ≡ listed two_channels)
unfolding totalsize entry_size entry_bytes int_size
playlist_roundtrip_example =
    playlist_roundtrip two_channels memory (77 ∷ []) 3 two_channels-AllEntries (omega arith) refl
      (omega arith)

accepts_list_iff_test :
    (accepts_list (pos 13) packed ≡ true) ↔ ((sizeof_msg_list ≤ 13) × ◌≡◌ {A = ℕ} 0 chnlist)
accepts_list_iff_test = accepts_list_iff 13 0 (drop 1 packed)

takes_an_error : accepts_list (negsuc 0) (chnlist ∷ []) ≡ true
takes_an_error = accepts_error 0 [] (omega arith)

zero_length_hangs_example : list_from 50 (0 ∷ 1 ∷ 0 ∷ 0 ∷ 0 ∷ []) 5 1 ≡ running
unfolding entry_at c_string
zero_length_hangs_example =
    zero_length_hangs 50 (0 ∷ 1 ∷ 0 ∷ 0 ∷ 0 ∷ []) 5 1 {e = record { chnid = 1; desc = [] }}
      (omega arith) refl

totalsize_bound_test : totalsize two_channels ≤ msg_listpack_max
totalsize_bound_test = totalsize_bound two_channels (omega arith) (omega arith)
