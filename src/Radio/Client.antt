-- ===== src/Radio/Client.antt =====
-- socket/stream_media/client/client.c, the parent process behind the playlist: the choice of a
-- channel, and the packets that it passes to the player. Inputs and packets are sequences.
pub mod Silent
use lhq_linux_c.Base.{
  ℕ, zero, suc, ◌+◌, ◌-◌, ◌*◌, ◌/◌, ◌%◌, ◌^◌, ◌≤◌, ◌<◌, ◌≡◌, refl, sym, ap, ap₂, ◌∙◌, subst,
  fun_ext, ◌≢◌, ◌⊎◌, inl, inr, ◌↔◌, Bool, true, false, ◌&&◌, ◌||◌, not, Option, none, some, List,
  [], ◌∷◌, ◌++◌, map, arith, ltb, leb, ◌==◌, if◌then◌else◌, ltb→lt, lt→ltb, ==_iff, tests,
  Bool-cases, Option-cases, update, length, get_elem?, set, take, drop, replicate, length-append,
  length-set, length-replicate, length-take, length-drop, get_elem?-set_self, get_elem?-set_ne,
  lt_of_get_elem?, take-append, drop-append, take-append-drop, get_elem?-of_lt, ℤ, pos, negsuc,
  pos_part, neg_part, sub_ℕ, ◌≤ℤ◌, ◌<ℤ◌, ltb_ℤ, eqb_ℤ, leb_ℤ, wrap_int, ◌+ℤ◌, ◌-ℤ◌, IsInt, +ℤ_parts,
  -ℤ_parts, +ℤ-IsInt, -ℤ-IsInt, eq_of_parts, +ℤ-pos, -ℤ-pos, int_laws, first_free, Full,
  first_free_cases,
}
use lhq_linux_c.Radio.{to_size, sizeof_msg_channel, sizeof_chnid}

-- What scanf finds: a number, or something else or the end of the input.
pub data Scanned : Type 0 where
  number : ℤ → Scanned
  other : Scanned

-- How the loop over scanf goes on: it waits for more input, ends the process, or ends.
pub data Choice : Type 0 where
  awaits : Choice
  exits : Choice
  chosen : ℤ → Choice

-- `while (1)` around scanf: a number is stored in chosenid, and the loop has no other end.
unfoldable pub choose : List Scanned → ℤ → Choice
choose [] chosenid = awaits
choose (number n ∷ inputs) chosenid = choose inputs n
choose (other ∷ inputs) chosenid = exits

-- A packet with its sender; `len` is what recvfrom returns, and `content` the field `data` of it.
pub record Packet : Type 0 where
  pub addr : ℕ
  pub len : ℤ
  pub chnid : ℕ
  pub content : List ℕ

-- What was passed to the player, and whether the process goes on receiving.
pub record Played : Type 0 where
  pub bytes : List ℕ
  pub goes_on : Bool

abbrev pub front : List ℕ → Played → Played
front bs r = record r { bytes = bs ++ r.bytes }

abbrev pub passed : Bool → List ℕ → Played → Played
passed true bs r = front bs r
passed false bs r = record { bytes = []; goes_on = false }

-- The loop over the packets, each with whether writen succeeds.
unfoldable pub receive : ℕ → ℤ → List (Packet × Bool) → Played
receive serveraddr chosenid [] = record { bytes = []; goes_on = true }
receive serveraddr chosenid ((p, written) ∷ packets) =
    let rest = receive serveraddr chosenid packets in
    if not (p.addr == serveraddr)
    then rest
    else (if ltb (to_size p.len) sizeof_msg_channel
        then rest
        else (if eqb_ℤ (pos p.chnid) chosenid
            then passed written (take (to_size p.len - sizeof_chnid) p.content) rest
            else rest))

-- The parent process from the choice on; chosenid begins as 0.
unfoldable pub session : List Scanned → ℕ → List (Packet × Bool) → Played
session inputs serveraddr packets = elim (choose inputs (pos 0)) [
  | awaits ↦ record { bytes = []; goes_on = true }
  | exits ↦ record { bytes = []; goes_on = false }
  | chosen n ↦ receive serveraddr n packets
]
