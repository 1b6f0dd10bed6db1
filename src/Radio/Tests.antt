-- ===== src/Radio/Tests.antt =====
-- Tests of writen and of the client, and their theorems at concrete inputs.
use lhq_linux_c.Base.{
  ℕ, zero, suc, ◌≤◌, ◌≡◌, refl, false, true, List, [], ◌∷◌, arith, length, pos, negsuc,
}
use lhq_linux_c.Radio.Writen.{
  Wrote, failed, wrote, Device, returns, writen, writen_from, Takes, writen_total,
}
use lhq_linux_c.Radio.{to_size}
use lhq_linux_c.Radio.Client.{number, Packet, session, receive}
use lhq_linux_c.Radio.Client.Silent.{session-bytes}

-- A device that takes two bytes at a time.
abbrev two_bytes : ℕ → List ℕ → Wrote
two_bytes i [] = wrote 0
two_bytes i (x ∷ []) = wrote 1
two_bytes i (x ∷ y ∷ xs) = wrote 2

two_within : (i : ℕ) (bs : List ℕ) (n : ℕ) → two_bytes i bs ≡ wrote n → n ≤ length bs
two_within i [] n e = let q : 0 ≡ n = cc in omega (arith, q)
two_within i (x ∷ []) n e = let q : 1 ≡ n = cc in omega (arith, q)
two_within i (x ∷ y ∷ xs) n e = let q : 2 ≡ n = cc in omega (arith, q)

abbrev player : Device
player = record { write_call = two_bytes; within = two_within }

player-Takes : Takes player
unfolding Takes
player-Takes i x [] = (0, refl)
player-Takes i x (y ∷ xs) = (1, refl)

abbrev three : List ℕ
three = 5 ∷ 6 ∷ 7 ∷ []

writen_total_example : writen player 3 three ≡ returns (pos 3) three
writen_total_example = writen_total player 3 three player-Takes (omega arith) (omega arith)

-- An error behind the first two bytes: writen returns -1.
abbrev breaks : ℕ → List ℕ → Wrote
breaks zero bs = two_bytes 0 bs
breaks (suc i) bs = failed false

breaks_within : (i : ℕ) (bs : List ℕ) (n : ℕ) → breaks i bs ≡ wrote n → n ≤ length bs
breaks_within zero bs n e = two_within 0 bs n e
breaks_within (suc i) bs n e = absurd cc

error_is_returned :
    writen (record { write_call = breaks; within = breaks_within }) 9 three
    ≡ returns (negsuc 0) (5 ∷ 6 ∷ [])
unfolding writen writen_from
error_is_returned = refl

abbrev packet : Packet
packet = record { addr = 7; len = pos 3; chnid = 4; content = 65 ∷ 66 ∷ [] }

-- Channel 4 is typed, and its packet arrives.
session-bytes_example : (session (number (pos 4) ∷ []) 7 ((packet, true) ∷ [])).bytes ≡ []
session-bytes_example = session-bytes (number (pos 4) ∷ []) 7 ((packet, true) ∷ [])

-- The loop that would play it is never reached.
would_play : (receive 7 (pos 4) ((packet, true) ∷ [])).bytes ≡ 65 ∷ 66 ∷ []
unfolding receive to_size
would_play = refl
