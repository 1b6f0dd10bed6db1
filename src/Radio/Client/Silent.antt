-- ===== src/Radio/Client/Silent.antt =====
-- socket/stream_media/client/client.c: what reaches the player.
use lhq_linux_c.Base.{ℕ, ◌≡◌, refl, ◌⊎◌, inl, inr, Bool, List, [], ◌∷◌, ℤ, pos}
use lhq_linux_c.Radio.Client.{Scanned, number, other, awaits, exits, choose, Packet, session}

choose-other :
    (inputs : List Scanned) (n : ℤ) → (choose inputs n ≡ awaits) ⊎ (choose inputs n ≡ exits)
unfolding choose
choose-other [] n = inl refl
choose-other (number m ∷ inputs) n = choose-other inputs m
choose-other (other ∷ inputs) n = inr refl

-- Whatever is typed and whatever packets arrive, the client passes no byte to the player: the loop
-- around scanf has no way out but the end of the process.
pub session-bytes :
    (inputs : List Scanned) (serveraddr : ℕ) (packets : List (Packet × Bool))
    → (session inputs serveraddr packets).bytes ≡ []
unfolding session
session-bytes inputs serveraddr packets = elim (choose-other inputs (pos 0)) [
  | inl e ↦ rw (e, session) refl
  | inr e ↦ rw (e, session) refl
]
