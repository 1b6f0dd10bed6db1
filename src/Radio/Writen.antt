-- ===== src/Radio/Writen.antt =====
-- socket/stream_media/client/client.c: writen, which passes a channel's bytes to the player.
use lhq_linux_c.Base.{
  ℕ, zero, suc, ◌≤◌, ◌≡◌, refl, sym, ap, ◌∙◌, Bool, true, false, List, [], ◌∷◌, ◌++◌, arith, length,
  take, drop, length-drop, length-take, length-append, ◌<◌, ◌+◌, ◌^◌, ltb, ℤ, pos, negsuc,
}

-- What `write` answers: an error that is EINTR or another, or the number of bytes taken.
pub data Wrote : Type 0 where
  failed : Bool → Wrote
  wrote : ℕ → Wrote

-- The answer of the call in round `i` for the bytes that are left.
pub record Device : Type 0 where
  pub write_call : ℕ → List ℕ → Wrote
  pub within : (i : ℕ) (bs : List ℕ) (n : ℕ) → write_call i bs ≡ wrote n → n ≤ length bs

-- The return value with the bytes that the device took; `running` is a run out of rounds, and
-- `overflows` an int that does not hold a number of bytes.
pub data Result : Type 0 where
  running : Result
  overflows : Result
  returns : ℤ → List ℕ → Result

-- `while (len > 0)`, for the rounds that are left: `buf` is what stands from `buf + pos` on, `out`
-- is what the device took, and `pos` its number, which like `ret` is an int.
unfoldable pub writen_from : Device → ℕ → ℕ → List ℕ → List ℕ → Result
writen_from d n i [] out = returns (pos (length out)) out
writen_from d zero i (x ∷ xs) out = running
writen_from d (suc n) i (x ∷ xs) out = elim (d.write_call i (x ∷ xs)) [
  | failed true ↦ writen_from d n (suc i) (x ∷ xs) out
  | failed false ↦ returns (negsuc 0) out
  | wrote zero ↦ returns (pos (length out)) out
  | wrote (suc k) ↦ elim (ltb (length out + suc k) (2 ^ 31)) [
    | false ↦ overflows
    | true ↦ writen_from d n (suc i) (drop (suc k) (x ∷ xs)) (out ++ take (suc k) (x ∷ xs))
  ]
]

unfoldable pub writen : Device → ℕ → List ℕ → Result
writen d rounds buf = writen_from d rounds 0 buf []

append_assoc : (xs ys zs : List ℕ) → (xs ++ ys) ++ zs ≡ xs ++ (ys ++ zs)
append_assoc [] ys zs = refl
append_assoc (x ∷ xs) ys zs = ap (λ l. x ∷ l) (append_assoc xs ys zs)

append-[] : (xs : List ℕ) → xs ++ [] ≡ xs
append-[] [] = refl
append-[] (x ∷ xs) = ap (λ l. x ∷ l) (append-[] xs)

split_at : (k : ℕ) (xs : List ℕ) → take k xs ++ drop k xs ≡ xs
split_at zero xs = refl
split_at (suc k) [] = refl
split_at (suc k) (x ∷ xs) = ap (λ l. x ∷ l) (split_at k xs)

-- Every answer takes a byte or more.
unfoldable pub Takes : Device → Type 0
Takes d = (i : ℕ) (x : ℕ) (xs : List ℕ) → (k : ℕ) × (d.write_call i (x ∷ xs) ≡ wrote (suc k))

step :
    (d : Device) (n i x k : ℕ) (xs out : List ℕ)
    → d.write_call i (x ∷ xs) ≡ wrote (suc k)
    → ltb (length out + suc k) (2 ^ 31) ≡ true
    → writen_from d (suc n) i (x ∷ xs) out
      ≡ writen_from d n (suc i) (drop (suc k) (x ∷ xs)) (out ++ take (suc k) (x ∷ xs))
unfolding writen_from
step d n i x k xs out e small = rw (writen_from, e, small) refl

writes_all :
    (d : Device)
    → Takes d
    → (n i : ℕ) (buf out : List ℕ) → length buf ≤ n
    → length out + length buf < 2 ^ 31
    → writen_from d n i buf out ≡ returns (pos (length (out ++ buf))) (out ++ buf)
unfolding writen_from Takes
writes_all d t n i [] out h s = ap (λ l. returns (pos (length l)) l) (sym (append-[] out))
writes_all d t zero i (x ∷ xs) out h s = absurd (omega (arith, h))
writes_all d t (suc n) i (x ∷ xs) out h s =
    let (k, e) = t i x xs in
    let most : suc k ≤ length (x ∷ xs) = d.within i (x ∷ xs) (suc k) e in
    let small : ltb (length out + suc k) (2 ^ 31) ≡ true = ground (arith, most, s) in
    let sum : length (out ++ take (suc k) (x ∷ xs)) + length (drop (suc k) (x ∷ xs)) < 2 ^ 31 =
      omega (
        arith,
        most,
        s,
        length-append out (take (suc k) (x ∷ xs)),
        length-take (suc k) (x ∷ xs),
        length-drop (suc k) (x ∷ xs),
      ) in
    let less : length (drop (suc k) (x ∷ xs)) ≤ n =
      omega (arith, h, length-drop (suc k) (x ∷ xs)) in
    let rest =
      writes_all d t n (suc i) (drop (suc k) (x ∷ xs)) (out ++ take (suc k) (x ∷ xs)) less sum in
    let whole : (out ++ take (suc k) (x ∷ xs)) ++ drop (suc k) (x ∷ xs) ≡ out ++ (x ∷ xs) =
      append_assoc out (take (suc k) (x ∷ xs)) (drop (suc k) (x ∷ xs))
      ∙ ap (λ l. out ++ l) (split_at (suc k) (x ∷ xs)) in
    step d n i x k xs out e small ∙ rest ∙ ap (λ l. returns (pos (length l)) l) whole

-- Where every call of write takes a byte or more and the bytes are fewer than 2 ^ 31, writen returns after at most as many calls as
-- there are bytes: it returns their number, and the device has taken them all in order.
pub writen_total :
    (d : Device) (n : ℕ) (buf : List ℕ)
    → Takes d
    → length buf ≤ n
    → length buf < 2 ^ 31
    → writen d n buf ≡ returns (pos (length buf)) buf
unfolding writen
writen_total d n buf t h s = writes_all d t n 0 buf [] h (omega (arith, s))
