-- ===== src/OldBucket/Init.antt =====
-- socket/stream_media/server/mytbf_old.c: mytbf_init on a full table, and returned tokens.
use lhq_linux_c.Base.{
  ℕ, ◌+◌, ◌^◌, ◌≤◌, ◌<◌, ◌≡◌, refl, ap, ◌∙◌, ◌⊎◌, inl, inr, Bool, true, false, none, some, arith,
  update, get_elem?, set, ℤ, pos, negsuc, ◌<ℤ◌, ltb_ℤ, ◌+ℤ◌, +ℤ_parts, eq_of_parts, first_free,
  Full, first_free_cases,
}
use lhq_linux_c.OldBucket.{
  Bucket, Module, find_pos_unlock, new_bucket, enlist, once_load, mytbf_init, InitResult, give_back,
  mytbf_returntoken,
}

init_at :
    (created : Bool) (p : ℕ) (cps limit : ℤ) (m : Module)
    → m.once_done ≡ true
    → (i : ℕ) → first_free m.job 0 ≡ pos i
    → mytbf_init created (some p) cps limit m
      ≡ InitResult.handle p (record m {
        job = set m.job i (some p);
        heap = update m.heap p (some (new_bucket cps limit (pos i)));
      })
unfolding mytbf_init once_load enlist find_pos_unlock
init_at created p cps limit m o i e = rw (mytbf_init, once_load, o, enlist, find_pos_unlock, e) refl

init_none :
    (created : Bool) (p : ℕ) (cps limit : ℤ) (m : Module)
    → m.once_done ≡ true
    → first_free m.job 0 ≡ negsuc 0
    → mytbf_init created (some p) cps limit m ≡ InitResult.outside
unfolding mytbf_init once_load enlist find_pos_unlock
init_none created p cps limit m o e = rw (mytbf_init, once_load, o, enlist, find_pos_unlock, e) refl

-- mytbf_init with memory, behind the first call: it stores the new bucket in a free slot of the
-- table, or every slot is taken and it stores outside the table, to job[-1].
pub mytbf_init_outside :
    (created : Bool) (p : ℕ) (cps limit : ℤ) (m : Module)
    → m.once_done ≡ true
    → ((i : ℕ) × (get_elem? m.job i ≡ some none)
        × (mytbf_init created (some p) cps limit m
            ≡ InitResult.handle p (record m {
              job = set m.job i (some p);
              heap = update m.heap p (some (new_bucket cps limit (pos i)));
            })))
      ⊎ (Full m.job × (mytbf_init created (some p) cps limit m ≡ InitResult.outside))
unfolding mytbf_init once_load enlist find_pos_unlock
mytbf_init_outside created p cps limit m o = elim (first_free_cases m.job 0) [
  | inl (i, e, f) ↦ inl (i, f, init_at created p cps limit m o i (e ∙ ap pos (omega arith)))
  | inr (e, full) ↦ inr (full, init_none created p cps limit m o e)
]

under :
    (b : Bucket) (n : ℕ)
    → ltb_ℤ b.limit (pos n) ≡ false
    → give_back b (pos n) ≡ record b { token = b.token +ℤ pos n }
unfolding give_back
under b n g = rw (give_back, g) refl

returned :
    (p n : ℕ) (b : Bucket) (m : Module)
    → m.heap p ≡ some b
    → mytbf_returntoken p (pos n) m
      ≡ some (pos 0, record m { heap = update m.heap p (some (give_back b (pos n))) })
unfolding mytbf_returntoken
returned p n b m e = rw (mytbf_returntoken, e) refl

-- Tokens that are at most the limit, and exceed it together with the content of the bucket, are
-- all added: the content passes the limit. The sum is in the range of int.
pub returns_over_limit :
    (p t n l : ℕ) (b : Bucket) (m : Module)
    → m.heap p ≡ some b
    → b.token ≡ pos t
    → b.limit ≡ pos l
    → n ≤ l
    → l < t + n
    → t + n < 2 ^ 31
    → (b' : Bucket) × (mytbf_returntoken p (pos n) m
        ≡ some (pos 0, record m { heap = update m.heap p (some b') }))
      × (b'.token ≡ pos (t + n))
      × (b'.limit <ℤ b'.token)
returns_over_limit p t n l b m e et el h over small =
    let s : b.token +ℤ pos n ≡ pos (t + n) =
      rw et (eq_of_parts _ _ (omega (arith, +ℤ_parts (pos t) (pos n)))) in
    let g : ltb_ℤ b.limit (pos n) ≡ false = ground (arith, el) in
    (
      record b { token = b.token +ℤ pos n },
      returned p n b m e
          ∙ ap (λ x. some (pos 0, record m { heap = update m.heap p (some x) })) (under b n g),
      s,
      rw (s, el) (omega (arith, over)),
    )
