-- ===== src/Base/Slots.antt =====
-- An array of pointers with free slots, `static struct … *job[MAX]`, as the token buckets and
-- the timers keep it, and the search for the first free one.
use Prim.Native.Nat.{ℕ, zero, suc, ◌+◌, ◌-◌, ◌<◌}
use mathlib.Core.Path.{◌≡◌, refl, sym, ap, ◌∙◌}
use mathlib.Core.Logic.{◌⊎◌, inl, inr}
use mathlib.Core.List.{List, [], ◌∷◌}
use mathlib.Core.Option.{Option, none, some}
use native.Mathlib.Omega.{arith}
use lhq_linux_c.Base.Lists.{get_elem?}
use lhq_linux_c.Base.Int.{ℤ, pos, negsuc, pos_part}

module _ {ℓ} {A : Type ℓ} where
  -- for (i = k; i < MAX; i++) if (job[i] == NULL) return i;  return -1;
  unfoldable pub first_free : List (Option A) → ℕ → ℤ
  first_free [] k = negsuc 0
  first_free (none ∷ js) k = pos k
  first_free (some x ∷ js) k = first_free js (suc k)

  abbrev pub Full : List (Option A) → Type 0
  Full [] = Unit {0}
  Full (none ∷ js) = ⊥
  Full (some x ∷ js) = Full js

  -- What the search returns: the first slot that is free, or -1 where there is none.
  pub first_free_cases :
      (js : List (Option A)) (k : ℕ)
      → ((i : ℕ) × (first_free js k ≡ pos (k + i)) × (get_elem? js i ≡ some none))
        ⊎ ((first_free js k ≡ negsuc 0) × Full js)
  unfolding first_free
  first_free_cases [] k = inr (refl, tt)
  first_free_cases (none ∷ js) k = inl (0, ap pos (omega arith), refl)
  first_free_cases (some x ∷ js) k = elim (first_free_cases js (suc k)) [
    | inl (i, e, f) ↦ inl (suc i, ground arith, f)
    | inr full ↦ inr full
  ]

  -- Every slot in front of the one that the search returns is taken.
  pub first_free-taken :
      (js : List (Option A)) (k i : ℕ)
      → first_free js k ≡ pos (k + i)
      → (j : ℕ) → j < i
      → (x : A) × (get_elem? js j ≡ some (some x))
  unfolding first_free
  first_free-taken [] k i e j l = absurd (cc)
  first_free-taken (none ∷ js) k i e j l =
      absurd (let q : k ≡ k + i = ap pos_part e in omega (arith, l, q))
  first_free-taken (some x ∷ js) k i e zero l = (x, refl)
  first_free-taken (some x ∷ js) k i e (suc j) l = elim (first_free_cases js (suc k)) [
    | inl (n, f, g) ↦
        let q : suc k + n ≡ k + i = ap pos_part (sym f ∙ e) in
        first_free-taken js (suc k) (i - 1) (e ∙ ap pos (omega (arith, q, l))) j (omega (arith, l))
    | inr (f, full) ↦ absurd (let q : negsuc 0 ≡ pos (k + i) = sym f ∙ e in cc)
  ]
