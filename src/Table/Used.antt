-- ===== src/Table/Used.antt =====
-- How full a table is.
use lhq_linux_c.Base.{
  ℕ, zero, suc, ◌≤◌, ◌<◌, ◌≡◌, refl, ap, Option, none, some, List, [], ◌∷◌, arith, length,
  get_elem?, set, Full,
}

-- How many slots of a table are taken.
abbrev pub used : List (Option ℕ) → ℕ
used [] = 0
used (none ∷ js) = used js
used (some p ∷ js) = suc (used js)

pub used-set :
    (js : List (Option ℕ)) (i p : ℕ)
    → get_elem? js i ≡ some none
    → used (set js i (some p)) ≡ suc (used js)
used-set [] i p e = absurd cc
used-set (none ∷ js) zero p e = refl
used-set (some x ∷ js) zero p e = absurd cc
used-set (none ∷ js) (suc i) p e = used-set js i p e
used-set (some x ∷ js) (suc i) p e = ap suc (used-set js i p e)

pub used-unset :
    (js : List (Option ℕ)) (i p : ℕ)
    → get_elem? js i ≡ some (some p)
    → suc (used (set js i none)) ≡ used js
used-unset [] i p e = absurd cc
used-unset (none ∷ js) zero p e = absurd cc
used-unset (some x ∷ js) zero p e = refl
used-unset (none ∷ js) (suc i) p e = used-unset js i p e
used-unset (some x ∷ js) (suc i) p e = ap suc (used-unset js i p e)

pub used-free : (js : List (Option ℕ)) (i : ℕ) → get_elem? js i ≡ some none → used js < length js
used-free [] i e = absurd cc
used-free (none ∷ js) zero e = omega (arith, used_le js)
  where
    used_le : (ks : List (Option ℕ)) → used ks ≤ length ks
    used_le [] = omega arith
    used_le (none ∷ ks) = omega (arith, used_le ks)
    used_le (some x ∷ ks) = omega (arith, used_le ks)
used-free (some x ∷ js) zero e = absurd cc
used-free (none ∷ js) (suc i) e = omega (arith, used-free js i e)
used-free (some x ∷ js) (suc i) e = omega (arith, used-free js i e)

pub used-Full : (js : List (Option ℕ)) → Full js → used js ≡ length js
used-Full [] h = refl
used-Full (none ∷ js) h = elim h [ ]
used-Full (some x ∷ js) h = ap suc (used-Full js h)
