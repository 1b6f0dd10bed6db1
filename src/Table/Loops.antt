-- ===== src/Table/Loops.antt =====
-- The loops over a table, against what they do to the whole heap at once.
use lhq_linux_c.Base.{
  ℕ, zero, suc, ◌≡◌, refl, ap, ◌∙◌, fun_ext, inl, inr, Bool, true, false, ◌||◌, Option, none, some,
  List, [], ◌∷◌, arith, ◌==◌, if◌then◌else◌, Bool-cases, Option-cases, update, get_elem?,
}
use lhq_linux_c.Table.{each_slot, free_slots}

-- The addresses of a table.
unfoldable pub member : ℕ → List (Option ℕ) → Bool
member p [] = false
member p (none ∷ js) = member p js
member p (some q ∷ js) = (q == p) || member p js

pub member_index :
    (p : ℕ) (js : List (Option ℕ)) → member p js ≡ true → (i : ℕ) × (get_elem? js i ≡ some (some p))
unfolding member
member_index p [] e = absurd (cc)
member_index p (none ∷ js) e = let (i, f) = member_index p js e in (suc i, f)
member_index p (some q ∷ js) e = elim (Bool-cases (q == p)) [
  | inl here ↦ (0, ground arith)
  | inr there ↦ let (i, f) = member_index p js (ground arith) in (suc i, f)
]

pub index-member :
    (p i : ℕ) (js : List (Option ℕ)) → get_elem? js i ≡ some (some p) → member p js ≡ true
unfolding member
index-member p i [] e = absurd (cc)
index-member p zero (none ∷ js) e = absurd (cc)
index-member p zero (some q ∷ js) e = ground arith
index-member p (suc i) (none ∷ js) e = index-member p i js e
index-member p (suc i) (some q ∷ js) e = ground (arith, index-member p i js e)

module _ {A : Type 0} where
  -- Every pointer of a table is live, and none stands there twice.
  abbrev pub Live : (ℕ → Option A) → List (Option ℕ) → Type 0
  Live h [] = Unit {0}
  Live h (none ∷ js) = Live h js
  Live h (some p ∷ js) = ((b : A) × (h p ≡ some b)) × Live h js × (member p js ≡ false)

  Live-update :
      (h : ℕ → Option A) (p : ℕ) (o : Option A) (js : List (Option ℕ))
      → member p js ≡ false
      → Live h js
      → Live (update h p o) js
  unfolding member
  Live-update h p o [] f l = tt
  Live-update h p o (none ∷ js) f l = Live-update h p o js f l
  Live-update h p o (some q ∷ js) f ((b, e), l, n) =
      ((b, ground arith), Live-update h p o js (ground arith) l, n)

  abbrev pub over : (A → A) → Option A → Option A
  over f none = none
  over f (some b) = some (f b)

  -- On a live table the loop applies `f` to each entry once, and faults nowhere.
  pub each_slot_lem :
      (f : A → A) (js : List (Option ℕ)) (h : ℕ → Option A)
      → Live h js
      → each_slot f js h ≡ some (λ q. if member q js then over f (h q) else h q)
  unfolding each_slot member
  each_slot_lem f [] h l = refl
  each_slot_lem f (none ∷ js) h l = each_slot_lem f js h l
  each_slot_lem f (some p ∷ js) h ((b, e), l, n) =
      rw (e, each_slot)
        (each_slot_lem f js (update h p (some (f b))) (Live-update h p (some (f b)) js n l)
          ∙ ap some (fun_ext λ q. ground (arith, e)))

  pub free_slots_lem :
      (js : List (Option ℕ)) (h : ℕ → Option A)
      → Live h js
      → free_slots js h ≡ some (λ q. if member q js then none else h q)
  unfolding free_slots member
  free_slots_lem [] h l = refl
  free_slots_lem (none ∷ js) h l = free_slots_lem js h l
  free_slots_lem (some p ∷ js) h ((b, e), l, n) =
      rw (e, free_slots)
        (free_slots_lem js (update h p none) (Live-update h p none js n l)
          ∙ ap some (fun_ext λ q. ground (arith, e)))

  -- A dangling pointer among the entries makes `free` fault.
  pub free_slots_dangling :
      (js : List (Option ℕ)) (h : ℕ → Option A) (p i : ℕ)
      → get_elem? js i ≡ some (some p)
      → h p ≡ none
      → free_slots js h ≡ none
  unfolding free_slots
  free_slots_dangling [] h p i e d = absurd (cc)
  free_slots_dangling (none ∷ js) h p zero e d = absurd (cc)
  free_slots_dangling (none ∷ js) h p (suc i) e d = free_slots_dangling js h p i e d
  free_slots_dangling (some q ∷ js) h p zero e d = ground (arith, d)
  free_slots_dangling (some q ∷ js) h p (suc i) e d =
      ground (arith, free_slots_dangling js (update h q none) p i e)

  -- It makes the loop over the entries fault as well.
  pub each_slot_dangling :
      (f : A → A) (js : List (Option ℕ)) (h : ℕ → Option A) (p i : ℕ)
      → get_elem? js i ≡ some (some p)
      → h p ≡ none
      → each_slot f js h ≡ none
  unfolding each_slot
  each_slot_dangling f [] h p i e d = absurd (cc)
  each_slot_dangling f (none ∷ js) h p zero e d = absurd (cc)
  each_slot_dangling f (none ∷ js) h p (suc i) e d = each_slot_dangling f js h p i e d
  each_slot_dangling f (some q ∷ js) h p zero e d = ground (arith, d)
  each_slot_dangling f (some q ∷ js) h p (suc i) e d = elim (Option-cases (h q)) [
    | inl n ↦ rw (n, each_slot) refl
    | inr (b, s) ↦
        rw (s, each_slot)
          (each_slot_dangling f js (update h q (some (f b))) p i e (ground (arith, s, d)))
  ]
