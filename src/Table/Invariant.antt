-- ===== src/Table/Invariant.antt =====
-- The invariant of a table: an entry's slot is the one that it has noted, and what is allocated
-- stands in the table. It is kept by enlisting, by writing to an entry and by removing one.
use lhq_linux_c.Base.{
  ℕ, zero, suc, ◌+◌, ◌<◌, ◌≡◌, refl, ap, ◌∙◌, fun_ext, ◌≢◌, inl, inr, true, false, Option, none,
  some, List, [], ◌∷◌, arith, ◌==◌, if◌then◌else◌, Bool-cases, Option-cases, update, length,
  get_elem?, set, replicate, get_elem?-set_self, get_elem?-set_ne, lt_of_get_elem?,
}
use lhq_linux_c.Table.{each_slot, free_slots}
use lhq_linux_c.Table.Loops.{
  member, member_index, index-member, Live, each_slot_lem, free_slots_lem, over,
}

-- The entries of a part of the table that begins at slot `k`.
abbrev Placed : {A : Type 0} → (A → ℕ) → (ℕ → Option A) → List (Option ℕ) → ℕ → Type 0
Placed {A} place h js k =
    (i p : ℕ) → get_elem? js i ≡ some (some p) → (b : A) × (h p ≡ some b) × (place b ≡ k + i)

pub record IsTable {A : Type 0} (place : A → ℕ) (job : List (Option ℕ)) (heap : ℕ → Option A)
    : Type 0 where
  pub listed :
      (i p : ℕ) → get_elem? job i ≡ some (some p) → (b : A) × (heap p ≡ some b) × (place b ≡ i)
  pub live : (p : ℕ) (b : A) → heap p ≡ some b → get_elem? job (place b) ≡ some (some p)

module _ {A : Type 0} (place : A → ℕ) where
  Placed-tail :
      (h : ℕ → Option A) (o : Option ℕ) (js : List (Option ℕ)) (k : ℕ)
      → Placed place h (o ∷ js) k
      → Placed place h js (suc k)
  Placed-tail h o js k all i p e = let (b, f, g) = all (suc i) p e in (b, f, omega arith)

  Placed-fresh :
      (h : ℕ → Option A) (p : ℕ) (js : List (Option ℕ)) (k : ℕ)
      → Placed place h (some p ∷ js) k
      → member p js ≡ false
  Placed-fresh h p js k all = elim (Bool-cases (member p js)) [
    | inl m ↦
        let (i, e) = member_index p js m in
        let (b, f, g) = all 0 p refl in let (c, f', g') = all (suc i) p e in absurd (ground arith)
    | inr m ↦ m
  ]

  Placed-Live : (h : ℕ → Option A) (js : List (Option ℕ)) (k : ℕ) → Placed place h js k → Live h js
  Placed-Live h [] k all = tt
  Placed-Live h (none ∷ js) k all = Placed-Live h js (suc k) (Placed-tail h none js k all)
  Placed-Live h (some p ∷ js) k all =
      let (b, f, g) = all 0 p refl in
      (
        (b, f),
        Placed-Live h js (suc k) (Placed-tail h (some p) js k all),
        Placed-fresh h p js k all,
      )

module _ {A : Type 0} {place : A → ℕ} {job : List (Option ℕ)} {heap : ℕ → Option A}
    (t : IsTable place job heap) where
  pub IsTable-Live : Live heap job
  IsTable-Live =
      Placed-Live place heap job 0 λ i p e. let (b, f, g) = t.listed i p e in (b, f, omega arith)

  live-member : (p : ℕ) (b : A) → heap p ≡ some b → member p job ≡ true
  live-member p b e = index-member p (place b) job (t.live p b e)

  -- On a table, the loop over the slots applies `f` to everything that is allocated.
  pub each_slot-table : (f : A → A) → each_slot f job heap ≡ some (λ p. over f (heap p))
  each_slot-table f = each_slot_lem f job heap IsTable-Live ∙ ap some (fun_ext at_address)
    where
      at_address : (q : ℕ) → (if member q job then over f (heap q) else heap q) ≡ over f (heap q)
      at_address q = elim (Option-cases (heap q)) [
        | inl e ↦ ground (arith, e)
        | inr (b, e) ↦ rw (live-member q b e)
      ]

  -- `free` of every entry leaves nothing allocated.
  pub free_slots-table : free_slots job heap ≡ some (λ p. none)
  free_slots-table = free_slots_lem job heap IsTable-Live ∙ ap some (fun_ext at_address)
    where
      at_address : (q : ℕ) → (if member q job then none else heap q) ≡ none
      at_address q = elim (Option-cases (heap q)) [
        | inl e ↦ ground (arith, e)
        | inr (b, e) ↦ rw (live-member q b e)
      ]

  -- No two slots hold one pointer.
  pub slot_unique :
      (i j p : ℕ) → get_elem? job i ≡ some (some p) → get_elem? job j ≡ some (some p) → i ≡ j
  slot_unique i j p e f =
      let (b, h, g) = t.listed i p e in let (c, h', g') = t.listed j p f in ground arith

  pub IsTable-each :
      (f : A → A) → ((b : A) → place (f b) ≡ place b) → IsTable place job (λ p. over f (heap p))
  IsTable-each f keep = record { listed = listed'; live = live' }
    where
      listed' :
          (i p : ℕ)
          → get_elem? job i ≡ some (some p)
          → (b : A) × (over f (heap p) ≡ some b) × (place b ≡ i)
      listed' i p e = let (b, g, h) = t.listed i p e in (f b, rw g, keep b ∙ h)

      live' : (p : ℕ) (b : A) → over f (heap p) ≡ some b → get_elem? job (place b) ≡ some (some p)
      live' p b e = elim (Option-cases (heap p)) [
        | inl g ↦ absurd (ground (arith, g))
        | inr (c, g) ↦ ground (arith, keep c, t.live p c g)
      ]

  -- A write to an entry that keeps its slot.
  pub IsTable-write :
      (p : ℕ) (b b' : A)
      → heap p ≡ some b
      → place b' ≡ place b
      → IsTable place job (update heap p (some b'))
  IsTable-write p b b' e keep = record { listed = listed'; live = live' }
    where
      listed' :
          (i q : ℕ)
          → get_elem? job i ≡ some (some q)
          → (c : A) × (update heap p (some b') q ≡ some c) × (place c ≡ i)
      listed' i q f = elim (Bool-cases (p == q)) [
        | inl same ↦ let (c, g, h) = t.listed i q f in (b', ground arith, ground arith)
        | inr other ↦ let (c, g, h) = t.listed i q f in (c, ground arith, h)
      ]

      live' :
          (q : ℕ) (c : A)
          → update heap p (some b') q ≡ some c
          → get_elem? job (place c) ≡ some (some q)
      live' q c f = ground (arith, t.live p b, t.live q c)

  -- A new entry in a free slot, at an address where nothing is allocated.
  pub IsTable-enlist :
      (i p : ℕ) (b : A)
      → get_elem? job i ≡ some none
      → heap p ≡ none
      → place b ≡ i
      → IsTable place (set job i (some p)) (update heap p (some b))
  IsTable-enlist i p b free fresh at = record { listed = listed'; live = live' }
    where
      inside : i < length job
      inside = lt_of_get_elem? job i none free

      here : get_elem? (set job i (some p)) i ≡ some (some p)
      here = get_elem?-set_self job i (some p) inside

      listed' :
          (j q : ℕ)
          → get_elem? (set job i (some p)) j ≡ some (some q)
          → (c : A) × (update heap p (some b) q ≡ some c) × (place c ≡ j)
      listed' j q f = elim (Bool-cases (i == j)) [
        | inl same ↦ (b, ground (arith, here), ground arith)
        | inr other ↦
            let old = rw (get_elem?-set_ne job i j (some p) (ground arith)) at f in
            let (c, g, h) = t.listed j q old in (c, ground arith, h)
      ]

      live' :
          (q : ℕ) (c : A)
          → update heap p (some b) q ≡ some c
          → get_elem? (set job i (some p)) (place c) ≡ some (some q)
      live' q c f =
          ground (arith, here, t.live q c, free, get_elem?-set_ne job i (place c) (some p))

  -- An entry is removed and its memory freed.
  pub IsTable-remove :
      (p : ℕ) (b : A)
      → heap p ≡ some b
      → IsTable place (set job (place b) none) (update heap p none)
  IsTable-remove p b e = record { listed = listed'; live = live' }
    where
      here : get_elem? (set job (place b) none) (place b) ≡ some none
      here = get_elem?-set_self job (place b) none (lt_of_get_elem? job _ _ (t.live p b e))

      listed' :
          (j q : ℕ)
          → get_elem? (set job (place b) none) j ≡ some (some q)
          → (c : A) × (update heap p none q ≡ some c) × (place c ≡ j)
      listed' j q f = elim (Bool-cases (place b == j)) [
        | inl same ↦ absurd (ground (arith, here))
        | inr other ↦
            let old = rw (get_elem?-set_ne job (place b) j none (ground arith)) at f in
            let (c, g, h) = t.listed j q old in (c, ground arith, h)
      ]

      live' :
          (q : ℕ) (c : A)
          → update heap p none q ≡ some c
          → get_elem? (set job (place b) none) (place c) ≡ some (some q)
      live' q c f =
          ground (arith, t.live p b e, t.live q c, get_elem?-set_ne job (place b) (place c) none)

get_elem?-replicate_ne : (n i p : ℕ) → get_elem? (replicate {A = Option ℕ} n none) i ≢ some (some p)
get_elem?-replicate_ne zero i p e = cc
get_elem?-replicate_ne (suc n) zero p e = cc
get_elem?-replicate_ne (suc n) (suc i) p e = get_elem?-replicate_ne n i p e

pub IsTable-empty :
    {A : Type 0} (place : A → ℕ) (n : ℕ) → IsTable place (replicate n none) (λ p. none)
IsTable-empty place n = record {
  listed = λ i p e. absurd (get_elem?-replicate_ne n i p e);
  live = λ p b e. absurd (cc e);
}
