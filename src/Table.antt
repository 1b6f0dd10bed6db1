-- ===== src/Table.antt =====
-- A table of pointers into a heap, `static struct … *job[MAX]`, whose entries know their slot:
-- what the token buckets share. The loops over a table, and the invariant of one.
pub mod Loops
pub mod Invariant
pub mod Used
use lhq_linux_c.Base.{ℕ, Option, none, some, List, [], ◌∷◌, update}

-- for (i = 0; i < MAX; i++) if (job[i] != NULL) *job[i] = f(*job[i]);
-- `none` is an access through a pointer to freed memory.
unfoldable pub each_slot {ℓ} :
    {A : Type ℓ} → (A → A) → List (Option ℕ) → (ℕ → Option A) → Option (ℕ → Option A)
each_slot f [] h = some h
each_slot f (none ∷ js) h = each_slot f js h
each_slot f (some p ∷ js) h = elim (h p) [
  | none ↦ none
  | some b ↦ each_slot f js (update h p (some (f b)))
]

-- for (i = 0; i < MAX; i++) free(job[i]);
unfoldable pub free_slots {ℓ} :
    {A : Type ℓ} → List (Option ℕ) → (ℕ → Option A) → Option (ℕ → Option A)
free_slots [] h = some h
free_slots (none ∷ js) h = free_slots js h
free_slots (some p ∷ js) h = elim (h p) [ none ↦ none | some b ↦ free_slots js (update h p none) ]
