-- ===== src/ThreadBucket/Unload.antt =====
-- posix/other/tbf/mytbf.c: mod_unload destroys every bucket and then frees what is NULL by then.
use lhq_linux_c.Base.{
  ℕ, zero, suc, ◌+◌, ◌<◌, ◌≡◌, refl, sym, ◌∙◌, subst, ◌⊎◌, inl, inr, Option, none, some, arith,
  ◌==◌, ◌-◌, Bool-cases, Option-cases, update, get_elem?, set, get_elem?-set_self, get_elem?-set_ne,
  lt_of_get_elem?, get_elem?-of_lt,
}
use lhq_linux_c.ThreadBucket.{
  Bucket, Module, mytbf_max, mytbf_destroy, free_slot, destroy_slot, unload_from, mod_unload,
}
use lhq_linux_c.ThreadBucket.Sane.{IsValid, IsValid-remove}

-- The first `i` slots are free.
abbrev Cleared : ℕ → Module → Type 0
Cleared i m = (j : ℕ) → j < i → get_elem? m.job j ≡ some none

-- One round of the loop is over: the slot is free, and the test of the second `free` sees NULL.
record IsRound (i : ℕ) (m : Module) : Type 0 where
  after : Module
  destroyed : destroy_slot (get_elem? m.job i) m ≡ some after
  freed : free_slot (get_elem? after.job i) after ≡ some after
  valid : IsValid after
  kept : after.handlers ≡ m.handlers
  cleared : Cleared (suc i) after

clear_next : (i : ℕ) (m : Module) → Cleared i m → get_elem? m.job i ≡ some none → Cleared (suc i) m
clear_next i m c e j l = elim (Bool-cases (j == i)) [
  | inl same ↦ let q : j ≡ i = ground arith in rw q e
  | inr other ↦ c j (ground arith)
]

slot_cases :
    (i : ℕ) (m : Module)
    → IsValid m
    → i < mytbf_max
    → (get_elem? m.job i ≡ some none)
      ⊎ ((p : ℕ) × (b : Bucket) × (get_elem? m.job i ≡ some (some p))
          × (m.heap p ≡ some b)
          × (b.pos ≡ i))
slot_cases i m v l = let (o, e) = get_elem?-of_lt m.job i (rw v.slots l) in by_slot o e
  where
    by_slot :
        (o : Option ℕ)
        → get_elem? m.job i ≡ some o
        → (get_elem? m.job i ≡ some none)
          ⊎ ((p : ℕ) × (b : Bucket) × (get_elem? m.job i ≡ some (some p))
              × (m.heap p ≡ some b)
              × (b.pos ≡ i))
    by_slot none e = inl e
    by_slot (some p) e = let (b, f, g) = v.table.listed i p e in inr (p, b, e, f, g)

unload-IsRound : (i : ℕ) (m : Module) → IsValid m → i < mytbf_max → Cleared i m → IsRound i m
unfolding destroy_slot free_slot mytbf_destroy
unload-IsRound i m v l c = elim (slot_cases i m v l) [
  | inl e ↦ record {
    after = m;
    destroyed = rw (e, destroy_slot) refl;
    freed = rw (e, free_slot) refl;
    valid = v;
    kept = refl;
    cleared = clear_next i m c e;
  }
  | inr (p, b, e, f, g) ↦
      let m' : Module = record m { job = set m.job b.pos none; heap = update m.heap p none } in
      let gone : get_elem? m'.job i ≡ some none =
        rw (sym g) (get_elem?-set_self m.job b.pos none (rw (g, v.slots) l)) in
      let others : Cleared i m' =
        λ j h. get_elem?-set_ne m.job b.pos j none (ground (arith, g)) ∙ c j h in
      record {
        after = m';
        destroyed = rw (e, f, mytbf_destroy, destroy_slot) refl;
        freed = rw (gone, free_slot) refl;
        valid = IsValid-remove v p b f;
        kept = refl;
        cleared = clear_next i m' others gone;
      }
]

unloads :
    (n i : ℕ) (m : Module)
    → i + n ≡ mytbf_max
    → IsValid m
    → Cleared i m
    → (m' : Module) × (unload_from n i m ≡ some m')
      × IsValid m'
      × Cleared mytbf_max m'
      × (m'.handlers ≡ m.handlers)
unfolding unload_from
unloads zero i m e v c = (m, refl, v, subst (λ k. Cleared k m) (omega (arith, e)) c, refl)
unloads (suc n) i m e v c =
    let r = unload-IsRound i m v (omega (arith, e)) c in
    let (m', f, w, d, k) = unloads n (suc i) r.after (omega (arith, e)) r.valid r.cleared in
    (m', rw (r.destroyed, r.freed, unload_from) f, w, d, k ∙ r.kept)

-- When the program exits, mod_unload stops the thread that refills the buckets, frees no memory
-- twice, and on return every slot of the table is NULL and nothing is allocated; if that thread was
-- never created, joining it is a fault.
pub mod_unload_lem :
    (m : Module)
    → IsValid m
    → ((m.handlers ≡ 0) × (mod_unload m ≡ none))
      ⊎ ((m' : Module) × (mod_unload m ≡ some m')
          × (suc m'.handlers ≡ m.handlers)
          × ((j : ℕ) → j < mytbf_max → get_elem? m'.job j ≡ some none)
          × ((p : ℕ) → m'.heap p ≡ none))
unfolding mod_unload
mod_unload_lem m v = elim (Bool-cases (m.handlers == 0)) [
  | inl never ↦ inl (ground (arith, never), rw (never, mod_unload) refl)
  | inr runs ↦
      let stopped : Module = record m { handlers = m.handlers - 1 } in
      let valid : IsValid stopped = record { table = v.table; sane = v.sane; slots = v.slots } in
      let (m', e, w, c, k) =
        unloads mytbf_max 0 stopped refl valid (λ j l. absurd (omega (arith, l))) in
      inr (
        m',
        rw (runs, mod_unload) e,
        ground (arith, k, runs),
        c,
        λ p. elim (Option-cases (m'.heap p)) [
          | inl n ↦ n
          | inr (b, f) ↦
              let s = w.table.live p b f in
              let t =
                c b.pos
                  (let q = lt_of_get_elem? m'.job b.pos (some p) s in omega (arith, q, w.slots)) in
              absurd (ground (arith, s, t))
        ],
      )
]
