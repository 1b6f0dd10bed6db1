-- ===== src/Radio/Scan/Listed.antt =====
-- What `mlisb_getchnlist` lists, and what a directory without music costs.
use lhq_linux_c.Base.{
  ℕ, suc, ◌+◌, ◌%◌, ◌≤◌, ◌<◌, ◌≡◌, refl, sym, ap, ◌∙◌, subst, ◌≢◌, ◌⊎◌, inl, inr, true, none, some,
  List, [], ◌∷◌, arith, Bool-cases, Option-cases, length, get_elem?, pos, neg_part, ltb_ℤ,
}
use lhq_linux_c.TokenBucket.{Module, mytbf_init, InitResult}
use lhq_linux_c.Radio.{ListInfo, maxchnid}
use lhq_linux_c.Radio.Library.{Channel}
use lhq_linux_c.Radio.Scan.{
  mp3_cps, mp3_burst, Directory, State, next_id, Entry, exits, null, entry, open_first, with_bucket,
  path2entry, Scanned, ends, faults, done, scan, mlisb_getchnlist,
}

-- `glob` returns 0 only with a path.
abbrev pub Globbed : Directory → Type 0
Globbed d = d.songs ≢ some []

abbrev pub AllGlobbed : List Directory → Type 0
AllGlobbed [] = Unit {0}
AllGlobbed (d ∷ ds) = Globbed d × AllGlobbed ds

-- A context that can be read: its songs are not none, and the first is open.
pub record IsReady (c : Channel) : Type 0 where
  pub first : c.pos ≡ 0
  pub music : 0 < length c.songs
  pub open_fd : neg_part c.fd ≡ 0

-- What one directory comes to: the id moves on by at most one, and an entry takes the present id.
abbrev Outcome : State → Entry → Type 0
Outcome s e =
    (e ≡ exits)
    ⊎ ((s' : State) × (e ≡ null s') × (s.curr_id ≤ s'.curr_id) × (s'.curr_id ≤ suc s.curr_id))
    ⊎ ((c : Channel) × (s' : State) × (e ≡ entry c s')
        × (c.chnid ≡ s.curr_id)
        × (s'.curr_id ≡ suc s.curr_id)
        × IsReady c)

open_first_lem :
    (d : Directory) (line songs : List ℕ) (p : ℕ) (s : State)
    → songs ≢ []
    → s.curr_id < 255
    → Outcome s (open_first d line p songs s)
unfolding open_first
open_first_lem d line [] p s g h = absurd (g refl)
open_first_lem d line (x ∷ xs) p s g h = elim (Bool-cases (ltb_ℤ (d.open_file x) (pos 0))) [
  | inl bad ↦ inr (inl (s, rw bad, omega arith, omega arith))
  | inr good ↦ inr (
      inr (
        record {
          chnid = s.curr_id;
          desc = line;
          songs = x ∷ xs;
          pos = 0;
          fd = d.open_file x;
          offset = 0;
          tbf = p;
        },
        next_id s,
        ground (arith, good),
        refl,
        omega arith,
        record { first = refl; music = omega arith; open_fd = ground (arith, good) },
      ))
]

with_bucket_lem :
    (d : Directory) (line : List ℕ) (r : InitResult) (s : State)
    → Globbed d
    → s.curr_id < 255
    → Outcome s (with_bucket d line r s)
unfolding with_bucket
with_bucket_lem d line InitResult.exits s g h = inl refl
with_bucket_lem d line (InitResult.null m) s g h = inr (inl (_, refl, omega arith, omega arith))
with_bucket_lem d line (InitResult.handle p m) s g h = elim (Option-cases d.songs) [
  | inl e ↦
      inr (inl (next_id (record s { buckets = m }), ground (arith, e), omega arith, omega arith))
  | inr (songs, e) ↦
      rw (e, with_bucket)
        (open_first_lem d line songs p (record s { buckets = m }) (λ q. g (e ∙ ap some q)) h)
]

path2entry_lem :
    (d : Directory) (s : State) → Globbed d → s.curr_id < 255 → Outcome s (path2entry d s)
unfolding path2entry
path2entry_lem d s g h = elim (Bool-cases d.desc_opens) [
  | inr closed ↦ rw (closed, path2entry) (inr (inl (s, refl, omega arith, omega arith)))
  | inl opens ↦ elim (Option-cases d.line) [
    | inl e ↦ inr (inl (s, ground (arith, opens, e), omega arith, omega arith))
    | inr (line, e) ↦ elim (Bool-cases d.memory) [
      | inr short ↦ inr (inl (s, ground (arith, opens, e, short), omega arith, omega arith))
      | inl room ↦
          subst (Outcome s) (ground (arith, opens, e, room))
            (with_bucket_lem d line (mytbf_init d.calls mp3_cps mp3_burst s.buckets) s g h)
    ]
  ]
]

-- The ids of a list rise from `k` on and stay below `n`.
abbrev pub Rising : ℕ → ℕ → List ListInfo → Type 0
Rising k n [] = Unit {0}
Rising k n (i ∷ is) = (k ≤ i.chnid) × (i.chnid < n) × Rising (suc i.chnid) n is

-- What is listed stands in the array under its id, ready to be read.
abbrev pub Held : List Channel → List ListInfo → Type 0
Held cs [] = Unit {0}
Held cs (i ∷ is) =
    ((c : Channel) × (get_elem? cs i.chnid ≡ some c)
      × (c.chnid ≡ i.chnid)
      × (c.desc ≡ i.desc)
      × IsReady c)
    × Held cs is

-- A scan from id `k` lists rising ids from `k` on, holds each, and leaves the lower channels alone.
abbrev Scan : ℕ → List Channel → Scanned → Type 0
Scan k cs r =
    (r ≡ ends)
    ⊎ ((is : List ListInfo) × (cs' : List Channel) × (s' : State) × (r ≡ done is cs' s')
        × Rising k (length cs) is
        × Held cs' is
        × (length cs' ≡ length cs)
        × ((j : ℕ) → j < k → get_elem? cs' j ≡ get_elem? cs j))

-- What a call of `mlisb_getchnlist` with memory returns for these directories.
abbrev pub Listing : List Directory → List Channel → State → Type 0
Listing ds cs s =
    (mlisb_getchnlist (some ds) true cs s ≡ some ends)
    ⊎ ((is : List ListInfo) × (cs' : List Channel) × (s' : State) × (mlisb_getchnlist (some ds) true
            cs s
          ≡ some (done is cs' s'))
        × Rising s.curr_id (maxchnid + 1) is
        × Held cs' is
        × (length cs' ≡ maxchnid + 1))

-- With the ids up to the end of the array given out, the next directory of music is stored
-- outside the array.
pub scan_overflow :
    (d : Directory) (ds : List Directory) (cs : List Channel) (s : State) {c : Channel} {s' : State}
    → Globbed d
    → length cs ≡ maxchnid + 1
    → maxchnid < s.curr_id
    → s.curr_id < 255
    → path2entry d s ≡ entry c s'
    → scan (d ∷ ds) cs s ≡ faults
unfolding scan
scan_overflow d ds cs s {c} {s'} g n full h e = elim (path2entry_lem d s g h) [
  | inl e' ↦ absurd (cc)
  | inr (inl (s2, e', _, _)) ↦ absurd (cc)
  | inr (inr (c2, s2, e', at, _, _)) ↦
      let same : c2 ≡ c = cc in
      let id : c.chnid ≡ s.curr_id = ap (λ (x : Channel). x.chnid) (sym same) ∙ at in
      ground (arith, e, id)
]

-- A directory without songs costs an id and a token bucket: the bucket that was made for it stays
-- in the table, and no channel has it.
pub path2entry_leaks :
    (d : Directory) (s : State) (line : List ℕ) (p : ℕ) (m : Module)
    → d.desc_opens ≡ true
    → d.line ≡ some line
    → d.memory ≡ true
    → d.songs ≡ none
    → mytbf_init d.calls mp3_cps mp3_burst s.buckets ≡ InitResult.handle p m
    → path2entry d s ≡ null (record s { curr_id = (s.curr_id + 1) % 256; buckets = m })
unfolding path2entry
path2entry_leaks d s line p m o e r n i = ground (arith, o, e, r, n, i)
