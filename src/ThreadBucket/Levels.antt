-- ===== src/ThreadBucket/Levels.antt =====
-- An independent description of token buckets: the level of each in natural numbers, with no
-- table and no slots, and the number of buckets, which is limited.
use Prim.{Unit}
use lhq_linux_c.Base.{
  ℕ, zero, suc, ◌+◌, ◌-◌, ◌^◌, ◌<◌, ◌≡◌, Option, none, some, List, [], ◌∷◌, ltb, ◌==◌,
  if◌then◌else◌, update, pos, negsuc, pos_part, neg_part,
}
use lhq_linux_c.ThreadBucket.{
  Call, inits, fetches, gives_back, destroys, tick, Answer, faulted, waiting, handle, number,
  ticked, einval, mytbf_max,
}

pub record Level : Type 0 where
  pub rate : ℕ
  pub burst : ℕ
  pub level : ℕ

pub record Store : Type 0 where
  pub buckets : ℕ → Option Level
  pub live : ℕ

abbrev pub raised : ℕ → Level → Level
raised n l = record l { level = if ltb l.burst (l.level + n) then l.burst else l.level + n }

abbrev pub refilled : Option Level → Option Level
refilled none = none
refilled (some l) = some (raised l.rate l)

unfoldable pub put : ℕ → Level → Store → Store
put p l s = record s { buckets = update s.buckets p (some l) }

unfoldable pub take_from : ℕ → ℕ → Option Level → Store → Answer × Store
take_from p n none s = (faulted, s)
take_from p n (some l) s =
    let k = (if ltb l.level n then l.level else n) in
    if l.level == 0
    then (waiting, s)
    else (number (pos k), put p (record l { level = l.level - k }) s)

unfoldable pub give_to : ℕ → ℕ → Option Level → Store → Answer × Store
give_to p n none s = (faulted, s)
give_to p n (some l) s = (number (pos n), put p (raised n l) s)

unfoldable pub remove : ℕ → Option Level → Store → Answer × Store
remove p none s = (faulted, s)
remove p (some l) s =
    (number (pos 0), record { buckets = update s.buckets p none; live = s.live - 1 })

-- What a call comes to. Without memory, or with as many buckets as there may be, there is no new one.
unfoldable pub spec_step : Call → Store → Answer × Store
spec_step (inits created none csp burst) s = (handle none, s)
spec_step (inits created (some p) csp burst) s =
    let l : Level = record { rate = pos_part csp; burst = pos_part burst; level = 0 } in
    if ltb s.live mytbf_max
    then (handle (some p), record { buckets = update s.buckets p (some l); live = suc s.live })
    else (handle none, s)
spec_step (fetches p (pos (suc n))) s = take_from p (suc n) (s.buckets p) s
spec_step (fetches p (pos zero)) s = (number einval, s)
spec_step (fetches p (negsuc n)) s = (number einval, s)
spec_step (gives_back p (pos (suc n))) s = give_to p (suc n) (s.buckets p) s
spec_step (gives_back p (pos zero)) s = (number einval, s)
spec_step (gives_back p (negsuc n)) s = (number einval, s)
spec_step (destroys p) s = remove p (s.buckets p) s
spec_step tick s = (ticked, record s { buckets = λ p. refilled (s.buckets p) })

unfoldable pub spec : List Call → Store → List Answer
spec [] s = []
spec (c ∷ cs) s = (spec_step c s).0 ∷ spec cs ((spec_step c s).1)

unfoldable pub none_yet : Store
none_yet = record { buckets = λ p. none; live = 0 }

-- What a caller owes: rates and bursts are not negative and together in the range of int, what is
-- allocated was free, and returned tokens do not leave int.
abbrev pub Owed : Call → Store → Type 0
Owed (inits created none csp burst) s = Unit {0}
Owed (inits created (some p) csp burst) s =
    (neg_part csp ≡ 0)
    × (neg_part burst ≡ 0)
    × (pos_part csp + pos_part burst < 2 ^ 31)
    × (s.buckets p ≡ none)
Owed (fetches p size) s = Unit {0}
Owed (gives_back p size) s = (l : Level) → s.buckets p ≡ some l → l.level + pos_part size < 2 ^ 31
Owed (destroys p) s = Unit {0}
Owed tick s = Unit {0}

abbrev pub AllOwed : List Call → Store → Type 0
AllOwed [] s = Unit {0}
AllOwed (c ∷ cs) s = Owed c s × AllOwed cs ((spec_step c s).1)
