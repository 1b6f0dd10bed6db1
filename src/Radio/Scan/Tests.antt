-- ===== src/Radio/Scan/Tests.antt =====
-- Tests of the scan of the media directory, and its theorems at concrete inputs.
use lhq_linux_c.Base.{
  ◌≡◌, refl, true, false, none, some, [], ◌∷◌, arith, replicate, pos, first_free,
}
use lhq_linux_c.TokenBucket.{Module, mytbf_init, InitResult}
use lhq_linux_c.TokenBucket.Init.{answers}
use lhq_linux_c.TokenBucket.Tests.{one_bucket}
use lhq_linux_c.Radio.Library.{Channel}
use lhq_linux_c.Radio.Scan.{
  mp3_cps, mp3_burst, Directory, State, null, entry, path2entry, faults, scan, mlisb_getchnlist,
}
use lhq_linux_c.Radio.Scan.Listed.{Globbed, scan_overflow, path2entry_leaks}

abbrev pop : Directory
pop = record {
  desc_opens = true;
  line = some (b'p' ∷ []);
  memory = true;
  calls = answers 30;
  songs = some (2 ∷ []);
  open_file = λ path. pos 5;
}

-- No description.
abbrev other : Directory
other = record pop { desc_opens = false }

abbrev silent : Directory
silent = record pop { songs = none }

abbrev empty : Channel
empty = record { chnid = 0; desc = []; songs = []; pos = 0; fd = pos 0; offset = 0; tbf = 0 }

abbrev first : State
first = record { curr_id = 1; buckets = one_bucket }

pop-Globbed : Globbed pop
pop-Globbed e = cc

-- The debug prints of a media directory with one directory.
one_directory : mlisb_getchnlist (some (pop ∷ [])) true (replicate 101 empty) first ≡ some faults
unfolding mlisb_getchnlist
one_directory = refl

abbrev full : State
full = record first { curr_id = 101 }

made :
    (m : Module) × (mytbf_init (answers 30) mp3_cps mp3_burst one_bucket ≡ InitResult.handle 30 m)
unfolding mytbf_init first_free
made = (_, refl)

found : (c : Channel) × (s' : State) × (path2entry pop full ≡ entry c s')
unfolding path2entry mytbf_init first_free
found = (_, _, refl)

scan_overflow_test : scan (pop ∷ []) (replicate 101 empty) full ≡ faults
scan_overflow_test =
    scan_overflow pop [] (replicate 101 empty) full pop-Globbed refl (omega arith) (omega arith)
      found.2

silent_leaks : path2entry silent first ≡ null (record first { curr_id = 2; buckets = made.0 })
silent_leaks = path2entry_leaks silent first (b'p' ∷ []) 30 made.0 refl refl refl refl made.1
