-- ===== src/Cat.antt =====
-- signal/mycat.c, signal/AIgeCat.c and signal/leaky_bucket.c: programs that copy a file to the
-- output. The answers of the system are an explicit sequence, one for each call. Ten bytes a second
-- are the pace of leaky_bucket.c.
pub mod Whole
pub mod Total
pub mod Paced
mod Tests
use Prim.{Unit, tt}
use lhq_linux_c.Base.{
  ℕ, zero, suc, ◌+◌, ◌-◌, ◌*◌, ◌/◌, ◌%◌, ◌^◌, ◌≤◌, ◌<◌, ◌≡◌, refl, sym, ap, ap₂, ◌∙◌, subst,
  fun_ext, ◌≢◌, ◌⊎◌, inl, inr, ◌↔◌, Bool, true, false, ◌&&◌, ◌||◌, not, Option, none, some, List,
  [], ◌∷◌, ◌++◌, map, arith, ltb, leb, ◌==◌, if◌then◌else◌, ltb→lt, lt→ltb, ==_iff, tests,
  Bool-cases, Option-cases, update, length, get_elem?, set, take, drop, replicate, length-append,
  length-set, length-replicate, length-take, length-drop, get_elem?-set_self, get_elem?-set_ne,
  lt_of_get_elem?, take-append, drop-append, take-append-drop, get_elem?-of_lt, ℤ, pos, negsuc,
  pos_part, neg_part, sub_ℕ, ◌≤ℤ◌, ◌<ℤ◌, ltb_ℤ, eqb_ℤ, leb_ℤ, wrap_int, ◌+ℤ◌, ◌-ℤ◌, IsInt, +ℤ_parts,
  -ℤ_parts, +ℤ-IsInt, -ℤ-IsInt, eq_of_parts, +ℤ-pos, -ℤ-pos, int_laws, first_free, Full,
  first_free_cases,
}

-- What open, read and write answer: a number that is not negative, EINTR, or another error.
pub data Answer : Type 0 where
  done : ℕ → Answer
  interrupted : Answer
  failed : Answer

-- Where a program stands: the call that it makes, or its exit code.
pub data Phase : Type 0 where
  opening : Phase
  reading : Phase
  writing : Phase
  exits : ℕ → Phase

-- What is left of the file, the variables `buf`, `pos` and `len`, and what was written.
pub record Copy : Type 0 where
  pub file : List ℕ
  pub buf : List ℕ
  pub pos : ℕ
  pub len : ℕ
  pub out : List ℕ

abbrev pub State : Type 0
State = Phase × Copy

unfoldable pub open_step : Answer → Copy → State
open_step (done fd) c = (reading, c)
open_step interrupted c = (opening, c)
open_step failed c = (exits 1, c)

-- `read(fds, buf, BUFSIZE)`, where the end of the file and an error leave the loop alike.
unfoldable pub read_step : Answer → Copy → State
read_step (done zero) c = (exits 0, record c { len = 0 })
read_step (done (suc k)) c = (
  writing,
  record c { file = drop (suc k) c.file; buf = take (suc k) c.file; pos = 0; len = suc k },
)
read_step interrupted c = (reading, c)
read_step failed c = (exits 0, c)

-- `while (len > 0)`, for the next round.
unfoldable pub loop_test : Copy → State
loop_test c = if c.len == 0 then (reading, c) else (writing, c)

unfoldable pub write_step : Answer → Copy → State
write_step (done res) c =
    loop_test (record c {
      pos = c.pos + res;
      len = c.len - res;
      out = c.out ++ take res (drop c.pos c.buf);
    })
write_step interrupted c = (writing, c)
write_step failed c = (exits 1, c)

unfoldable pub copy_step : Answer → State → State
copy_step a (opening, c) = open_step a c
copy_step a (reading, c) = read_step a c
copy_step a (writing, c) = write_step a c
copy_step a (exits n, c) = (exits n, c)

-- What the system answers: no more bytes than were asked for or are left, at least one where some
-- are, and 0 from read at the end of the file only.
unfoldable pub Fits : ℕ → Answer → State → Type 0
Fits bufsize (done k) (reading, c) = (k ≤ bufsize) × (k ≤ length c.file) × (k ≡ 0 → c.file ≡ [])
Fits bufsize (done k) (writing, c) = (0 < k) × (k ≤ c.len)
Fits bufsize a s = Unit {0}

unfoldable pub run : List Answer → State → State
run [] s = s
run (a ∷ as') s = run as' (copy_step a s)

unfoldable pub AllFit : ℕ → List Answer → State → Type 0
AllFit bufsize [] s = Unit {0}
AllFit bufsize (a ∷ as') s = Fits bufsize a s × AllFit bufsize as' (copy_step a s)

unfoldable pub start : List ℕ → State
start file = (opening, record { file = file; buf = []; pos = 0; len = 0; out = [] })

-- `main` of mycat.c and of AIgeCat.c, on the answers to its calls.
abbrev pub bufsize : ℕ
bufsize = 1024

unfoldable pub mycat : List ℕ → List Answer → State
mycat file answers = run answers (start file)

unfoldable pub ai_ge_cat : List ℕ → List Answer → State
ai_ge_cat file answers = run answers (start file)

-- leaky_bucket.c: `flag` is set while the program pauses in front of a read.
pub data Event : Type 0 where
  answers : Answer → Event
  alarm : Event

abbrev pub leaky_bufsize : ℕ
leaky_bufsize = 10

unfoldable pub flag_after : Answer → Bool → Bool
flag_after (done fd) flag = true
flag_after interrupted flag = flag
flag_after failed flag = flag

-- With the flag set in front of a read there is no call that could be answered.
unfoldable pub leaky_step : Event → Bool × State → Bool × State
leaky_step alarm (flag, s) = (false, s)
leaky_step (answers a) (flag, (opening, c)) = (flag_after a flag, open_step a c)
leaky_step (answers a) (true, (reading, c)) = (true, (reading, c))
leaky_step (answers a) (false, (reading, c)) = (true, read_step a c)
leaky_step (answers a) (flag, (writing, c)) = (flag, write_step a c)
leaky_step (answers a) (flag, (exits n, c)) = (flag, (exits n, c))

unfoldable pub leaky_run : List Event → Bool × State → Bool × State
leaky_run [] s = s
leaky_run (e ∷ es) s = leaky_run es (leaky_step e s)

-- What the system answers to the calls that are made.
unfoldable pub LeakyFits : Event → Bool × State → Type 0
LeakyFits alarm s = Unit {0}
LeakyFits (answers a) (true, (reading, c)) = Unit {0}
LeakyFits (answers a) (false, s) = Fits leaky_bufsize a s
LeakyFits (answers a) (true, s) = Fits leaky_bufsize a s

unfoldable pub AllLeakyFit : List Event → Bool × State → Type 0
AllLeakyFit [] s = Unit {0}
AllLeakyFit (e ∷ es) s = LeakyFits e s × AllLeakyFit es (leaky_step e s)
