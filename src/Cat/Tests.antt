-- ===== src/Cat/Tests.antt =====
-- Runs of the copying programs on a short file.
use Prim.{tt}
use lhq_linux_c.Base.{ℕ, ◌*◌, ◌≤◌, ◌≡◌, refl, false, List, [], ◌∷◌, arith, length}
use lhq_linux_c.Cat.{
  Answer, done, interrupted, failed, exits, open_step, read_step, loop_test, write_step, copy_step,
  Fits, run, AllFit, start, mycat, bufsize, Event, alarm, leaky_step, leaky_run, flag_after,
  LeakyFits, AllLeakyFit,
}
use lhq_linux_c.Cat.Whole.{whole, mycat-whole}
use lhq_linux_c.Cat.Total.{dones, Calm, Written, mycat-Written}
use lhq_linux_c.Cat.Paced.{alarms, leaky_run_lem}

abbrev file : List ℕ
file = 7 ∷ 8 ∷ 9 ∷ []

-- Partial reads and writes, with interruptions.
abbrev calm_answers : List Answer
calm_answers =
    interrupted
    ∷ done 3
    ∷ done 2
    ∷ interrupted
    ∷ done 1
    ∷ done 1
    ∷ done 1
    ∷ done 1
    ∷ interrupted
    ∷ done 0
    ∷ done 0
    ∷ []

calm_answers-AllFit : AllFit bufsize calm_answers (start file)
unfolding AllFit Fits copy_step open_step read_step loop_test write_step start
calm_answers-AllFit = (
  tt,
  (
    tt,
    (
      (ground arith, ground arith, λ e. absurd (omega (arith, e))),
      (
        tt,
        (
          (ground arith, ground arith),
          (
            (ground arith, ground arith),
            (
              (ground arith, ground arith, λ e. absurd (omega (arith, e))),
              (
                (ground arith, ground arith),
                (tt, ((ground arith, ground arith, λ e. refl), (tt, tt))),
              ),
            ),
          ),
        ),
      ),
    ),
  ),
)

mycat-Written_example : Written (mycat file calm_answers) file
unfolding Calm dones
mycat-Written_example = mycat-Written file calm_answers calm_answers-AllFit tt (ground arith)

-- The second write fails.
abbrev failing_answers : List Answer
failing_answers = done 3 ∷ done 2 ∷ done 1 ∷ failed ∷ []

failing_answers-AllFit : AllFit bufsize failing_answers (start file)
unfolding AllFit Fits copy_step open_step read_step loop_test write_step start
failing_answers-AllFit = (
  tt,
  (
    (ground arith, ground arith, λ e. absurd (omega (arith, e))),
    ((ground arith, ground arith), (tt, tt)),
  ),
)

mycat-whole_example : whole (mycat file failing_answers).1 ≡ file
mycat-whole_example = mycat-whole file failing_answers failing_answers-AllFit

-- An error of read ends the program with the exit code of success.
read_error_exits : (mycat file (done 3 ∷ failed ∷ [])).0 ≡ exits 0
unfolding mycat run start copy_step open_step read_step
read_error_exits = refl

abbrev events : List Event
events =
    Event.answers (done 3)
    ∷ Event.answers (done 3)
    ∷ alarm
    ∷ Event.answers (done 3)
    ∷ Event.answers (done 2)
    ∷ Event.answers (done 1)
    ∷ []

events-AllLeakyFit : AllLeakyFit events (false, start file)
unfolding AllLeakyFit LeakyFits leaky_step flag_after Fits open_step read_step loop_test write_step
    start
events-AllLeakyFit = (
  tt,
  (
    tt,
    (
      tt,
      (
        (ground arith, ground arith, λ e. absurd (omega (arith, e))),
        ((ground arith, ground arith), ((ground arith, ground arith), tt)),
      ),
    ),
  ),
)

leaky_run_lem_example :
    (whole (leaky_run events (false, start file)).1.1 ≡ file)
    × (length (leaky_run events (false, start file)).1.1.out ≤ 10 * alarms events)
leaky_run_lem_example = leaky_run_lem file events events-AllLeakyFit
