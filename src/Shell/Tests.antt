-- ===== src/Shell/Tests.antt =====
-- The shell's parsing of short lines.
use lhq_linux_c.Base.{ℕ, ◌≡◌, refl, none, some, List, [], ◌∷◌}
use lhq_linux_c.Shell.{mysh_parse_str, parse_from, strsep, glob_into}
use lhq_linux_c.Shell.Words.{words, command, mysh_parse_str_lem}

-- Every word stands for itself, as with GLOB_NOCHECK where no file has the name.
abbrev itself : List ℕ → List (List ℕ)
itself w = w ∷ []

abbrev line : List ℕ
line = 32 ∷ 108 ∷ 115 ∷ 32 ∷ 9 ∷ 97 ∷ 10 ∷ []

mysh_parse_str_lem_example :
    mysh_parse_str itself line none ≡ some (command itself (words line) none)
mysh_parse_str_lem_example = mysh_parse_str_lem itself line none

two_words : mysh_parse_str itself line none ≡ some (some ((108 ∷ 115 ∷ []) ∷ (97 ∷ []) ∷ []))
unfolding mysh_parse_str parse_from strsep glob_into
two_words = refl
