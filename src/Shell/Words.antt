-- ===== src/Shell/Words.antt =====
-- process/mysh.c: the loop over strsep, against the words of a line read character by character.
use lhq_linux_c.Base.{
  ℕ, zero, suc, ◌≤◌, ◌≡◌, refl, sym, ap, ◌∙◌, inl, inr, Bool, true, false, Option, none, some, List,
  [], ◌∷◌, ◌++◌, arith, if◌then◌else◌, Bool-cases, length,
}
use mathlib.Core.List.{append_assoc, append-nil}
use lhq_linux_c.Shell.{delim, strsep, Cmd, glob_into, parse_from, mysh_parse_str}

abbrev keep : List ℕ → List (List ℕ) → List (List ℕ)
keep [] ws = ws
keep (c ∷ cs) ws = (c ∷ cs) ∷ ws

-- The words of a line, for the letters of the current word that were read.
unfoldable pub words_from : List ℕ → List ℕ → List (List ℕ)
words_from w [] = keep w []
words_from w (x ∷ xs) =
    let new = words_from [] xs in
    let on = words_from (w ++ x ∷ []) xs in if delim x then keep w new else on

unfoldable pub words : List ℕ → List (List ℕ)
words line = words_from [] line

abbrev behind : Option (List ℕ) → List (List ℕ)
behind none = []
behind (some s) = words_from [] s

snoc-append : (w t : List ℕ) (x : ℕ) → (w ++ x ∷ []) ++ t ≡ w ++ (x ∷ t)
snoc-append [] t x = refl
snoc-append (y ∷ w) t x = ap (λ l. y ∷ l) (snoc-append w t x)

words_from-strsep : (w s : List ℕ) → words_from w s ≡ keep (w ++ (strsep s).0) (behind (strsep s).1)
unfolding words_from strsep
words_from-strsep w [] = ap (λ l. keep l []) (sym (append-nil w))
words_from-strsep w (x ∷ xs) = elim (Bool-cases (delim x)) [
  | inl d ↦ rw (d, words_from, strsep) (ap (λ l. keep l (words_from [] xs)) (sym (append-nil w)))
  | inr d ↦
      rw (d, words_from, strsep)
        (words_from-strsep (w ++ x ∷ []) xs
          ∙ ap (λ l. keep l (behind (strsep xs).1)) (snoc-append w (strsep xs).0 x))
]

abbrev size : Option (List ℕ) → ℕ
size none = 0
size (some s) = suc (length s)

strsep-size : (s : List ℕ) → size (strsep s).1 ≤ length s
unfolding strsep
strsep-size [] = omega arith
strsep-size (x ∷ xs) = elim (Bool-cases (delim x)) [
  | inl d ↦ rw (d, strsep) (omega arith)
  | inr d ↦ rw (d, strsep) (omega (arith, strsep-size xs))
]

-- The names of words that are appended one after the other.
appends : (List ℕ → List (List ℕ)) → Bool → Cmd → List (List ℕ) → Cmd
appends glob i cmd [] = cmd
appends glob i cmd (w ∷ ws) = appends glob true (glob_into glob i w cmd) ws

module _ (glob : List ℕ → List (List ℕ)) where
  -- A round, for the token and the string behind it.
  token_parses :
      (n : ℕ) (t : List ℕ) (r : Option (List ℕ)) (i : Bool) (cmd : Cmd)
      → ((i : Bool) (cmd : Cmd) → parse_from glob n r i cmd ≡ some (appends glob i cmd (behind r)))
      → (elim t as (λ x. Option Cmd) [
        | [] ↦ parse_from glob n r i cmd
        | c ∷ cs ↦ parse_from glob n r true (glob_into glob i (c ∷ cs) cmd)
      ])
        ≡ some (appends glob i cmd (keep t (behind r)))
  unfolding appends
  token_parses n [] r i cmd go = go i cmd
  token_parses n (c ∷ cs) r i cmd go = go true (glob_into glob i (c ∷ cs) cmd)

  parses :
      (n : ℕ) (o : Option (List ℕ)) (i : Bool) (cmd : Cmd)
      → size o ≤ n
      → parse_from glob n o i cmd ≡ some (appends glob i cmd (behind o))
  unfolding parse_from appends
  parses zero none i cmd h = refl
  parses (suc n) none i cmd h = refl
  parses zero (some s) i cmd h = absurd (omega (arith, h))
  parses (suc n) (some s) i cmd h =
      let less : size (strsep s).1 ≤ n = omega (arith, h, strsep-size s) in
      token_parses n (strsep s).0 (strsep s).1 i cmd (λ i' cmd'. parses n (strsep s).1 i' cmd' less)
      ∙ ap (λ ws. some (appends glob i cmd ws)) (sym (words_from-strsep [] s))

-- All the names, for a line with words.
unfoldable pub globbed : (List ℕ → List (List ℕ)) → List (List ℕ) → List (List ℕ)
globbed glob [] = []
globbed glob (w ∷ ws) = glob w ++ globbed glob ws

-- A line without words leaves the command of the line before.
unfoldable pub command : (List ℕ → List (List ℕ)) → List (List ℕ) → Cmd → Cmd
command glob [] cmd = cmd
command glob (w ∷ ws) cmd = some (globbed glob (w ∷ ws))

appends-globbed :
    (glob : List ℕ → List (List ℕ)) (names : List (List ℕ)) (ws : List (List ℕ))
    → appends glob true (some names) ws ≡ some (names ++ globbed glob ws)
unfolding appends glob_into globbed
appends-globbed glob names [] = ap some (sym (append-nil names))
appends-globbed glob names (w ∷ ws) =
    appends-globbed glob (names ++ glob w) ws
    ∙ ap some (append_assoc names (glob w) (globbed glob ws))

-- Mysh_ParseStr ends on every line. It makes the command of the names for the words of the line in
-- their order, and on a line without words it leaves the command as it was: the last one is run
-- again, or one that was never set.
pub mysh_parse_str_lem :
    (glob : List ℕ → List (List ℕ)) (line : List ℕ) (cmd : Cmd)
    → mysh_parse_str glob line cmd ≡ some (command glob (words line) cmd)
unfolding mysh_parse_str words command appends glob_into globbed
mysh_parse_str_lem glob line cmd =
    parses glob (suc (length line)) (some line) false cmd (omega arith)
    ∙ ap some (by_words (words_from [] line))
  where
    by_words : (ws : List (List ℕ)) → appends glob false cmd ws ≡ command glob ws cmd
    by_words [] = refl
    by_words (w ∷ ws) = appends-globbed glob (glob w) ws
