-- ===== src/Shell.antt =====
-- process/mysh.c: how the shell takes a line apart. glob is an argument: for a word, the names that
-- it appends.
pub mod Words
mod Tests
use lhq_linux_c.Base.{
  ℕ, zero, suc, ◌+◌, ◌-◌, ◌*◌, ◌/◌, ◌%◌, ◌^◌, ◌≤◌, ◌<◌, ◌≡◌, refl, sym, ap, ap₂, ◌∙◌, subst,
  fun_ext, ◌≢◌, ◌⊎◌, inl, inr, ◌↔◌, Bool, true, false, ◌&&◌, ◌||◌, not, Option, none, some, List,
  [], ◌∷◌, ◌++◌, map, arith, ltb, leb, ◌==◌, if◌then◌else◌, ltb→lt, lt→ltb, ==_iff, tests,
  Bool-cases, Option-cases, update, length, get_elem?, set, take, drop, replicate, length-append,
  length-set, length-replicate, length-take, length-drop, get_elem?-set_self, get_elem?-set_ne,
  lt_of_get_elem?, take-append, drop-append, take-append-drop, get_elem?-of_lt, ℤ, pos, negsuc,
  pos_part, neg_part, sub_ℕ, ◌≤ℤ◌, ◌<ℤ◌, ltb_ℤ, eqb_ℤ, leb_ℤ, wrap_int, ◌+ℤ◌, ◌-ℤ◌, IsInt, +ℤ_parts,
  -ℤ_parts, +ℤ-IsInt, -ℤ-IsInt, eq_of_parts, +ℤ-pos, -ℤ-pos, int_laws, first_free, Full,
  first_free_cases,
}

-- DELIM: space, tab and newline.
abbrev pub delim : ℕ → Bool
delim c = (c == 32) || (c == 9) || (c == 10)

-- strsep: the token in front of the first delimiter, and the string behind it, NULL where there is
-- none.
unfoldable pub strsep : List ℕ → List ℕ × Option (List ℕ)
strsep [] = ([], none)
strsep (x ∷ xs) = let (t, r) = strsep xs in if delim x then ([], some xs) else (x ∷ t, r)

-- `cmd->globres`: `none` until glob fills it.
abbrev pub Cmd : Type 0
Cmd = Option (List (List ℕ))

-- glob with GLOB_APPEND, or without it, which starts anew.
unfoldable pub glob_into : (List ℕ → List (List ℕ)) → Bool → List ℕ → Cmd → Cmd
glob_into glob false token cmd = some (glob token)
glob_into glob true token none = some (glob token)
glob_into glob true token (some names) = some (names ++ glob token)

-- The loop of `Mysh_ParseStr`, for the rounds that are left; `none` is a run out of rounds.
unfoldable pub parse_from : (List ℕ → List (List ℕ)) → ℕ → Option (List ℕ) → Bool → Cmd → Option Cmd
parse_from glob n none i cmd = some cmd
parse_from glob zero (some str) i cmd = none
parse_from glob (suc n) (some str) i cmd =
    let (token, rest) = strsep str in
    elim token [
      | [] ↦ parse_from glob n rest i cmd
      | c ∷ cs ↦ parse_from glob n rest true (glob_into glob i (c ∷ cs) cmd)
    ]

-- A line of `k` characters has at most `k + 1` tokens.
unfoldable pub mysh_parse_str : (List ℕ → List (List ℕ)) → List ℕ → Cmd → Option Cmd
mysh_parse_str glob str cmd = parse_from glob (suc (length str)) (some str) false cmd
