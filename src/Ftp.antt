-- ===== src/Ftp.antt =====
-- IPC/myftp: a client asks for a file, and a server sends its first bytes, over one queue of
-- messages. server.c and client.c with their machines; the queue is part of the state, and what the
-- other calls answer is an argument.
pub mod Exchange
mod Tests
use lhq_linux_c.Base.{
  ℕ, zero, suc, ◌+◌, ◌-◌, ◌*◌, ◌/◌, ◌%◌, ◌^◌, ◌≤◌, ◌<◌, ◌≡◌, refl, sym, ap, ap₂, ◌∙◌, subst,
  fun_ext, ◌≢◌, ◌⊎◌, inl, inr, ◌↔◌, Bool, true, false, ◌&&◌, ◌||◌, not, Option, none, some, List,
  [], ◌∷◌, ◌++◌, map, arith, ltb, leb, ◌==◌, if◌then◌else◌, ltb→lt, lt→ltb, ==_iff, tests,
  Bool-cases, Option-cases, update, length, get_elem?, set, take, drop, replicate, length-append,
  length-set, length-replicate, length-take, length-drop, get_elem?-set_self, get_elem?-set_ne,
  lt_of_get_elem?, take-append, drop-append, take-append-drop, get_elem?-of_lt, ℤ, pos, negsuc,
  pos_part, neg_part, sub_ℕ, ◌≤ℤ◌, ◌<ℤ◌, ltb_ℤ, eqb_ℤ, leb_ℤ, wrap_int, ◌+ℤ◌, ◌-ℤ◌, IsInt, +ℤ_parts,
  -ℤ_parts, +ℤ-IsInt, -ℤ-IsInt, eq_of_parts, +ℤ-pos, -ℤ-pos, int_laws, first_free, Full,
  first_free_cases,
}

abbrev pub maxsize : ℕ
maxsize = 128

abbrev pub allend : ℕ
allend = 0

-- `struct msg_st`, with its field `data` as `content`.
pub record Msg : Type 0 where
  pub msgtyp : ℕ
  pub content : List ℕ
  pub filename : List ℕ
  pub flag : ℕ

-- The states of both machines.
pub data Place : Type 0 where
  s_wait : Place
  s_read : Place
  s_write : Place
  s_done : Place

-- `mst` and the machine of a program, with the queue that both use.
pub record Program : Type 0 where
  pub state : Place
  pub mst : Msg
  pub queue : List Msg

-- How a step ends: `exits` is exit(EXIT_FAILURE), `blocked` a msgrcv on an empty queue, and
-- `running` a run out of rounds.
pub data Outcome : Type 0 where
  goes : Program → Outcome
  exits : Outcome
  blocked : Outcome
  running : Program → Outcome

-- Whether the calls of a program succeed: open and read of a file by its name, which give the bytes
-- that were read, msgsnd, and msgrcv on a queue that is not empty.
pub record Calls : Type 0 where
  pub files : List ℕ → Option (List ℕ)
  pub sends : Bool
  pub takes : Bool

abbrev pub same : List ℕ → List ℕ → Bool
same [] [] = true
same [] (y ∷ ys) = false
same (x ∷ xs) [] = false
same (x ∷ xs) (y ∷ ys) = (x == y) && same xs ys

-- "end", up to its terminator.
abbrev pub end_word : List ℕ
end_word = 101 ∷ 110 ∷ 100 ∷ []

-- What strcmp and printf see of a buffer.
unfoldable pub c_string : List ℕ → List ℕ
c_string [] = []
c_string (x ∷ xs) = let rest = c_string xs in if x == 0 then [] else x ∷ rest

-- `read(fd, mst.data, MAXSIZE)`: the bytes stand over the front of the buffer.
unfoldable pub over : List ℕ → List ℕ → List ℕ
over bytes buf = bytes ++ drop (length bytes) buf

-- `fsm` of server.c.
unfoldable pub server_fsm : Calls → Program → Outcome
server_fsm calls s =
    let m : Msg = s.mst in
    elim s.state [
      | s_read ↦
          if same (c_string m.filename) end_word
          then goes (record s { mst = record m { flag = allend } })
          else (elim (calls.files (c_string m.filename)) [
            | none ↦ exits
            | some bytes ↦
                goes
                  (record s { mst = record m { content = over bytes m.content }; state = s_write })
          ])
      | s_write ↦
          let sent : Msg = record m { msgtyp = 1 } in
          if calls.sends
          then goes (record s { mst = sent; queue = s.queue ++ sent ∷ []; state = s_done })
          else exits
      | s_wait ↦ goes s
      | s_done ↦ goes s
    ]

abbrev pub is_done : Place → Bool
is_done s_wait = false
is_done s_read = false
is_done s_write = false
is_done s_done = true

-- msgrcv, of the first message of the queue, and what follows it.
unfoldable pub receive : Calls → Place → Program → Outcome
receive calls next s = elim s.queue [
  | [] ↦ blocked
  | m ∷ rest ↦
      if calls.takes then goes (record s { mst = m; queue = rest; state = next }) else exits
]

-- `while (fsm_s.state != S_DONE) fsm();` for the rounds that are left.
unfoldable pub server_loop : Calls → ℕ → Program → Outcome
server_loop calls zero s = if is_done s.state then goes s else running s
server_loop calls (suc n) s = if is_done s.state then goes s else (elim (server_fsm calls s) [
  | goes s' ↦ server_loop calls n s'
  | exits ↦ exits
  | blocked ↦ blocked
  | running s' ↦ running s'
])

-- Behind the loop, `fsm_s.state = S_WAIT`.
unfoldable pub rests : Outcome → Outcome
rests (goes s) = goes (record s { state = s_wait })
rests exits = exits
rests blocked = blocked
rests (running s) = running s

-- A round of the loop of main of server.c.
unfoldable pub server_round : Calls → ℕ → Program → Outcome
server_round calls n s = elim (receive calls s_read s) [
  | goes s' ↦ rests (server_loop calls n s')
  | exits ↦ exits
  | blocked ↦ blocked
  | running s' ↦ running s'
]

-- `fsm` of client.c, with what it prints; the text of `%s` runs on into the field behind `data`.
unfoldable pub client_fsm : Calls → Program → Outcome × List ℕ
client_fsm calls s =
    let m : Msg = s.mst in
    elim s.state [
      | s_read ↦ (receive calls s_write s, [])
      | s_write ↦ (goes (record s { state = s_done }), c_string (m.content ++ m.filename))
      | s_wait ↦ (goes s, [])
      | s_done ↦ (goes s, [])
    ]

abbrev pub add_text : List ℕ → Outcome × List ℕ → Outcome × List ℕ
add_text text (o, more) = (o, text ++ more)

unfoldable pub client_loop : Calls → ℕ → Program → Outcome × List ℕ
client_loop calls zero s = (if is_done s.state then goes s else running s, [])
client_loop calls (suc n) s =
    if is_done s.state
    then (goes s, [])
    else (let (o, text) = client_fsm calls s in
        elim o [
          | goes s' ↦ add_text text (client_loop calls n s')
          | exits ↦ (exits, text)
          | blocked ↦ (blocked, text)
          | running s' ↦ (running s', text)
        ])

abbrev pub put_front : ℕ → Option (List ℕ) → Option (List ℕ)
put_front x none = none
put_front x (some xs) = some (x ∷ xs)

-- `string_Handler`: the first newline becomes the terminator, unless one comes before. `none` is a
-- field with neither, where `strcspn` runs past its end.
unfoldable pub string_handler : List ℕ → Option (List ℕ)
string_handler [] = none
string_handler (x ∷ xs) =
    let rest = string_handler xs in
    if x == 0 then some (x ∷ xs) else (if x == 10 then some (0 ∷ xs) else put_front x rest)

-- How the first part of a round of client.c ends.
pub data Asked : Type 0 where
  asks : Program → Asked
  stops : Asked
  fails : Asked
  overruns : Asked

-- The request is sent, unless it is "end".
unfoldable pub client_send : Calls → List ℕ → Program → Asked
client_send calls field s =
    let m : Msg = s.mst in
    let sent : Msg = record m { filename = field; msgtyp = 1 } in
    if same (c_string field) end_word
    then stops
    else (if calls.sends
        then asks (record s { mst = sent; queue = s.queue ++ sent ∷ []; state = s_read })
        else fails)

-- The part of a round of client.c up to `fsm_c.state = S_READ`, for what `read` gives, at most
-- NAMESIZE bytes: `none` is an error, and `stops` the end of the loop at the name "end".
unfoldable pub client_ask : Calls → Option (List ℕ) → Program → Asked
client_ask calls none s = fails
client_ask calls (some name) s =
    let m : Msg = s.mst in
    elim (string_handler (over name m.filename)) [
      | none ↦ overruns
      | some field ↦ client_send calls field s
    ]
