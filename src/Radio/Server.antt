-- ===== src/Radio/Server.antt =====
-- socket/stream_media/server/server.c, and the creation and destruction of the list thread in
-- thr_list.c: options, daemon mode, start and shutdown. Strings are numbers, and the answers of the
-- system a record.
pub mod Modes
pub mod Shutdown
mod Tests
use lhq_linux_c.Base.{
  ℕ, zero, suc, ◌+◌, ◌-◌, ◌*◌, ◌/◌, ◌%◌, ◌^◌, ◌≤◌, ◌<◌, ◌≡◌, refl, sym, ap, ap₂, ◌∙◌, subst,
  fun_ext, ◌≢◌, ◌⊎◌, inl, inr, ◌↔◌, Bool, true, false, ◌&&◌, ◌||◌, not, Option, none, some, List,
  [], ◌∷◌, ◌++◌, map, arith, ltb, leb, ◌==◌, if◌then◌else◌, ltb→lt, lt→ltb, ==_iff, tests,
  Bool-cases, Option-cases, update, length, get_elem?, set, take, drop, replicate, length-append,
  length-set, length-replicate, length-take, length-drop, get_elem?-set_self, get_elem?-set_ne,
  lt_of_get_elem?, take-append, drop-append, take-append-drop, get_elem?-of_lt, ℤ, pos, negsuc,
  pos_part, neg_part, sub_ℕ, ◌≤ℤ◌, ◌<ℤ◌, ltb_ℤ, eqb_ℤ, leb_ℤ, wrap_int, ◌+ℤ◌, ◌-ℤ◌, IsInt, +ℤ_parts,
  -ℤ_parts, +ℤ-IsInt, -ℤ-IsInt, eq_of_parts, +ℤ-pos, -ℤ-pos, int_laws, first_free, Full,
  first_free_cases,
}
use lhq_linux_c.Radio.Senders.{
  start, Thread, absent, running, joined, Senders, Created, made, refused, thr_channel_create, stop,
  thr_channel_destroyall,
}

abbrev pub run_daemon : ℕ
run_daemon = 1

abbrev pub run_foreground : ℕ
run_foreground = 2

-- `struct server_conf_st`.
pub record ServerConf : Type 0 where
  pub rcvport : ℕ
  pub mgroup : ℕ
  pub media_dir : ℕ
  pub runmode : ℕ
  pub ifname : ℕ

-- What getopt returns, with its argument.
pub data Opt : Type 0 where
  opt_m : ℕ → Opt
  opt_p : ℕ → Opt
  opt_f : Opt
  opt_d : ℕ → Opt
  opt_h : Opt
  opt_i : ℕ → Opt
  opt_other : Opt

-- The loop over the options; `none` is exit(EXIT_SUCCESS) behind the help.
unfoldable pub parse : List Opt → ServerConf → Option ServerConf
parse [] conf = some conf
parse (opt_m s ∷ opts) conf = parse opts (record conf { mgroup = s })
parse (opt_p s ∷ opts) conf = parse opts (record conf { rcvport = s })
parse (opt_f ∷ opts) conf = parse opts (record conf { runmode = run_foreground })
parse (opt_d s ∷ opts) conf = parse opts (record conf { media_dir = s })
parse (opt_h ∷ opts) conf = none
parse (opt_i s ∷ opts) conf = parse opts (record conf { ifname = s })
parse (opt_other ∷ opts) conf = parse opts conf

-- What fork answers.
pub data Fork : Type 0 where
  error : Fork
  parent : Fork
  child : Fork

-- A function that returns or ends the process.
pub data Ret : Type 0 where
  returns : ℤ → Ret
  exit : ℤ → Ret

-- `Server_Daemonize`; `opened` is whether /dev/null can be opened.
unfoldable pub server_daemonize : Fork → Bool → Ret
server_daemonize error opened = returns (negsuc 0)
server_daemonize parent opened = exit (pos 0)
server_daemonize child true = returns (pos 0)
server_daemonize child false = exit (negsuc 1)

-- `server_conf` with `tid_list`, the senders, and whether `list` points to allocated memory.
pub record Server : Type 0 where
  pub conf : ServerConf
  pub tid_list : Option ℕ
  pub senders : Senders
  pub list_live : Bool

-- Its log line reads the first entry of the list: `none` where there is no memory of an entry.
unfoldable pub thr_list_create : Created → ℕ → Server → Option (ℤ × Server)
thr_list_create a zero s = none
thr_list_create (refused e) (suc n) s = if s.list_live then some (negsuc 0, s) else none
thr_list_create (made p) (suc n) s =
    let m : Senders = s.senders in
    if s.list_live
    then some (
      pos 0,
      record s { tid_list = some p; senders = record m { threads = update m.threads p running } },
    )
    else none

-- To cancel and join a thread that was never created is a fault.
unfoldable pub thr_list_destroy : Server → Option Server
thr_list_destroy s =
    let m : Senders = s.senders in
    elim s.tid_list [
      | none ↦ none
      | some p ↦ elim (stop p m.threads) [
        | none ↦ none
        | some th ↦ some (record s { senders = record m { threads = th } })
      ]
    ]

-- `free`, once.
unfoldable pub mlib_freechnlist : Server → Option Server
mlib_freechnlist s = if s.list_live then some (record s { list_live = false }) else none

-- The handler of SIGINT, SIGTERM and SIGQUIT, up to exit(EXIT_SUCCESS).
unfoldable pub server_daemon_exit : Server → Option Server
server_daemon_exit s = elim (thr_list_destroy s) [
  | none ↦ none
  | some s1 ↦ elim (thr_channel_destroyall s1.senders) [
    | none ↦ none
    | some (r, m) ↦ mlib_freechnlist (record s1 { senders = m })
  ]
]

-- How the start of the program ends: in `pause`, or with an exit code, or in a fault.
pub data Started : Type 0 where
  pauses : Server → Started
  exits : ℤ → Started
  faults : Started

-- The loop that creates the channel threads.
unfoldable pub create_channels : List (Created × ℕ) → Server → Started
create_channels [] s = pauses s
create_channels ((a, chnid) ∷ list) s = elim (thr_channel_create a chnid s.senders) [
  | none ↦ faults
  | some (pos zero, m) ↦ create_channels list (record s { senders = m })
  | some (pos (suc k), m) ↦ exits (pos 1)
  | some (negsuc k, m) ↦ exits (pos 1)
]

-- What the system answers: to fork and open, to socket and setsockopt, to the creation of the
-- list thread, and to that of a thread for each channel; and, where `mlisb_getchnlist` returns, whether
-- it returns 0.
pub record Env : Type 0 where
  pub fork : Fork
  pub opened : Bool
  pub socket : Bool
  pub multicast : Bool
  pub listed : Bool
  pub list_thread : Created
  pub channels : List (Created × ℕ)

abbrev pub list_created : Env → Option (ℤ × Server) → Started
list_created env none = faults
list_created env (some (r, s)) = create_channels env.channels s

-- From `Server_SocketInit` on; the result of thr_list_create is not used. The list is memory if
-- there is an entry: where `mlisb_getchnlist` fails or finds none, `list` is NULL.
unfoldable pub serve : Env → Server → Started
serve env s =
    let found = env.listed && ltb 0 (length env.channels) in
    if env.socket && env.multicast
    then list_created env
        (thr_list_create env.list_thread (length env.channels) (record s { list_live = found }))
    else exits (pos 1)

-- A failed Server_Daemonize is only reported.
unfoldable pub daemonized : Ret → Env → Server → Started
daemonized (returns r) env s = serve env s
daemonized (exit n) env s = exits n

unfoldable pub with_conf : Env → Server → Started
with_conf env s =
    let conf : ServerConf = s.conf in
    if conf.runmode == run_daemon
    then daemonized (server_daemonize env.fork env.opened) env s
    else (if conf.runmode == run_foreground then serve env s else exits (pos 1))

-- The program as it starts, for the default strings.
unfoldable pub initial : ℕ → ℕ → ℕ → ℕ → Server
initial rcvport mgroup media_dir ifname = record {
  conf = record {
    rcvport = rcvport;
    mgroup = mgroup;
    media_dir = media_dir;
    runmode = run_foreground;
    ifname = ifname;
  };
  tid_list = none;
  senders = start;
  list_live = false;
}

unfoldable pub main : Env → List Opt → Server → Started
main env opts s = elim (parse opts s.conf) [
  | none ↦ exits (pos 0)
  | some conf ↦ with_conf env (record s { conf = conf })
]
