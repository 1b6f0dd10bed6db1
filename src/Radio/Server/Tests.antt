-- ===== src/Radio/Server/Tests.antt =====
-- Runs of the radio server's start and shutdown, and of its table of senders.
use Prim.{tt}
use lhq_linux_c.Base.{ℕ, ◌≡◌, refl, ◌≢◌, ◌⊎◌, true, false, none, some, [], ◌∷◌, arith, update, pos}
use lhq_linux_c.Radio.Senders.{
  start, absent, running, joined, Senders, made, refused, thr_channel_create, destroy_first, stop,
  thr_channel_destroy, thr_channel_destroyall,
}
use lhq_linux_c.Radio.Senders.Twice.{destroy-destroyall}
use lhq_linux_c.Radio.Server.{
  opt_p, opt_f, parse, run_daemon, Fork, Server, initial, Env, pauses, exits, faults, serve, main,
  ServerConf, server_daemon_exit, create_channels, thr_list_create, thr_list_destroy,
}
use lhq_linux_c.Radio.Server.Modes.{main-serve}
use lhq_linux_c.Radio.Server.Shutdown.{AllMade, serve-server_daemon_exit}

-- Two channels.
abbrev env : Env
env = record {
  fork = Fork.child;
  opened = true;
  socket = true;
  multicast = true;
  listed = true;
  list_thread = made 10;
  channels = (made 11, 1) ∷ (made 12, 2) ∷ [];
}

abbrev server : Server
server = initial 1997 1 2 3

env-AllMade : AllMade env.channels (update (λ q. absent) 10 running)
unfolding AllMade
env-AllMade = (refl, ground arith, (refl, ground arith, tt))

serve-server_daemon_exit_example :
    (s' : Server) × (serve env server ≡ pauses s')
    × ((s'' : Server) × (server_daemon_exit s' ≡ some s'')
        × (s''.list_live ≡ false)
        × ((q : ℕ) → (s''.senders).threads q ≢ running))
unfolding initial
serve-server_daemon_exit_example =
    serve-server_daemon_exit env server 10 refl refl refl refl refl env-AllMade (ground arith)
      (ground arith)

main-serve_example :
    ((parse (opt_p 5 ∷ opt_f ∷ []) server.conf ≡ none)
      × (main env (opt_p 5 ∷ opt_f ∷ []) server ≡ exits (pos 0)))
    ⊎ ((conf : ServerConf) × (parse (opt_p 5 ∷ opt_f ∷ []) server.conf ≡ some conf)
        × (conf.runmode ≢ run_daemon)
        × (main env (opt_p 5 ∷ opt_f ∷ []) server ≡ serve env (record server { conf = conf })))
main-serve_example = main-serve env (opt_p 5 ∷ opt_f ∷ []) 1997 1 2 3

-- Two senders, the first of which is destroyed.
abbrev two : Senders
two = record {
  thr_channel = record { chnid = 1; pid = 11 } ∷ record { chnid = 2; pid = 12 } ∷ [];
  tid_pos = 2;
  threads = update (update (λ q. absent) 11 running) 12 running;
}

abbrev one_left : Senders
one_left = record two {
  thr_channel = record { chnid = 255; pid = 11 } ∷ record { chnid = 2; pid = 12 } ∷ [];
  threads = update two.threads 11 joined;
}

destroys_first : thr_channel_destroy 1 two ≡ some (pos 0, one_left)
unfolding thr_channel_destroy destroy_first stop
destroys_first = refl

destroy-destroyall_example : thr_channel_destroyall one_left ≡ none
destroy-destroyall_example =
    destroy-destroyall 1 0 (record { chnid = 1; pid = 11 }) (pos 0) two one_left refl refl
      destroys_first

-- Without a list thread the handler joins a thread that does not exist.
no_list_thread :
    (elim (serve (record env { list_thread = refused 11 }) server) [
      | pauses s ↦ server_daemon_exit s
      | exits n ↦ some server
      | faults ↦ some server
    ])
    ≡ none
unfolding serve create_channels thr_channel_create thr_list_create server_daemon_exit
    thr_list_destroy initial start
no_list_thread = refl

-- Without a channel the log line of thr_list_create reads through a null pointer, and so it does
-- where the media directory cannot be listed.
no_channels : serve (record env { channels = [] }) server ≡ faults
unfolding serve thr_list_create initial
no_channels = refl

not_listed : serve (record env { listed = false }) server ≡ faults
unfolding serve thr_list_create initial
not_listed = refl
