-- ===== src/Radio/Server/Modes.antt =====
-- socket/stream_media/server/server.c: the run mode that the options can choose.
use lhq_linux_c.Base.{ℕ, ◌≡◌, refl, ◌≢◌, ◌⊎◌, inl, inr, none, some, List, [], ◌∷◌, arith, pos}
use lhq_linux_c.Radio.Server.{
  ServerConf, Opt, opt_m, opt_p, opt_f, opt_d, opt_h, opt_i, opt_other, parse, run_daemon,
  run_foreground, initial, Env, with_conf, main, serve, exits,
}

foreground :
    (opts : List Opt) (conf : ServerConf)
    → conf.runmode ≡ run_foreground
    → (parse opts conf ≡ none)
      ⊎ ((conf' : ServerConf) × (parse opts conf ≡ some conf') × (conf'.runmode ≡ run_foreground))
unfolding parse
foreground [] conf e = inr (conf, refl, e)
foreground (opt_m s ∷ opts) conf e = foreground opts (record conf { mgroup = s }) e
foreground (opt_p s ∷ opts) conf e = foreground opts (record conf { rcvport = s }) e
foreground (opt_f ∷ opts) conf e = foreground opts (record conf { runmode = run_foreground }) refl
foreground (opt_d s ∷ opts) conf e = foreground opts (record conf { media_dir = s }) e
foreground (opt_h ∷ opts) conf e = inl refl
foreground (opt_i s ∷ opts) conf e = foreground opts (record conf { ifname = s }) e
foreground (opt_other ∷ opts) conf e = foreground opts conf e

-- No options make the server a daemon: it shows the help and exits with 0, or it goes on in the
-- foreground with the configuration of the options, and never calls Server_Daemonize.
pub main-serve :
    (env : Env) (opts : List Opt) (rcvport mgroup media_dir ifname : ℕ)
    → let s = initial rcvport mgroup media_dir ifname in
      ((parse opts s.conf ≡ none) × (main env opts s ≡ exits (pos 0)))
      ⊎ ((conf : ServerConf) × (parse opts s.conf ≡ some conf)
          × (conf.runmode ≢ run_daemon)
          × (main env opts s ≡ serve env (record s { conf = conf })))
unfolding initial main with_conf
main-serve env opts rcvport mgroup media_dir ifname =
    let s = initial rcvport mgroup media_dir ifname in
    elim (foreground opts s.conf refl) [
      | inl n ↦ inl (n, rw (n, main) refl)
      | inr (conf, p, e) ↦
          inr (conf, p, (λ d. absurd (omega (arith, d, e))), rw (p, main, e, with_conf) refl)
    ]
