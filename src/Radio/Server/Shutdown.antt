-- ===== src/Radio/Server/Shutdown.antt =====
-- socket/stream_media/server/server.c: from the start of the threads to the exit by a signal.
use Prim.{Unit}
use lhq_linux_c.Base.{
  ℕ, zero, suc, ltb, pos, ◌+◌, ◌≤◌, ◌<◌, ◌≡◌, refl, ap, ◌∙◌, ◌≢◌, true, false, Option, none, some,
  List, [], ◌∷◌, arith, update, length,
}
use lhq_linux_c.Radio.{chnnum}
use lhq_linux_c.Radio.Senders.{
  start, Thread, absent, running, joined, Senders, Created, made, refused, stop,
}
use lhq_linux_c.Radio.Senders.Manned.{IsValid}
use lhq_linux_c.Radio.Senders.Joined.{
  create-IsValid, thr_channel_destroyall_lem, joined-IsValid, lister-IsValid,
}
use lhq_linux_c.Radio.Server.{
  Server, Env, pauses, serve, create_channels, list_created, thr_list_create, thr_list_destroy,
  mlib_freechnlist, server_daemon_exit,
}

-- pthread_create makes a thread for every channel that is not a running one, and the channels are
-- not 0.
unfoldable pub AllMade : List (Created × ℕ) → (ℕ → Thread) → Type 0
AllMade [] th = Unit {0}
AllMade ((made p, c) ∷ list) th = (th p ≡ absent) × (0 < c) × AllMade list (update th p running)
AllMade ((refused e, c) ∷ list) th = ⊥

record IsServing (p : ℕ) (s : Server) : Type 0 where
  lister : s.tid_list ≡ some p
  valid : IsValid (some p) s.senders
  live : s.list_live ≡ true

creates :
    (p : ℕ) (list : List (Created × ℕ)) (s : Server)
    → IsServing p s
    → AllMade list (s.senders).threads
    → length list + (s.senders).tid_pos ≤ chnnum
    → (s' : Server) × (create_channels list s ≡ pauses s') × IsServing p s'
unfolding create_channels AllMade
creates p [] s v a l = (s, refl, v)
creates p ((made q, c) ∷ list) s v (n, h, a) l =
    let (m', e, w, t, u) = create-IsValid (some p) s.senders q c v.valid n h (omega (arith, l)) in
    let (s', f, x) =
      creates p list (record s { senders = m' })
        (record { lister = v.lister; valid = w; live = v.live }) (rw u a) (omega (arith, l, t)) in
    (s', rw (e, create_channels) f, x)
creates p ((refused q, c) ∷ list) s v a l = elim a [ ]

stopped :
    (p : ℕ) (s : Server)
    → IsServing p s
    → (s' : Server) × (thr_list_destroy s ≡ some s')
      × IsValid none s'.senders
      × (s'.list_live ≡ true)
unfolding thr_list_destroy stop
stopped p s v =
    let m : Senders = s.senders in
    let (r, n) = v.valid.apart p refl in
    let after = λ (o : Option (ℕ → Thread)). elim o as (λ x. Option Server) [
      | none ↦ none
      | some th ↦ some (record s { senders = record m { threads = th } })
    ] in
    let halted : stop p m.threads ≡ some (update m.threads p joined) = rw (r, stop) refl in
    (
      record s { senders = record m { threads = update m.threads p joined } },
      ap
            (λ (o : Option ℕ). elim o as (λ x. Option Server) [
              | none ↦ none
              | some q ↦ after (stop q m.threads)
            ])
            v.lister
          ∙ ap after halted,
      joined-IsValid m p v.valid,
      v.live,
    )

list_made :
    (p n : ℕ) (s : Server)
    → 0 < n
    → s.list_live ≡ true
    → thr_list_create (made p) n s
      ≡ some (
        pos 0,
        record s {
          tid_list = some p;
          senders = record s.senders { threads = update (s.senders).threads p running };
        },
      )
unfolding thr_list_create
list_made p zero s h l = absurd (omega (arith, h))
list_made p (suc n) s h l = rw (l, thr_list_create) refl

-- A server that finds at least one and at most 100 channels, and whose thread for the list and
-- threads for the channels could all be created, waits for a signal; the handler then joins each of
-- these threads once and frees the list once, and none of them runs any more.
pub serve-server_daemon_exit :
    (env : Env) (s : Server) (p : ℕ)
    → env.socket ≡ true
    → env.multicast ≡ true
    → env.listed ≡ true
    → env.list_thread ≡ made p
    → s.senders ≡ start
    → AllMade env.channels (update (λ q. absent) p running)
    → 0 < length env.channels
    → length env.channels ≤ chnnum
    → (s' : Server) × (serve env s ≡ pauses s')
      × ((s'' : Server) × (server_daemon_exit s' ≡ some s'')
          × (s''.list_live ≡ false)
          × ((q : ℕ) → (s''.senders).threads q ≢ running))
unfolding serve thr_list_create server_daemon_exit mlib_freechnlist start
serve-server_daemon_exit env s p so mu fo li st a some_channel l =
    let entry : ltb 0 (length env.channels) ≡ true = ground (arith, some_channel) in
    let created =
      list_made p (length env.channels) (record s { list_live = true }) some_channel refl in
    let m : Senders = record start { threads = update start.threads p running } in
    let first : Server = record s { list_live = true; tid_list = some p; senders = m } in
    let (s', e, v) =
      creates p env.channels first (record { lister = refl; valid = lister-IsValid p; live = refl })
        a (omega (arith, l)) in
    let (s1, f, w, live) = stopped p s' v in
    let (m2, g, none_runs) = thr_channel_destroyall_lem s1.senders w in
    let last : Server = record s1 { senders = m2; list_live = false } in
    (
      s',
      rw (so, mu, fo, entry, li, serve) (ap (list_created env) created ∙ rw (st, list_created) e),
      (last, rw (f, g, live, server_daemon_exit, mlib_freechnlist) refl, refl, none_runs),
    )
