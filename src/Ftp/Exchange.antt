-- ===== src/Ftp/Exchange.antt =====
-- IPC/myftp: what a client prints for the file that it asks for, and how the server ends.
use lhq_linux_c.Base.{ℕ, zero, suc, ◌≡◌, refl, sym, ap, ◌∙◌, true, false, some, List, [], ◌∷◌, ◌++◌}
use mathlib.Core.List.{append-nil}
use lhq_linux_c.Ftp.{
  Calls, asks, client_send, add_text, Msg, s_wait, s_read, s_done, Program, goes, running, same,
  end_word, c_string, over, allend, server_fsm, receive, server_loop, rests, server_round,
  client_fsm, client_loop, string_handler, client_ask,
}

-- What the server sends for a message.
unfoldable pub answered : List ℕ → Msg → Msg
answered bytes m = record m { content = over bytes m.content; msgtyp = 1 }

server_ends :
    (calls : Calls) (n : ℕ) (m : Msg) (queue : List Msg)
    → server_loop calls n (record { state = s_done; mst = m; queue = queue })
      ≡ goes (record { state = s_done; mst = m; queue = queue })
unfolding server_loop
server_ends calls zero m queue = refl
server_ends calls (suc n) m queue = refl

client_ends :
    (calls : Calls) (n : ℕ) (m : Msg) (queue : List Msg)
    → client_loop calls n (record { state = s_done; mst = m; queue = queue })
      ≡ (goes (record { state = s_done; mst = m; queue = queue }), [])
unfolding client_loop
client_ends calls zero m queue = refl
client_ends calls (suc n) m queue = refl

serves :
    (calls : Calls) (bytes : List ℕ) (n : ℕ) (s : Program) (m : Msg) (rest : List Msg)
    → s.queue ≡ m ∷ rest
    → same (c_string m.filename) end_word ≡ false
    → calls.files (c_string m.filename) ≡ some bytes
    → calls.takes ≡ true
    → calls.sends ≡ true
    → server_round calls (suc (suc n)) s
      ≡ goes
          (record { state = s_wait; mst = answered bytes m; queue = rest ++ answered bytes m ∷ [] })
unfolding server_round server_loop server_fsm receive rests answered
serves calls bytes n s m rest q e f t d =
    rw (q, receive, t, server_round, e, f, d, server_fsm, server_loop)
      (ap rests (server_ends calls n (answered bytes m) (rest ++ answered bytes m ∷ [])))

receives :
    (calls : Calls) (k : ℕ) (m m' : Msg)
    → calls.takes ≡ true
    → client_loop calls (suc (suc k)) (record { state = s_read; mst = m; queue = m' ∷ [] }) ≡ (
      goes (record { state = s_done; mst = m'; queue = [] }),
      c_string (m'.content ++ m'.filename) ++ [],
    )
unfolding client_loop client_fsm receive
receives calls k m m' t =
    rw (t, receive, client_fsm, client_loop)
      (ap (λ r. add_text [] (add_text (c_string (m'.content ++ m'.filename)) r))
        (client_ends calls k m' []))

-- What the client sends for the field of the name.
unfoldable pub request : List ℕ → Program → Msg
request field client = let m : Msg = client.mst in record m { filename = field; msgtyp = 1 }

-- For a name with a newline or terminator in its field that is not "end", a file that can be read,
-- and calls of msgsnd and msgrcv that succeed: the client puts its request into the empty queue; if
-- the server takes it from there, two rounds of each machine are enough, the queue is empty again,
-- and the client prints, up to a terminator, the bytes of the file followed by what stood behind
-- them in its own buffer from before, and by the name.
pub exchange :
    (calls : Calls) (name field bytes : List ℕ) (n k : ℕ) (client server : Program)
    → client.queue ≡ []
    → string_handler (over name (client.mst).filename) ≡ some field
    → server.queue ≡ request field client ∷ []
    → same (c_string field) end_word ≡ false
    → calls.files (c_string field) ≡ some bytes
    → calls.takes ≡ true
    → calls.sends ≡ true
    → (asked : Program) × (client_ask calls (some name) client ≡ asks asked)
      × (asked.queue ≡ server.queue)
      × ((server' : Program) × (server_round calls (suc (suc n)) server ≡ goes server')
          × ((client' : Program) × (client_loop calls
                  (suc (suc k))
                  (record asked { queue = server'.queue })
                ≡ (goes client', c_string (over bytes (client.mst).content ++ field)))
              × (client'.queue ≡ [])))
unfolding client_ask client_send request answered
exchange calls name field bytes n k client server q w t e f r d =
    let m = request field client in
    let last : Program = record { state = s_done; mst = answered bytes m; queue = [] } in
    (
      record { state = s_read; mst = m; queue = client.queue ++ m ∷ [] },
      rw (w, client_ask, e, d, client_send) refl,
      ap (λ l. l ++ m ∷ []) q ∙ sym t,
      (
        record { state = s_wait; mst = answered bytes m; queue = answered bytes m ∷ [] },
        serves calls bytes n server m [] t e f r d,
        (
          last,
          receives calls k m (answered bytes m) r ∙ ap (λ x. (goes last, x)) (append-nil _),
          refl,
        ),
      ),
    )

-- The server at the name "end", in the middle of its loop.
abbrev pub at_end : Msg → List Msg → Program
at_end m queue = record { state = s_read; mst = record m { flag = allend }; queue = queue }

stays :
    (calls : Calls) (k : ℕ) (m : Msg) (queue : List Msg)
    → same (c_string m.filename) end_word ≡ true
    → server_loop calls (suc k) (record { state = s_read; mst = m; queue = queue })
      ≡ running (at_end m queue)
unfolding server_loop server_fsm
stays calls zero m queue e = rw (e, server_fsm, server_loop) refl
stays calls (suc k) m queue e =
    rw (e, server_fsm, server_loop) (stays calls k (record m { flag = allend }) queue e)

-- When the server receives the name "end", then after any number of rounds of its machine, from one
-- on, it is still in the loop: the flag is ALLEND, the state S_READ, and the queue what was behind
-- the message.
pub end-server_round :
    (calls : Calls) (n : ℕ) (s : Program) (m : Msg) (rest : List Msg)
    → s.queue ≡ m ∷ rest
    → same (c_string m.filename) end_word ≡ true
    → calls.takes ≡ true
    → server_round calls (suc n) s ≡ running (at_end m rest)
unfolding server_round receive rests
end-server_round calls n s m rest q e t =
    rw (q, receive, t, server_round) (ap rests (stays calls n m rest e))
