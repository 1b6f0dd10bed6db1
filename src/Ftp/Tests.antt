-- ===== src/Ftp/Tests.antt =====
-- An exchange of IPC/myftp with short buffers.
use lhq_linux_c.Base.{
  true, false, ℕ, ◌≡◌, refl, Option, none, some, List, [], ◌∷◌, ◌++◌, ◌==◌, if◌then◌else◌,
}
use lhq_linux_c.Ftp.{
  Calls, asks, overruns, fails, client_send, Msg, s_wait, Program, goes, running, client_ask,
  client_loop, c_string, over, server_round, string_handler,
}
use lhq_linux_c.Ftp.Exchange.{at_end, request, exchange, end-server_round}

-- The file `a` has the bytes 5 and 6.
abbrev files : List ℕ → Option (List ℕ)
files [] = none
files (x ∷ xs) = if x == 97 then some (5 ∷ 6 ∷ []) else none

abbrev calls : Calls
calls = record { files = files; sends = true; takes = true }

-- A client whose buffer still holds four bytes of the last file.
abbrev client : Program
client = record {
  state = s_wait;
  mst = record {
    msgtyp = 1;
    content = 1 ∷ 2 ∷ 3 ∷ 4 ∷ 0 ∷ [];
    filename = 0 ∷ 0 ∷ 0 ∷ [];
    flag = 1;
  };
  queue = [];
}

abbrev server : Program
server = record {
  state = s_wait;
  mst = client.mst;
  queue =
      record { msgtyp = 1; content = 1 ∷ 2 ∷ 3 ∷ 4 ∷ 0 ∷ []; filename = 97 ∷ 0 ∷ 0 ∷ []; flag = 1 }
      ∷ [];
}

exchange_example :
    (asked : Program) × (client_ask calls (some (97 ∷ 10 ∷ [])) client ≡ asks asked)
    × (asked.queue ≡ server.queue)
    × ((server' : Program) × (server_round calls 2 server ≡ goes server')
        × ((client' : Program) × (client_loop calls 2 (record asked { queue = server'.queue }) ≡ (
          goes client',
          c_string (over (5 ∷ 6 ∷ []) (client.mst).content ++ (97 ∷ 0 ∷ 0 ∷ [])),
        ))
            × (client'.queue ≡ [])))
unfolding request c_string string_handler over
exchange_example =
    exchange calls (97 ∷ 10 ∷ []) (97 ∷ 0 ∷ 0 ∷ []) (5 ∷ 6 ∷ []) 0 0 client server refl refl refl
      refl refl refl refl

-- It prints the two bytes of the file and two of the file before.
prints_old_bytes :
    c_string (over (5 ∷ 6 ∷ []) (client.mst).content ++ (97 ∷ 0 ∷ 0 ∷ [])) ≡ 5 ∷ 6 ∷ 3 ∷ 4 ∷ []
unfolding c_string over
prints_old_bytes = refl

-- A name that fills its field, without a newline.
fills_the_field : client_ask calls (some (97 ∷ 98 ∷ 99 ∷ [])) client ≡ overruns
unfolding client_ask string_handler over
fills_the_field = refl

cannot_send : client_ask (record calls { sends = false }) (some (97 ∷ 10 ∷ [])) client ≡ fails
unfolding client_ask client_send c_string string_handler over
cannot_send = refl

abbrev end_message : Msg
end_message = record { msgtyp = 1; content = 0 ∷ []; filename = 101 ∷ 110 ∷ 100 ∷ 0 ∷ []; flag = 1 }

end-server_round_example :
    server_round calls 1000 (record server { queue = end_message ∷ [] })
    ≡ running (at_end end_message [])
unfolding c_string
end-server_round_example =
    end-server_round calls 999 (record server { queue = end_message ∷ [] }) end_message [] refl refl
      refl
