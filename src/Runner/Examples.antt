-- ===== src/Runner/Examples.antt =====
-- The theorems on the threads, with a page that two workers use.
pub mod Binding
pub mod Routes
use unisockets.Prelude.{
  true, ◌≤◌, ◌≡◌, refl, [], ◌∷◌, All, none, some, Text, codes, text_key, nat_key,
}
use unisockets.Map.{get, has, keys, contains, Distinct}
use unisockets.Signaling.Errors.{ok}
use unisockets.Run.{pure}
use unisockets.Sockets.Calls.{Sockets, with_binds, set_all, send}
use unisockets.Runner.Main.{
  holder, itself, on_fetch_binds, Main, Transporting, socket_descriptor, steps, post,
  handle_bind_update, handle_fetch_binds, get_thread,
}
use unisockets.Runner.Main.Descriptors.{descriptors, steps-Distinct}
use unisockets.Runner.Worker.{
  Worker, Outside, externals, fetch_binds, post_message, with_world, set_aliases,
  handle_external_send,
}
use unisockets.Signaling.Operation.{Operation, GreetingData, OfferData, AnswerData}
use unisockets.Signaling.Client.{Client}
use unisockets.Signaling.Server.Action.{Server, start, push}
use unisockets.Signaling.Server.Handlers.{handle_offer, handle_answer}
use unisockets.Runner.Main.{on_offer, on_answer, send_wrtc_config}
use unisockets.Runner.Worker.{get_offer_cmd, get_answer_cmd, handle_answer_cmd}
use unisockets.Runner.Worker.Sharing.{handed, handle_bind_update-send}

abbrev server_alias : Text
server_alias = codes "127.0.0.0:80"

abbrev own : Text
own = codes "127.0.0.0"

-- Threads 1 and 2 have workers of Emscripten's; 4, 5 and 6 are in the page's own table.
abbrev page : Main (Unit {0})
page = record {
  pthreads = (1, some 10) ∷ (2, some 20) ∷ [];
  custom_threads = (4, holder (some 40)) ∷ (5, holder (some 50)) ∷ (6, holder (some 60)) ∷ [];
  socket_binds = [];
  socket_aliases = [];
  socket_descriptors = 0;
  transporter = tt;
  posted = [];
}

abbrev still : Transporting (Unit {0})
still = record {
  send = λ remote_id local_id msg. pure tt;
  recv = λ remote_id local_id. pure [];
  handle_answer = λ id answer. pure tt;
  handle_candidate = λ id candidate. pure tt;
}

-- The page with thread 7 alone in its table.
abbrev with_object : Main (Unit {0})
with_object = record page { custom_threads = (7, holder (some 70)) ∷ [] }

abbrev with_worker : Main (Unit {0})
with_worker = record page { custom_threads = (7, itself 70) ∷ [] }

steps-Distinct_example :
    let t =
      steps still
        (socket_descriptor 1 (codes "a")
          ∷ socket_descriptor 9 (codes "b")
          ∷ socket_descriptor 2 (codes "c")
          ∷ [])
        page in
    Distinct (descriptors t.posted) × All (λ fd. fd ≤ t.socket_descriptors) (descriptors t.posted)
steps-Distinct_example =
    steps-Distinct still
      (socket_descriptor 1 (codes "a")
        ∷ socket_descriptor 9 (codes "b")
        ∷ socket_descriptor 2 (codes "c")
        ∷ [])
      page refl

-- The worker of thread 2, which knows no descriptor and holds no alias.
abbrev worker : Worker (Unit {0})
worker = record { thread_id = 2; aliases_holder = []; requests = []; rest = tt }

-- The page holds the alias of the server for another client.
abbrev page_held : Main (Unit {0})
page_held = record page { socket_aliases = (server_alias, codes "127.0.0.1") ∷ [] }

abbrev page_bound : Main (Unit {0})
page_bound = handle_bind_update 3 server_alias 1 own page_held

abbrev pub outside : Outside (Unit {0})
outside = record {
  client_bind = λ alias. pure tt;
  client_accept = λ alias. pure alias;
  client_connect = λ alias. pure none;
  client_shutdown = λ alias. pure tt;
  ready = pure tt;
  fresh_id = λ r. (codes "id", r);
  once_descriptor = λ name. pure 1;
  once_info = λ name.
      pure (record { binds = page_bound.socket_binds; aliases = page_bound.socket_aliases });
  once_sent = λ name. pure tt;
  once_message = λ name. pure [];
  client_id = λ r. own;
  encode = λ t. t;
}

abbrev idle : Sockets (Worker (Unit {0}))
idle = record { binds = []; client_aliases = []; memories = []; buffers = []; world = worker }

abbrev asked : Sockets (Worker (Unit {0}))
asked = record idle {
  world = post_message (fetch_binds (codes "id")) (record idle.world { rest = tt });
}

handle_bind_update-send_example :
    (handle_fetch_binds 2 (codes "id") page_bound ≡ (
      ok tt,
      post 20
          (on_fetch_binds (codes "id") page_bound.socket_binds page_bound.socket_aliases)
          page_bound,
    ))
    × (send (externals outside) 3 (1 ∷ []) idle
        ≡ outside.once_sent (codes "id") (
            handed (codes "127.0.0.1") own (1 ∷ []) (codes "id") tt (
              with_binds (set_all page_bound.socket_binds) (
                with_world
                  (λ w. record w {
                    aliases_holder = set_aliases page_bound.socket_aliases w.aliases_holder;
                  })
                  asked))))
unfolding keys contains get_thread get has pure handle_bind_update
handle_bind_update-send_example =
    handle_bind_update-send page_held 3 server_alias 1 own (codes "127.0.0.1") (codes "id")
      (codes "id") 20 outside tt tt idle asked (1 ∷ []) tt (refl, tt) refl refl refl refl refl refl
