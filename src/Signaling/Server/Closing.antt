-- ===== src/Signaling/Server/Closing.antt =====
-- The invariant of the server's state, and the close listener.
use unisockets.Prelude.{List, [], ◌∷◌, Text, text_key}
use unisockets.Map.{Map, delete, keys, Distinct}
use unisockets.Map.Keys.{keys-delete-Distinct}
use unisockets.Signaling.Server.Action.{MAlias, Server}
use unisockets.Signaling.Server.Goodbye.{handle_close, delete_all, release_all, release_alias}
use unisockets.Signaling.Server.Keeps.{Keeps, Keeps-bind}
use unisockets.Signaling.Server.Invariant.{IsSound, pool_rules}

release_alias-IsSound : (id alias : Text) → Keeps IsSound (release_alias id alias)
unfolding release_alias
release_alias-IsSound id alias = search pool_rules depth 9

release_all-IsSound : (id : Text) (gone : List Text) → Keeps IsSound (release_all id gone)
unfolding release_all
release_all-IsSound id [] = search pool_rules
release_all-IsSound id (alias ∷ rest) =
    Keeps-bind _ _ (release_alias-IsSound id alias) λ _. release_all-IsSound id rest

delete_all-Distinct :
    (gone : List Text) (m : Map Text MAlias)
    → Distinct (keys m)
    → Distinct (keys (delete_all gone m))
unfolding delete_all
delete_all-Distinct [] m d = d
delete_all-Distinct (x ∷ gone) m d =
    delete_all-Distinct gone (delete x m) (keys-delete-Distinct x m d)

delete_all-IsSound :
    (gone : List Text) (s : Server)
    → IsSound s
    → IsSound (record s { aliases = delete_all gone s.aliases })
delete_all-IsSound gone s h = record {
  pool = h.pool;
  alias_keys = delete_all-Distinct gone s.aliases h.alias_keys;
  client_keys = h.client_keys;
}

pub handle_close-IsSound : (id : Text) → Keeps IsSound (handle_close id)
unfolding handle_close
handle_close-IsSound id = search (pool_rules, delete_all-IsSound, release_all-IsSound) depth 12
