-- ===== src/Signaling/Server/Goodbye.antt =====
-- The listener that registerGoodbye puts on a socket's "close" event. `aliases.forEach` runs each
-- callback up to its first await, so all the aliases are deleted first, the goodbyes go out next,
-- and then the addresses are given back and the aliases announced, one alias after another.
use unisockets.Prelude.{List, [], ◌∷◌, Text, text_key, ◌==◌, if◌then◌else◌, false}
use unisockets.Map.{Map, delete}
use unisockets.Signaling.Operation.{Operation}
use unisockets.Signaling.Subnets.{remove_ip_address, remove_tcp_address}
use unisockets.Signaling.Server.Action.{MAlias, Action, ◌>>=◌, ◌>>◌, pure, gets, modify, broadcast}
use unisockets.Signaling.Server.Handlers.{alias_message}

-- The aliases of a client, in the order of the map.
unfoldable pub aliases_of : Text → Map Text MAlias → List Text
aliases_of id [] = []
aliases_of id ((alias, a) ∷ rest) =
    let others = aliases_of id rest in if a.id == id then alias ∷ others else others

unfoldable pub delete_all : List Text → Map Text MAlias → Map Text MAlias
delete_all [] aliases = aliases
delete_all (alias ∷ rest) aliases = delete_all rest (delete alias aliases)

-- What a callback does from its first await on.
unfoldable pub release_alias : Text → Text → Action (Unit {0})
release_alias id alias = do
  modify (λ s. record s { subnets = remove_ip_address alias s.subnets })
  modify (λ s. record s { subnets = remove_tcp_address alias s.subnets })
  broadcast (alias_message id alias false)

unfoldable pub release_all : Text → List Text → Action (Unit {0})
unfolding release_alias
release_all id [] = pure tt
release_all id (alias ∷ rest) = release_alias id alias >> release_all id rest

unfoldable pub handle_close : Text → Action (Unit {0})
unfolding release_all
handle_close id = do
  modify (λ s. record s { clients = delete id s.clients })
  modify (λ s. record s { subnets = remove_ip_address id s.subnets })
  gone ← gets (λ s. aliases_of id s.aliases)
  modify (λ s. record s { aliases = delete_all gone s.aliases })
  broadcast (Operation.goodbye (record { id = id }))
  release_all id gone
