-- ===== src/Signaling/Server/Reach.antt =====
-- The states that the server can reach: messages arrive in any order, from any socket, and
-- listeners fire when sockets close. Each runs from start to end before the next.
use unisockets.Prelude.{Text}
use unisockets.Signaling.Operation.{Operation}
use unisockets.Signaling.Server.Action.{Socket, Server, start}
use unisockets.Signaling.Server.Handlers.{handle_operation}
use unisockets.Signaling.Server.Closing.{handle_close-IsSound}
use unisockets.Signaling.Server.Goodbye.{handle_close}
use unisockets.Signaling.Server.Invariant.{
  IsClean, IsSound, start-IsSound, handle_operation-IsSound,
}

pub data Step : Server → Server → Type 0 where
  message :
      (op : Operation) (client : Socket) (s : Server)
      → IsClean op
      → Step s (handle_operation op client s).1
  closes : (id : Text) (s : Server) → Step s (handle_close id s).1

pub data Reach : Server → Type 0 where
  init : Reach start
  next : {s t : Server} → Reach s → Step s t → Reach t

pub Step-IsSound : {s t : Server} → Step s t → IsSound s → IsSound t
Step-IsSound (message op client s clean) h = (handle_operation-IsSound op client clean).stays s h
Step-IsSound (closes id s) h = (handle_close-IsSound id).stays s h

-- In every reachable state the pool is well formed and no alias or client is entered twice, if the
-- aliases that were bound have a natural suffix and port.
pub Reach-IsSound : {s : Server} → Reach s → IsSound s
Reach-IsSound init = start-IsSound
Reach-IsSound (next r st) = Step-IsSound st (Reach-IsSound r)
