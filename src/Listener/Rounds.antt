-- ===== src/Listener/Rounds.antt =====
-- main of cmd/sse-client/main.go: the client over its connections.
use phylax.Base.{codes, length, ◌+◌, ◌<◌, ◌≤◌, Text, All, List, [], ◌∷◌, ◌++◌, map, Option, Error}
use phylax.Sse.{Item, render, data_frame}
use phylax.Listener.{
  max_token_size, too_long, Reply, refused, replied, ClientEvent, requests, prints, loses, waits,
  lost,
}
use phylax.Listener.Frames.{OneLine, Fits, payloads}

-- A connection: it was refused, or what a handler wrote was read, up to an error or the body's end. That
-- came after a whole frame, or within the line of a value, after a part of its JSON; or the line of a
-- value was too long.
pub data Session : Type 0 where
  rejected : Error → Session
  reads : List Item → Option Error → Session
  cuts : List Item → Text → Option Error → Session
  overlong : List Item → Text → Text → Option Error → Session

abbrev pub reply_of : Session → Reply
reply_of (rejected e) = refused e
reply_of (reads items e) = replied (render items) e
reply_of (cuts items part e) = replied (render items ++ (codes "data: " ++ part)) e
reply_of (overlong items json rest e) = replied (render items ++ (data_frame json ++ rest)) e

abbrev pub FitsIn : Session → Type 0
FitsIn (rejected e) = Unit
FitsIn (reads items e) = All Fits items
FitsIn (cuts items part e) = All Fits items × OneLine part × (length part + 6 < max_token_size)
FitsIn (overlong items json rest e) =
    All Fits items × OneLine json × (max_token_size ≤ length json + 6)

-- What the client says of a connection.
abbrev pub said : Session → List ClientEvent
said (rejected e) = loses e ∷ []
said (reads items e) = map prints (payloads items) ++ lost e
said (cuts items part e) = map prints (payloads items ++ part ∷ []) ++ lost e
said (overlong items json rest e) = map prints (payloads items) ++ loses too_long ∷ []

abbrev pub visits : Text → List Session → List ClientEvent
visits url [] = []
visits url (session ∷ sessions) =
    requests url ∷ ((said session ++ waits ∷ []) ++ visits url sessions)
