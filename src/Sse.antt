-- ===== src/Sse.antt =====
-- sse.go: the frames of an event stream. Connections has the handlers, Lifecycle the server.
pub mod Connections
pub mod Safety
pub mod Runs
pub mod Streams
pub mod Marshals
pub mod Lifecycle
pub mod Routes
pub mod Examples
use phylax.Base.{ℕ, Text, codes, List, [], ◌∷◌, ◌++◌}
use phylax.Change.{Change}

abbrev pub newline : ℕ
newline = 10

-- What a handler writes at once: the preamble of /events, its heartbeat, or the frame of a value.
-- A value is the JSON of a change, or of the nil that a closed channel gives.
pub data Item : Type 0 where
  greeting ping : Item
  change : Change → Text → Item
  nil_change : Item

abbrev pub data_frame : Text → Text
data_frame json = codes "data: " ++ (json ++ newline ∷ newline ∷ [])

unfoldable pub bytes_of : Item → Text
bytes_of greeting = codes ": connected" ++ newline ∷ newline ∷ []
bytes_of ping = codes ": ping" ++ newline ∷ newline ∷ []
bytes_of (change c json) = data_frame json
bytes_of nil_change = data_frame (codes "null")

unfoldable pub render : List Item → Text
unfolding bytes_of
render [] = []
render (item ∷ items) = bytes_of item ++ render items
