-- ===== src/Listener.antt =====
-- cmd/sse-client/main.go: what the client prints of an event stream. The HTTP client is a parameter, by
-- the body that it reads and the error that ends it; bufio.Scanner reads lines as the library does.
pub mod Frames
pub mod Cuts
pub mod Clients
pub mod Rounds
pub mod Examples
use phylax.Base.{
  ℕ, suc, ◌<◌, ltb, eqb, if◌then◌else◌, Bool, true, false, ◌&&◌, Text, codes, length, List, [], ◌∷◌,
  ◌++◌, map, Option, none, some, Error, message,
}

-- bufio.MaxScanTokenSize: a line and its end must fit in the buffer.
abbrev pub max_token_size : ℕ
max_token_size = 65536

abbrev pub too_long : Error
too_long = message (codes "bufio.Scanner: token too long")

-- A line without the carriage return at its end.
unfoldable pub drop_cr : Text → Text
drop_cr [] = []
drop_cr (c ∷ []) = if eqb c 13 then [] else c ∷ []
drop_cr (c ∷ d ∷ cs) = c ∷ drop_cr (d ∷ cs)

-- At the end of the input what is left is a line too, if there is any.
abbrev last_line : Text → List Text
last_line [] = []
last_line (c ∷ cs) = drop_cr (c ∷ cs) ∷ []

abbrev pub before : Text → List Text × Option Error → List Text × Option Error
before line (lines, e) = (line ∷ lines, e)

-- scanner.Scan over the input, with the line read so far: the lines, and the scanner's own error.
unfoldable pub scan : Text → Text → List Text × Option Error
unfolding drop_cr
scan line [] = (last_line line, none)
scan line (c ∷ cs) =
    let next = scan [] cs in
    let longer = scan (line ++ c ∷ []) cs in
    if eqb c 10
    then before (drop_cr line) next
    else if ltb (suc (length line)) max_token_size
    then longer
    else ([], some too_long)

-- strings.HasPrefix with strings.TrimPrefix.
unfoldable pub after_prefix : Text → Text → Option Text
after_prefix [] text = some text
after_prefix (p ∷ ps) [] = none
after_prefix (p ∷ ps) (c ∷ cs) = if eqb p c then after_prefix ps cs else none

-- The loop of listen: what follows "change: " in the lines that it prints.
unfoldable pub printed : List Text → List Text
unfolding after_prefix
printed [] = []
printed (line ∷ lines) = elim (after_prefix (codes "data: ") line) [
  | none ↦ printed lines
  | some payload ↦ payload ∷ printed lines
]

-- The error of scanner.Err: the scanner's own, or else the one that ended the body.
abbrev first_error : Option Error → Option Error → Option Error
first_error none e = e
first_error (some e) read = some e

abbrev listened : Option Error → List Text × Option Error → List Text × Option Error
listened e (lines, own) = (printed lines, first_error own e)

unfoldable pub listen_body : Text → Option Error → List Text × Option Error
unfolding scan printed
listen_body body e = listened e (scan [] body)

-- What the HTTP client returns: an error of the request, or a body with the error that ends it.
pub data Reply : Type 0 where
  refused : Error → Reply
  replied : Text → Option Error → Reply

unfoldable pub listen : Reply → List Text × Option Error
unfolding listen_body
listen (refused e) = ([], some e)
listen (replied body e) = listen_body body e

abbrev pub default_url : Text
default_url = codes "http://localhost:8080/events"

-- The URL of os.Args[1], if there is one.
unfoldable pub url_of : List Text → Text
url_of [] = default_url
url_of (url ∷ args) = url

-- What main does: the request, a line on the standard output, what it logs, and the pause of two seconds.
pub data ClientEvent : Type 0 where
  announces requests prints : Text → ClientEvent
  loses : Error → ClientEvent
  waits : ClientEvent

abbrev pub lost : Option Error → List ClientEvent
lost none = []
lost (some e) = loses e ∷ []

-- One round of main's loop, whose context is never done.
unfoldable pub client_round : Text → Reply → List ClientEvent
unfolding listen
client_round url reply =
    let (lines, e) = listen reply in requests url ∷ (map prints lines ++ (lost e ++ waits ∷ []))

-- main on its arguments, for as many rounds as there are replies; it never returns.
unfoldable pub client_rounds : Text → List Reply → List ClientEvent
unfolding client_round
client_rounds url [] = []
client_rounds url (reply ∷ replies) = client_round url reply ++ client_rounds url replies

unfoldable pub client_main : List Text → List Reply → List ClientEvent
unfolding url_of client_rounds
client_main args replies = let url = url_of args in announces url ∷ client_rounds url replies
