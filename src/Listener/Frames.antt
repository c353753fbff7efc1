-- ===== src/Listener/Frames.antt =====
-- What the client prints of what the server writes.
use phylax.Base.{
  ◌+◌, ◌<◌, Text, codes, length, length-append, All, List, [], ◌∷◌, ◌++◌, append_assoc, append-nil,
  Option, Error, ◌≡◌, ◌≢◌, refl, sym, ◌∙◌, ap, arith,
}
use phylax.Sse.{Item, greeting, ping, change, nil_change, newline, data_frame, render}
use phylax.Listener.{scan, drop_cr, before, printed, listened, listen_body, max_token_size}

-- No byte is a line feed or a carriage return.
abbrev pub OneLine : Text → Type 0
OneLine = All (λ c. (c ≢ 10) × (c ≢ 13))

pub drop_cr-OneLine : (line : Text) → OneLine line → drop_cr line ≡ line
unfolding drop_cr
drop_cr-OneLine [] h = refl
drop_cr-OneLine (c ∷ []) h = ground arith
drop_cr-OneLine (c ∷ d ∷ cs) h = ap (λ l. c ∷ l) (drop_cr-OneLine (d ∷ cs) h.1)

-- A line that is read, with what was read of it before.
scan-line :
    (line part rest : Text)
    → OneLine part
    → length line + length part < max_token_size
    → scan line (part ++ newline ∷ rest) ≡ before (drop_cr (line ++ part)) (scan [] rest)
unfolding scan
scan-line line [] rest o h = rw append-nil
scan-line line (c ∷ cs) rest o h = ground (
  arith,
  scan-line (line ++ c ∷ []) cs rest,
  length-append line (c ∷ []),
  append_assoc line (c ∷ []) cs,
)

scan-frame :
    (text rest : Text)
    → OneLine text
    → length text < max_token_size
    → scan [] (text ++ newline ∷ newline ∷ rest) ≡ before text (before [] (scan [] rest))
scan-frame text rest o h =
    scan-line [] text (newline ∷ rest) o (omega (arith, h))
    ∙ rw (scan-line [] [] rest tt (omega arith), drop_cr-OneLine text o) (unfold drop_cr in refl)

-- The values that a connection was sent, by their JSON.
unfoldable pub payloads : List Item → List Text
payloads [] = []
payloads (greeting ∷ items) = payloads items
payloads (ping ∷ items) = payloads items
payloads (change c json ∷ items) = json ∷ payloads items
payloads (nil_change ∷ items) = codes "null" ∷ payloads items

-- The JSON of a change stands on one line, and the line fits the client's scanner.
abbrev pub Fits : Item → Type 0
Fits (change c json) = OneLine json × (length json + 6 < max_token_size)
Fits _ = Unit

abbrev with_first : List Text → List Text × Option Error → List Text × Option Error
with_first first (lines, e) = (first ++ lines, e)

listened-before :
    (text : Text) (e : Option Error) (r : List Text × Option Error)
    → listened e (before text (before [] r)) ≡ with_first (printed (text ∷ [])) (listened e r)
unfolding printed
listened-before text e (lines, own) = ground arith

printed-data : (json : Text) → printed ((codes "data: " ++ json) ∷ []) ≡ json ∷ []
unfolding printed
printed-data json = refl

pub OneLine-data : (json : Text) → OneLine json → OneLine (codes "data: " ++ json)
OneLine-data json o = ground arith

listen-data :
    (json rest : Text) (e : Option Error)
    → OneLine json
    → length json + 6 < max_token_size
    → listened e (scan [] (data_frame json ++ rest))
      ≡ with_first (json ∷ []) (listened e (scan [] rest))
listen-data json rest e o h =
    ap (λ t. listened e (scan [] (codes "data: " ++ t)))
      (append_assoc json (newline ∷ newline ∷ []) rest)
    ∙ ap (listened e)
        (scan-frame (codes "data: " ++ json) rest (OneLine-data json o) (omega (arith, h)))
    ∙ listened-before (codes "data: " ++ json) e (scan [] rest)
    ∙ rw (printed-data json) refl

listen-comment :
    (text rest : Text) (e : Option Error)
    → OneLine text
    → length text < max_token_size
    → printed (text ∷ []) ≡ []
    → listened e (scan [] (text ++ newline ∷ newline ∷ rest)) ≡ listened e (scan [] rest)
listen-comment text rest e o h p =
    ap (listened e) (scan-frame text rest o h) ∙ listened-before text e (scan [] rest) ∙ rw p refl

-- Whatever follows it, the client prints of what a handler wrote exactly the JSON of the values that
-- were sent, in their order, and none of the comments; what it prints and returns for the rest is
-- what it would for the rest alone. The JSON of each change has to stand on one line (no line feed or
-- carriage return in it) of less than 65536 bytes with its prefix.
pub listen-render :
    (items : List Item) (rest : Text) (e : Option Error)
    → All Fits items
    → listen_body (render items ++ rest) e ≡ with_first (payloads items) (listen_body rest e)
unfolding listen_body render payloads
listen-render [] rest e h = refl
listen-render (greeting ∷ items) rest e h =
    listen-comment (codes ": connected") (render items ++ rest) e (ground arith) (omega arith)
      (unfold printed in refl)
    ∙ listen-render items rest e h.1
listen-render (ping ∷ items) rest e h =
    listen-comment (codes ": ping") (render items ++ rest) e (ground arith) (omega arith)
      (unfold printed in refl)
    ∙ listen-render items rest e h.1
listen-render (change c json ∷ items) rest e h =
    ap (λ t. listened e (scan [] t)) (append_assoc (data_frame json) (render items) rest)
    ∙ listen-data json (render items ++ rest) e h.0.0 h.0.1
    ∙ ap (with_first (json ∷ [])) (listen-render items rest e h.1)
listen-render (nil_change ∷ items) rest e h =
    listen-data (codes "null") (render items ++ rest) e (ground arith) (omega arith)
    ∙ ap (with_first (codes "null" ∷ [])) (listen-render items rest e h.1)

-- The same of a body that ends there.
pub listen_body-render :
    (items : List Item) (e : Option Error)
    → All Fits items
    → listen_body (render items) e ≡ (payloads items, e)
unfolding listen_body scan printed
listen_body-render items e h =
    ap (λ t. listen_body t e) (sym (append-nil (render items)))
    ∙ listen-render items [] e h
    ∙ ap (λ ls. (ls, e)) (append-nil (payloads items))
