-- ===== src/Listener/Cuts.antt =====
-- What the client does with a frame that is too long for its scanner, or cut off.
use phylax.Base.{
  ◌+◌, ◌≤◌, ◌<◌, Text, codes, length, length-append, All, List, [], ◌∷◌, ◌++◌, append_assoc,
  append-nil, Option, none, some, Error, ◌≡◌, refl, ◌∙◌, ap, arith,
}
use phylax.Sse.{Item, render, data_frame, newline}
use phylax.Listener.{scan, after_prefix, printed, listened, listen_body, max_token_size, too_long}
use phylax.Listener.Frames.{OneLine, OneLine-data, drop_cr-OneLine, Fits, payloads, listen-render}

scan-overlong :
    (line part rest : Text)
    → OneLine part
    → length line < max_token_size
    → max_token_size ≤ length line + length part
    → scan line (part ++ rest) ≡ ([], some too_long)
unfolding scan
scan-overlong line [] rest o h k = absurd (omega (arith, h, k))
scan-overlong line (c ∷ cs) rest o h k =
    ground (arith, scan-overlong (line ++ c ∷ []) cs rest, length-append line (c ∷ []))

overlong-frame :
    (json rest : Text) (e : Option Error)
    → OneLine json
    → max_token_size ≤ length json + 6
    → listen_body (data_frame json ++ rest) e ≡ ([], some too_long)
unfolding listen_body
overlong-frame json rest e o h =
    ap (λ t. listened e (scan [] (codes "data: " ++ t)))
      (append_assoc json (newline ∷ newline ∷ []) rest)
    ∙ ap (listened e) (
        scan-overlong [] (codes "data: " ++ json) (newline ∷ newline ∷ rest) (OneLine-data json o)
          (omega arith) (omega (arith, h)))
    ∙ unfold printed in refl

-- Once a change's JSON and its prefix are 65536 bytes or more on their line, the client prints the
-- values that were sent before it and returns the scanner's error, whatever follows.
pub listen-overlong :
    (items : List Item) (json rest : Text) (e : Option Error)
    → All Fits items
    → OneLine json
    → max_token_size ≤ length json + 6
    → listen_body (render items ++ (data_frame json ++ rest)) e ≡ (payloads items, some too_long)
listen-overlong items json rest e f o h =
    listen-render items (data_frame json ++ rest) e f
    ∙ rw (overlong-frame json rest e o h, append-nil) refl

scan-last :
    (line part : Text)
    → OneLine part
    → length line + length part < max_token_size
    → scan line part ≡ scan (line ++ part) []
unfolding scan
scan-last line [] o h = rw append-nil refl
scan-last line (c ∷ cs) o h = ground (
  arith,
  scan-last (line ++ c ∷ []) cs,
  length-append line (c ∷ []),
  append_assoc line (c ∷ []) cs,
)

cut-frame :
    (part : Text) (e : Option Error)
    → OneLine part
    → length part + 6 < max_token_size
    → listen_body (codes "data: " ++ part) e ≡ (part ∷ [], e)
unfolding listen_body scan
cut-frame part e o h =
    ap (listened e) (scan-last [] (codes "data: " ++ part) (OneLine-data part o) (omega (arith, h)))
    ∙ ap (λ (line : Text). listened e (line ∷ [], none))
        (drop_cr-OneLine (codes "data: " ++ part) (OneLine-data part o))
    ∙ unfold printed after_prefix in refl

-- Where the stream ends inside the frame of a change, the client prints the part of its JSON that
-- came as if it were a change, after the values that were sent before it.
pub listen-cut :
    (items : List Item) (part : Text) (e : Option Error)
    → All Fits items
    → OneLine part
    → length part + 6 < max_token_size
    → listen_body (render items ++ (codes "data: " ++ part)) e ≡ (payloads items ++ part ∷ [], e)
listen-cut items part e f o h =
    listen-render items (codes "data: " ++ part) e f ∙ rw (cut-frame part e o h) refl
