-- ===== src/Base/Chans.antt =====
-- Go channels with a buffer, and the memory that holds them: an address is a place in the list.
-- The rendezvous of an unbuffered channel is not modelled: with capacity 0 no send finds room.
use Prim.Native.Nat.{ℕ}
use mathlib.Core.Bool.{Bool, true, false}
use mathlib.Core.List.{List, [], ◌∷◌, ◌++◌}
use mathlib.Core.Option.{Option, none, some}
use phylax.Base.Tests.{ltb, if◌then◌else◌}
use phylax.Base.Lists.{length, get_elem?}
use phylax.Base.Ints.{ℤ, pos, negsuc}
use phylax.Base.Results.{Res, ok, panic}

pub record Chan {ℓ} (A : Type ℓ) : Type ℓ where
  pub capacity : ℕ
  pub buffer : List A
  pub is_closed : Bool

module _ {ℓ} {A : Type ℓ} where
  -- `make(chan A, n)`: a negative size panics.
  abbrev pub make_chan : ℤ → Res (Chan A)
  make_chan (pos n) = ok (record { capacity = n; buffer = []; is_closed = false })
  make_chan (negsuc n) = panic

  abbrev pub has_room : Chan A → Bool
  has_room ch = ltb (length ch.buffer) ch.capacity

  abbrev pub push_back : A → Chan A → Chan A
  push_back a ch = record ch { buffer = ch.buffer ++ a ∷ [] }

  -- `select { case ch <- a: default: }`: `none` where the default is taken.
  abbrev pub try_send : A → Chan A → Res (Option (Chan A))
  try_send a ch =
      if ch.is_closed then panic else if has_room ch then ok (some (push_back a ch)) else ok none

  -- `close(ch)`: closing twice panics.
  abbrev pub close_chan : Chan A → Res (Chan A)
  close_chan ch = if ch.is_closed then panic else ok (record ch { is_closed = true })

  abbrev pub load : List (Chan A) → ℕ → Res (Chan A)
  load heap a = elim (get_elem? heap a) [ none ↦ panic | some ch ↦ ok ch ]
