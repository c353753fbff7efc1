-- ===== src/Cdc/Races.antt =====
-- OnChange and unsubscribeAll of cdc.go, in the steps of their locks: OnChange counts and notes its id
-- under the client's mutex and subscribes after that; unsubscribeAll takes the ids under the mutex and
-- unsubscribes them, one by one, after that. Calls interleave as lists of steps.
pub mod Leaks
use phylax.Base.{
  ℕ, zero, suc, ◌+◌, Text, text_eq, insert, get_elem?, List, [], ◌∷◌, ◌++◌, map, Option, none, some,
  Res, ok, ◌>>=◌,
}
use phylax.Broadcast.{subscribe, unsubscribe}
use phylax.Cdc.{Cdc, registration_id, ids_of}

-- A client, the numbers of the calls of OnChange that have yet to subscribe, and the ids that were taken
-- by unsubscribeAll and have yet to be unsubscribed.
pub record Race : Type 0 where
  pub client : Cdc
  pub reserved : List ℕ
  pub taken : List Text

pub data Action : Type 0 where
  -- OnChange: up to the Unlock, then the Subscribe of the i-th call that waits for it.
  reserves : Action
  subscribes : ℕ → Action
  -- unsubscribeAll: up to the Unlock, then the Unsubscribe of the next id.
  takes drops : Action

abbrev pub remove_at {ℓ} : {A : Type ℓ} → List A → ℕ → List A
remove_at [] i = []
remove_at (x ∷ xs) zero = xs
remove_at (x ∷ xs) (suc i) = x ∷ remove_at xs i

abbrev pub reserve : Race → Race
reserve w =
    let n = w.client.next_sub_id + 1 in
    record w {
      client = record w.client {
        sub_ids = insert (registration_id n) tt w.client.sub_ids;
        next_sub_id = n;
      };
      reserved = w.reserved ++ n ∷ [];
    }

abbrev pub register : ℕ → Option ℕ → Race → Res Race
register i none w = ok w
register i (some n) w = do
  r ← subscribe (registration_id n) w.client.cfg.change_buffer_size w.client.broadcaster
  let (ch, b) = r
  ok (record w { client = record w.client { broadcaster = b }; reserved = remove_at w.reserved i })

abbrev pub take_ids : Race → Race
take_ids w = record w {
  client = record w.client { sub_ids = [] };
  taken = w.taken ++ ids_of w.client.sub_ids;
}

abbrev pub drop_next : List Text → Race → Res Race
drop_next [] w = ok w
drop_next (id ∷ ids) w = do
  b ← unsubscribe id w.client.broadcaster
  ok (record w { client = record w.client { broadcaster = b }; taken = ids })

unfoldable pub step : Action → Race → Res Race
step reserves w = ok (reserve w)
step (subscribes i) w = register i (get_elem? w.reserved i) w
step takes w = ok (take_ids w)
step drops w = drop_next w.taken w

unfoldable pub run : List Action → Race → Res Race
unfolding step
run [] w = ok w
run (a ∷ actions) w = do w' ← step a w; run actions w'

unfoldable pub quiet : Cdc → Race
quiet c = record { client = c; reserved = []; taken = [] }
