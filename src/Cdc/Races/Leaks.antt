-- ===== src/Cdc/Races/Leaks.antt =====
-- OnChange beside the unsubscribeAll of a shutdown.
use phylax.Base.{
  ℕ, zero, suc, ◌+◌, ◌<◌, ◌≤◌, Text, text_eq, text_beq, length, Bool-cases, inl, inr, Map, insert,
  get_elem?, All, All-append, All-get_elem?, List, [], ◌∷◌, Option, none, some, Res, ok, err, panic,
  ◌>>=◌, pos, ◌≡◌, ◌≢◌, refl, sym, ◌∙◌, ap, arith,
}
use phylax.Broadcast.{Broadcaster, subscribe}
use phylax.Broadcast.Valid.{IsValid}
use phylax.Broadcast.Entries.{HasEntry, subscribe-Keeps, unsubscribe-Keeps}
use phylax.Cdc.{Cdc, registration_id, ids_of, on_change}
use phylax.Cdc.Registrations.{registration_id-injective}
use phylax.Cdc.Races.{
  Race, Action, reserves, subscribes, takes, drops, remove_at, reserve, register, take_ids,
  drop_next, step, run, quiet,
}

-- An id of a later registration.
abbrev pub IsLater : ℕ → Text → Type 0
IsLater n id = (m : ℕ) × (n < m) × (id ≡ registration_id m)

-- The n-th registration has its channel, and nothing is left that would unsubscribe it.
pub record IsEscaped (n ch : ℕ) (w : Race) : Type 0 where
  pub entry : HasEntry w.client.broadcaster (registration_id n) ch
  pub valid : IsValid w.client.broadcaster
  pub sized : (size : ℕ) × (w.client.cfg.change_buffer_size ≡ pos size)
  pub counted : n ≤ w.client.next_sub_id
  pub noted : All (IsLater n) (ids_of w.client.sub_ids)
  pub reserved : All (λ m. n < m) w.reserved
  pub taken : All (IsLater n) w.taken

IsLater-ne : (n : ℕ) (id : Text) → IsLater n id → id ≢ registration_id n
IsLater-ne n id (m, lt, e) same = omega (arith, lt, registration_id-injective m n (sym e ∙ same))

All-insert :
    (P : Text → Type 0) (id : Text) (m : Map Text (Unit {0}))
    → P id
    → All P (ids_of m)
    → All P (ids_of (insert id tt m))
unfolding insert
All-insert P id [] p h = (p, tt)
All-insert P id ((i, u) ∷ m) p h = elim (Bool-cases (text_beq i id)) [
  | inl same ↦ rw same (p, h.1)
  | inr ne ↦ rw ne (h.0, All-insert P id m p h.1)
]

All-remove_at : (P : ℕ → Type 0) (xs : List ℕ) (i : ℕ) → All P xs → All P (remove_at xs i)
All-remove_at P [] i h = tt
All-remove_at P (x ∷ xs) zero h = h.1
All-remove_at P (x ∷ xs) (suc i) h = (h.0, All-remove_at P xs i h.1)

abbrev Escapes : ℕ → ℕ → Res Race → Type 0
Escapes n ch r = (w : Race) × (r ≡ ok w) × IsEscaped n ch w

reserve-IsEscaped : (n ch : ℕ) (w : Race) → IsEscaped n ch w → IsEscaped n ch (reserve w)
reserve-IsEscaped n ch w h = record {
  entry = h.entry;
  valid = h.valid;
  sized = h.sized;
  counted = omega (arith, h.counted);
  noted =
      All-insert (IsLater n) _ w.client.sub_ids
        (w.client.next_sub_id + 1, omega (arith, h.counted), refl) h.noted;
  reserved = All-append (λ m. n < m) w.reserved _ h.reserved (omega (arith, h.counted), tt);
  taken = h.taken;
}

register-Escapes :
    (n ch i : ℕ) (m : Option ℕ) (w : Race)
    → get_elem? w.reserved i ≡ m
    → IsEscaped n ch w
    → Escapes n ch (register i m w)
register-Escapes n ch i none w e h = (w, refl, h)
register-Escapes n ch i (some m) w e h =
    let later : n < m = All-get_elem? (λ m. n < m) w.reserved i m h.reserved e in
    let (size, sized) = h.sized in
    let (b, done, keeps, _) =
      subscribe-Keeps (registration_id m) size w.client.broadcaster h.valid in
    (
      record w { client = record w.client { broadcaster = b }; reserved = remove_at w.reserved i },
      rw (sized, done) refl,
      record {
        entry =
            keeps.entry (registration_id n) ch (IsLater-ne n (registration_id m) (m, later, refl))
              h.entry;
        valid = keeps.valid;
        sized = h.sized;
        counted = h.counted;
        noted = h.noted;
        reserved = All-remove_at (λ m. n < m) w.reserved i h.reserved;
        taken = h.taken;
      },
    )

take_ids-IsEscaped : (n ch : ℕ) (w : Race) → IsEscaped n ch w → IsEscaped n ch (take_ids w)
take_ids-IsEscaped n ch w h = record {
  entry = h.entry;
  valid = h.valid;
  sized = h.sized;
  counted = h.counted;
  noted = tt;
  reserved = h.reserved;
  taken = All-append (IsLater n) w.taken _ h.taken h.noted;
}

drop_next-Escapes :
    (n ch : ℕ) (ids : List Text) (w : Race)
    → All (IsLater n) ids
    → IsEscaped n ch w
    → Escapes n ch (drop_next ids w)
drop_next-Escapes n ch [] w later h = (w, refl, h)
drop_next-Escapes n ch (id ∷ ids) w later h =
    let (b, done, keeps, _) = unsubscribe-Keeps id w.client.broadcaster h.valid in
    (
      record w { client = record w.client { broadcaster = b }; taken = ids },
      rw done refl,
      record {
        entry = keeps.entry (registration_id n) ch (IsLater-ne n id later.0) h.entry;
        valid = keeps.valid;
        sized = h.sized;
        counted = h.counted;
        noted = h.noted;
        reserved = h.reserved;
        taken = later.1;
      },
    )

step-Escapes : (n ch : ℕ) (a : Action) (w : Race) → IsEscaped n ch w → Escapes n ch (step a w)
unfolding step
step-Escapes n ch reserves w h = (reserve w, refl, reserve-IsEscaped n ch w h)
step-Escapes n ch (subscribes i) w h = register-Escapes n ch i _ w refl h
step-Escapes n ch takes w h = (take_ids w, refl, take_ids-IsEscaped n ch w h)
step-Escapes n ch drops w h = drop_next-Escapes n ch w.taken w h.taken h

run-Escapes :
    (n ch : ℕ) (actions : List Action) (w : Race) → IsEscaped n ch w → Escapes n ch (run actions w)
unfolding run
run-Escapes n ch [] w h = (w, refl, h)
run-Escapes n ch (a ∷ actions) w h =
    let (w1, e1, h1) = step-Escapes n ch a w h in
    let (w2, e2, h2) = run-Escapes n ch actions w1 h1 in (w2, rw e1 e2, h2)

-- Drops for all the ids that were taken.
abbrev pub drop_all : List Text → List Action → List Action
drop_all [] after = after
drop_all (id ∷ ids) after = drops ∷ drop_all ids after

run-drop_all :
    (ids : List Text) (after : List Action) (w : Race)
    → w.taken ≡ ids
    → IsValid w.client.broadcaster
    → (b : Broadcaster) × IsValid b
      × (run (drop_all ids after) w
          ≡ run after (record w { client = record w.client { broadcaster = b }; taken = [] }))
unfolding run step
run-drop_all [] after w e v = (w.client.broadcaster, v, rw⁻¹ e refl)
run-drop_all (id ∷ ids) after w e v =
    let (b, done, keeps, _) = unsubscribe-Keeps id w.client.broadcaster v in
    let (b', v', rest) =
      run-drop_all ids after
        (record w { client = record w.client { broadcaster = b }; taken = ids }) refl keeps.valid in
    (b', v', rw (e, drop_next, done) rest)

-- The Subscribe of the n-th call, after its id was taken and dropped.
late-Escapes :
    (c : Cdc) (n size : ℕ) (after : List Action) (b : Broadcaster)
    → c.cfg.change_buffer_size ≡ pos size
    → IsValid b
    → let w : Race = record {
      client = record c { broadcaster = b; sub_ids = []; next_sub_id = n };
      reserved = n ∷ [];
      taken = [];
    } in
      Escapes n (length b.heap) (run (subscribes 0 ∷ after) w)
unfolding run step
late-Escapes c n size after b sized valid =
    let (b', done, keeps, entry) = subscribe-Keeps (registration_id n) size b valid in
    let done' = ap (λ s. subscribe (registration_id n) s b) sized ∙ done in
    let (w, e, h) =
      run-Escapes n (length b.heap) after
        (record {
          client = record c { broadcaster = b'; sub_ids = []; next_sub_id = n };
          reserved = [];
          taken = [];
        })
        (record {
          entry = entry;
          valid = keeps.valid;
          sized = (size, sized);
          counted = omega arith;
          noted = tt;
          reserved = tt;
          taken = tt;
        }) in
    (w, rw done' e, h)

-- Where a shutdown's unsubscribeAll runs to its end between the two steps of a call of OnChange, the
-- registration that the call makes is never removed: after any further steps of OnChange and
-- unsubscribeAll, none of which panics, its id is registered with its channel in a valid
-- broadcaster. The client has a size of the buffers that is not negative, and its broadcaster is
-- valid before.
pub on_change_escapes :
    (c : Cdc) (size : ℕ) (after : List Action)
    → c.cfg.change_buffer_size ≡ pos size
    → IsValid c.broadcaster
    → let n = c.next_sub_id + 1 in
      (w : Race) × (ch : ℕ) × (run
          (reserves
            ∷ takes
            ∷ drop_all (ids_of (insert (registration_id n) tt c.sub_ids)) (subscribes 0 ∷ after))
          (quiet c)
        ≡ ok w)
      × HasEntry w.client.broadcaster (registration_id n) ch
      × IsValid w.client.broadcaster
unfolding run step quiet
on_change_escapes c size after sized valid =
    let n = c.next_sub_id + 1 in
    let w0 = take_ids (reserve (quiet c)) in
    let (b, v, dropped) =
      run-drop_all (ids_of (insert (registration_id n) tt c.sub_ids)) (subscribes 0 ∷ after) w0 refl
        valid in
    let (w, e, h) = late-Escapes c n size after b sized v in
    (w, length b.heap, dropped ∙ e, h.entry, h.valid)

-- A call of OnChange and one of unsubscribeAll whose steps no other steps separate.
pub run-on_change :
    (c : Cdc)
    → run (reserves ∷ subscribes 0 ∷ []) (quiet c) ≡ (on_change c >>= λ (ch, c'). ok (quiet c'))
unfolding run step quiet on_change
run-on_change c =
    by_result
      (subscribe (registration_id (c.next_sub_id + 1)) c.cfg.change_buffer_size c.broadcaster) refl
  where
    by_result :
        (r : Res (ℕ × Broadcaster))
        → subscribe (registration_id (c.next_sub_id + 1)) c.cfg.change_buffer_size c.broadcaster ≡ r
        → run (reserves ∷ subscribes 0 ∷ []) (quiet c) ≡ (on_change c >>= λ (ch, c'). ok (quiet c'))
    by_result (ok p) e = rw e refl
    by_result (err x) e = rw e refl
    by_result panic e = rw e refl
