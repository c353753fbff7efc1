-- ===== src/Cdc/Orders.antt =====
-- unsubscribeAll of cdc.go ranges over a Go map, whose order is not fixed.
use mathlib.Core.List.{Perm}
use phylax.Base.{Text, List, [], ◌∷◌, ok, ◌≡◌, refl, sym, ◌∙◌, ap}
use phylax.Broadcast.{Broadcaster}
use phylax.Broadcast.Valid.{IsValid}
use phylax.Broadcast.Views.Quotients.{
  view, unsubscribe_views, unsubscribe-view, unsubscribe_views-Perm,
}
use phylax.Cdc.{Cdc, ids_of, unsubscribe_ids, unsubscribe_all}

-- A list of ids unregistered, as the view after it.
unsubscribe_ids-view :
    (ids : List Text) (b : Broadcaster) (v : IsValid b)
    → (b' : Broadcaster) × (v' : IsValid b') × (unsubscribe_ids ids b ≡ ok b')
      × (unsubscribe_views ids (view b v) ≡ view b' v')
unfolding unsubscribe_ids unsubscribe_views
unsubscribe_ids-view [] b v = (b, v, refl, refl)
unsubscribe_ids-view (id ∷ ids) b v =
    let (b1, v1, e1, q1) = unsubscribe-view id b v in
    let (b2, v2, e2, q2) = unsubscribe_ids-view ids b1 v1 in
    (b2, v2, rw e1 e2, ap (unsubscribe_views ids) q1 ∙ q2)

-- On a client with a valid broadcaster unsubscribeAll returns, and it makes no difference in which order
-- it takes the ids of the client: any other order returns too, and the broadcasters that the two leave
-- are equal as views, in which the channels and the subscription of each id count, and not the order of
-- the map.
pub unsubscribe_all-order :
    (c : Cdc) (ids : List Text)
    → IsValid c.broadcaster
    → Perm (ids_of c.sub_ids) ids
    → (c' : Cdc) × (b : Broadcaster) × (v : IsValid c'.broadcaster) × (u : IsValid b)
      × (unsubscribe_all c ≡ ok c')
      × (unsubscribe_ids ids c.broadcaster ≡ ok b)
      × (view c'.broadcaster v ≡ view b u)
unfolding unsubscribe_all
unsubscribe_all-order c ids valid p =
    let (b1, v1, e1, q1) = unsubscribe_ids-view (ids_of c.sub_ids) c.broadcaster valid in
    let (b2, v2, e2, q2) = unsubscribe_ids-view ids c.broadcaster valid in
    (
      record c { broadcaster = b1; sub_ids = [] },
      b2,
      v1,
      v2,
      rw e1 refl,
      e2,
      sym q1 ∙ unsubscribe_views-Perm (ids_of c.sub_ids) ids p (view c.broadcaster valid) ∙ q2,
    )
