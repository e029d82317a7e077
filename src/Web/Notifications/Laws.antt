-- ===== src/Web/Notifications/Laws.antt =====
-- What holds of the notification queue.
use messaging_system.Common.{
  ◌≡◌, refl, ◌≤◌, String, false, none, List, [], ◌∷◌, ◌++◌, arith, is_some, length, contains,
  IsDistinct, contains-append, IsDistinct-snoc, length-append, put, Dict, remove, eq_iff, eq_refl,
  Bool-cases, inl, inr, ltb,
}
use messaging_system.Web.Notifications.{
  InboundNotificationRow, NotificationsState, NotificationsAction, append_inbound,
  reset_notifications, notifications_reducer, notifications_initial_state, evict,
  append_inbound_notification, notification_id, ParsedNotificationPayload,
}

abbrev pub row_ids : List InboundNotificationRow → List String
row_ids [] = []
row_ids (r ∷ rs) = r.notification_id ∷ row_ids rs

-- The seen ids are those of the rows, each standing once.
pub record IsIndexed (s : NotificationsState) : Type 0 where
  pub distinct : IsDistinct (row_ids s.inbound)
  pub indexed : (k : String) → is_some (s.seen_notification_ids k) ≡ contains k (row_ids s.inbound)

pub record IsQueue (s : NotificationsState) : Type 0 where
  pub index : IsIndexed s
  pub bounded : length s.inbound ≤ 100

row_ids-append :
    (xs ys : List InboundNotificationRow) → row_ids (xs ++ ys) ≡ row_ids xs ++ row_ids ys
row_ids-append [] ys = refl
row_ids-append (x ∷ xs) ys = rw (row_ids-append xs ys) refl

remove-indexed :
    (r : InboundNotificationRow) (rs : List InboundNotificationRow) (seen : Dict {0} Unit)
    → contains r.notification_id (row_ids rs) ≡ false
    → ((k : String) → is_some (seen k) ≡ contains k (row_ids (r ∷ rs)))
    → (k : String) → is_some (remove r.notification_id seen k) ≡ contains k (row_ids rs)
unfolding contains
remove-indexed r rs seen e h k = ground (arith, h k, eq_iff r.notification_id k)

evict-IsQueue :
    (rows : List InboundNotificationRow) (seen : Dict {0} Unit)
    → IsIndexed (record { inbound = rows; seen_notification_ids = seen })
    → IsQueue (evict rows seen)
unfolding evict
evict-IsQueue [] seen h = record { index = h; bounded = omega arith }
evict-IsQueue (r ∷ rs) seen h = elim (Bool-cases (ltb 100 (length (r ∷ rs)))) [
  | inl e ↦ rw e (
      evict-IsQueue rs (remove r.notification_id seen) (record {
        distinct = h.distinct.1;
        indexed = remove-indexed r rs seen h.distinct.0 h.indexed;
      }))
  | inr e ↦ rw e (record { index = h; bounded = ground arith })
]

append-IsIndexed :
    (row : InboundNotificationRow) (s : NotificationsState)
    → IsIndexed s
    → is_some (s.seen_notification_ids row.notification_id) ≡ false
    → IsIndexed (record {
      inbound = s.inbound ++ row ∷ [];
      seen_notification_ids = put row.notification_id tt s.seen_notification_ids;
    })
unfolding contains
append-IsIndexed row s h e = record {
  distinct = rw (row_ids-append s.inbound (row ∷ [])) (
      IsDistinct-snoc row.notification_id (row_ids s.inbound) h.distinct
        (ground (arith, h.indexed row.notification_id)));
  indexed = λ k.
      rw
        (
          row_ids-append s.inbound (row ∷ []),
          contains-append k (row_ids s.inbound) (row.notification_id ∷ []),
        )
        (ground (arith, h.indexed k, eq_iff row.notification_id k));
}

append_inbound-IsQueue :
    (now : String) (payload : ParsedNotificationPayload) (s : NotificationsState)
    → IsQueue s
    → IsQueue (append_inbound_notification now payload s)
unfolding append_inbound_notification
append_inbound-IsQueue now payload s h =
    elim (Bool-cases (is_some (s.seen_notification_ids (notification_id payload)))) [
      | inl e ↦ rw e h
      | inr e ↦ rw e (
          evict-IsQueue _ _ (
            append-IsIndexed
              (record {
                notification_id = notification_id payload;
                received_at = now;
                payload = payload;
              })
              s h.index e))
    ]

unfoldable pub run_notifications :
    List NotificationsAction → NotificationsState → NotificationsState
run_notifications [] s = s
run_notifications (a ∷ acts) s = run_notifications acts (notifications_reducer a s)

initial-IsQueue : IsQueue notifications_initial_state
unfolding contains
initial-IsQueue = record {
  index = record { distinct = tt; indexed = λ _. refl };
  bounded = omega arith;
}

run_notifications_from-IsQueue :
    (acts : List NotificationsAction) (s : NotificationsState)
    → IsQueue s
    → IsQueue (run_notifications acts s)
unfolding run_notifications notifications_reducer
run_notifications_from-IsQueue [] s h = h
run_notifications_from-IsQueue (append_inbound now p ∷ acts) s h =
    run_notifications_from-IsQueue acts _ (append_inbound-IsQueue now p s h)
run_notifications_from-IsQueue (reset_notifications ∷ acts) s h =
    run_notifications_from-IsQueue acts notifications_initial_state initial-IsQueue

-- After any actions the queue holds at most 100 rows, no notification id twice, and the seen ids
-- are those of the rows in the queue.
pub run_notifications-IsQueue :
    (acts : List NotificationsAction) → IsQueue (run_notifications acts notifications_initial_state)
run_notifications-IsQueue acts =
    run_notifications_from-IsQueue acts notifications_initial_state initial-IsQueue

evict-short :
    (rows : List InboundNotificationRow) (seen : Dict {0} Unit)
    → length rows ≤ 100
    → evict rows seen ≡ record { inbound = rows; seen_notification_ids = seen }
unfolding evict
evict-short [] seen h = refl
evict-short (r ∷ rs) seen h = ground arith

-- When the queue holds 100 rows, an accepted notification evicts the oldest row and puts its own
-- at the end, and the id of the evicted row is no longer among the seen ids, so that the evicted
-- notification would be accepted again.
pub append_inbound-evicts :
    (now : String) (p : ParsedNotificationPayload) (s : NotificationsState)
    (oldest : InboundNotificationRow) (rest : List InboundNotificationRow)
    → s.inbound ≡ oldest ∷ rest
    → length s.inbound ≡ 100
    → is_some (s.seen_notification_ids (notification_id p)) ≡ false
    → ((append_inbound_notification now p s).inbound
        ≡ rest
          ++ record { notification_id = notification_id p; received_at = now; payload = p } ∷ [])
      × ((append_inbound_notification now p s).seen_notification_ids oldest.notification_id ≡ none)
unfolding append_inbound_notification evict
append_inbound-evicts now p s oldest rest e n h =
    let row : InboundNotificationRow = record {
      notification_id = notification_id p;
      received_at = now;
      payload = p;
    } in
    rw (h, e)
      (ground (
        arith,
        length-append rest (row ∷ []),
        eq_refl oldest.notification_id,
        evict-short (rest ++ row ∷ [])
            (remove oldest.notification_id (put (notification_id p) tt s.seen_notification_ids))
            (ground (arith, length-append rest (row ∷ []))),
      ))
