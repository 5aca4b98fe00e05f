-- ===== src/Notification/Reading.antt =====
-- Reading and marking the notifications of notification.service.ts.
use swafri_backend.Common.{
  ℕ, suc, ◌+◌, ◌≡◌, inl, inr, ◌&&◌, List, [], ◌∷◌, ◌==◌, if◌then◌else◌, arith, Bool-cases,
}
use swafri_backend.Notification.{Notification, is_unread_of, unread_count, mark_read, mark_all_read}

-- After a user marks all notifications as read, that user has none unread, and every other user has as
-- many as before.
pub unread_count-mark_all_read :
    (user_id asked : ℕ) (rows : List Notification)
    → unread_count asked (mark_all_read user_id rows)
      ≡ (if asked == user_id then 0 else unread_count asked rows)
unfolding unread_count mark_all_read
unread_count-mark_all_read user_id asked [] = ground arith
unread_count-mark_all_read user_id asked (n ∷ rows) = elim (Bool-cases n.read) [
  | inl a ↦ ground (arith, unread_count-mark_all_read user_id asked rows)
  | inr a ↦ ground (arith, unread_count-mark_all_read user_id asked rows)
]

-- Whether the user owns a notification with this identifier that is unread.
abbrev pub owns_unread : (id user_id : ℕ) → List Notification → ℕ
owns_unread id user_id [] = 0
owns_unread id user_id (n ∷ rows) =
    if n.id == id && is_unread_of user_id n
    then suc (owns_unread id user_id rows)
    else owns_unread id user_id rows

-- Marking one notification lowers the user's own unread count by the unread rows that have the
-- identifier and belong to the user; a notification of another user stays as it is, whoever names it.
pub unread_count-mark_read :
    (id user_id asked : ℕ) (rows : List Notification)
    → unread_count asked (mark_read id user_id rows)
        + (if asked == user_id then owns_unread id user_id rows else 0)
      ≡ unread_count asked rows
unfolding unread_count mark_read
unread_count-mark_read id user_id asked [] = ground arith
unread_count-mark_read id user_id asked (n ∷ rows) = elim (Bool-cases n.read) [
  | inl a ↦ ground (arith, unread_count-mark_read id user_id asked rows)
  | inr a ↦ ground (arith, unread_count-mark_read id user_id asked rows)
]
