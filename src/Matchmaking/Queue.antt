-- ===== src/Matchmaking/Queue.antt =====
-- The queue of matchmaking.service.ts.
use swafri_backend.Common.{
  All, ap, ℕ, ◌+◌, ◌≤◌, ◌≡◌, refl, ◌≢◌, false, ◌||◌, List, [], ◌∷◌, ◌++◌, ◌==◌, if◌then◌else◌, any,
  any-append, length, length-append, arith,
}
use swafri_backend.Matchmaking.{
  QueueEntry, is_user, is_in_queue, join_queue, leave_queue, Pair, take_pair,
}

-- No user stands in the queue twice.
abbrev pub HasDistinctUsers : List QueueEntry → Type 0
HasDistinctUsers [] = Unit {0}
HasDistinctUsers (e ∷ queue) = (any (is_user e.user_id) queue ≡ false) × HasDistinctUsers queue

snoc-HasDistinctUsers :
    (e : QueueEntry) (queue : List QueueEntry)
    → any (is_user e.user_id) queue ≡ false
    → HasDistinctUsers queue
    → HasDistinctUsers (queue ++ e ∷ [])
snoc-HasDistinctUsers e [] h d = (refl, tt)
snoc-HasDistinctUsers e (x ∷ queue) h (a, d) = (
  ground (arith, any-append (is_user x.user_id) queue (e ∷ [])),
  snoc-HasDistinctUsers e queue (ground arith) d,
)

pub join_queue-HasDistinctUsers :
    (e : QueueEntry) (queue : List QueueEntry)
    → HasDistinctUsers queue
    → HasDistinctUsers (join_queue e queue)
unfolding join_queue
join_queue-HasDistinctUsers e queue d = ground (arith, snoc-HasDistinctUsers e queue)

any_of_remove_first :
    (i j : ℕ) (queue : List QueueEntry)
    → any (is_user i) queue ≡ false
    → any (is_user i) (leave_queue j queue) ≡ false
unfolding leave_queue
any_of_remove_first i j [] h = refl
any_of_remove_first i j (e ∷ queue) h = ground (arith, any_of_remove_first i j queue)

pub leave_queue-HasDistinctUsers :
    (user_id : ℕ) (queue : List QueueEntry)
    → HasDistinctUsers queue
    → HasDistinctUsers (leave_queue user_id queue)
unfolding leave_queue
leave_queue-HasDistinctUsers user_id [] d = tt
leave_queue-HasDistinctUsers user_id (e ∷ queue) (a, d) = ground (
  arith,
  any_of_remove_first e.user_id user_id queue,
  leave_queue-HasDistinctUsers user_id queue d,
)

-- After a user leaves a queue in which no user stands twice, the user is not in it, and every other
-- user stands in it exactly if before.
pub is_in_queue-leave_queue :
    (user_id asked : ℕ) (queue : List QueueEntry)
    → HasDistinctUsers queue
    → is_in_queue asked (leave_queue user_id queue)
      ≡ (if asked == user_id then false else is_in_queue asked queue)
unfolding is_in_queue leave_queue
is_in_queue-leave_queue user_id asked [] d = ground arith
is_in_queue-leave_queue user_id asked (e ∷ queue) (a, d) =
    ground (arith, is_in_queue-leave_queue user_id asked queue d)

pub is_in_queue-join_queue :
    (asked : ℕ) (e : QueueEntry) (queue : List QueueEntry)
    → is_in_queue asked (join_queue e queue) ≡ (e.user_id == asked || is_in_queue asked queue)
unfolding is_in_queue join_queue
is_in_queue-join_queue asked e queue = ground (arith, any-append (is_user asked) queue (e ∷ []))

-- The entries of the pairs, first taken first.
abbrev pub entries : List Pair → List QueueEntry
entries [] = []
entries ((p1, p2) ∷ pairs) = p1 ∷ p2 ∷ entries pairs

pub take_pair-entries :
    (queue : List QueueEntry) → entries (take_pair queue).0 ++ (take_pair queue).1 ≡ queue
unfolding take_pair
take_pair-entries [] = refl
take_pair-entries (e ∷ []) = refl
take_pair-entries (p1 ∷ p2 ∷ queue) = refl

pub entries-append : (ps qs : List Pair) → entries (ps ++ qs) ≡ entries ps ++ entries qs
entries-append [] qs = refl
entries-append ((p1, p2) ∷ ps) qs = ap (λ l. p1 ∷ p2 ∷ l) (entries-append ps qs)

-- Of a queue in which no user stands twice, a pair that is taken is of two users, and what is left
-- repeats none; from a queue of at most two entries at most one is left, and after a pair none.
pub take_pair-HasDistinctUsers :
    (queue : List QueueEntry)
    → HasDistinctUsers queue
    → All (λ (p : Pair). p.0.user_id ≢ p.1.user_id) (take_pair queue).0
      × HasDistinctUsers (take_pair queue).1
unfolding take_pair
take_pair-HasDistinctUsers [] d = (tt, tt)
take_pair-HasDistinctUsers (e ∷ []) d = (tt, d)
take_pair-HasDistinctUsers (p1 ∷ p2 ∷ queue) (a, (b, d)) = ((ground arith, tt), d)

pub length-take_pair : (queue : List QueueEntry) → length queue ≤ 2 → length (take_pair queue).1 ≤ 1
unfolding take_pair
length-take_pair [] h = omega arith
length-take_pair (e ∷ []) h = omega arith
length-take_pair (p1 ∷ p2 ∷ queue) h = omega arith

pub length-join_queue :
    (e : QueueEntry) (queue : List QueueEntry) → length (join_queue e queue) ≤ length queue + 1
unfolding join_queue
length-join_queue e queue = ground (arith, length-append queue (e ∷ []))

pub length-leave_queue :
    (user_id : ℕ) (queue : List QueueEntry) → length (leave_queue user_id queue) ≤ length queue
unfolding leave_queue
length-leave_queue user_id [] = omega arith
length-leave_queue user_id (e ∷ queue) = ground (arith, length-leave_queue user_id queue)
