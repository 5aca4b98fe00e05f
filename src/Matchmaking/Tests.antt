-- ===== src/Matchmaking/Tests.antt =====
-- Tests of matchmaking, and the theorems at concrete inputs.
use swafri_backend.Common.{◌≡◌, refl, true, none, [], ◌∷◌, ◌++◌, arith}
use swafri_backend.Game.Room.{Players, new_player, create_room}
use swafri_backend.Game.Room.Service.{new_service}
use swafri_backend.Matchmaking.{
  QueueEntry, join_queue, take_pair, finish_match, Matchmaking, handle_join, resume_join,
}
use swafri_backend.Matchmaking.Pairing.{
  new_matchmaking, Reach, start, next, join, resume, IsPaired, Reach-IsPaired, handle_join_twice,
}

abbrev nobody : Players
nobody q = record {
  user_id = 0;
  username = "";
  socket_id = 0;
  wallet_address = none;
  wallet_verified_at = none;
  move = none;
}

abbrev idle : Matchmaking
unfolding new_matchmaking new_service
idle = new_matchmaking nobody

abbrev one : Matchmaking
unfolding idle handle_join join_queue take_pair
one = (handle_join idle 11 1 "alice" 100).0

abbrev two : Matchmaking
unfolding one
two = (handle_join one 12 2 "bob" 101).0

abbrev alice : QueueEntry
alice = record { user_id = 1; username = "alice"; socket_id = 11; joined_at = 100 }

abbrev bob : QueueEntry
bob = record { user_id = 2; username = "bob"; socket_id = 12; joined_at = 101 }

two_is_paired : (two.pending ≡ (alice, bob) ∷ []) × (two.queue ≡ [])
unfolding two
two_is_paired = (refl, refl)

abbrev made : Matchmaking
unfolding two resume_join finish_match create_room new_player
made = (resume_join two [] (alice, bob) [] none none 10 20 102 true true true).0

made-Reach : Reach made
unfolding made
made-Reach =
    next {s = two}
      (next {s = one} (next {s = idle} (start nobody) (join 11 1 "alice" 100))
        (join 12 2 "bob" 101))
      (resume [] (alice, bob) [] none none 10 20 102 true true true refl refl)

Reach-IsPaired_example : IsPaired made
Reach-IsPaired_example = Reach-IsPaired made-Reach

handle_join_twice_example : (two.queue ≡ []) × (two.pending ≡ [] ++ (alice, bob) ∷ [])
unfolding two
handle_join_twice_example =
    handle_join_twice idle 11 1 "alice" 100 12 2 "bob" 101 refl (omega arith)
