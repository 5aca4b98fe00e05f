-- ===== src/Squad/Hill/Reachability.antt =====
-- A squad's game under any sequence of joins, leaves, match ends and disconnects (squad.gateway.ts).
use swafri_backend.Common.{
  ℕ, ◌≤◌, ◌≡◌, refl, subst, inl, inr, false, ◌||◌, Option, some, [], ◌∷◌, ◌++◌, ◌==◌, any, arith,
  Bool-cases,
}
use swafri_backend.Game.Room.{Players}
use swafri_backend.Squad.Hill.{
  SquadGameState, Starts, empty_state, handle_match_end, has_user_id, handle_player_disconnect,
  leave_queue, join_queue, try_start_match,
}
use swafri_backend.Squad.Hill.Rotation.{participants}
use swafri_backend.Squad.Hill.Queueing.{
  HasUsers, times, times-append, IsHill, IsOpen, handle_match_end-IsHill, try_start_match-times,
  try_start_match-IsSettled,
}
use swafri_backend.Squad.Hill.Disconnects.{
  times-participants, times-any, times-has_user_id, leave_queue-IsHill,
  handle_player_disconnect-IsHill,
}

module _ (user_of : ℕ → ℕ) (players : Players) (known : HasUsers user_of players) where
  -- The state with the new entry, before `tryStartMatch`.
  abbrev queued : SquadGameState → ℕ → SquadGameState
  queued s r = record s { queue = s.queue ++ r ∷ [] }

  queued-once :
      (s : SquadGameState) (r : ℕ)
      → IsHill user_of s
      → (any (λ q. (players q).user_id == (players r).user_id) s.queue
          || has_user_id players (players r).user_id s.champion
          || has_user_id players (players r).user_id s.challenger)
        ≡ false
      → (u : ℕ) → times user_of u (participants (queued s r)) ≤ 1
  queued-once s r i new u = ground (
    arith,
    i.once u,
    times-participants user_of players known u s,
    times-participants user_of players known u (queued s r),
    times-append user_of u s.queue (r ∷ []),
    known r,
    times-any user_of players known (players r).user_id s.queue,
    times-has_user_id user_of players known (players r).user_id s.champion,
    times-has_user_id user_of players known (players r).user_id s.challenger,
  )

  join_queue-IsHill :
      (s : SquadGameState) (r : ℕ) (t : SquadGameState × Starts)
      → join_queue players s r ≡ some t
      → IsHill user_of s
      → IsHill user_of t.0
  unfolding join_queue
  join_queue-IsHill s r t h i =
      elim (Bool-cases (
        any (λ q. (players q).user_id == (players r).user_id) s.queue
        || has_user_id players (players r).user_id s.champion
        || has_user_id players (players r).user_id s.challenger)) [
          | inl a ↦ absurd (ground (arith, a, h))
          | inr a ↦
              let o : IsOpen (queued s r) = record {
                busy = i.settled.playing;
                idle = λ w. (i.settled.waiting w).0;
              } in
              let e : try_start_match (queued s r) ≡ t = ground (arith, a, h) in
              subst (λ t. IsHill user_of t.0) e
                (record {
                  settled = try_start_match-IsSettled (queued s r) o;
                  once = λ u. omega (
                    arith,
                    try_start_match-times (queued s r) user_of u o,
                    queued-once s r i a u,
                  );
                })
        ]

-- Any sequence of operations; `user_of` is the user of every entry, which never changes.
pub data Reach (user_of : ℕ → ℕ) : SquadGameState → Type 0 where
  start : Reach user_of empty_state
  join :
      {s : SquadGameState} (players : Players) (r : ℕ) (t : SquadGameState × Starts)
      → HasUsers user_of players
      → join_queue players s r ≡ some t
      → Reach user_of s
      → Reach user_of t.0
  leave :
      {s : SquadGameState} (players : Players) (user_id : ℕ)
      → HasUsers user_of players
      → Reach user_of s
      → Reach user_of (leave_queue players s user_id)
  finish :
      {s : SquadGameState} (players : Players) (winner : Option ℕ)
      → HasUsers user_of players
      → Reach user_of s
      → Reach user_of (handle_match_end players s winner).0
  disconnect :
      {s : SquadGameState} (players : Players) (socket_id : ℕ)
      → HasUsers user_of players
      → Reach user_of s
      → Reach user_of (handle_player_disconnect players s socket_id).0

-- In whatever order users join and leave the queue of a squad, matches end (with any winner's id)
-- and sockets disconnect: while a match is on, champion and challenger are both there; while none
-- is, there is no challenger and at most one player in all; and no user ever has two places.
pub Reach-IsHill : {user_of : ℕ → ℕ} {s : SquadGameState} → Reach user_of s → IsHill user_of s
Reach-IsHill start = record {
  settled = record { playing = λ h. absurd (ground arith); waiting = λ _. (refl, omega arith) };
  once = λ u. omega arith;
}
Reach-IsHill {user_of} (join {s} players r t known h x) =
    join_queue-IsHill user_of players known s r t h (Reach-IsHill x)
Reach-IsHill {user_of} (leave {s} players user_id known x) =
    leave_queue-IsHill user_of players known s user_id (Reach-IsHill x)
Reach-IsHill {user_of} (finish {s} players winner known x) =
    handle_match_end-IsHill user_of players s winner (Reach-IsHill x)
Reach-IsHill {user_of} (disconnect {s} players socket_id known x) =
    handle_player_disconnect-IsHill user_of players known s socket_id (Reach-IsHill x)
