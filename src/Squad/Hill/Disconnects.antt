-- ===== src/Squad/Hill/Disconnects.antt =====
-- Leaves and disconnects of a squad's game (squad.gateway.ts).
use swafri_backend.Common.{
  ℕ, ◌+◌, ◌≤◌, ◌≡◌, ◌≢◌, refl, ◌∙◌, inl, inr, Bool, true, false, not, ◌&&◌, Option, none, some,
  List, [], ◌∷◌, ◌++◌, ◌==◌, any, filter, remove_first, length, length-append, arith, Bool-cases,
}
use swafri_backend.Game.Room.{Players}
use swafri_backend.Squad.Hill.{
  SquadGameState, handle_match_end, has_socket, has_user_id, forfeit_to, champion_gone,
  challenger_gone, handle_player_disconnect, leave_queue, try_start_match, rotate, seat,
  start_squad_match,
}
use swafri_backend.Squad.Hill.Rotation.{optional, participants}
use swafri_backend.Squad.Hill.Queueing.{
  HasUsers, times, times-append, IsHill, handle_match_end-times, handle_match_end-IsHill,
}

module _ (user_of : ℕ → ℕ) (players : Players) (known : HasUsers user_of players) where
  pub times-any :
      (u : ℕ) (queue : List ℕ)
      → any (λ q. (players q).user_id == u) queue ≡ false
      → times user_of u queue ≡ 0
  times-any u [] h = refl
  times-any u (q ∷ queue) h = ground (arith, times-any u queue, known q)

  pub times-has_user_id :
      (u : ℕ) (seat : Option ℕ)
      → has_user_id players u seat ≡ false
      → times user_of u (optional seat) ≡ 0
  times-has_user_id u none h = refl
  times-has_user_id u (some r) h = ground (arith, known r)

  pub times-participants :
      (u : ℕ) (s : SquadGameState)
      → times user_of u (participants s)
        ≡ times user_of u (optional s.champion)
          + (times user_of u (optional s.challenger) + times user_of u s.queue)
  times-participants u s = omega (
    arith,
    times-append user_of u (optional s.champion) (optional s.challenger ++ s.queue),
    times-append user_of u (optional s.challenger) s.queue,
  )

  -- Taking some entries out of the queue.
  shorter-IsHill :
      (s : SquadGameState) (queue : List ℕ)
      → length queue ≤ length s.queue
      → ((u : ℕ) → times user_of u queue ≤ times user_of u s.queue)
      → IsHill user_of s
      → IsHill user_of (record s { queue = queue })
  shorter-IsHill s queue short fewer i = record {
    settled = record {
      playing = i.settled.playing;
      waiting = λ h.
          let (free, len) = i.settled.waiting h in
          (
            free,
            omega (
              arith,
              len,
              short,
              length-append (optional s.champion) (optional s.challenger ++ queue),
              length-append (optional s.challenger) queue,
              length-append (optional s.challenger) s.queue,
              length-append (optional s.champion) (optional s.challenger ++ s.queue),
            ),
          );
    };
    once = λ u. omega (
      arith,
      i.once u,
      fewer u,
      times-participants u s,
      times-participants u (record s { queue = queue }),
    );
  }

  length-remove_first : (p : ℕ → Bool) (xs : List ℕ) → length (remove_first p xs) ≤ length xs
  length-remove_first p [] = omega arith
  length-remove_first p (x ∷ xs) = ground (arith, length-remove_first p xs)

  times-remove_first :
      (p : ℕ → Bool) (u : ℕ) (xs : List ℕ)
      → times user_of u (remove_first p xs) ≤ times user_of u xs
  times-remove_first p u [] = omega arith
  times-remove_first p u (x ∷ xs) = ground (arith, times-remove_first p u xs)

  length-filter : (p : ℕ → Bool) (xs : List ℕ) → length (filter p xs) ≤ length xs
  length-filter p [] = omega arith
  length-filter p (x ∷ xs) = ground (arith, length-filter p xs)

  times-filter :
      (p : ℕ → Bool) (u : ℕ) (xs : List ℕ) → times user_of u (filter p xs) ≤ times user_of u xs
  times-filter p u [] = omega arith
  times-filter p u (x ∷ xs) = ground (arith, times-filter p u xs)

  pub leave_queue-IsHill :
      (s : SquadGameState) (u : ℕ) → IsHill user_of s → IsHill user_of (leave_queue players s u)
  unfolding leave_queue
  leave_queue-IsHill s u i =
      let keep : ℕ → Bool = λ q. not ((players q).user_id == u) in
      shorter-IsHill s (filter keep s.queue) (length-filter keep s.queue)
        (λ v. times-filter keep v s.queue) i

  forfeit_to-IsHill :
      (s : SquadGameState) (seat : Option ℕ)
      → IsHill user_of s
      → IsHill user_of (forfeit_to players s seat).0
  unfolding forfeit_to
  forfeit_to-IsHill s none i = i
  forfeit_to-IsHill s (some r) i =
      handle_match_end-IsHill user_of players s (some (players r).user_id) i

  champion_gone-IsHill :
      (s : SquadGameState) (socket_id : ℕ)
      → IsHill user_of s
      → IsHill user_of (champion_gone players s socket_id).0
  unfolding champion_gone
  champion_gone-IsHill s socket_id i =
      elim (Bool-cases (has_socket players socket_id s.champion && s.is_match_in_progress)) [
        | inl a ↦ rw (a, champion_gone) (forfeit_to-IsHill s s.challenger i)
        | inr a ↦ rw (a, champion_gone) i
      ]

  challenger_gone-IsHill :
      (s : SquadGameState) (socket_id : ℕ)
      → IsHill user_of s
      → IsHill user_of (challenger_gone players s socket_id).0
  unfolding challenger_gone
  challenger_gone-IsHill s socket_id i =
      elim (Bool-cases (has_socket players socket_id s.challenger && s.is_match_in_progress)) [
        | inl a ↦ rw (a, challenger_gone) (forfeit_to-IsHill s s.champion i)
        | inr a ↦ rw (a, challenger_gone) i
      ]

  pub handle_player_disconnect-IsHill :
      (s : SquadGameState) (socket_id : ℕ)
      → IsHill user_of s
      → IsHill user_of (handle_player_disconnect players s socket_id).0
  unfolding handle_player_disconnect
  handle_player_disconnect-IsHill s socket_id i =
      let gone : ℕ → Bool = λ r. (players r).socket_id == socket_id in
      elim (Bool-cases (any gone s.queue)) [
        | inl a ↦
            rw (a, handle_player_disconnect)
              (shorter-IsHill s (remove_first gone s.queue) (length-remove_first gone s.queue)
                (λ v. times-remove_first gone v s.queue) i)
        | inr a ↦
            rw (a, handle_player_disconnect)
              (challenger_gone-IsHill (champion_gone players s socket_id).0 socket_id
                (champion_gone-IsHill s socket_id i))
      ]

module _ (user_of : ℕ → ℕ) (u : ℕ) (players : Players) where
  forfeit_to-times :
      (s : SquadGameState) (seat : Option ℕ)
      → times user_of u (participants (forfeit_to players s seat).0)
        ≡ times user_of u (participants s)
  unfolding forfeit_to
  forfeit_to-times s none = refl
  forfeit_to-times s (some r) =
      handle_match_end-times user_of players s (some (players r).user_id) u

  champion_gone-times :
      (s : SquadGameState) (socket_id : ℕ)
      → times user_of u (participants (champion_gone players s socket_id).0)
        ≡ times user_of u (participants s)
  unfolding champion_gone
  champion_gone-times s socket_id =
      elim (Bool-cases (has_socket players socket_id s.champion && s.is_match_in_progress)) [
        | inl a ↦ rw (a, champion_gone) (forfeit_to-times s s.challenger)
        | inr a ↦ rw (a, champion_gone) refl
      ]

  challenger_gone-times :
      (s : SquadGameState) (socket_id : ℕ)
      → times user_of u (participants (challenger_gone players s socket_id).0)
        ≡ times user_of u (participants s)
  unfolding challenger_gone
  challenger_gone-times s socket_id =
      elim (Bool-cases (has_socket players socket_id s.challenger && s.is_match_in_progress)) [
        | inl a ↦ rw (a, challenger_gone) (forfeit_to-times s s.champion)
        | inr a ↦ rw (a, challenger_gone) refl
      ]

  -- A disconnect of a socket that no waiting player has takes nobody out of the game: every user has
  -- as many entries among the champion, the challenger and the queue as before, also the user who
  -- disconnected while playing.
  pub handle_player_disconnect-times :
      (s : SquadGameState) (socket_id : ℕ)
      → any (λ r. (players r).socket_id == socket_id) s.queue ≡ false
      → times user_of u (participants (handle_player_disconnect players s socket_id).0)
        ≡ times user_of u (participants s)
  unfolding handle_player_disconnect
  handle_player_disconnect-times s socket_id h =
      rw (h, handle_player_disconnect)
        (challenger_gone-times (champion_gone players s socket_id).0 socket_id
          ∙ champion_gone-times s socket_id)

-- Two players, with different users and sockets, and nobody waits: when the champion disconnects
-- during the match, the challenger becomes the champion and two rooms are asked for at once, both
-- against the player who has just disconnected.
pub handle_player_disconnect_alone :
    (players : Players) (s : SquadGameState) (c d : ℕ)
    → s.champion ≡ some c
    → s.challenger ≡ some d
    → s.queue ≡ []
    → s.is_match_in_progress ≡ true
    → (players c).user_id ≢ (players d).user_id
    → (players c).socket_id ≢ (players d).socket_id
    → (players d).user_id ≢ 0
    → let (t, starts) = handle_player_disconnect players s (players c).socket_id in
      (t.champion ≡ some d) × (t.challenger ≡ some c) × (starts ≡ (d, c) ∷ (d, c) ∷ [])
unfolding handle_player_disconnect champion_gone challenger_gone forfeit_to handle_match_end rotate
    try_start_match seat start_squad_match
handle_player_disconnect_alone players s c d champion challenger queue playing users sockets named =
    rw
      (
        champion, challenger, queue, playing, handle_player_disconnect, champion_gone,
        challenger_gone,
      )
      (ground arith)
