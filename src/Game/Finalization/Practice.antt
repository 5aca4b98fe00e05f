-- ===== src/Game/Finalization/Practice.antt =====
-- A match between two players without a verified wallet, in `finalizeMatch` of
-- src/modules/game/service/game.service.ts.
use swafri_backend.Common.{
  ℕ, ◌≡◌, refl, inl, inr, Bool, true, false, List, [], ◌∷◌, ◌∙◌, any, map, ◌==◌, ok, Bool-cases,
}
use swafri_backend.Effects.{
  Keeps, Keeps->>=, Keeps-if, Keeps-modify, Keeps-return, continue_with-ok,
}
use swafri_backend.Users.{User}
use swafri_backend.Records.{Match, attempt-reliable, update_match, change_match}
use swafri_backend.Achievement.{Criterion}
use swafri_backend.Game.Room.{PlayerState, GameRoom}
use swafri_backend.Game.Results.{is_verified}
use swafri_backend.Game.Finalization.{
  Arena, Encoded, finalize_match, finalize_practice, send_live, LiveMessage, connect_to_save,
  emit_all, live, with_result,
}

-- What such a match leaves alone: the users, the earned badges, the jobs and the queues of the squads.
pub record IsUnsaved (s t : Arena) : Type 0 where
  pub same_users : t.records.users ≡ s.records.users
  pub same_earned : t.records.earned ≡ s.records.earned
  pub same_jobs : t.records.jobs ≡ s.records.jobs
  pub same_squads : t.squads.squad_game_states ≡ s.squads.squad_game_states
  pub same_starts : t.squads.starting ≡ s.squads.starting

Keeps-send_live :
    (s : Arena) (connected : ℕ → Bool) (p : PlayerState) (message : LiveMessage)
    → Keeps (IsUnsaved s) (send_live connected p message)
Keeps-send_live s connected p message =
    Keeps-if (connected p.socket_id)
      (Keeps-modify (emit_all (live p.socket_id message ∷ [])) (λ t h. record {
        same_users = h.same_users;
        same_earned = h.same_earned;
        same_jobs = h.same_jobs;
        same_squads = h.same_squads;
        same_starts = h.same_starts;
      }))
      (Keeps-return tt)

send_live-ok :
    (connected : ℕ → Bool) (p : PlayerState) (message : LiveMessage) (s : Arena)
    → (send_live connected p message s).1 ≡ ok tt
send_live-ok connected p message s = elim (Bool-cases (connected p.socket_id)) [
  | inl a ↦ rw a refl
  | inr a ↦ rw a refl
]

practice-IsUnsaved :
    (connected : ℕ → Bool) (p1 p2 : PlayerState) (s t : Arena)
    → IsUnsaved s t
    → IsUnsaved s ((finalize_practice connected p1 p2 t).0)
unfolding finalize_practice
practice-IsUnsaved connected p1 p2 s t h =
    (Keeps->>= (Keeps-send_live s connected p1 connect_to_save)
        (λ _. Keeps-send_live s connected p2 connect_to_save)).kept
      t h

practice_ok :
    (connected : ℕ → Bool) (p1 p2 : PlayerState) (s : Arena)
    → (finalize_practice connected p1 p2 s).1 ≡ ok tt
unfolding finalize_practice
practice_ok connected p1 p2 s =
    rw
      (continue_with-ok (λ (_ : Unit {0}). send_live connected p2 connect_to_save)
        (send_live connected p1 connect_to_save s) tt (send_live-ok connected p1 connect_to_save s))
      (send_live-ok connected p2 connect_to_save _)

any-change_match :
    (id : ℕ) (change : Match → Match) (ms : List Match)
    → ((m : Match) → (change m).id ≡ m.id)
    → any (λ (m : Match). m.id == id) (map (change_match id change) ms)
      ≡ any (λ (m : Match). m.id == id) ms
any-change_match id change [] same = refl
any-change_match id change (m ∷ ms) same = elim (Bool-cases (m.id == id)) [
  | inl a ↦ rw (a, same m, a) refl
  | inr a ↦ rw (a, a, any-change_match id change ms same) refl
]

-- A match of two players without a verified wallet whose row exists, where the database takes
-- the writes, ends well and leaves the
-- users, the earned badges, the jobs and the games of the squads as they are; so a match that a
-- squad's queue has started stays in progress there.
pub finalize_match-IsUnsaved :
    (keccak : Encoded → ℕ) (other : User → Criterion → Bool) (connected : ℕ → Bool)
    (has_server : Bool) (now : ℕ) (room : GameRoom) (p1 p2 : PlayerState) (s : Arena)
    → is_verified p1 ≡ false
    → is_verified p2 ≡ false
    → any (λ (m : Match). m.id == room.match_id) s.records.matches ≡ true
    → s.records.refused ≡ []
    → ((finalize_match keccak other connected has_server now room p1 p2 s).1 ≡ ok tt)
      × IsUnsaved s ((finalize_match keccak other connected has_server now room p1 p2 s).0)
unfolding finalize_match update_match
finalize_match-IsUnsaved keccak other connected has_server now room p1 p2 s plain1 plain2 stored
      reliable =
    rw
      (
        attempt-reliable _ s.records reliable,
        stored,
        attempt-reliable _
            (record s.records {
              matches =
                  map (change_match room.match_id (with_result now room.winner_id))
                    s.records.matches;
            })
            reliable,
        still_stored,
        plain1,
        plain2,
      )
      (
        practice_ok connected p1 p2 _,
        practice-IsUnsaved connected p1 p2 s _ (record {
          same_users = refl;
          same_earned = refl;
          same_jobs = refl;
          same_squads = refl;
          same_starts = refl;
        }),
      )
  where
    still_stored :
        any
          (λ (m : Match). m.id == room.match_id)
          (map (change_match room.match_id (with_result now room.winner_id)) s.records.matches)
        ≡ true
    still_stored =
        any-change_match room.match_id (with_result now room.winner_id) s.records.matches
          (λ m. refl)
        ∙ stored
