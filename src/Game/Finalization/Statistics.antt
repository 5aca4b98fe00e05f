-- ===== src/Game/Finalization/Statistics.antt =====
-- The columns of statistics, over everything that `finalizeMatch` of
-- src/modules/game/service/game.service.ts writes to the users.
use swafri_backend.Common.{
  ℕ, ◌*◌, inl, inr, Bool, true, false, ◌||◌, Option, none, some, List, [], ◌∷◌, ◌==◌, ltb, length,
  any, Bool-cases,
}
use swafri_backend.Effects.{
  Run, Keeps, Keeps-return, Keeps-read, Keeps-modify, Keeps->>=, Keeps-if, Keeps-together,
}
use swafri_backend.Users.{User, find_user}
use swafri_backend.Records.{
  Records, Match, Achievement, Job, update_match, add_job, create_earned, is_pair, has_earned,
}
use swafri_backend.Achievement.{
  Criterion, Awarded, mint_for, award, award_each, award_found, check_and_award, evaluate,
}
use swafri_backend.Game.Room.{PlayerState, GameRoom}
use swafri_backend.Game.Results.{is_verified, is_verified_in, loser_of, player_of}
use swafri_backend.Game.Finalization.{
  Arena, Encoded, on_records, finalize_match, finalize_saved, finalize_practice, send_live,
  hint_unverified, award_verified, pay, LiveMessage, connect_to_save, won_unsaved,
  connect_for_history, emit_all, badges_to, live, show_board, tell_squads, store_hash, match_hash,
  with_result, with_on_chain_hash, job_of,
}
use swafri_backend.Game.Results.Soundness.{IsSoundTable, sound_bonus}
use swafri_backend.Game.Results.Writes.{
  Keeps-attempt, Keeps-update_unit, Keeps-when, Keeps-save_result,
}

abbrev pub IsSoundArena : (reliable : Bool) → Arena → Type 0
IsSoundArena reliable s = IsSoundTable reliable s.records

module _ (reliable : Bool) where
  Keeps-create_earned : (user_id id : ℕ) → Keeps (IsSoundTable reliable) (create_earned user_id id)
  unfolding create_earned
  Keeps-create_earned user_id id = Keeps-attempt reliable _ (record {
    kept = λ s h. elim (Bool-cases (has_earned s user_id id)) [ inl a ↦ rw a h | inr a ↦ rw a h ];
  })

  Keeps-mint_for :
      (u : User) (name : ℕ) (wallet verified : Option ℕ)
      → Keeps (IsSoundTable reliable) (mint_for u name wallet verified)
  unfolding add_job
  Keeps-mint_for u name none verified = Keeps-return tt
  Keeps-mint_for u name (some address) none = Keeps-return tt
  Keeps-mint_for u name (some address) (some at) =
      Keeps-if (address == 0) (Keeps-return tt) (record { kept = λ s h. h })

  Keeps-award : (u : User) (a : Achievement) → Keeps (IsSoundTable reliable) (award u a)
  Keeps-award u a =
      Keeps->>= (Keeps-create_earned u.id a.id)
        (λ _. Keeps-mint_for u a.name u.wallet_address u.wallet_verified_at)

  module _ (other : User → Criterion → Bool) where
    Keeps-award_each :
        (u : User) (earned : List (ℕ × ℕ)) (badges : List Achievement)
        → Keeps (IsSoundTable reliable) (award_each other u earned badges)
    unfolding award_each
    Keeps-award_each u earned [] = Keeps-return []
    Keeps-award_each u earned (a ∷ rest) =
        let later = Keeps-award_each u earned rest in
        Keeps-if (any (is_pair u.id a.id) earned) later (
          Keeps-if (evaluate other a.criteria u)
            (Keeps->>= (Keeps-award u a)
              (λ _. Keeps->>= later (λ names. Keeps-return (a.name ∷ names))))
            later)

    Keeps-award_found :
        (found : Option User) → Keeps (IsSoundTable reliable) (award_found other found)
    Keeps-award_found none = record { kept = λ s h. h }
    Keeps-award_found (some u) = record {
      kept = λ s h. (Keeps-award_each u s.earned s.achievements).kept s h;
    }

    Keeps-check_and_award :
        (user_id : ℕ) → Keeps (IsSoundTable reliable) (check_and_award other user_id)
    unfolding check_and_award
    Keeps-check_and_award user_id =
        Keeps->>= (Keeps-read (λ s. find_user s.users user_id)) (λ found.
          Keeps->>= (Keeps-award_found found) (λ badges.
            Keeps-return (record { badges = badges; bonus_points = length badges * 20 })))

    Keeps-award_verified :
        (p : PlayerState) → Keeps (IsSoundTable reliable) (award_verified other p)
    Keeps-award_verified p =
        Keeps-if (is_verified p)
          (Keeps->>= (Keeps-check_and_award p.user_id) (λ a. Keeps-return (some a)))
          (Keeps-return none)

  Keeps-on_records {ℓ} :
      {A : Type ℓ} {run : Run Records A}
      → Keeps (IsSoundTable reliable) run
      → Keeps (IsSoundArena reliable) (on_records run)
  Keeps-on_records keeps = record { kept = λ s h. keeps.kept s.records h }

  Keeps-update_match :
      (id : ℕ) (change : Match → Match) → Keeps (IsSoundTable reliable) (update_match id change)
  unfolding update_match
  Keeps-update_match id change = Keeps-attempt reliable _ (record {
    kept = λ s h. elim (Bool-cases (any (λ (m : Match). m.id == id) s.matches)) [
      | inl a ↦ rw a h
      | inr a ↦ rw a h
    ];
  })

  Keeps-add_job : (job : Job) → Keeps (IsSoundTable reliable) (add_job job)
  unfolding add_job
  Keeps-add_job job = record { kept = λ s h. h }

  Keeps-pay : (p : PlayerState) (a : Option Awarded) → Keeps (IsSoundArena reliable) (pay p a)
  Keeps-pay p none = Keeps-return tt
  Keeps-pay p (some a) =
      Keeps->>=
        (Keeps-on_records (
          Keeps-when reliable (ltb 0 a.bonus_points)
            (Keeps-update_unit reliable p.user_id _ (sound_bonus reliable a.bonus_points))))
        (λ _. Keeps-modify (emit_all (badges_to p.socket_id a.badges)) (λ s h. h))

  module _ (connected : ℕ → Bool) where
    Keeps-send_live :
        (p : PlayerState) (message : LiveMessage)
        → Keeps (IsSoundArena reliable) (send_live connected p message)
    Keeps-send_live p message =
        Keeps-if (connected p.socket_id)
          (Keeps-modify (emit_all (live p.socket_id message ∷ [])) (λ s h. h)) (Keeps-return tt)

    Keeps-hint_unverified :
        (p1 p2 : PlayerState) (winner : Option ℕ)
        → Keeps (IsSoundArena reliable) (hint_unverified connected p1 p2 winner)
    Keeps-hint_unverified p1 p2 none = Keeps-return tt
    Keeps-hint_unverified p1 p2 (some winner) =
        Keeps->>=
          (Keeps-if (is_verified_in p1 p2 winner) (Keeps-return tt)
            (Keeps-send_live (player_of p1 p2 winner) won_unsaved))
          (λ _.
            Keeps-if (is_verified_in p1 p2 (loser_of p1 p2 winner)) (Keeps-return tt)
              (Keeps-send_live (player_of p1 p2 (loser_of p1 p2 winner)) connect_for_history))

    Keeps-finalize_practice :
        (p1 p2 : PlayerState) → Keeps (IsSoundArena reliable) (finalize_practice connected p1 p2)
    unfolding finalize_practice
    Keeps-finalize_practice p1 p2 =
        Keeps->>= (Keeps-send_live p1 connect_to_save) (λ _. Keeps-send_live p2 connect_to_save)

    Keeps-finalize_saved :
        (other : User → Criterion → Bool) (has_server : Bool) (room_id : ℕ) (p1 p2 : PlayerState)
        (winner : Option ℕ)
        → Keeps
            (IsSoundArena reliable)
            (finalize_saved other connected has_server room_id p1 p2 winner)
    unfolding finalize_saved
    Keeps-finalize_saved other has_server room_id p1 p2 winner =
        Keeps->>= (Keeps-on_records (Keeps-save_result reliable p1 p2 winner)) (λ _.
          Keeps->>= (Keeps-hint_unverified p1 p2 winner) (λ _.
            Keeps->>=
              (Keeps-on_records
                (Keeps-together (Keeps-award_verified other p1) (Keeps-award_verified other p2)))
              (λ awards. Keeps->>= (Keeps-pay p1 (awards.0)) (λ _.
                Keeps->>= (Keeps-pay p2 (awards.1)) (λ _.
                  Keeps->>= (Keeps-modify (show_board has_server) (shown has_server))
                    (λ _. Keeps-modify (tell_squads room_id winner) (λ s h. h)))))))
      where
        shown :
            (attached : Bool) (s : Arena)
            → IsSoundArena reliable s
            → IsSoundArena reliable (show_board attached s)
        shown false s h = h
        shown true s h = h

  -- The statistics of the users stay sound through the whole handling of a finished match, whether it
  -- ends well or throws half way. Each user has no more wins and losses than matches, ten points or more
  -- for each win, and a longest streak that is not above the wins. The streak is not above the longest one where the database takes every coming write
  -- (`reliable`); where any of the writes may be rejected, it is not above the wins: the second write of a
  -- win is what moves the longest streak.
  pub finalize_match-IsSoundArena :
      (keccak : Encoded → ℕ) (other : User → Criterion → Bool) (connected : ℕ → Bool)
      (has_server : Bool) (now : ℕ) (room : GameRoom) (p1 p2 : PlayerState) (s : Arena)
      → IsSoundArena reliable s
      → IsSoundArena reliable
          ((finalize_match keccak other connected has_server now room p1 p2 s).0)
  unfolding finalize_match
  finalize_match-IsSoundArena keccak other connected has_server now room p1 p2 s sound =
      keeps.kept s sound
    where
      hash : ℕ
      hash = match_hash keccak now room p1 p2

      keeps :
          Keeps
            (IsSoundArena reliable)
            (finalize_match keccak other connected has_server now room p1 p2)
      keeps =
          Keeps->>=
            (Keeps-on_records (Keeps-update_match room.match_id (with_result now room.winner_id)))
            (λ _. Keeps->>= (Keeps-modify (store_hash room.room_id hash) (λ s h. h)) (λ _.
              Keeps->>=
                (Keeps-on_records (Keeps-update_match room.match_id (with_on_chain_hash hash)))
                (λ _.
                  Keeps->>=
                    (Keeps-on_records (
                      Keeps-when reliable (is_verified p1 || is_verified p2)
                        (Keeps-add_job (job_of p1 p2 room hash))))
                    (λ _.
                      Keeps-if (is_verified p1 || is_verified p2)
                        (Keeps-finalize_saved connected other has_server room.room_id p1 p2
                          room.winner_id)
                        (Keeps-finalize_practice connected p1 p2)))))
