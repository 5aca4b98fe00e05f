-- ===== src/Game/Results/Writes.antt =====
-- The writes that src/modules/game/service/game.service.ts makes for a result keep the statistics sound.
use swafri_backend.Common.{
  ℕ, ◌+◌, ◌≡◌, inl, inr, Bool, true, false, Option, none, some, ltb, arith, Bool-cases,
  Option-cases,
}
use swafri_backend.Effects.{Run, ◌>>◌, return, Keeps, Keeps-return, Keeps->>=, Keeps-together}
use swafri_backend.Users.{User, find_user, replace_user}
use swafri_backend.Users.Rows.{find_user-id, find_user-replace_user}
use swafri_backend.Records.{
  Records, next_refused, later_refused, asked, attempt, update_user, written,
}
use swafri_backend.Game.Room.{PlayerState}
use swafri_backend.Game.Results.{
  is_verified, is_verified_in, loser_of, after_win, after_loss, after_draw, when, save_win,
  save_loss, save_draw, save_result,
}
use swafri_backend.Game.Results.Soundness.{
  IsSoundUser, IsSoundTable, later-IsAnswering, All-find_user, All-replace_user, All-replace_twice,
  sound_win, sound_late, sound_longer, sound_loss, sound_draw,
}

pub Keeps-attempt {ℓ} :
    (reliable : Bool) {A : Type ℓ} (run : Run Records A)
    → Keeps (IsSoundTable reliable) run
    → Keeps (IsSoundTable reliable) (attempt run)
unfolding attempt
Keeps-attempt reliable run keeps = record {
  kept = λ s (h, answering).
      let next : IsSoundTable reliable (asked s) =
        (h, later-IsAnswering reliable s.refused answering) in
      elim (Bool-cases (next_refused s.refused)) [
        | inl a ↦ rw a next
        | inr a ↦ rw a (keeps.kept (asked s) next)
      ];
}

pub Keeps-update_user :
    (reliable : Bool) (id : ℕ) (change : User → User)
    → ((u : User) → IsSoundUser reliable u → IsSoundUser reliable (change u))
    → Keeps (IsSoundTable reliable) (update_user id change)
unfolding update_user
Keeps-update_user reliable id change good = Keeps-attempt reliable _ (record { kept = kept })
  where
    kept :
        (s : Records)
        → IsSoundTable reliable s
        → IsSoundTable reliable ((written s change (find_user s.users id)).0)
    kept s (h, answering) = elim (Option-cases (find_user s.users id)) [
      | inl a ↦ rw a (h, answering)
      | inr (u, a) ↦ rw a (
        All-replace_user (IsSoundUser reliable) (change u) s.users
            (good u (All-find_user (IsSoundUser reliable) s.users id u h a)) h,
        answering,
      )
    ]

pub Keeps-update_unit :
    (reliable : Bool) (id : ℕ) (change : User → User)
    → ((u : User) → IsSoundUser reliable u → IsSoundUser reliable (change u))
    → Keeps (IsSoundTable reliable) (update_user id change >> return (tt {0}))
Keeps-update_unit reliable id change good =
    Keeps->>= (Keeps-update_user reliable id change good) (λ _. Keeps-return tt)

pub Keeps-when :
    (reliable test : Bool) {run : Run Records (Unit {0})}
    → Keeps (IsSoundTable reliable) run
    → Keeps (IsSoundTable reliable) (when test run)
Keeps-when reliable true keeps = keeps
Keeps-when reliable false keeps = Keeps-return tt

-- Between the two writes of a win, and after the first where the second is rejected, the streak may be
-- above the longest one.
Keeps-save_win : (reliable : Bool) (winner : ℕ) → Keeps (IsSoundTable reliable) (save_win winner)
unfolding save_win update_user attempt
Keeps-save_win reliable winner = record { kept = kept }
  where
    row :
        (s : Records) (u : User)
        → find_user s.users winner ≡ some u
        → find_user (replace_user (after_win u) s.users) winner ≡ some (after_win u)
    row s u a = ground (
      arith,
      find_user-id s.users winner u a,
      find_user-replace_user (after_win u) u s.users winner,
    )

    kept : (s : Records) → IsSoundTable reliable s → IsSoundTable reliable ((save_win winner s).0)
    kept s (h, answering) =
        let next = later-IsAnswering reliable s.refused answering in
        elim (Bool-cases (next_refused s.refused)) [
          | inl r ↦ rw r (h, next)
          | inr r ↦ elim (Option-cases (find_user s.users winner)) [
            | inl a ↦ rw (r, a) (h, next)
            | inr (u, a) ↦
                let sound = All-find_user (IsSoundUser reliable) s.users winner u h a in
                elim (Bool-cases (ltb u.longest_streak (u.current_streak + 1))) [
                  | inr b ↦
                      rw (r, a, b)
                        (
                          All-replace_user (IsSoundUser reliable) (after_win u) s.users
                              (sound_win reliable u sound b) h,
                          next,
                        )
                  | inl b ↦ elim (Bool-cases (next_refused (later_refused s.refused))) [
                    | inl q ↦
                        rw (r, a, b, q)
                          (
                            All-replace_user (IsSoundUser reliable) (after_win u) s.users
                                (sound_late reliable u s.refused sound answering q) h,
                            later-IsAnswering reliable _ next,
                          )
                    | inr q ↦
                        rw (r, a, b, q, row s u a)
                          (
                            All-replace_twice (IsSoundUser reliable) (after_win u)
                                (record (after_win u) { longest_streak = u.current_streak + 1 })
                                s.users (sound_longer reliable u sound) (ground arith) h,
                            later-IsAnswering reliable _ next,
                          )
                  ]
                ]
          ]
        ]

Keeps-save_loss : (reliable : Bool) (loser : ℕ) → Keeps (IsSoundTable reliable) (save_loss loser)
unfolding save_loss
Keeps-save_loss reliable loser = Keeps-update_unit reliable loser after_loss (sound_loss reliable)

Keeps-save_draw : (reliable : Bool) (id : ℕ) → Keeps (IsSoundTable reliable) (save_draw id)
unfolding save_draw
Keeps-save_draw reliable id = Keeps-update_unit reliable id after_draw (sound_draw reliable)

pub Keeps-save_result :
    (reliable : Bool) (p1 p2 : PlayerState) (winner : Option ℕ)
    → Keeps (IsSoundTable reliable) (save_result p1 p2 winner)
Keeps-save_result reliable p1 p2 none =
    Keeps->>=
      (Keeps-together (Keeps-when reliable (is_verified p1) (Keeps-save_draw reliable p1.user_id))
        (Keeps-when reliable (is_verified p2) (Keeps-save_draw reliable p2.user_id)))
      (λ _. Keeps-return tt)
Keeps-save_result reliable p1 p2 (some winner) =
    Keeps->>= (Keeps-when reliable (is_verified_in p1 p2 winner) (Keeps-save_win reliable winner))
      (λ _.
        Keeps-when reliable (is_verified_in p1 p2 (loser_of p1 p2 winner))
          (Keeps-save_loss reliable (loser_of p1 p2 winner)))
