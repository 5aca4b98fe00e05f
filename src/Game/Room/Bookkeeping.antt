-- ===== src/Game/Room/Bookkeeping.antt =====
-- What a submission does to the rooms and the log of game.service.ts.
use swafri_backend.Common.{
  ℕ, ◌+◌, ◌<◌, ◌≡◌, refl, ◌∙◌, ◌≢◌, inl, inr, none, some, String, List, [], ◌∷◌, ◌++◌, ◌==◌,
  if◌then◌else◌, lookup, insert, lookup-insert, ok, ◌>>=◌, subst, arith, Bool-cases, Option-cases,
  awaited,
}
use swafri_backend.Game.Room.{
  in_progress, GameRoom, Players, Turn, GameService, Effect, create_match, create_match_move,
  finalize_match, is_completed, get_room, submit, settle, submit_move, set_move, resolve_round,
}
use swafri_backend.Game.Room.Validity.{IsValid, IsValid-same_users}
use swafri_backend.Game.Room.Acceptance.{submit-IsValid, submit-user_id, submit-Accepted, mover_of}

-- How often the finalization of a room was started.
abbrev pub finalized : ℕ → List Effect → ℕ
finalized room_id [] = 0
finalized room_id (create_match _ _ _ _ _ ∷ es) = finalized room_id es
finalized room_id (create_match_move _ _ ∷ es) = finalized room_id es
finalized room_id (finalize_match r ∷ es) =
    if r == room_id then finalized room_id es + 1 else finalized room_id es

pub finalized-append :
    (r : ℕ) (xs ys : List Effect) → finalized r (xs ++ ys) ≡ finalized r xs + finalized r ys
finalized-append r [] ys = omega arith
finalized-append r (create_match _ _ _ _ _ ∷ xs) ys = finalized-append r xs ys
finalized-append r (create_match_move _ _ ∷ xs) ys = finalized-append r xs ys
finalized-append r (finalize_match q ∷ xs) ys = ground (arith, finalized-append r xs ys)

-- 1 for a room whose match is complete.
abbrev pub due : GameRoom → ℕ
due room = if is_completed room.status then 1 else 0

-- A room of the map: valid, under its own identifier, with player objects that exist, and finalized
-- once if its match is complete, else never.
pub record IsKept (s : GameService) (room_id : ℕ) (room : GameRoom) : Type 0 where
  pub valid : IsValid s.players room
  pub named : room.room_id ≡ room_id
  pub player1_exists : room.player1 < s.next
  pub player2_exists : room.player2 < s.next
  pub final : finalized room_id s.effects ≡ due room

pub record IsSound (s : GameService) : Type 0 where
  pub kept :
      (room_id : ℕ) (room : GameRoom) → lookup room_id s.rooms ≡ some room → IsKept s room_id room
  pub unknown : (room_id : ℕ) → lookup room_id s.rooms ≡ none → finalized room_id s.effects ≡ 0

-- What `settle` does for the bookkeeping.
resolve_round-final :
    (players : Players) (room : GameRoom) (m1 m2 : _) (now r : ℕ)
    → room.status ≡ in_progress
    → finalized r (resolve_round players room m1 m2 now).effects
      ≡ (if room.room_id == r then due (resolve_round players room m1 m2 now).room else 0)
unfolding resolve_round
resolve_round-final players room m1 m2 now r e = ground arith

settle-final :
    (players : Players) (room : GameRoom) (now r : ℕ)
    → room.status ≡ in_progress
    → let t = settle players room now in
      (finalized r t.effects ≡ (if room.room_id == r then due t.room else 0))
      × (t.room.room_id ≡ room.room_id)
      × (t.room.player1 ≡ room.player1)
      × (t.room.player2 ≡ room.player2)
unfolding settle resolve_round
settle-final players room now r e = elim (Option-cases (players room.player1).move) [
  | inl a ↦ rw (a, settle) (ground arith, refl, refl, refl)
  | inr (m1, a) ↦ elim (Option-cases (players room.player2).move) [
    | inl b ↦ rw (a, b, settle) (ground arith, refl, refl, refl)
    | inr (m2, b) ↦ rw (a, b, settle) (ground arith, ground arith, ground arith, ground arith)
  ]
]

submit-final :
    (players : Players) (room : GameRoom) (user_id : ℕ) (raw : String) (now r : ℕ) (t : Turn)
    → submit players room user_id raw now ≡ ok t
    → (finalized r t.effects ≡ (if room.room_id == r then due t.room else 0))
      × (t.room.room_id ≡ room.room_id)
      × (t.room.player1 ≡ room.player1)
      × (t.room.player2 ≡ room.player2)
      × (due room ≡ 0)
submit-final players room user_id raw now r t h =
    let a = submit-Accepted players room user_id raw now t h in
    let moved = set_move players (mover_of players room user_id) (some a.move) in
    let f = settle-final moved room now r a.playing in
    let e = a.done in rw e (f.0, f.1, f.2, f.3, rw a.playing)

-- The state that an accepted submission leaves.
abbrev pub commit : GameService → ℕ → Turn → GameService
commit s room_id t = record s {
  rooms = insert room_id t.room s.rooms;
  players = t.players;
  effects = s.effects ++ t.effects;
}

pub submit_move-ok :
    (s : GameService) (room_id user_id : ℕ) (raw : String) (now : ℕ) (r : GameRoom × GameService)
    → submit_move s room_id user_id raw now ≡ ok r
    → (room : GameRoom) × (t : Turn) × (lookup room_id s.rooms ≡ some room)
      × (submit s.players room user_id raw now ≡ ok t)
      × (r ≡ (t.room, commit s room_id t))
unfolding submit_move get_room
submit_move-ok s room_id user_id raw now r h = elim (Option-cases (lookup room_id s.rooms)) [
  | inl a ↦ absurd (ground arith)
  | inr (room, a) ↦
      let (t, p, q) = awaited (submit s.players room user_id raw now) _ (rw (a, ◌>>=◌) at h) in
      (room, t, a, p, ground arith)
]

-- Another room keeps what it had, since a submission changes no user identifier.
other-IsKept :
    (s : GameService) (room_id : ℕ) (room : GameRoom) (user_id : ℕ) (raw : String) (now : ℕ)
    (t : Turn)
    → submit s.players room user_id raw now ≡ ok t
    → room.room_id ≡ room_id
    → (r : ℕ) (o : GameRoom) → room_id ≢ r
    → IsKept s r o
    → IsKept (commit s room_id t) r o
other-IsKept s room_id room user_id raw now t h named r o ne k =
    let same = submit-user_id s.players room user_id raw now t h in
    let f = submit-final s.players room user_id raw now r t h in
    record {
      valid = IsValid-same_users s.players t.players o (same o.player1) (same o.player2) k.valid;
      named = k.named;
      player1_exists = k.player1_exists;
      player2_exists = k.player2_exists;
      final = ground (arith, finalized-append r s.effects t.effects, k.final, f.0);
    }

this-IsKept :
    (s : GameService) (room_id : ℕ) (room : GameRoom) (user_id : ℕ) (raw : String) (now : ℕ)
    (t : Turn)
    → submit s.players room user_id raw now ≡ ok t
    → IsKept s room_id room
    → IsKept (commit s room_id t) room_id t.room
this-IsKept s room_id room user_id raw now t h k =
    let f = submit-final s.players room user_id raw now room_id t h in
    record {
      valid = submit-IsValid s.players room user_id raw now t h k.valid;
      named = f.1 ∙ k.named;
      player1_exists = rw (f.2) k.player1_exists;
      player2_exists = rw (f.3) k.player2_exists;
      final =
          ground (arith, finalized-append room_id s.effects t.effects, k.final, k.named, f.0, f.4);
    }

commit-IsSound :
    (s : GameService) (room_id : ℕ) (room : GameRoom) (user_id : ℕ) (raw : String) (now : ℕ)
    (t : Turn)
    → lookup room_id s.rooms ≡ some room
    → submit s.players room user_id raw now ≡ ok t
    → IsSound s
    → IsSound (commit s room_id t)
commit-IsSound s room_id room user_id raw now t found h i = record {
  kept = λ r o e. elim (Bool-cases (room_id == r)) [
    | inl same ↦
        let q : room_id ≡ r = ground arith in
        let p : t.room ≡ o = ground (arith, lookup-insert room_id r t.room s.rooms) in
        subst (λ z. IsKept (commit s room_id t) z o) q
          (subst (IsKept (commit s room_id t) room_id) p
            (this-IsKept s room_id room user_id raw now t h k))
    | inr other ↦
        other-IsKept s room_id room user_id raw now t h k.named r o (ground arith)
          (i.kept r o (ground (arith, lookup-insert room_id r t.room s.rooms)))
  ];
  unknown = λ r e. ground (
    arith,
    lookup-insert room_id r t.room s.rooms,
    i.unknown r,
    k.named,
    finalized-append r s.effects t.effects,
    submit-final s.players room user_id raw now r t h,
  );
}
  where
    k : IsKept s room_id room
    k = i.kept room_id room found

pub submit_move-IsSound :
    (s : GameService) (room_id user_id : ℕ) (raw : String) (now : ℕ) (r : GameRoom × GameService)
    → submit_move s room_id user_id raw now ≡ ok r
    → IsSound s
    → IsSound r.1
submit_move-IsSound s room_id user_id raw now r h i =
    let (room, t, found, done, e) = submit_move-ok s room_id user_id raw now r h in
    rw e (commit-IsSound s room_id room user_id raw now t found done i)
