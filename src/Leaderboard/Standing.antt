-- ===== src/Leaderboard/Standing.antt =====
-- The rank of a player and the board of src/modules/leaderboard/service/leaderboard.service.ts.
use swafri_backend.Common.{
  ℕ, suc, ◌+◌, ◌≤◌, ◌≡◌, refl, inl, inr, Bool, true, false, some, List, [], ◌∷◌, ◌==◌, ◌&&◌, ltb,
  is_some, filter, length, not, All, arith, Bool-cases,
}
use swafri_backend.Users.{User, find_user}
use swafri_backend.Leaderboard.{is_ranked, is_ahead, get_leaderboard, beats, get_player_rank}
use swafri_backend.Leaderboard.Ranking.{count, get_leaderboard-rank, get_leaderboard-not_behind}

-- Ranked users who are ahead of `u` with as many points, by their wins.
abbrev pub is_ahead_by_wins : User → User → Bool
is_ahead_by_wins u v = v.points == u.points && ltb u.wins v.wins

-- Who is ahead has more points or, with as many, more wins. Of the ranked users the first are those
-- whom getPlayerRank counts, if nobody who is listed with more points is without a match.
count-beats :
    (u : User) (us : List User)
    → All (λ (v : User). beats u.points v ≡ true → ltb 0 v.total_matches ≡ true) us
    → count (λ v. is_ahead v u) (filter is_ranked us)
      ≡ length (filter (beats u.points) us) + count (is_ahead_by_wins u) (filter is_ranked us)
count-beats u [] played = refl
count-beats u (v ∷ us) (p, played) =
    let later = count-beats u us played in
    elim (Bool-cases (beats u.points v)) [
      | inl a ↦ rw (a, ranked a, ahead a, apart a) (omega (arith, later))
      | inr a ↦ rw a (elim (Bool-cases (is_ranked v)) [
        | inr b ↦ rw b later
        | inl b ↦ elim (Bool-cases (is_ahead v u)) [
          | inl c ↦ rw (b, c, level a b c) (omega (arith, later))
          | inr c ↦ rw (b, c, behind c) later
        ]
      ])
    ]
  where
    ranked : beats u.points v ≡ true → is_ranked v ≡ true
    ranked a = ground (arith, p a)

    ahead : beats u.points v ≡ true → is_ahead v u ≡ true
    ahead a = ground arith

    apart : beats u.points v ≡ true → is_ahead_by_wins u v ≡ false
    apart a = ground arith

    level :
        beats u.points v ≡ false
        → is_ranked v ≡ true
        → is_ahead v u ≡ true
        → is_ahead_by_wins u v ≡ true
    level a b c = ground arith

    behind : is_ahead v u ≡ false → is_ahead_by_wins u v ≡ false
    behind c = ground arith

abbrev pub is_level : User → User → Bool
is_level u v = v.points == u.points

-- Who is not behind has more points or as many.
count-level :
    (u : User) (us : List User)
    → All (λ (v : User). beats u.points v ≡ true → ltb 0 v.total_matches ≡ true) us
    → count (λ v. not (is_ahead u v)) (filter is_ranked us)
      ≤ length (filter (beats u.points) us) + count (is_level u) (filter is_ranked us)
count-level u [] played = omega arith
count-level u (v ∷ us) (p, played) =
    let later = count-level u us played in
    elim (Bool-cases (is_ranked v)) [
      | inr b ↦ elim (Bool-cases (beats u.points v)) [
        | inl a ↦ absurd (ground (arith, p a))
        | inr a ↦ rw (a, b) later
      ]
      | inl b ↦ elim (Bool-cases (is_ahead u v)) [
        | inl c ↦ rw (b, c) (omega (arith, later, grows_beats, grows_level))
        | inr c ↦ elim (Bool-cases (beats u.points v)) [
          | inl a ↦ rw (a, b, c) (omega (arith, later, grows_level))
          | inr a ↦ rw (a, b, c, level a b c) (omega (arith, later))
        ]
      ]
    ]
  where
    level :
        beats u.points v ≡ false → is_ranked v ≡ true → is_ahead u v ≡ false → is_level u v ≡ true
    level a b c = ground arith

    grows_beats : length (filter (beats u.points) us) ≤ length (filter (beats u.points) (v ∷ us))
    grows_beats = elim (Bool-cases (beats u.points v)) [
      | inl a ↦ rw a (omega arith)
      | inr a ↦ rw a (omega arith)
    ]

    grows_level :
        count (is_level u) (filter is_ranked us) ≤ count (is_level u) (v ∷ filter is_ranked us)
    grows_level = elim (Bool-cases (is_level u v)) [
      | inl a ↦ rw a (omega arith)
      | inr a ↦ rw a (omega arith)
    ]

-- Whoever stands first on a page and is found with a verified wallet gets from getPlayerRank the
-- points of the row, and as rank one more than the number of ranked users who are ahead by the board's
-- order, less those of them who have as many points and are ahead by wins. It is no greater than the
-- rank on the page, and less than that by no more than the number of other ranked users with as many
-- points, so the two agree where there are none. Everybody who is listed with more points has played a
-- match.
pub get_player_rank-get_leaderboard :
    (users : List User) (limit offset rank : ℕ) (u : User) (more : List (ℕ × User))
    → get_leaderboard users (suc limit) offset ≡ (rank, u) ∷ more
    → find_user users u.id ≡ some u
    → is_some u.wallet_verified_at ≡ true
    → All (λ (v : User). beats u.points v ≡ true → ltb 0 v.total_matches ≡ true) users
    → (n : ℕ) × ((get_player_rank users u.id).rank ≡ some n)
      × (n + length (filter (is_ahead_by_wins u) (filter is_ranked users))
          ≡ length (filter (λ v. is_ahead v u) (filter is_ranked users)) + 1)
      × (n ≤ rank)
      × (rank + 1 ≤ n + length (filter (is_level u) (filter is_ranked users)))
      × ((get_player_rank users u.id).points ≡ u.points)
unfolding get_player_rank
get_player_rank-get_leaderboard users limit offset rank u more h found verified played =
    let bound = get_leaderboard-rank users limit offset rank u more h in
    let not_behind = get_leaderboard-not_behind users limit offset rank u more h in
    let counted = count-beats u users played in
    rw (found, verified)
      (
        length (filter (beats u.points) users) + 1,
        refl,
        omega (arith, counted),
        omega (arith, bound.1, counted),
        omega (arith, not_behind, count-level u users played),
        refl,
      )
