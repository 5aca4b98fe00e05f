-- ===== src/Leaderboard/Ranking.antt =====
-- The order and the pages of the board of src/modules/leaderboard/service/leaderboard.service.ts.
use swafri_backend.Common.{
  ℕ, zero, suc, ◌+◌, ◌≤◌, ◌<◌, ◌≡◌, refl, ap, ◌∙◌, sym, subst, inl, inr, Bool, true, false, List,
  [], ◌∷◌, filter, length, not, take, skip, All, arith, Bool-cases,
}
use swafri_backend.Users.{User}
use swafri_backend.Leaderboard.{
  is_ranked, is_ahead, place, order_by_points, number_from, get_leaderboard,
}

-- Nobody is ahead of someone who comes earlier.
IsOrdered : List User → Type 0
IsOrdered [] = Unit
IsOrdered (u ∷ us) = All (λ v. is_ahead v u ≡ false) us × IsOrdered us

ahead_asym : (u v : User) → is_ahead v u ≡ true → is_ahead u v ≡ false
ahead_asym u v h = ground arith

behind_trans : (u v w : User) → is_ahead v u ≡ false → is_ahead w v ≡ false → is_ahead w u ≡ false
behind_trans u v w h k = ground arith

All-behind :
    (u v : User) (us : List User)
    → is_ahead v u ≡ false
    → All (λ w. is_ahead w v ≡ false) us
    → All (λ w. is_ahead w u ≡ false) us
All-behind u v [] h k = tt
All-behind u v (w ∷ us) h (b, k) = (behind_trans u v w h b, All-behind u v us h k)

All-place : (P : User → Type 0) (u : User) (us : List User) → P u → All P us → All P (place u us)
All-place P u [] p h = (p, tt)
All-place P u (v ∷ us) p (q, h) = elim (Bool-cases (is_ahead v u)) [
  | inl a ↦ rw a (q, All-place P u us p h)
  | inr a ↦ rw a (p, (q, h))
]

place-IsOrdered : (u : User) (us : List User) → IsOrdered us → IsOrdered (place u us)
unfolding IsOrdered
place-IsOrdered u [] h = (tt, tt)
place-IsOrdered u (v ∷ us) (b, h) = elim (Bool-cases (is_ahead v u)) [
  | inl a ↦
      rw a (All-place (λ w. is_ahead w v ≡ false) u us (ahead_asym u v a) b, place-IsOrdered u us h)
  | inr a ↦ rw a ((a, All-behind u v us a b), (b, h))
]

order-IsOrdered : (us : List User) → IsOrdered (order_by_points us)
unfolding IsOrdered
order-IsOrdered [] = tt
order-IsOrdered (u ∷ us) = place-IsOrdered u (order_by_points us) (order-IsOrdered us)

abbrev pub count : (User → Bool) → List User → ℕ
count p us = length (filter p us)

count-place :
    (p : User → Bool) (u : User) (us : List User) → count p (place u us) ≡ count p (u ∷ us)
count-place p u [] = refl
count-place p u (v ∷ us) = elim (Bool-cases (is_ahead v u)) [
  | inl a ↦ rw a (ground (arith, count-place p u us))
  | inr a ↦ rw a refl
]

count-order : (p : User → Bool) (us : List User) → count p (order_by_points us) ≡ count p us
count-order p [] = refl
count-order p (u ∷ us) = count-place p u (order_by_points us) ∙ ground (arith, count-order p us)

count-none :
    (u : User) (us : List User)
    → All (λ v. is_ahead v u ≡ false) us
    → count (λ v. is_ahead v u) us ≡ 0
count-none u [] h = refl
count-none u (v ∷ us) (b, h) = rw b (count-none u us h)

abbrev first_or : User → List User → User
first_or u [] = u
first_or u (v ∷ us) = v

count-ahead :
    (i : ℕ) (us rest : List User) (u : User)
    → IsOrdered us
    → skip i us ≡ u ∷ rest
    → count (λ v. is_ahead v u) us ≤ i
unfolding IsOrdered
count-ahead zero [] rest u h at = omega arith
count-ahead (suc i) [] rest u h at = omega arith
count-ahead zero (v ∷ us) rest u (b, h) at =
    subst (λ x. count (λ w. is_ahead w x) (v ∷ us) ≤ 0) (ap (first_or v) at)
      (rw (not_ahead v, count-none v us b) (omega arith))
  where
    not_ahead : (w : User) → is_ahead w w ≡ false
    not_ahead w = ground arith
count-ahead (suc i) (v ∷ us) rest u (b, h) at = ground (arith, count-ahead i us rest u h at)

abbrev first_pair : ℕ × User → List (ℕ × User) → ℕ × User
first_pair e [] = e
first_pair e (f ∷ fs) = f

take_first :
    (i n rank : ℕ) (us : List User) (u : User) (more : List (ℕ × User))
    → number_from (i + 1) (take (suc n) us) ≡ (rank, u) ∷ more
    → (rank ≡ i + 1) × (rest : List User) × (us ≡ u ∷ rest)
take_first i n rank [] u more h = absurd (ground arith)
take_first i n rank (v ∷ us) u more h =
    (sym (ap (λ l. (first_pair (0, v) l).0) h), us, ap (λ l. (first_pair (0, v) l).1 ∷ us) h)

All-skip :
    (P : User → Type 0) (i : ℕ) (us rest : List User) (u : User)
    → All P us
    → skip i us ≡ u ∷ rest
    → P u
All-skip P zero [] rest u h at = absurd (ground arith)
All-skip P (suc i) [] rest u h at = absurd (ground arith)
All-skip P zero (v ∷ us) rest u (p, h) at = subst P (ap (first_or v) at) p
All-skip P (suc i) (v ∷ us) rest u (p, h) at = All-skip P i us rest u h at

-- Nobody before a place of the board, and not the one who holds it, is behind the one who holds it.
count-not_behind :
    (i : ℕ) (us rest : List User) (u : User)
    → IsOrdered us
    → skip i us ≡ u ∷ rest
    → i < count (λ v. not (is_ahead u v)) us
unfolding IsOrdered
count-not_behind zero [] rest u h at = absurd (ground arith)
count-not_behind (suc i) [] rest u h at = absurd (ground arith)
count-not_behind zero (v ∷ us) rest u h at =
    subst (λ x. 0 < count (λ w. not (is_ahead x w)) (v ∷ us)) (ap (first_or v) at)
      (rw (not_ahead v) (omega arith))
  where
    not_ahead : (w : User) → is_ahead w w ≡ false
    not_ahead w = ground arith
count-not_behind (suc i) (v ∷ us) rest u (b, h) at =
    rw (All-skip (λ w. is_ahead w v ≡ false) i us rest u b at)
      (omega (arith, count-not_behind i us rest u h at))

-- Whoever stands first on a page has the page's offset plus one as rank, and of the ranked users
-- fewer than this rank are ahead, by points and then by wins.
pub get_leaderboard-rank :
    (users : List User) (limit offset rank : ℕ) (u : User) (more : List (ℕ × User))
    → get_leaderboard users (suc limit) offset ≡ (rank, u) ∷ more
    → (rank ≡ offset + 1) × (length (filter (λ v. is_ahead v u) (filter is_ranked users)) < rank)
unfolding get_leaderboard
get_leaderboard-rank users limit offset rank u more h =
    let first = take_first offset limit rank (skip offset board) u more h in
    let few =
      count-ahead offset board (first.1) u (order-IsOrdered (filter is_ranked users)) (first.2) in
    (first.0, omega (arith, few, first.0, count-order (λ v. is_ahead v u) (filter is_ranked users)))
  where
    board : List User
    board = order_by_points (filter is_ranked users)

-- Nor is a rank greater than the number of ranked users who are not behind.
pub get_leaderboard-not_behind :
    (users : List User) (limit offset rank : ℕ) (u : User) (more : List (ℕ × User))
    → get_leaderboard users (suc limit) offset ≡ (rank, u) ∷ more
    → rank ≤ count (λ v. not (is_ahead u v)) (filter is_ranked users)
unfolding get_leaderboard
get_leaderboard-not_behind users limit offset rank u more h =
    let board = order_by_points (filter is_ranked users) in
    let first = take_first offset limit rank (skip offset board) u more h in
    let many =
      count-not_behind offset board (first.1) u (order-IsOrdered (filter is_ranked users))
        (first.2) in
    omega (arith, many, first.0, count-order (λ v. not (is_ahead u v)) (filter is_ranked users))
