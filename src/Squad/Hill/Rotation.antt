-- ===== src/Squad/Hill/Rotation.antt =====
-- The end of a match in squad.gateway.ts, and the next one.
use swafri_backend.Common.{
  ℕ, ◌≡◌, refl, inl, inr, true, Option, none, some, List, [], ◌∷◌, ◌++◌, if◌then◌else◌, Bool-cases,
}
use swafri_backend.Game.Room.{Players}
use swafri_backend.Squad.Hill.{
  SquadGameState, Starts, start_squad_match, seat, try_start_match, is_draw, is_winner, rotate,
  handle_match_end,
}

-- Everybody in the squad's game, in the order of play: the champion, the challenger, the queue.
abbrev pub optional : Option ℕ → List ℕ
optional none = []
optional (some r) = r ∷ []

abbrev pub participants : SquadGameState → List ℕ
participants s = optional s.champion ++ (optional s.challenger ++ s.queue)

-- The order of play after a match between `c` and `d` with `queue` waiting: after a draw both go to
-- the back, else the winner stays in front and the loser goes to the back.
abbrev pub next_line : Players → List ℕ → ℕ → ℕ → Option ℕ → List ℕ
next_line players queue c d winner =
    if is_draw winner
    then queue ++ c ∷ d ∷ []
    else if is_winner winner (players c).user_id
    then c ∷ queue ++ d ∷ []
    else d ∷ queue ++ c ∷ []

-- A match is on between the first two of a line.
pub record IsRunning (r : SquadGameState × Starts) (line : List ℕ) : Type 0 where
  pub first : ℕ
  pub second : ℕ
  pub champion : r.0.champion ≡ some first
  pub challenger : r.0.challenger ≡ some second
  pub in_progress : r.0.is_match_in_progress ≡ true
  pub started : r.1 ≡ (first, second) ∷ []
  pub order : first ∷ second ∷ r.0.queue ≡ line

pub seat-none :
    (p1 p2 : ℕ) (rest line : List ℕ) (s : SquadGameState)
    → line ≡ p1 ∷ p2 ∷ rest
    → IsRunning (seat none line s) line
unfolding seat start_squad_match
seat-none p1 p2 rest line s e = rw e (record {
  first = p1;
  second = p2;
  champion = refl;
  challenger = refl;
  in_progress = refl;
  started = refl;
  order = refl;
})

pub seat-some :
    (c p : ℕ) (rest line : List ℕ) (s : SquadGameState)
    → s.champion ≡ some c
    → line ≡ p ∷ rest
    → IsRunning (seat (some c) line s) (c ∷ line)
unfolding seat start_squad_match
seat-some c p rest line s h e =
    rw (e, h, seat)
      (record {
        first = c;
        second = p;
        champion = h;
        challenger = refl;
        in_progress = refl;
        started = refl;
        order = refl;
      })

split_one : (q : List ℕ) (d : ℕ) → (p : ℕ) × (rest : List ℕ) × (q ++ d ∷ [] ≡ p ∷ rest)
split_one [] d = (d, [], refl)
split_one (x ∷ q) d = (x, q ++ d ∷ [], refl)

split_two :
    (q : List ℕ) (c d : ℕ)
    → (p1 : ℕ) × (p2 : ℕ) × (rest : List ℕ) × (q ++ c ∷ d ∷ [] ≡ p1 ∷ p2 ∷ rest)
split_two [] c d = (c, d, [], refl)
split_two (x ∷ []) c d = (x, c, d ∷ [], refl)
split_two (x ∷ y ∷ q) c d = (x, y, q ++ c ∷ d ∷ [], refl)

module _ (players : Players) (s : SquadGameState) (c d : ℕ) (winner : Option ℕ) where
  try_start_match-rotate :
      s.champion ≡ some c
      → IsRunning
          (try_start_match (rotate players s c d winner))
          (next_line players s.queue c d winner)
  unfolding try_start_match rotate
  try_start_match-rotate h = elim (Bool-cases (is_draw winner)) [
    | inl drawn ↦
        let (p1, p2, rest, e) = split_two s.queue c d in
        rw (drawn, try_start_match, rotate) (seat-none p1 p2 rest _ _ e)
    | inr decided ↦ elim (Bool-cases (is_winner winner (players c).user_id)) [
      | inl kept ↦
          let (p, rest, e) = split_one s.queue d in
          rw (decided, kept, h, try_start_match, rotate) (seat-some c p rest _ _ refl e)
      | inr lost ↦
          let (p, rest, e) = split_one s.queue c in
          rw (decided, lost, try_start_match, rotate) (seat-some d p rest _ _ refl e)
    ]
  ]

  -- When the match between champion and challenger ends, the next match starts at once, between the
  -- first two of the new order of play, and everybody else waits in that order: after a draw (no
  -- winner) both players have gone to the back of the queue, else the winner is the champion and the
  -- loser has gone to the back, so that the longest waiting player is the challenger.
  pub handle_match_end_lem :
      s.champion ≡ some c
      → s.challenger ≡ some d
      → IsRunning (handle_match_end players s winner) (next_line players s.queue c d winner)
  unfolding handle_match_end
  handle_match_end_lem h k = rw (h, k, handle_match_end) (try_start_match-rotate h)
