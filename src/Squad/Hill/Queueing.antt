-- ===== src/Squad/Hill/Queueing.antt =====
-- The squad's game over any sequence of joins, leaves, match ends and disconnects (squad.gateway.ts).
use swafri_backend.Common.{
  ℕ, ◌+◌, ◌≤◌, ◌≡◌, refl, sym, ap, ◌∙◌, subst, inl, inr, true, false, Option, none, some, List, [],
  ◌∷◌, ◌++◌, ◌==◌, if◌then◌else◌, length, arith, Bool-cases, Option-cases,
}
use swafri_backend.Game.Room.{Players}
use swafri_backend.Squad.Hill.{
  SquadGameState, Starts, start_squad_match, seat, try_start_match, handle_match_end,
}
use swafri_backend.Squad.Hill.Rotation.{
  optional, participants, next_line, IsRunning, handle_match_end_lem, seat-none, seat-some,
}

-- The players' user ids; sockets may change between two steps.
abbrev pub HasUsers : (ℕ → ℕ) → Players → Type 0
HasUsers user_of players = (r : ℕ) → (players r).user_id ≡ user_of r

-- How many of the entries are of one user.
abbrev pub times : (ℕ → ℕ) → ℕ → List ℕ → ℕ
times user_of u [] = 0
times user_of u (r ∷ rs) = (if user_of r == u then 1 else 0) + times user_of u rs

pub times-append :
    (user_of : ℕ → ℕ) (u : ℕ) (xs ys : List ℕ)
    → times user_of u (xs ++ ys) ≡ times user_of u xs + times user_of u ys
times-append user_of u [] ys = omega arith
times-append user_of u (x ∷ xs) ys = omega (arith, times-append user_of u xs ys)

-- Either a match is on and both seats are taken, or there is no challenger, and at most one player.
pub record IsSettled (s : SquadGameState) : Type 0 where
  pub playing :
      s.is_match_in_progress ≡ true
      → (c : ℕ) × (d : ℕ) × (s.champion ≡ some c) × (s.challenger ≡ some d)
  pub waiting :
      s.is_match_in_progress ≡ false → (s.challenger ≡ none) × (length (participants s) ≤ 1)

pub record IsHill (user_of : ℕ → ℕ) (s : SquadGameState) : Type 0 where
  pub settled : IsSettled s
  pub once : (u : ℕ) → times user_of u (participants s) ≤ 1

pub IsRunning-IsSettled :
    (r : SquadGameState × Starts) (line : List ℕ) → IsRunning r line → IsSettled r.0
IsRunning-IsSettled (s, starts) line r = record {
  playing = λ _. (r.first, r.second, r.champion, r.challenger);
  waiting = λ h. absurd (ground (arith, sym r.in_progress ∙ h));
}

IsRunning-participants :
    (r : SquadGameState × Starts) (line : List ℕ) → IsRunning r line → participants r.0 ≡ line
IsRunning-participants (s, starts) line r = rw (r.champion, r.challenger) r.order

times-next_line :
    (user_of : ℕ → ℕ) (u : ℕ) (players : Players) (queue : List ℕ) (c d : ℕ) (winner : Option ℕ)
    → times user_of u (next_line players queue c d winner) ≡ times user_of u (c ∷ d ∷ queue)
times-next_line user_of u players queue c d winner = ground (
  arith,
  times-append user_of u queue (c ∷ d ∷ []),
  times-append user_of u queue (d ∷ []),
  times-append user_of u queue (c ∷ []),
)

module _ (user_of : ℕ → ℕ) (players : Players) (s : SquadGameState) where
  pub handle_match_end-times :
      (winner : Option ℕ) (u : ℕ)
      → times user_of u (participants (handle_match_end players s winner).0)
        ≡ times user_of u (participants s)
  unfolding handle_match_end
  handle_match_end-times winner u = elim (Option-cases s.champion) [
    | inl a ↦ ground (arith, a)
    | inr (c, a) ↦ elim (Option-cases s.challenger) [
      | inl b ↦ ground (arith, a, b)
      | inr (d, b) ↦
          ap (times user_of u) (
            IsRunning-participants (handle_match_end players s winner)
              (next_line players s.queue c d winner)
              (handle_match_end_lem players s c d winner a b))
          ∙ times-next_line user_of u players s.queue c d winner
          ∙ rw (a, b) refl
    ]
  ]

  pub handle_match_end-IsHill :
      (winner : Option ℕ) → IsHill user_of s → IsHill user_of (handle_match_end players s winner).0
  unfolding handle_match_end
  handle_match_end-IsHill winner i = record {
    settled = elim (Option-cases s.champion) [
      | inl a ↦ rw (a, handle_match_end) (i.settled)
      | inr (c, a) ↦ elim (Option-cases s.challenger) [
        | inl b ↦ rw (a, b, handle_match_end) (i.settled)
        | inr (d, b) ↦
            IsRunning-IsSettled (handle_match_end players s winner)
              (next_line players s.queue c d winner) (handle_match_end_lem players s c d winner a b)
      ]
    ];
    once = λ u. omega (arith, handle_match_end-times winner u, i.once u);
  }

-- A state that may still have to start a match.
pub record IsOpen (s : SquadGameState) : Type 0 where
  pub busy :
      s.is_match_in_progress ≡ true
      → (c : ℕ) × (d : ℕ) × (s.champion ≡ some c) × (s.challenger ≡ some d)
  pub idle : s.is_match_in_progress ≡ false → s.challenger ≡ none

-- The seats before a match is started, as `seat` reads them.
record IsIdle (s : SquadGameState) (champion : Option ℕ) (queue : List ℕ) : Type 0 where
  is_champion : s.champion ≡ champion
  is_free : s.challenger ≡ none
  is_queue : s.queue ≡ queue
  is_idle : s.is_match_in_progress ≡ false

seat-times :
    (user_of : ℕ → ℕ) (u : ℕ) (champion : Option ℕ) (queue : List ℕ) (s : SquadGameState)
    → IsIdle s champion queue
    → times user_of u (participants (seat champion queue s).0)
      ≡ times user_of u (optional champion ++ queue)
unfolding seat start_squad_match
seat-times user_of u none [] s i = rw (i.is_champion, i.is_free, i.is_queue) refl
seat-times user_of u none (p ∷ []) s i = rw (i.is_champion, i.is_free, i.is_queue) refl
seat-times user_of u none (p1 ∷ p2 ∷ rest) s i = refl
seat-times user_of u (some c) [] s i = rw (i.is_champion, i.is_free, i.is_queue) refl
seat-times user_of u (some c) (p ∷ rest) s i =
    ap (times user_of u)
      (IsRunning-participants _ _ (seat-some c p rest (p ∷ rest) s i.is_champion refl))

at_rest :
    (s : SquadGameState) (champion : Option ℕ) (queue : List ℕ)
    → IsIdle s champion queue
    → length (optional champion ++ queue) ≤ 1
    → IsSettled s
at_rest s champion queue i short = record {
  playing = λ h. absurd (ground (arith, sym i.is_idle ∙ h));
  waiting = λ _. (i.is_free, rw (i.is_champion, i.is_free, i.is_queue) short);
}

seat-IsSettled :
    (champion : Option ℕ) (queue : List ℕ) (s : SquadGameState)
    → IsIdle s champion queue
    → IsSettled (seat champion queue s).0
unfolding seat start_squad_match
seat-IsSettled none [] s i = at_rest s none [] i (omega arith)
seat-IsSettled none (p ∷ []) s i = at_rest s none (p ∷ []) i (omega arith)
seat-IsSettled none (p1 ∷ p2 ∷ rest) s i =
    IsRunning-IsSettled _ _ (seat-none p1 p2 rest (p1 ∷ p2 ∷ rest) s refl)
seat-IsSettled (some c) [] s i = at_rest s (some c) [] i (omega arith)
seat-IsSettled (some c) (p ∷ rest) s i =
    IsRunning-IsSettled _ _ (seat-some c p rest (p ∷ rest) s i.is_champion refl)

module _ (s : SquadGameState) where
  pub try_start_match-busy : s.is_match_in_progress ≡ true → try_start_match s ≡ (s, [])
  unfolding try_start_match
  try_start_match-busy h = ap (λ b. if b then (s, []) else seat s.champion s.queue s) h

  try_start_match-idle :
      s.is_match_in_progress ≡ false → try_start_match s ≡ seat s.champion s.queue s
  unfolding try_start_match
  try_start_match-idle h = ap (λ b. if b then (s, []) else seat s.champion s.queue s) h

  IsOpen-IsIdle : IsOpen s → s.is_match_in_progress ≡ false → IsIdle s s.champion s.queue
  IsOpen-IsIdle o h = record {
    is_champion = refl;
    is_free = o.idle h;
    is_queue = refl;
    is_idle = h;
  }

  pub try_start_match-times :
      (user_of : ℕ → ℕ) (u : ℕ)
      → IsOpen s
      → times user_of u (participants (try_start_match s).0) ≡ times user_of u (participants s)
  try_start_match-times user_of u o = elim (Bool-cases s.is_match_in_progress) [
    | inl a ↦ ap (λ r. times user_of u (participants r.0)) (try_start_match-busy a)
    | inr a ↦
        ap (λ r. times user_of u (participants r.0)) (try_start_match-idle a)
        ∙ seat-times user_of u s.champion s.queue s (IsOpen-IsIdle o a)
        ∙ rw (o.idle a) refl
  ]

  pub try_start_match-IsSettled : IsOpen s → IsSettled (try_start_match s).0
  try_start_match-IsSettled o = elim (Bool-cases s.is_match_in_progress) [
    | inl a ↦
        subst (λ r. IsSettled r.0) (sym (try_start_match-busy a))
          (record { playing = o.busy; waiting = λ h. absurd (ground (arith, sym a ∙ h)) })
    | inr a ↦
        subst (λ r. IsSettled r.0) (sym (try_start_match-idle a))
          (seat-IsSettled s.champion s.queue s (IsOpen-IsIdle o a))
  ]
