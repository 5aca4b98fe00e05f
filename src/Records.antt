-- ===== src/Records.antt =====
-- The tables of prisma/schema.prisma that a finished match touches beside the squads: users, matches, badges
-- and earned badges, with the jobs that src/core/queue/queue.service.ts adds for the blockchain.
use swafri_backend.Common.{
  ℕ, ◌≡◌, refl, Bool, false, ◌&&◌, Option, none, some, List, [], ◌∷◌, ◌++◌, ◌==◌, if◌then◌else◌,
  any, map, Result, ok, err, unique_violation, database_failure,
}
use swafri_backend.Effects.{Run, modify}
use swafri_backend.Users.{User, find_user, replace_user}

pub data MatchStatus : Type 0 where
  waiting in_progress completed abandoned : MatchStatus

pub record Match : Type 0 where
  pub id : ℕ
  pub room_id : ℕ
  pub player1_id : ℕ
  pub player2_id : ℕ
  pub is_ranked : Bool
  pub winner_id : Option ℕ
  pub status : MatchStatus
  pub on_chain_hash : Option ℕ
  pub ended_at : Option ℕ

-- `criteria` is a text, as character codes.
pub record Achievement : Type 0 where
  pub id : ℕ
  pub name : ℕ
  pub criteria : List ℕ

pub data Job : Type 0 where
  record_match : (match_id : ℕ) (winner loser : Option ℕ) (on_chain_hash : ℕ) → Job
  mint_badge : (player_address badge_name : ℕ) → Job

-- `earned` holds the pairs of a user and a badge. `refused` says of the coming writes, one after the
-- other, whether the database rejects them, as when the connection is lost; past its end it takes them.
pub record Records : Type 0 where
  pub users : List User
  pub matches : List Match
  pub achievements : List Achievement
  pub earned : List (ℕ × ℕ)
  pub jobs : List Job
  pub refused : List Bool

abbrev pub next_refused : List Bool → Bool
next_refused [] = false
next_refused (answer ∷ answers) = answer

abbrev pub later_refused : List Bool → List Bool
later_refused [] = []
later_refused (answer ∷ answers) = answers

abbrev pub asked : Records → Records
asked s = record s { refused = later_refused s.refused }

-- A write that the database may reject: then nothing is written and the promise is rejected.
unfoldable pub attempt {ℓ} : {A : Type ℓ} → Run Records A → Run Records A
attempt run s = if next_refused s.refused then (asked s, err database_failure) else run (asked s)

-- Where no write is rejected, a write is the write alone.
pub attempt-reliable {ℓ} :
    {A : Type ℓ} (run : Run Records A) (s : Records) → s.refused ≡ [] → attempt run s ≡ run s
unfolding attempt
attempt-reliable run s e = rw e refl

abbrev pub written : Records → (User → User) → Option User → Records × Result User
written s change none = (s, err database_failure)
written s change (some u) = (record s { users = replace_user (change u) s.users }, ok (change u))

-- `prisma.user.update` of columns that no unique index covers.
unfoldable pub update_user : (id : ℕ) → (User → User) → Run Records User
update_user id change = attempt (λ (s : Records). written s change (find_user s.users id))

abbrev pub change_match : ℕ → (Match → Match) → Match → Match
change_match id change m = if m.id == id then change m else m

-- `prisma.match.update`.
unfoldable pub update_match : (id : ℕ) → (Match → Match) → Run Records (Unit {0})
update_match id change = attempt (λ (s : Records).
    if any (λ (m : Match). m.id == id) s.matches
    then (record s { matches = map (change_match id change) s.matches }, ok tt)
    else (s, err database_failure))

abbrev pub is_pair : (user_id achievement_id : ℕ) → ℕ × ℕ → Bool
is_pair user_id achievement_id (u, a) = u == user_id && a == achievement_id

abbrev pub has_earned : Records → (user_id achievement_id : ℕ) → Bool
has_earned s user_id achievement_id = any (is_pair user_id achievement_id) s.earned

-- `prisma.userAchievement.create`, under the unique index on the pair.
unfoldable pub create_earned : (user_id achievement_id : ℕ) → Run Records (Unit {0})
create_earned user_id achievement_id = attempt (λ (s : Records).
    if has_earned s user_id achievement_id
    then (s, err unique_violation)
    else (record s { earned = s.earned ++ (user_id, achievement_id) ∷ [] }, ok tt))

-- `addBlockchainJob`; a failure to add a job is only logged.
unfoldable pub add_job : Job → Run Records (Unit {0})
add_job job = modify (λ (s : Records). record s { jobs = s.jobs ++ job ∷ [] })
