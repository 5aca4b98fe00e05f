-- ===== src/Users/Rows.antt =====
-- Reading the User table after a write.
use swafri_backend.Common.{
  ℕ, ◌≡◌, refl, inl, inr, Bool-cases, false, some, List, [], ◌∷◌, ◌==◌, if◌then◌else◌, arith, ok,
}
use swafri_backend.Users.{User, Accounts, find_user, replace_user, write_columns}

pub find_user-id : (us : List User) (id : ℕ) (u : User) → find_user us id ≡ some u → u.id ≡ id
find_user-id [] id u h = absurd (ground arith)
find_user-id (v ∷ us) id u h = ground (arith, find_user-id us id u)

pub find_user-replace_other :
    (u : User) (us : List User) (asked : ℕ)
    → (u.id == asked) ≡ false
    → find_user (replace_user u us) asked ≡ find_user us asked
find_user-replace_other u [] asked h = refl
find_user-replace_other u (w ∷ us) asked h = elim (Bool-cases (w.id == u.id)) [
  | inl a ↦ rw a (ground (arith, find_user-replace_other u us asked))
  | inr a ↦ rw a (ground (arith, find_user-replace_other u us asked))
]

pub find_user-replace_user :
    (u v : User) (us : List User) (asked : ℕ)
    → find_user us u.id ≡ some v
    → find_user (replace_user u us) asked ≡ (if u.id == asked then some u else find_user us asked)
find_user-replace_user u v [] asked h = absurd (ground arith)
find_user-replace_user u v (w ∷ us) asked h = elim (Bool-cases (w.id == u.id)) [
  | inl a ↦ rw a (ground (arith, find_user-replace_other u us asked))
  | inr a ↦ rw a (ground (arith, find_user-replace_user u v us asked))
]

pub write_columns-found :
    (s : Accounts) (id : ℕ) (change : User → User) (u : User)
    → find_user s.users id ≡ some u
    → write_columns id change s
      ≡ (record s { users = replace_user (change u) s.users }, ok (change u))
unfolding write_columns
write_columns-found s id change u h = rw h refl
