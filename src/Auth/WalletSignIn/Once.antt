-- ===== src/Auth/WalletSignIn/Once.antt =====
-- A challenge of the sign-in by wallet is good for one signature.
use swafri_backend.Common.{
  ℕ, ◌≡◌, refl, ap, ◌∙◌, inl, inr, true, ◌||◌, Option, none, some, List, any, is_some, delete,
  Result, ok, err, unauthorized, unique_violation, bad_request, forbidden, not_found, conflict,
  database_failure, internal_error, arith, Bool-cases, Option-cases,
}
use swafri_backend.Effects.{Run, ◌>>=◌, Keeps, Keeps-return, Keeps-read, Keeps->>=, read}
use swafri_backend.Redis.{get}
use swafri_backend.Redis.Expiry.{get-delete}
use swafri_backend.Users.{
  User, Accounts, find_user, create, clashes, write_columns, write_unique, update_wallet_verified,
  set_refresh_token_hash, find_by_wallet_address,
}
use swafri_backend.Wallet.{Ethers, verify_wallet_signature}
use swafri_backend.Auth.{Crypto, generate_token_pair}
use swafri_backend.Auth.Sessions.{open_session}
use swafri_backend.Auth.WalletSignIn.{
  Fresh, account, or_conflict, or_fallback, enter, stored_message, sign_in, on_sign_ins,
}

-- No challenge is stored for an address.
abbrev IsSpent : (now address : ℕ) → Accounts → Type 0
IsSpent now address s = get now address s.redis.sign_ins ≡ none

same_redis :
    (now address : ℕ) (run : Run Accounts User)
    → ((s : Accounts) → (run s).0.redis ≡ s.redis)
    → Keeps (IsSpent now address) run
same_redis now address run same = record {
  kept = λ s h. ap (λ r. get now address r.sign_ins) (same s) ∙ h;
}

create-redis : (u : User) (s : Accounts) → (create u s).0.redis ≡ s.redis
unfolding create
create-redis u s = elim (Bool-cases (is_some (find_user s.users u.id) || any (clashes u) s.users)) [
  | inl a ↦ rw a refl
  | inr a ↦ rw a refl
]

write_columns-redis :
    (id : ℕ) (change : User → User) (s : Accounts) → (write_columns id change s).0.redis ≡ s.redis
unfolding write_columns
write_columns-redis id change s = elim (Option-cases (find_user s.users id)) [
  | inl a ↦ rw a refl
  | inr (u, a) ↦ rw a refl
]

write_unique-redis :
    (id : ℕ) (change : User → User) (s : Accounts) → (write_unique id change s).0.redis ≡ s.redis
unfolding write_unique
write_unique-redis id change s = elim (Option-cases (find_user s.users id)) [
  | inl a ↦ rw a refl
  | inr (u, a) ↦ elim (Bool-cases (any (clashes (change u)) s.users)) [
    | inl b ↦ rw (a, b) refl
    | inr b ↦ rw (a, b) refl
  ]
]

or_conflict-redis : (r : Accounts × Result User) → (or_conflict r).0.redis ≡ r.0.redis
or_conflict-redis (s, ok u) = refl
or_conflict-redis (s, err e) = refl

or_fallback-redis :
    (second : User) (r : Accounts × Result User) → (or_fallback second r).0.redis ≡ r.0.redis
or_fallback-redis second (s, ok u) = refl
or_fallback-redis second (s, err unique_violation) =
    or_conflict-redis (create second s) ∙ create-redis second s
or_fallback-redis second (s, err (bad_request m)) = refl
or_fallback-redis second (s, err (unauthorized m)) = refl
or_fallback-redis second (s, err (forbidden m)) = refl
or_fallback-redis second (s, err (not_found m)) = refl
or_fallback-redis second (s, err (conflict m)) = refl
or_fallback-redis second (s, err database_failure) = refl
or_fallback-redis second (s, err internal_error) = refl

enter-redis :
    (f : Fresh) (address now : ℕ) (existing : Option User) (s : Accounts)
    → (enter f address now existing s).0.redis ≡ s.redis
unfolding update_wallet_verified
enter-redis f address now none s =
    or_fallback-redis (account f f.fallback_username address now)
      (create (account f f.username address now) s)
    ∙ create-redis (account f f.username address now) s
enter-redis f address now (some u) s = write_unique-redis u.id _ s

Keeps-open_session :
    (now address : ℕ) (k : Crypto) (at : ℕ) (u : User) (jti1 jti2 salt : ℕ)
    → Keeps (IsSpent now address) (open_session k at u jti1 jti2 salt)
unfolding open_session set_refresh_token_hash
Keeps-open_session now address k at u jti1 jti2 salt =
    Keeps->>= (same_redis now address (write_columns u.id _) (write_columns-redis u.id _))
      (λ _. Keeps-return (generate_token_pair k at u.id u.email u.role jti1 jti2))

-- What the sign-in does once the challenge is taken away.
Keeps-entered :
    (now address : ℕ) (k : Crypto) (e : Ethers) (at own : ℕ) (f : Fresh) (jti1 jti2 salt : ℕ)
    → Keeps (IsSpent now address) (
        read (λ (s : Accounts). find_by_wallet_address e.lower s.users own) >>= λ existing.
        enter f own at existing >>= λ u. open_session k at u jti1 jti2 salt)
Keeps-entered now address k e at own f jti1 jti2 salt =
    Keeps->>= (Keeps-read (λ (s : Accounts). find_by_wallet_address e.lower s.users own))
      (λ existing.
        Keeps->>= (same_redis now address (enter f own at existing) (enter-redis f own at existing))
          (λ u. Keeps-open_session now address k at u jti1 jti2 salt))

sign_in_refused :
    (k : Crypto) (e : Ethers) (now address signature : ℕ) (f : Fresh) (jti1 jti2 salt : ℕ)
    (s : Accounts)
    → get now (e.lower address) s.redis.sign_ins ≡ none
    → (sign_in k e now address signature f jti1 jti2 salt s).1
      ≡ err (unauthorized "Challenge expired or not found. Request a new challenge.")
unfolding sign_in
sign_in_refused k e now address signature f jti1 jti2 salt s missing = simp missing

sign_in-IsSpent :
    (k : Crypto) (e : Ethers) (now last address signature : ℕ) (f : Fresh) (jti1 jti2 salt : ℕ)
    (s : Accounts) (stored : List ℕ)
    → get now (e.lower address) s.redis.sign_ins ≡ some stored
    → verify_wallet_signature e (stored_message stored) signature address ≡ true
    → get last
        (e.lower address)
        ((sign_in k e now address signature f jti1 jti2 salt s).0.redis.sign_ins)
      ≡ none
unfolding sign_in
sign_in-IsSpent k e now last address signature f jti1 jti2 salt s stored got signed =
    rw (got, signed)
      ((Keeps-entered last (e.lower address) k e now (e.lower address) f jti1 jti2 salt).kept
        (on_sign_ins (delete (e.lower address)) s) gone)
  where
    gone : get last (e.lower address) (delete (e.lower address) s.redis.sign_ins) ≡ none
    gone = ground (arith, get-delete last (e.lower address) (e.lower address) s.redis.sign_ins)

-- A challenge of the sign-in by wallet is good for one signature: once a good signature has been handed
-- in for it, however the sign-in went on, any signature for the same address, up to upper and lower
-- case, is refused until a new challenge is issued.
pub sign_in_twice :
    (k : Crypto) (e : Ethers) (now last address spelled signature other : ℕ) (f f' : Fresh)
    (jti1 jti2 salt jti3 jti4 salt2 : ℕ) (s : Accounts) (stored : List ℕ)
    → get now (e.lower address) s.redis.sign_ins ≡ some stored
    → verify_wallet_signature e (stored_message stored) signature address ≡ true
    → e.lower spelled ≡ e.lower address
    → (sign_in k e last spelled other f' jti3 jti4 salt2
        ((sign_in k e now address signature f jti1 jti2 salt s).0)).1
      ≡ err (unauthorized "Challenge expired or not found. Request a new challenge.")
sign_in_twice k e now last address spelled signature other f f' jti1 jti2 salt jti3 jti4 salt2 s
      stored got signed same =
    sign_in_refused k e last spelled other f' jti3 jti4 salt2 _ (
      ap (λ a. get last a ((sign_in k e now address signature f jti1 jti2 salt s).0.redis.sign_ins))
        same
      ∙ sign_in-IsSpent k e now last address signature f jti1 jti2 salt s stored got signed)
