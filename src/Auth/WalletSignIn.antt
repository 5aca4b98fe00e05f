-- ===== src/Auth/WalletSignIn.antt =====
-- The sign-in by wallet of src/modules/auth/service/auth.service.ts: generateWalletChallenge and
-- verifyWalletSignature. The registration on the chain that follows is not awaited and left out.
pub mod Once
use swafri_backend.Common.{
  ℕ, Option, none, some, List, [], ◌∷◌, ◌++◌, codes, skip, delete, Result, ok, err, unauthorized,
  conflict, unique_violation,
}
use swafri_backend.Effects.{Run, ◌>>=◌, ◌>>◌, ensure, require, read, modify, return}
use swafri_backend.Redis.{Held, get, set}
use swafri_backend.Users.{User, Accounts, create, find_by_wallet_address, update_wallet_verified}
use swafri_backend.Wallet.{Ethers, verify_wallet_signature, index_of_colons, behind, line}
use swafri_backend.Auth.{Crypto}
use swafri_backend.Auth.Sessions.{new_user, open_session}

abbrev pub sign_in_message : Ethers → (address : ℕ) → (nonce issued_at : List ℕ) → List ℕ
sign_in_message e address nonce issued_at = line (codes "Web3 Battle Arena wants you to sign in.") (
    line [] (
      line (codes "Wallet: " ++ e.text_of address) (
        line (codes "Nonce: " ++ nonce)
          (line (codes "Issued At: " ++ issued_at) (codes "Chain ID: 84532 (Base Sepolia)")))))

abbrev pub on_sign_ins : (List (ℕ × Held (List ℕ)) → List (ℕ × Held (List ℕ))) → Accounts → Accounts
on_sign_ins change s = record s { redis = record s.redis { sign_ins = change s.redis.sign_ins } }

unfoldable pub generate_wallet_challenge :
    Ethers → (now address : ℕ) → (nonce issued_at : List ℕ) → Run Accounts (List ℕ × List ℕ)
generate_wallet_challenge e now address nonce issued_at = do
  let message = sign_in_message e address nonce issued_at
  modify (on_sign_ins (set now 300000 (e.lower address) (nonce ++ (58 ∷ 58 ∷ message))))
  return (message, nonce)

-- What is made up for a new account: identifiers, the email and the usernames that the address gives, and
-- the hash of a random password.
pub record Fresh : Type 0 where
  pub id : ℕ
  pub email : ℕ
  pub username : ℕ
  pub fallback_username : ℕ
  pub password : ℕ
  pub profile_id : ℕ

abbrev pub account : Fresh → (username address now : ℕ) → User
account f username address now =
    new_user f.id f.email username f.password (some address) (some now) (some f.profile_id)

-- `catch (retryErr)`.
abbrev pub or_conflict : Accounts × Result User → Accounts × Result User
or_conflict (s, ok u) = (s, ok u)
or_conflict (s, err e) =
    (s, err (conflict "This wallet address or username is already linked to another account."))

-- `catch (err)`: a duplicate is tried once more, under the other username.
abbrev pub or_fallback : User → Accounts × Result User → Accounts × Result User
or_fallback second (s, ok u) = (s, ok u)
or_fallback second (s, err unique_violation) = or_conflict (create second s)
or_fallback second (s, err e) = (s, err e)

abbrev pub enter : Fresh → (address now : ℕ) → Option User → Run Accounts User
enter f address now none s =
    or_fallback (account f f.fallback_username address now)
      (create (account f f.username address now) s)
enter f address now (some u) s = update_wallet_verified u.id address now s

-- The message begins behind the first `::`.
abbrev pub stored_message : List ℕ → List ℕ
stored_message stored = skip (behind (index_of_colons stored)) stored

unfoldable pub sign_in :
    Crypto
    → Ethers
    → (now address signature : ℕ) → Fresh
    → (jti1 jti2 salt : ℕ) → Run Accounts (ℕ × ℕ)
sign_in k e now address signature f jti1 jti2 salt = do
  found ← read (λ (s : Accounts). get now (e.lower address) s.redis.sign_ins)
  stored ← require found (unauthorized "Challenge expired or not found. Request a new challenge.")
  ensure (verify_wallet_signature e (stored_message stored) signature address)
      (unauthorized "Invalid wallet signature")
  modify (on_sign_ins (delete (e.lower address)))
  existing ← read (λ (s : Accounts). find_by_wallet_address e.lower s.users (e.lower address))
  u ← enter f (e.lower address) now existing
  open_session k now u jti1 jti2 salt
