-- ===== src/Wallet.antt =====
-- src/modules/wallet/service/wallet.service.ts over src/modules/wallet/repository/wallet.repository.ts. The
-- registration on the chain that follows a connection, which is not awaited, is left out.
pub mod Challenge
mod Tests
use swafri_backend.Common.{
  ℕ, zero, suc, ◌+◌, ◌*◌, Bool, true, false, not, ◌&&◌, Option, none, some, List, [], ◌∷◌, ◌++◌,
  ◌==◌, if◌then◌else◌, is_some, codes, same_text, take, skip, find, delete, Result, ok, err,
  bad_request, unauthorized,
}
use swafri_backend.Effects.{Run, ◌>>=◌, ◌>>◌, ensure, require, read, modify, return}
use swafri_backend.Redis.{Held, Redis, get, set}
use swafri_backend.Users.{User, Accounts, find_user, has_wallet, connect_verified}
use swafri_backend.Users

-- What ethers does: `lower` is `toLowerCase` of an address, `text_of` the text that spells an address or
-- an identifier, `recover` the signer of a message, where the signature is one, and `profile` the hash
-- of an address and a user's identifier.
pub record Ethers : Type 0 where
  pub lower : ℕ → ℕ
  pub text_of : ℕ → List ℕ
  pub recover : (message : List ℕ) (signature : ℕ) → Option ℕ
  pub profile : (address user_id : ℕ) → ℕ

abbrev pub signed_by : Ethers → (expected : ℕ) → Option ℕ → Bool
signed_by e expected none = false
signed_by e expected (some signer) = e.lower signer == e.lower expected

-- `verifyWalletSignature` of src/core/provider/web3.provider.ts.
unfoldable pub verify_wallet_signature : Ethers → List ℕ → (signature expected : ℕ) → Bool
verify_wallet_signature e message signature expected =
    signed_by e expected (e.recover message signature)

abbrev pub shift_found : Option ℕ → Option ℕ
shift_found none = none
shift_found (some i) = some (i + 1)

abbrev pub starts_colon : List ℕ → Bool
starts_colon [] = false
starts_colon (c ∷ cs) = c == 58

-- `indexOf('::')`; no position is the source's -1.
abbrev pub index_of_colons : List ℕ → Option ℕ
index_of_colons [] = none
index_of_colons (c ∷ cs) =
    let later = shift_found (index_of_colons cs) in
    if c == 58 && starts_colon cs then some 0 else later

-- `position + 2`, where -1 is no position.
abbrev pub behind : Option ℕ → ℕ
behind none = 1
behind (some i) = i + 2

-- `substring(0, position)`, which is empty for -1.
abbrev pub before_found : Option ℕ → List ℕ → List ℕ
before_found none text = []
before_found (some i) text = take i text

-- `indexOf('::', from)`.
abbrev pub index_from : (from : ℕ) → Option ℕ → Option ℕ
index_from from none = none
index_from from (some i) = some (from + i)

-- The address and the message of what is stored.
unfoldable pub read_challenge : List ℕ → List ℕ × List ℕ
read_challenge stored =
    let first = index_of_colons stored in
    let second = index_from (behind first) (index_of_colons (skip (behind first) stored)) in
    (before_found first stored, skip (behind second) stored)

abbrev pub challenge_text : (address nonce message : List ℕ) → List ℕ
challenge_text address nonce message = address ++ (58 ∷ 58 ∷ (nonce ++ (58 ∷ 58 ∷ message)))

abbrev pub line : List ℕ → List ℕ → List ℕ
line text rest = text ++ (10 ∷ rest)

abbrev pub challenge_message : Ethers → (user_id address : ℕ) → (nonce issued_at : List ℕ) → List ℕ
challenge_message e user_id address nonce issued_at =
    line (codes "Web3 Battle Arena — Connect Wallet") (
      line [] (
        line (codes "User ID: " ++ e.text_of user_id) (
          line (codes "Wallet:  " ++ e.text_of address) (
            line (codes "Nonce:   " ++ nonce)
              (line (codes "Issued:  " ++ issued_at) (codes "Chain:   Base Sepolia (84532)"))))))

abbrev pub on_challenges :
    (List (ℕ × Held (List ℕ)) → List (ℕ × Held (List ℕ))) → Accounts → Accounts
on_challenges change s = record s {
  redis = record s.redis { wallet_challenges = change s.redis.wallet_challenges };
}

-- Five minutes.
unfoldable pub generate_challenge :
    Ethers → (now user_id address : ℕ) → (nonce issued_at : List ℕ) → Run Accounts (List ℕ × List ℕ)
generate_challenge e now user_id address nonce issued_at = do
  let message = challenge_message e user_id address nonce issued_at
  modify (
      on_challenges
        (set now 300000 user_id (challenge_text (e.text_of (e.lower address)) nonce message)))
  return (message, nonce)

abbrev pub is_other : (user_id : ℕ) → Option User → Bool
is_other user_id none = false
is_other user_id (some u) = not (u.id == user_id)

-- `findByWallet` looks for the address in lower case.
unfoldable pub find_by_wallet : Ethers → List User → (address : ℕ) → Option User
find_by_wallet e users address =
    find (λ (u : User). has_wallet e.lower address u.wallet_address) users

unfoldable pub connect : Ethers → (now user_id address signature : ℕ) → Run Accounts ℕ
connect e now user_id address signature = do
  found ← read (λ (s : Accounts). get now user_id s.redis.wallet_challenges)
  stored ←
      require found (unauthorized "Challenge not found or expired. Request a new challenge first.")
  let parts = read_challenge stored
  ensure (same_text (parts.0) (e.text_of (e.lower address)))
      (bad_request "Wallet address does not match the issued challenge")
  ensure (verify_wallet_signature e (parts.1) signature address)
      (unauthorized "Invalid wallet signature")
  modify (on_challenges (delete user_id))
  claimed ← read (λ (s : Accounts). is_other user_id (find_by_wallet e s.users address))
  ensure (not claimed) (bad_request "Wallet address is already linked to another account")
  connect_verified user_id (e.lower address) (e.profile (e.lower address) user_id) now
  return (e.profile (e.lower address) user_id)

unfoldable pub disconnect : (user_id : ℕ) → Run Accounts (Unit {0})
disconnect user_id = do Users.disconnect user_id; return tt

pub record WalletStatus : Type 0 where
  pub connected : Bool
  pub wallet_address : Option ℕ
  pub wallet_verified_at : Option ℕ
  pub blockchain_profile_id : Option ℕ

abbrev pub status_of : Option User → WalletStatus
status_of none = record {
  connected = false;
  wallet_address = none;
  wallet_verified_at = none;
  blockchain_profile_id = none;
}
status_of (some u) = record {
  connected = is_some u.wallet_address;
  wallet_address = u.wallet_address;
  wallet_verified_at = u.wallet_verified_at;
  blockchain_profile_id = u.blockchain_profile_id;
}

unfoldable pub status : List User → (user_id : ℕ) → WalletStatus
status users user_id = status_of (find_user users user_id)
