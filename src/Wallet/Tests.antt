-- ===== src/Wallet/Tests.antt =====
-- One user who connects a wallet. A signature is good if it is the address.
use swafri_backend.Common.{
  ◌+◌, ◌≡◌, refl, true, none, some, [], ◌∷◌, codes, ok, err, unauthorized, arith,
}
use swafri_backend.Users.{User, user, Accounts, find_user}
use swafri_backend.Wallet.{
  Ethers, generate_challenge, connect, verify_wallet_signature, find_by_wallet,
}
use swafri_backend.Wallet.Challenge.{connected, connect-generate_challenge}

abbrev ethers : Ethers
ethers = record {
  lower = λ address. address;
  text_of = λ address. codes "0xab";
  recover = λ message signature. some signature;
  profile = λ address user_id. address + user_id;
}

abbrev ann : User
ann = record {
  id = 1;
  email = 11;
  username = 21;
  password = 0;
  avatar = none;
  wallet_address = none;
  role = user;
  is_active = true;
  deleted_at = none;
  wins = 0;
  losses = 0;
  total_matches = 0;
  current_streak = 0;
  longest_streak = 0;
  points = 0;
  refresh_token = none;
  blockchain_profile_id = none;
  wallet_verified_at = none;
}

abbrev accounts : Accounts
accounts = record {
  users = ann ∷ [];
  redis = record {
    blacklisted = [];
    otps = [];
    active = [];
    wallet_challenges = [];
    sign_ins = [];
  };
}

connect-generate_challenge_example :
    ((connect ethers 5000 1 9 9
        ((generate_challenge ethers 1000 1 9 (codes "K7") (codes "today") accounts).0)).1
      ≡ ok 10)
    × (find_user
          ((connect ethers 5000 1 9 9
            ((generate_challenge ethers 1000 1 9 (codes "K7") (codes "today") accounts).0)).0.users)
          1
        ≡ some (connected ethers 5000 9 ann))
    × ((connect ethers 6000 1 9 9 (
          (connect ethers 5000 1 9 9
            ((generate_challenge ethers 1000 1 9 (codes "K7") (codes "today") accounts).0)).0)).1
        ≡ err (unauthorized "Challenge not found or expired. Request a new challenge first."))
unfolding verify_wallet_signature find_by_wallet
connect-generate_challenge_example =
    connect-generate_challenge ethers 1000 5000 6000 9 9 9 9 (codes "K7") (codes "today") accounts
      ann refl refl refl refl (omega arith) refl refl refl
