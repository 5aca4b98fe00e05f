-- ===== src/Wallet/Challenge.antt =====
-- A challenge of src/modules/wallet/service/wallet.service.ts from its issue to its use.
use swafri_backend.Common.{
  ℕ, zero, suc, ◌+◌, ◌<◌, ◌≡◌, refl, ap, ◌∙◌, sym, Bool, true, false, not, none, some, List, [],
  ◌∷◌, ◌++◌, ◌==◌, any, all_of, same_text, length, take, skip, delete, ok, err, unauthorized, arith,
}
use swafri_backend.Redis.{get, set}
use swafri_backend.Redis.Expiry.{get-set_for, get-delete}
use swafri_backend.Users.{
  User, Accounts, find_user, replace_user, clashes, connect_verified, write_unique,
}
use swafri_backend.Users.Rows.{find_user-replace_user}
use swafri_backend.Wallet.{
  Ethers, verify_wallet_signature, index_of_colons, read_challenge, challenge_text,
  challenge_message, generate_challenge, is_other, find_by_wallet, connect, on_challenges,
}

abbrev pub is_plain : ℕ → Bool
is_plain c = not (c == 58)

index_of_colons-append :
    (xs rest : List ℕ)
    → all_of is_plain xs ≡ true
    → index_of_colons (xs ++ (58 ∷ 58 ∷ rest)) ≡ some (length xs)
index_of_colons-append [] rest h = refl
index_of_colons-append (c ∷ xs) rest h =
    rw (no_colon, index_of_colons-append xs rest (ground arith)) (ap some (omega arith))
  where
    no_colon : (c == 58) ≡ false
    no_colon = ground arith

take-length_append : (xs ys : List ℕ) → take (length xs) (xs ++ ys) ≡ xs
take-length_append [] ys = refl
take-length_append (x ∷ xs) ys = ap (λ zs. x ∷ zs) (take-length_append xs ys)

skip-length_append : (xs ys : List ℕ) → skip (length xs) (xs ++ ys) ≡ ys
skip-length_append [] ys = refl
skip-length_append (x ∷ xs) ys = skip-length_append xs ys

skip_empty : (n : ℕ) → skip {A = ℕ} n [] ≡ []
skip_empty zero = refl
skip_empty (suc n) = refl

skip-skip : (m n : ℕ) (xs : List ℕ) → skip (n + m) xs ≡ skip n (skip m xs)
skip-skip zero n xs = ap (λ k. skip k xs) unmoved
  where
    unmoved : n + 0 ≡ n
    unmoved = omega arith
skip-skip (suc m) n [] = skip_empty (n + suc m) ∙ sym (skip_empty n)
skip-skip (suc m) n (x ∷ xs) = ap (λ k. skip k (x ∷ xs)) moved ∙ skip-skip m n xs
  where
    moved : n + suc m ≡ suc (n + m)
    moved = omega arith

skip_behind : (xs rest : List ℕ) → skip (length xs + 2) (xs ++ (58 ∷ 58 ∷ rest)) ≡ rest
skip_behind xs rest =
    ap (λ k. skip k (xs ++ (58 ∷ 58 ∷ rest))) (omega arith)
    ∙ skip-skip (length xs) 2 (xs ++ (58 ∷ 58 ∷ rest))
    ∙ ap (skip 2) (skip-length_append xs (58 ∷ 58 ∷ rest))

-- The address and the message of a stored challenge are read back, whatever the message holds; the
-- address and the nonce have no colon.
pub read_challenge-challenge_text :
    (address nonce message : List ℕ)
    → all_of is_plain address ≡ true
    → all_of is_plain nonce ≡ true
    → read_challenge (challenge_text address nonce message) ≡ (address, message)
unfolding read_challenge
read_challenge-challenge_text address nonce message plain1 plain2 =
    rw
      (
        index_of_colons-append address (nonce ++ (58 ∷ 58 ∷ message)) plain1,
        skip_behind address (nonce ++ (58 ∷ 58 ∷ message)),
        index_of_colons-append nonce message plain2,
        take-length_append address (58 ∷ 58 ∷ (nonce ++ (58 ∷ 58 ∷ message))),
      )
      (ap (λ m. (address, m)) second)
  where
    second :
        skip (length address + 2 + length nonce + 2) (challenge_text address nonce message)
        ≡ message
    second =
        ap (λ k. skip k (challenge_text address nonce message)) (omega arith)
        ∙ skip-skip (length address + 2) (length nonce + 2) (challenge_text address nonce message)
        ∙ ap (skip (length nonce + 2)) (skip_behind address (nonce ++ (58 ∷ 58 ∷ message)))
        ∙ skip_behind nonce message

same_text_refl : (xs : List ℕ) → same_text xs xs ≡ true
same_text_refl [] = refl
same_text_refl (x ∷ xs) = ground (arith, same_text_refl xs)

-- The row of a user whose wallet is connected.
abbrev pub connected : Ethers → (now address : ℕ) → User → User
connected e now address u = record u {
  wallet_address = some (e.lower address);
  wallet_verified_at = some now;
  blockchain_profile_id = some (e.profile (e.lower address) u.id);
}

-- The state that holds a challenge for a user.
abbrev pub challenged : Accounts → (now user_id : ℕ) → List ℕ → Accounts
challenged s now user_id stored = on_challenges (set now 300000 user_id stored) s

get_challenge :
    (s : Accounts) (now later user_id : ℕ) (stored : List ℕ)
    → later < now + 300000
    → get later user_id ((challenged s now user_id stored).redis.wallet_challenges) ≡ some stored
unfolding set
get_challenge s now later user_id stored soon =
    ground (arith, get-set_for now later 300 user_id user_id stored s.redis.wallet_challenges)

connect_leaves :
    (e : Ethers) (now address signature : ℕ) (stored : List ℕ) (s : Accounts) (u : User)
    → get now u.id s.redis.wallet_challenges ≡ some stored
    → same_text ((read_challenge stored).0) (e.text_of (e.lower address)) ≡ true
    → verify_wallet_signature e ((read_challenge stored).1) signature address ≡ true
    → is_other u.id (find_by_wallet e s.users address) ≡ false
    → find_user s.users u.id ≡ some u
    → any (clashes (connected e now address u)) s.users ≡ false
    → connect e now u.id address signature s ≡ (
      record (on_challenges (delete u.id) s) {
        users = replace_user (connected e now address u) s.users;
      },
      ok (e.profile (e.lower address) u.id),
    )
unfolding connect connect_verified write_unique
connect_leaves e now address signature stored s u got same signed free found alone =
    simp (got, same, signed, free, found, alone)

connect_refused :
    (e : Ethers) (now user_id address signature : ℕ) (s : Accounts)
    → get now user_id s.redis.wallet_challenges ≡ none
    → (connect e now user_id address signature s).1
      ≡ err (unauthorized "Challenge not found or expired. Request a new challenge first.")
unfolding connect
connect_refused e now user_id address signature s missing = simp missing

-- A wallet is connected by a signature of the challenge, once. The challenge was issued to the
-- user less than five minutes ago for the same address up to upper and lower case; neither the
-- address's text nor the nonce has a colon, the signature of the challenge's message is good, no
-- other row has the wallet, and the new row repeats no value that must be unique. Then the
-- connection succeeds and stores the address, and any signature that comes after it, for this
-- address, is refused as without a challenge.
pub connect-generate_challenge :
    (e : Ethers) (now later last address spelled signature other : ℕ) (nonce issued_at : List ℕ)
    (s : Accounts) (u : User)
    → e.lower spelled ≡ e.lower address
    → all_of is_plain (e.text_of (e.lower address)) ≡ true
    → all_of is_plain nonce ≡ true
    → verify_wallet_signature e (challenge_message e u.id address nonce issued_at) signature spelled
      ≡ true
    → later < now + 300000
    → find_user s.users u.id ≡ some u
    → is_other u.id (find_by_wallet e s.users spelled) ≡ false
    → any (clashes (connected e later spelled u)) s.users ≡ false
    → ((connect e later u.id spelled signature
          ((generate_challenge e now u.id address nonce issued_at s).0)).1
        ≡ ok (e.profile (e.lower address) u.id))
      × (find_user
            ((connect e later u.id spelled signature
              ((generate_challenge e now u.id address nonce issued_at s).0)).0.users)
            u.id
          ≡ some (connected e later spelled u))
      × ((connect e last u.id spelled other (
            (connect e later u.id spelled signature
              ((generate_challenge e now u.id address nonce issued_at s).0)).0)).1
          ≡ err (unauthorized "Challenge not found or expired. Request a new challenge first."))
unfolding generate_challenge
connect-generate_challenge e now later last address spelled signature other nonce issued_at s u same
      plain1 plain2 signed soon found free alone =
    rw
      (connect_leaves e later spelled signature stored (challenged s now u.id stored) u
        (get_challenge s now later u.id stored soon) named (rw parts signed) free found alone)
      (ap (λ a. ok (e.profile a u.id)) same, kept, connect_refused e last u.id spelled other _ gone)
  where
    message : List ℕ
    message = challenge_message e u.id address nonce issued_at

    stored : List ℕ
    stored = challenge_text (e.text_of (e.lower address)) nonce message

    parts : read_challenge stored ≡ (e.text_of (e.lower address), message)
    parts = read_challenge-challenge_text (e.text_of (e.lower address)) nonce message plain1 plain2

    named : same_text ((read_challenge stored).0) (e.text_of (e.lower spelled)) ≡ true
    named = rw (parts, same) (same_text_refl (e.text_of (e.lower address)))

    kept :
        find_user (replace_user (connected e later spelled u) s.users) u.id
        ≡ some (connected e later spelled u)
    kept = ground (arith, find_user-replace_user (connected e later spelled u) u s.users u.id)

    gone :
        get last u.id (delete u.id ((challenged s now u.id stored).redis.wallet_challenges)) ≡ none
    gone =
        ground (
          arith,
          get-delete last u.id u.id ((challenged s now u.id stored).redis.wallet_challenges),
        )
