-- ===== src/Redis.antt =====
-- src/core/redis/redis.service.ts. The keys of the five prefixes are five maps, since no prefix is the
-- start of another. Times are in milliseconds; an entry is gone from its expiry on.
pub mod Expiry
use swafri_backend.Common.{
  ℕ, ◌+◌, ◌*◌, ◌/◌, Bool, true, false, Option, none, some, List, [], ◌==◌, if◌then◌else◌, ltb,
  is_some, lookup, insert, delete,
}

pub record Held {ℓ} (V : Type ℓ) : Type ℓ where
  pub value : V
  pub expires_at : ℕ

pub record Redis : Type 0 where
  pub blacklisted : List (ℕ × Held (Unit {0}))
  pub otps : List (ℕ × Held ℕ)
  pub active : List (ℕ × Held Bool)
  pub wallet_challenges : List (ℕ × Held (List ℕ))
  pub sign_ins : List (ℕ × Held (List ℕ))

module _ {ℓ} {V : Type ℓ} where
  abbrev pub unexpired : ℕ → Option (Held V) → Option V
  unexpired now none = none
  unexpired now (some h) = if ltb now h.expires_at then some h.value else none

  -- GET.
  unfoldable pub get : (now key : ℕ) → List (ℕ × Held V) → Option V
  get now key entries = unexpired now (lookup key entries)

  -- SET with EX.
  unfoldable pub set_for : (now ttl_seconds key : ℕ) → V → List (ℕ × Held V) → List (ℕ × Held V)
  set_for now ttl_seconds key value entries =
      insert key (record { value = value; expires_at = now + ttl_seconds * 1000 }) entries

  -- `Math.ceil(ttlMs / 1000)` seconds.
  unfoldable pub set : (now ttl_ms key : ℕ) → V → List (ℕ × Held V) → List (ℕ × Held V)
  set now ttl_ms key value entries = set_for now ((ttl_ms + 999) / 1000) key value entries

-- A lifetime that is not positive stores nothing.
unfoldable pub blacklist : (now jti ttl_ms : ℕ) → Redis → Redis
blacklist now jti ttl_ms r =
    if ttl_ms == 0 then r else record r { blacklisted = set now ttl_ms jti tt r.blacklisted }

unfoldable pub is_blacklisted : (now jti : ℕ) → Redis → Bool
is_blacklisted now jti r = is_some (get now jti r.blacklisted)

-- `hash` is SHA-256 of node's crypto.
unfoldable pub set_otp : (hash : ℕ → ℕ) → (now user_id otp ttl_seconds : ℕ) → Redis → Redis
set_otp hash now user_id otp ttl_seconds r = record r {
  otps = set_for now ttl_seconds user_id (hash otp) r.otps;
}

abbrev pub holds : Option ℕ → ℕ → Bool
holds none value = false
holds (some stored) value = stored == value

unfoldable pub verify_otp : (hash : ℕ → ℕ) → (now user_id otp : ℕ) → Redis → Bool
verify_otp hash now user_id otp r = holds (get now user_id r.otps) (hash otp)

unfoldable pub otp_exists : (now user_id : ℕ) → Redis → Bool
otp_exists now user_id r = is_some (get now user_id r.otps)

unfoldable pub delete_otp : (user_id : ℕ) → Redis → Redis
delete_otp user_id r = record r { otps = delete user_id r.otps }

-- Thirty seconds.
unfoldable pub cache_active_status : (now user_id : ℕ) → Bool → Redis → Redis
cache_active_status now user_id is_active r = record r {
  active = set_for now 30 user_id is_active r.active;
}

unfoldable pub get_cached_active_status : (now user_id : ℕ) → Redis → Option Bool
get_cached_active_status now user_id r = get now user_id r.active

unfoldable pub invalidate_active_status : (user_id : ℕ) → Redis → Redis
invalidate_active_status user_id r = record r { active = delete user_id r.active }
