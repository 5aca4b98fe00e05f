-- ===== src/Redis/Expiry.antt =====
-- What the store of redis.service.ts holds at which time.
use swafri_backend.Common.{
  ℕ, ◌+◌, ◌*◌, ◌/◌, ◌≡◌, refl, inl, inr, ◌&&◌, none, some, List, ◌==◌, if◌then◌else◌, ltb, delete,
  lookup-insert, lookup-delete, arith, Bool-cases,
}
use swafri_backend.Redis.{Held, Redis, get, set_for, set, blacklist, is_blacklisted}

module _ {ℓ} {V : Type ℓ} where
  pub get-set_for :
      (now later ttl key asked : ℕ) (value : V) (entries : List (ℕ × Held V))
      → get later asked (set_for now ttl key value entries) ≡ (
          if key == asked
          then (if ltb later (now + ttl * 1000) then some value else none)
          else get later asked entries)
  unfolding get set_for
  get-set_for now later ttl key asked value entries = elim (Bool-cases (key == asked)) [
    | inl a ↦
        rw
          (
            lookup-insert key asked (record { value = value; expires_at = now + ttl * 1000 })
                entries,
            a,
          )
          refl
    | inr a ↦
        rw
          (
            lookup-insert key asked (record { value = value; expires_at = now + ttl * 1000 })
                entries,
            a,
          )
          refl
  ]

  pub get-delete :
      (later key asked : ℕ) (entries : List (ℕ × Held V))
      → get later asked (delete key entries)
        ≡ (if key == asked then none else get later asked entries)
  unfolding get
  get-delete later key asked entries = elim (Bool-cases (key == asked)) [
    | inl a ↦ rw (lookup-delete key asked entries, a) refl
    | inr a ↦ rw (lookup-delete key asked entries, a) refl
  ]

-- A token is on the list for the lifetime that it is given, rounded up to seconds.
pub is_blacklisted-blacklist :
    (now later jti asked ttl_ms : ℕ) (r : Redis)
    → is_blacklisted later asked (blacklist now jti ttl_ms r) ≡ (
        if jti == asked && ltb 0 ttl_ms
        then ltb later (now + (ttl_ms + 999) / 1000 * 1000)
        else is_blacklisted later asked r)
unfolding is_blacklisted blacklist set
is_blacklisted-blacklist now later jti asked ttl_ms r = elim (Bool-cases (ttl_ms == 0)) [
  | inl a ↦ ground arith
  | inr a ↦ ground (arith, get-set_for now later ((ttl_ms + 999) / 1000) jti asked tt r.blacklisted)
]
