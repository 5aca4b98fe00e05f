-- ===== src/Achievement/Awards.antt =====
-- What `checkAndAward` of src/modules/achievement/service/achievement.service.ts awards.
use swafri_backend.Common.{
  ℕ, ◌*◌, ◌≡◌, refl, ap, ◌∙◌, sym, subst, inl, inr, Bool, true, false, not, ◌&&◌, Option, none,
  some, List, [], ◌∷◌, ◌++◌, append-nil, append_assoc, ◌==◌, any, any-append, filter, map, length,
  All, Result, ok, arith, Bool-cases,
}
use swafri_backend.Effects.{Run, continue_with, continue_with-ok, return}
use swafri_backend.Users.{User, find_user}
use swafri_backend.Records.{
  Records, Achievement, Job, attempt-reliable, create_earned, add_job, is_pair, has_earned,
  mint_badge,
}
use swafri_backend.Achievement.{
  Criterion, evaluate, mint_for, award, award_each, Awarded, check_and_award,
}

-- The badges of the table have different identifiers.
abbrev pub IsDistinct : List Achievement → Type 0
IsDistinct [] = Unit
IsDistinct (a ∷ rest) = All (λ (b : Achievement). (a.id == b.id) ≡ false) rest × IsDistinct rest

abbrev pub name_of : Achievement → ℕ
name_of a = a.name

abbrev pub pair_of : User → Achievement → ℕ × ℕ
pair_of u a = (u.id, a.id)

module _ (other : User → Criterion → Bool) where
  -- A badge that a user has not earned yet and whose criterion is met.
  abbrev pub due : User → List (ℕ × ℕ) → Achievement → Bool
  due u earned a = not (any (is_pair u.id a.id) earned) && evaluate other a.criteria u

  abbrev pub all_due : User → List (ℕ × ℕ) → List Achievement → List Achievement
  all_due u earned = filter (due u earned)

  -- What a run leaves that awards some badges, in their order.
  pub record IsAwarded (u : User) (news : List Achievement) (s : Records)
      (r : Records × Result (List ℕ)) : Type 0 where
    pub answer : r.1 ≡ ok (map name_of news)
    pub stored : r.0.earned ≡ s.earned ++ map (pair_of u) news
    pub same_users : r.0.users ≡ s.users
    pub same_refused : r.0.refused ≡ s.refused
    pub same_badges : r.0.achievements ≡ s.achievements

  mint_for_lem :
      (u : User) (name : ℕ) (wallet verified : Option ℕ) (s : Records)
      → (jobs : List Job) × (mint_for u name wallet verified s ≡ (record s { jobs = jobs }, ok tt))
  unfolding add_job
  mint_for_lem u name none verified s = (s.jobs, refl)
  mint_for_lem u name (some address) none s = (s.jobs, refl)
  mint_for_lem u name (some address) (some at) s = elim (Bool-cases (address == 0)) [
    | inl a ↦ (s.jobs, rw a refl)
    | inr a ↦ (s.jobs ++ mint_badge address name ∷ [], rw a refl)
  ]

  award_lem :
      (u : User) (a : Achievement) (s : Records)
      → has_earned s u.id a.id ≡ false
      → s.refused ≡ []
      → (jobs : List Job) × (award u a s
          ≡ (record s { earned = s.earned ++ pair_of u a ∷ []; jobs = jobs }, ok tt))
  unfolding create_earned
  award_lem u a s free reliable =
      let minted =
        mint_for_lem u a.name u.wallet_address u.wallet_verified_at
          (record s { earned = s.earned ++ pair_of u a ∷ [] }) in
      (minted.0, rw (attempt-reliable _ s reliable, free) (minted.1))

  -- What the loop has written so far does not hold the badges that are still to come.
  abbrev IsPending : User → List (ℕ × ℕ) → Records → Achievement → Type 0
  IsPending u earned s a = has_earned s u.id a.id ≡ any (is_pair u.id a.id) earned

  still-IsPending :
      (u : User) (earned : List (ℕ × ℕ)) (s : Records) (jobs : List Job) (a : Achievement)
      (rest : List Achievement)
      → All (λ (b : Achievement). (a.id == b.id) ≡ false) rest
      → All (IsPending u earned s) rest
      → All
          (IsPending u earned (record s { earned = s.earned ++ pair_of u a ∷ []; jobs = jobs }))
          rest
  still-IsPending u earned s jobs a [] apart pending = tt
  still-IsPending u earned s jobs a (b ∷ rest) (differs, apart) (p, pending) = (
    ground (arith, any-append (is_pair u.id b.id) s.earned (pair_of u a ∷ [])),
    still-IsPending u earned s jobs a rest apart pending,
  )

  IsAwarded-cons :
      (u : User) (a : Achievement) (news : List Achievement) (s : Records) (jobs : List Job)
      (r : Records × Result (List ℕ))
      → IsAwarded u news (record s { earned = s.earned ++ pair_of u a ∷ []; jobs = jobs }) r
      → IsAwarded u (a ∷ news) s (continue_with (λ (names : List ℕ). return (a.name ∷ names)) r)
  IsAwarded-cons u a news s jobs r later =
      rw
        (continue_with-ok (λ (names : List ℕ). return {S = Records} (a.name ∷ names)) r _
          later.answer)
        (record {
          answer = refl;
          stored = later.stored ∙ append_assoc s.earned (pair_of u a ∷ []) (map (pair_of u) news);
          same_users = later.same_users;
          same_refused = later.same_refused;
          same_badges = later.same_badges;
        })

  award_each_lem :
      (u : User) (earned : List (ℕ × ℕ)) (badges : List Achievement) (s : Records)
      → IsDistinct badges
      → All (IsPending u earned s) badges
      → s.refused ≡ []
      → IsAwarded u (all_due u earned badges) s (award_each other u earned badges s)
  unfolding award_each
  award_each_lem u earned [] s distinct pending reliable = record {
    answer = refl;
    stored = sym (append-nil s.earned);
    same_users = refl;
    same_refused = refl;
    same_badges = refl;
  }
  award_each_lem u earned (a ∷ rest) s (apart, distinct) (p, pending) reliable =
      elim (Bool-cases (any (is_pair u.id a.id) earned)) [
        | inl had ↦ rw had (award_each_lem u earned rest s distinct pending reliable)
        | inr new ↦ elim (Bool-cases (evaluate other a.criteria u)) [
          | inr unmet ↦ rw (new, unmet) (award_each_lem u earned rest s distinct pending reliable)
          | inl met ↦
              let paid = award_lem u a s (p ∙ new) reliable in
              let later =
                award_each_lem u earned rest
                  (record s { earned = s.earned ++ pair_of u a ∷ []; jobs = paid.0 }) distinct
                  (still-IsPending u earned s (paid.0) a rest apart pending) reliable in
              rw (new, met, paid.1) (IsAwarded-cons u a (all_due u earned rest) s (paid.0) _ later)
        ]
      ]

  nothing_due :
      (u : User) (earned paid : List (ℕ × ℕ)) (badges : List Achievement)
      → ((b : Achievement)
          → any (is_pair u.id b.id) (map (pair_of u) (all_due u earned badges)) ≡ true
          → any (is_pair u.id b.id) paid ≡ true)
      → all_due u (earned ++ paid) badges ≡ []
  nothing_due u earned paid [] covered = refl
  nothing_due u earned paid (a ∷ rest) covered =
      rw not_due (nothing_due u earned paid rest covered_rest)
    where
      covered_rest :
          (b : Achievement)
          → any (is_pair u.id b.id) (map (pair_of u) (all_due u earned rest)) ≡ true
          → any (is_pair u.id b.id) paid ≡ true
      covered_rest b h = covered b (elim (Bool-cases (due u earned a)) [
        | inl now ↦ rw (now, h) (ground arith)
        | inr not_now ↦ rw (not_now, h) refl
      ])

      had : due u earned a ≡ true → any (is_pair u.id a.id) paid ≡ true
      had now = covered a (rw now (ground arith))

      not_due : due u (earned ++ paid) a ≡ false
      not_due = elim (Bool-cases (due u earned a)) [
        | inl now ↦ rw (any-append (is_pair u.id a.id) earned paid, had now) (ground arith)
        | inr not_now ↦ rw (any-append (is_pair u.id a.id) earned paid) (ground arith)
      ]

  nothing-IsPending :
      (u : User) (s : Records) (badges : List Achievement) → All (IsPending u s.earned s) badges
  nothing-IsPending u s [] = tt
  nothing-IsPending u s (a ∷ rest) = (refl, nothing-IsPending u s rest)

  -- The award of a user's badges: the answer names the badges of the table that the user has not earned
  -- and whose criteria are met, in the table's order, with twenty points for each; they are recorded as
  -- earned, after what was earned before, and no user and no badge of the table changes. The badges have
  -- different identifiers, and the database takes all coming writes, as it does afterwards.
  pub check_and_award-all_due :
      (user_id : ℕ) (s : Records) (u : User)
      → find_user s.users user_id ≡ some u
      → IsDistinct s.achievements
      → s.refused ≡ []
      → ((check_and_award other user_id s).1
          ≡ ok (record {
            badges = map name_of (all_due u s.earned s.achievements);
            bonus_points = length (map name_of (all_due u s.earned s.achievements)) * 20;
          }))
        × ((check_and_award other user_id s).0.earned
            ≡ s.earned ++ map (pair_of u) (all_due u s.earned s.achievements))
        × ((check_and_award other user_id s).0.users ≡ s.users)
        × ((check_and_award other user_id s).0.achievements ≡ s.achievements)
        × ((check_and_award other user_id s).0.refused ≡ [])
  unfolding check_and_award
  check_and_award-all_due user_id s u found distinct reliable =
      rw (found, continued) (refl, a.stored, a.same_users, a.same_badges, a.same_refused ∙ reliable)
    where
      a :
          IsAwarded u
            (all_due u s.earned s.achievements)
            s
            (award_each other u s.earned s.achievements s)
      a =
          award_each_lem u s.earned s.achievements s distinct (nothing-IsPending u s s.achievements)
            reliable

      finish : List ℕ → Run Records Awarded
      finish badges = return (record { badges = badges; bonus_points = length badges * 20 })

      continued :
          continue_with finish (award_each other u s.earned s.achievements s)
          ≡ finish
              (map name_of (all_due u s.earned s.achievements))
              ((award_each other u s.earned s.achievements s).0)
      continued = continue_with-ok finish _ _ a.answer

  -- Badges are awarded once: an award right after an award of the same user awards nothing and gives no
  -- points. The user exists, the badges have different identifiers, and the database
  -- takes the writes.
  pub check_and_award-again :
      (user_id : ℕ) (s : Records) (u : User)
      → find_user s.users user_id ≡ some u
      → IsDistinct s.achievements
      → s.refused ≡ []
      → (check_and_award other user_id ((check_and_award other user_id s).0)).1
        ≡ ok (record { badges = []; bonus_points = 0 })
  check_and_award-again user_id s u found distinct reliable =
      let first = check_and_award-all_due user_id s u found distinct reliable in
      let found2 = ap (λ us. find_user us user_id) (first.2) ∙ found in
      let second =
        check_and_award-all_due user_id ((check_and_award other user_id s).0) u found2
          (subst IsDistinct (sym (first.3)) distinct) (first.4) in
      second.0
      ∙ ap (λ n. ok (record { badges = map name_of n; bonus_points = length (map name_of n) * 20 }))
          (ap (λ e. all_due u e ((check_and_award other user_id s).0.achievements)) (first.1)
            ∙ ap (all_due u _) (first.3)
            ∙ nothing_due u s.earned _ s.achievements (λ b h. h))
