-- ===== src/Achievement/Criteria.antt =====
-- The texts that `evaluate` of achievement.service.ts takes for a criterion, and what it reads in them.
use swafri_backend.Common.{
  ℕ, ◌≡◌, refl, Bool, true, false, some, List, [], ◌∷◌, ◌++◌, ◌==◌, drop_while, all_of, starts_in,
  is_word, is_space, is_digit, parse_digits, take_while-append, drop_while-append, arith,
}
use swafri_backend.Achievement.{
  Operator, ge, gt, le, lt, eq, read_operator, read_rest, parse_criteria,
}

-- The spellings of an operator; equality has a short one and a long one.
abbrev pub spell : (long : Bool) → Operator → List ℕ
spell long ge = 62 ∷ 61 ∷ []
spell long gt = 62 ∷ []
spell long le = 60 ∷ 61 ∷ []
spell long lt = 60 ∷ []
spell true eq = 61 ∷ 61 ∷ 61 ∷ []
spell false eq = 61 ∷ 61 ∷ []

abbrev is_equals : ℕ → Bool
is_equals c = c == 61

read_operator-spell :
    (long : Bool) (op : Operator) (rest : List ℕ)
    → starts_in is_equals rest ≡ false
    → read_operator (spell long op ++ rest) ≡ some (op, rest)
read_operator-spell long ge rest h = refl
read_operator-spell long le rest h = refl
read_operator-spell long gt [] h = refl
read_operator-spell long gt (c ∷ cs) h = rw h refl
read_operator-spell long lt [] h = refl
read_operator-spell long lt (c ∷ cs) h = rw h refl
read_operator-spell true eq rest h = refl
read_operator-spell false eq [] h = refl
read_operator-spell false eq (c ∷ cs) h = rw h refl

space_no_word : (c : ℕ) → is_space c ≡ true → is_word c ≡ false
space_no_word c h = ground arith

-- What a gap and a text that does not begin in a class begin with, if no space is in the class.
gap-starts_in :
    (p : ℕ → Bool) (gap rest : List ℕ)
    → ((c : ℕ) → is_space c ≡ true → p c ≡ false)
    → all_of is_space gap ≡ true
    → starts_in p rest ≡ false
    → starts_in p (gap ++ rest) ≡ false
gap-starts_in p [] rest apart h k = k
gap-starts_in p (c ∷ gap) rest apart h k = apart c (ground arith)

spell-starts_in :
    (long : Bool) (op : Operator) (rest : List ℕ)
    → (starts_in is_word (spell long op ++ rest) ≡ false)
      × (starts_in is_space (spell long op ++ rest) ≡ false)
spell-starts_in long ge rest = (refl, refl)
spell-starts_in long gt rest = (refl, refl)
spell-starts_in long le rest = (refl, refl)
spell-starts_in long lt rest = (refl, refl)
spell-starts_in true eq rest = (refl, refl)
spell-starts_in false eq rest = (refl, refl)

digits_apart :
    (ds : List ℕ)
    → starts_in is_digit ds ≡ true
    → (starts_in is_space ds ≡ false) × (starts_in is_equals ds ≡ false)
digits_apart [] h = absurd (ground arith)
digits_apart (d ∷ ds) h = (ground arith, ground arith)

read_rest-digits :
    (name rest digits : List ℕ) (op : Operator)
    → starts_in is_word name ≡ true
    → drop_while is_space rest ≡ digits
    → starts_in is_digit digits ≡ true
    → all_of is_digit digits ≡ true
    → read_rest name (some (op, rest))
      ≡ some (record { column = name; operator = op; value = parse_digits 0 digits })
read_rest-digits [] rest digits op h skipped k l = absurd (ground arith)
read_rest-digits (c ∷ cs) rest [] op h skipped k l = absurd (ground arith)
read_rest-digits (c ∷ cs) rest (d ∷ ds) op h skipped k l = rw (skipped, l) refl

-- A criterion is read back from each of its texts: a name of word characters, an operator in one of its
-- spellings and a number in digits, with any white space around the operator, give the name, the
-- operator and the number's value.
pub parse_criteria-spell :
    (name gap1 gap2 digits : List ℕ) (long : Bool) (op : Operator)
    → starts_in is_word name ≡ true
    → all_of is_word name ≡ true
    → all_of is_space gap1 ≡ true
    → all_of is_space gap2 ≡ true
    → starts_in is_digit digits ≡ true
    → all_of is_digit digits ≡ true
    → parse_criteria (name ++ (gap1 ++ (spell long op ++ (gap2 ++ digits))))
      ≡ some (record { column = name; operator = op; value = parse_digits 0 digits })
unfolding parse_criteria
parse_criteria-spell name gap1 gap2 digits long op named words spaces1 spaces2 numbered numbers =
    rw
      (
        take_while-append is_word name rest words rest_no_word,
        drop_while-append is_word name rest words rest_no_word,
        drop_while-append is_space gap1 (spell long op ++ (gap2 ++ digits)) spaces1
            ((spell-starts_in long op (gap2 ++ digits)).1),
        read_operator-spell long op (gap2 ++ digits) (
            gap-starts_in is_equals gap2 digits (λ c h. ground arith) spaces2
              ((digits_apart digits numbered).1)),
      )
      (read_rest-digits name (gap2 ++ digits) digits op named drop_while_digits numbered numbers)
  where
    rest : List ℕ
    rest = gap1 ++ (spell long op ++ (gap2 ++ digits))

    rest_no_word : starts_in is_word rest ≡ false
    rest_no_word =
        gap-starts_in is_word gap1 (spell long op ++ (gap2 ++ digits)) space_no_word spaces1
          ((spell-starts_in long op (gap2 ++ digits)).0)

    drop_while_digits : drop_while is_space (gap2 ++ digits) ≡ digits
    drop_while_digits =
        drop_while-append is_space gap2 digits spaces2 ((digits_apart digits numbered).0)
