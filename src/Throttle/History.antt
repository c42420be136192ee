-- ===== src/Throttle/History.antt =====
-- The history that the throttle keeps, as the front of a log of requests whose rest has expired.
use desec_stack.Common.{
  ℕ, ◌+◌, ◌≤◌, ◌≡◌, refl, ap, ◌∙◌, Bool, true, false, not, ◌&&◌, List, [], ◌∷◌, ◌++◌, arith,
  if◌then◌else◌, nat_eq, string_eq, pair_eq, length, keep, all, is_empty,
}
use desec_stack.Throttle.{is_expired, drop_old}

abbrev pub count : (ℕ → Bool) → List ℕ → ℕ
count p ts = length (keep p ts)

pub count_mono :
    (p q : ℕ → Bool) (ts : List ℕ) → ((t : ℕ) → p t ≡ true → q t ≡ true) → count p ts ≤ count q ts
unfolding keep
count_mono p q [] h = omega arith
count_mono p q (t ∷ ts) h = ground (arith, h t, count_mono p q ts h)

-- the requests that still count at the time `now`
abbrev pub is_recent : ℕ → ℕ → ℕ → Bool
is_recent now duration t = not (is_expired now duration t)

pub count-append : (p : ℕ → Bool) (xs ys : List ℕ) → count p (xs ++ ys) ≡ count p xs + count p ys
unfolding keep
count-append p [] ys = omega arith
count-append p (x ∷ xs) ys = ground (arith, count-append p xs ys)

pub none_recent :
    (now duration : ℕ) (ts : List ℕ)
    → all (is_expired now duration) ts ≡ true
    → count (is_recent now duration) ts ≡ 0
unfolding keep
none_recent now duration [] h = refl
none_recent now duration (t ∷ ts) h = ground (arith, none_recent now duration ts)

-- The history is the front of the log, and the rest has expired.
pub record Covers (now duration : ℕ) (log history : List ℕ) : Type 0 where
  pub older : List ℕ
  pub whole : log ≡ history ++ older
  pub expired : all (is_expired now duration) older ≡ true

expired_later :
    (now later duration : ℕ) (ts : List ℕ)
    → now ≤ later
    → all (is_expired now duration) ts ≡ true
    → all (is_expired later duration) ts ≡ true
expired_later now later duration [] l h = refl
expired_later now later duration (t ∷ ts) l h =
    ground (arith, expired_later now later duration ts l)

pub Covers-later :
    (now later duration : ℕ) (log history : List ℕ)
    → now ≤ later
    → Covers now duration log history
    → Covers later duration log history
Covers-later now later duration log history l v = record {
  older = v.older;
  whole = v.whole;
  expired = expired_later now later duration v.older l v.expired;
}

-- What the loop drops has expired.
pub drop_old-Covers :
    (now duration : ℕ) (history : List ℕ)
    → Covers now duration history (drop_old now duration history)
unfolding drop_old
drop_old-Covers now duration [] = record { older = []; whole = refl; expired = refl }
drop_old-Covers now duration (t ∷ ts) =
    split (drop_old now duration ts) (drop_old-Covers now duration ts) (is_expired now duration t)
      refl
  where
    split :
        (rest : List ℕ)
        → Covers now duration ts rest
        → (b : Bool) → is_expired now duration t ≡ b
        → Covers now duration (t ∷ ts) (if is_empty rest && b then [] else t ∷ rest)
    split [] v true e = record {
      older = t ∷ v.older;
      whole = ap (λ xs. t ∷ xs) v.whole;
      expired = ground (arith, v.expired);
    }
    split [] v false e = record {
      older = v.older;
      whole = ap (λ xs. t ∷ xs) v.whole;
      expired = v.expired;
    }
    split (x ∷ rest) v b e = record {
      older = v.older;
      whole = ap (λ xs. t ∷ xs) v.whole;
      expired = v.expired;
    }

all-append :
    (p : ℕ → Bool) (xs ys : List ℕ) → all p xs ≡ true → all p ys ≡ true → all p (xs ++ ys) ≡ true
all-append p [] ys h k = k
all-append p (x ∷ xs) ys h k = ground (arith, all-append p xs ys)

append_assoc : (xs ys zs : List ℕ) → (xs ++ ys) ++ zs ≡ xs ++ (ys ++ zs)
append_assoc [] ys zs = refl
append_assoc (x ∷ xs) ys zs = ap (λ ws. x ∷ ws) (append_assoc xs ys zs)

pub Covers-trans :
    (now duration : ℕ) (log history front : List ℕ)
    → Covers now duration log history
    → Covers now duration history front
    → Covers now duration log front
Covers-trans now duration log history front v w = record {
  older = w.older ++ v.older;
  whole = v.whole ∙ ap (λ xs. xs ++ v.older) w.whole ∙ append_assoc front w.older v.older;
  expired = all-append (is_expired now duration) w.older v.older w.expired v.expired;
}
