-- ===== src/Naming/Registration.antt =====
-- models/domains.py: a name that can be registered meets no zone of another user.
use desec_stack.Common.{
  ℕ, ◌-◌, ◌<◌, String, ◌≡◌, refl, sym, ap, ◌∙◌, ◌↔◌, inl, inr, Bool, true, false, not, ◌&&◌, Option,
  List, [], ◌∷◌, ◌++◌, arith, ltb, Bool-cases, ==_iff, nat_eq, string_eq, pair_eq, option_eq, ok,
  >>=-eq-ok, passed, ok_same, length, any, length-append, In, any-In,
}
use desec_stack.Naming.{
  Name, OwnedZone, assertion_failed, same_labels, has_suffix, public_suffix, first_labels,
  private_domains, is_foreign, is_one_of, is_covered_by_foreign_zone, is_below, covers_foreign_zone,
  is_reserved, is_free, is_registrable,
}

same_labels_iff : (a b : Name) → (same_labels a b ≡ true) ↔ (a ≡ b)
same_labels_iff [] [] = ground arith
same_labels_iff [] (b ∷ bs) = ground arith
same_labels_iff (a ∷ xs) [] = ground arith
same_labels_iff (a ∷ xs) (b ∷ ys) = ground (arith, same_labels_iff xs ys, ==_iff a b)

has_suffix_self : (s : Name) → has_suffix s s ≡ true
unfolding has_suffix
has_suffix_self [] = refl
has_suffix_self (l ∷ ls) = ground (arith, same_labels_iff (l ∷ ls) (l ∷ ls))

has_suffix-append : (above s : Name) → has_suffix s (above ++ s) ≡ true
unfolding has_suffix
has_suffix-append [] s = has_suffix_self s
has_suffix-append (l ∷ above) s = ground (arith, has_suffix-append above s)

is_below-append :
    (label : String) (labels name : Name) → is_below name ((label ∷ labels) ++ name) ≡ true
is_below-append label labels name = has_suffix-append labels name

-- Every name between a domain and its public suffix is among the private domains.
private_domains-between :
    (private suffix above name : Name)
    → private ++ suffix ≡ above ++ name
    → length suffix < length name
    → is_one_of (private_domains private suffix) name ≡ true
unfolding private_domains
private_domains-between [] suffix above name e l =
    let n = length-append above name in let m = ap length e in absurd (ground arith)
private_domains-between (p ∷ ps) suffix [] name e l =
    ground (arith, same_labels_iff name ((p ∷ ps) ++ suffix))
private_domains-between (p ∷ ps) suffix (a ∷ above) name e l =
    let tails : ps ++ suffix ≡ above ++ name = ground arith in
    ground (arith, private_domains-between ps suffix above name tails l)

-- A zone that is the name or lies above it, and is longer than its public suffix, or lies below it.
pub data Meets (suffix name zone : Name) : Type 0 where
  above :
      (labels : Name) → name ≡ labels ++ zone → length suffix < length zone → Meets suffix name zone
  below :
      (label : String) (labels : Name) → zone ≡ (label ∷ labels) ++ name → Meets suffix name zone

module _ (zones : List OwnedZone) (owner : Option ℕ) (suffix name : Name) where
  covered_free :
      is_covered_by_foreign_zone zones owner suffix name ≡ ok false
      → (zone : OwnedZone) → In zone zones
      → is_foreign owner zone ≡ true
      → (labels : Name) → name ≡ labels ++ zone.name
      → length suffix < length zone.name
      → true ≡ false
  unfolding is_covered_by_foreign_zone
  covered_free h zone i foreign labels e l =
      let private = first_labels (length name - length suffix) name in
      let test : OwnedZone → Bool =
        λ z. is_one_of (private_domains private suffix) z.name && is_foreign owner z in
      let (asserted, k) =
        passed (not (same_labels name (private ++ suffix))) assertion_failed (ok (any test zones))
          h in
      let split = (same_labels_iff name (private ++ suffix)).0 (ground arith) in
      let between = private_domains-between private suffix labels zone.name (sym split ∙ e) l in
      let found = any-In test zone zones i (ground arith) in ground arith

  covers_free :
      covers_foreign_zone zones owner name ≡ false
      → (zone : OwnedZone) → In zone zones
      → is_foreign owner zone ≡ true
      → (label : String) (labels : Name) → zone.name ≡ (label ∷ labels) ++ name
      → true ≡ false
  unfolding covers_foreign_zone
  covers_free h zone i foreign label labels e =
      let under = ap (is_below name) e ∙ is_below-append label labels name in
      let found =
        any-In (λ z. is_below name z.name && is_foreign owner z) zone zones i (ground arith) in
      ground arith

  is_free-Meets :
      is_free zones owner suffix name ≡ ok true
      → (zone : OwnedZone) → In zone zones
      → is_foreign owner zone ≡ true
      → Meets suffix name zone.name
      → true ≡ false
  unfolding is_free
  is_free-Meets h zone i foreign m =
      let (covered, c, k) = >>=-eq-ok (is_covered_by_foreign_zone zones owner suffix name) _ h in
      let answer : not covered && not (covers_foreign_zone zones owner name) ≡ true = ok_same k in
      let clear : covered ≡ false = ground arith in
      let uncovering : covers_foreign_zone zones owner name ≡ false = ground arith in
      elim m [
        | above labels e l ↦ covered_free (c ∙ ap ok clear) zone i foreign labels e l
        | below label labels e ↦ covers_free uncovering zone i foreign label labels e
      ]

-- A name that can be registered meets no zone of another user: none lies below it, and none has a
-- name above it that is longer than its public suffix, nor the name itself, unless the name is a
-- public suffix.
pub is_registrable-Meets :
    (psl : Name → Option (Name × Bool)) (local_public_suffixes : List Name) (zones : List OwnedZone)
    (owner : Option ℕ) (name : Name)
    → is_registrable psl local_public_suffixes zones owner name ≡ ok true
    → (zone : OwnedZone) → In zone zones
    → is_foreign owner zone ≡ true
    → ¬ (Meets (public_suffix psl local_public_suffixes name) name zone.name)
unfolding is_registrable
is_registrable-Meets psl locals zones owner name h zone i foreign m =
    let suffix = public_suffix psl locals name in
    let (_, k) = passed (ltb (length name) (length suffix)) assertion_failed _ h in
    elim (Bool-cases (is_reserved locals (length name - length suffix) name)) [
      | inl r ↦ absurd (ground arith)
      | inr r ↦
          let free : is_free zones owner suffix name ≡ ok true = ground arith in
          let conflict = is_free-Meets zones owner suffix name free zone i foreign m in
          absurd (ground arith)
    ]
