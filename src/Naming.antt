-- ===== src/Naming.antt =====
-- models/domains.py: the public suffix of a domain name and whether the name can be registered. A
-- name is the list of its labels, so that `endswith` with a dot is a suffix of labels. What the public
-- suffix list says of a name is a parameter: its public suffix and whether it is one itself, or
-- nothing where the lookup times out or finds no name server.
pub mod Registration
use desec_stack.Common.{
  ℕ, zero, suc, ◌+◌, ◌-◌, String, Bool, true, false, not, ◌&&◌, ◌||◌, Option, none, some, List, [],
  ◌∷◌, ◌++◌, arith, ltb, leb, nat_beq, if◌then◌else◌, ◌==◌, nat_eq, string_eq, pair_eq, option_eq,
  Result, ok, ◌>>=◌, ◌>>◌, raise_if, length, any,
}
use Prim.Native.String.{len}
use text.Mathlib.Text.{starts_with}

abbrev pub Name : Type 0
Name = List String

pub record OwnedZone : Type 0 where
  pub name : Name
  pub owner : ℕ

pub data RegistrationError : Type 0 where
  assertion_failed : RegistrationError

abbrev pub same_labels : Name → Name → Bool
same_labels [] [] = true
same_labels [] (_ ∷ _) = false
same_labels (_ ∷ _) [] = false
same_labels (a ∷ xs) (b ∷ ys) = a == b && same_labels xs ys

-- `("." + name).endswith("." + suffix)`
unfoldable pub has_suffix : Name → Name → Bool
has_suffix suffix [] = same_labels suffix []
has_suffix suffix (label ∷ labels) = same_labels suffix (label ∷ labels) || has_suffix suffix labels

-- the length of the text with its dots
abbrev pub text_length : Name → ℕ
text_length [] = 0
text_length (label ∷ []) = len label
text_length (label ∷ next ∷ labels) = len label + 1 + text_length (next ∷ labels)

-- the loop over `LOCAL_PUBLIC_SUFFIXES`
unfoldable pub longest_local : Name → List Name → Name → Name
unfolding has_suffix
longest_local name [] found = found
longest_local name (suffix ∷ suffixes) found =
    if has_suffix suffix name && ltb (text_length found) (text_length suffix)
    then longest_local name suffixes suffix
    else longest_local name suffixes found

abbrev pub last_label : Name → Name
last_label [] = []
last_label (label ∷ []) = label ∷ []
last_label (label ∷ next ∷ labels) = last_label (next ∷ labels)

abbrev pub is_single : Name → Bool
is_single name = leb (length name) 1

-- `public_suffix`
unfoldable pub public_suffix : (Name → Option (Name × Bool)) → List Name → Name → Name
unfolding longest_local
public_suffix psl local_public_suffixes name = elim (psl name) [
  | some listed ↦ if listed.1 then listed.0 else longest_local name local_public_suffixes listed.0
  | none ↦
      if is_single name
      then last_label name
      else longest_local name local_public_suffixes (last_label name)
]

-- the first so many labels
abbrev pub first_labels : ℕ → Name → Name
first_labels zero labels = []
first_labels (suc n) [] = []
first_labels (suc n) (label ∷ labels) = label ∷ first_labels n labels

-- `private_domains`: what is left of the name for each label taken off, down to the suffix
unfoldable pub private_domains : Name → Name → List Name
private_domains [] suffix = []
private_domains (label ∷ labels) suffix =
    ((label ∷ labels) ++ suffix) ∷ private_domains labels suffix

-- `~Q(owner=self._owner_or_none)`
abbrev pub is_foreign : Option ℕ → OwnedZone → Bool
is_foreign none zone = true
is_foreign (some owner) zone = not (nat_beq zone.owner owner)

abbrev pub is_one_of : List Name → Name → Bool
is_one_of names name = any (same_labels name) names

-- `is_covered_by_foreign_zone`
unfoldable pub is_covered_by_foreign_zone :
    List OwnedZone → Option ℕ → Name → Name → Result RegistrationError Bool
unfolding private_domains
is_covered_by_foreign_zone zones owner suffix name =
    let private_components = first_labels (length name - length suffix) name in
    do
      raise_if (not (same_labels name (private_components ++ suffix))) assertion_failed
      ok (
          any
            (λ zone.
              is_one_of (private_domains private_components suffix) zone.name
              && is_foreign owner zone)
            zones)

-- `name.endswith("." + self.name)`: a suffix that leaves a label at least
abbrev pub is_below : Name → Name → Bool
is_below name [] = false
is_below name (label ∷ labels) = has_suffix name labels

-- `covers_foreign_zone`
unfoldable pub covers_foreign_zone : List OwnedZone → Option ℕ → Name → Bool
unfolding has_suffix
covers_foreign_zone zones owner name =
    any (λ zone. is_below name zone.name && is_foreign owner zone) zones

-- the direct children of public suffixes that are reserved
abbrev pub has_reserved_prefix : Name → Bool
has_reserved_prefix [] = false
has_reserved_prefix (label ∷ []) = starts_with label "_"
has_reserved_prefix (label ∷ _ ∷ _) =
    starts_with label "_" || label == "autoconfig" || label == "autodiscover"

-- the names that are refused whoever has what zones
unfoldable pub is_reserved : List Name → ℕ → Name → Bool
unfolding has_suffix
is_reserved local_public_suffixes private_generation name =
    has_suffix ("internal" ∷ []) name
    || nat_beq private_generation 0 && not (is_one_of local_public_suffixes name)
    || nat_beq private_generation 1 && has_reserved_prefix name

unfoldable pub is_free : List OwnedZone → Option ℕ → Name → Name → Result RegistrationError Bool
unfolding is_covered_by_foreign_zone covers_foreign_zone
is_free zones owner suffix name = do
  covered ← is_covered_by_foreign_zone zones owner suffix name
  ok (not covered && not (covers_foreign_zone zones owner name))

-- `is_registrable`, of a name that `clean` accepts
unfoldable pub is_registrable :
    (Name → Option (Name × Bool))
    → List Name
    → List OwnedZone
    → Option ℕ
    → Name
    → Result RegistrationError Bool
unfolding public_suffix is_covered_by_foreign_zone covers_foreign_zone has_suffix
is_registrable psl local_public_suffixes zones owner name =
    let suffix = public_suffix psl local_public_suffixes name in
    let private_generation = length name - length suffix in
    do
      raise_if (ltb (length name) (length suffix)) assertion_failed
      (if is_reserved local_public_suffixes private_generation name
          then ok false
          else is_free zones owner suffix name)
