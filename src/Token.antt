-- ===== src/Token.antt =====
-- models/tokens.py: `Token` with its `TokenDomainPolicy` rows, which policy applies to an RR set, the
-- age rules, and how tokens and policies are saved and deleted.
pub mod Priority
pub mod Deletion
pub mod Soundness
pub mod Invariant
use desec_stack.Common.{
  ℕ, ◌+◌, String, Bool, true, false, not, ◌&&◌, ◌||◌, Option, none, some, List, [], ◌∷◌, arith, ltb,
  nat_beq, if◌then◌else◌, differ, ◌==◌, nat_eq, string_eq, pair_eq, Result, ok, ◌>>=◌, ◌>>◌,
  raise_if, keep, any,
}
use Prim.Native.Nat.{Ordering}
use Prim.Native.String.{compare}
use desec_stack.Db.{Item}

pub record Policy : Type 0 where
  pub id : ℕ
  pub domain : Option String
  pub subname : Option String
  pub type : Option String
  pub perm_write : Bool

-- `policies` is `tokendomainpolicy_set`; times and periods are numbers of seconds.
pub record Token : Type 0 where
  pub owner : String
  pub user_override : Option String
  pub mfa : Option Bool
  pub perm_create_domain : Bool
  pub perm_delete_domain : Bool
  pub perm_manage_tokens : Bool
  pub created : ℕ
  pub last_used : Option ℕ
  pub max_age : Option ℕ
  pub max_unused_period : Option ℕ
  pub auto_policy : Bool
  pub policies : List Policy

-- What is asked for: the domain, subname and type of an RR set, or nulls.
pub record Target : Type 0 where
  pub domain : Option String
  pub subname : Option String
  pub type : Option String

abbrev pub no_target : Target
no_target = record { domain = none; subname = none; type = none }

-- `rrset.domain`, `rrset.subname` and `rrset.type`
abbrev pub target_of : String → Item → Target
target_of domain item = record { domain = some domain; subname = some item.1; type = some item.0 }

-- `Q(field=value) | Q(field__isnull=True)`; `Q(field=None)` stands for `IS NULL`
abbrev pub field_matches : Option String → Option String → Bool
field_matches value none = true
field_matches none (some w) = false
field_matches (some v) (some w) = v == w

unfoldable pub matches : Target → Policy → Bool
matches t p =
    field_matches t.domain p.domain
    && field_matches t.subname p.subname
    && field_matches t.type p.type

-- `F(field).asc(nulls_last=True)`
abbrev pub field_order : Option String → Option String → Ordering
field_order none none = Ordering.eq
field_order none (some w) = Ordering.gt
field_order (some v) none = Ordering.lt
field_order (some v) (some w) = compare v w

abbrev pub and_then : Ordering → Ordering → Ordering
and_then Ordering.eq o = o
and_then Ordering.lt o = Ordering.lt
and_then Ordering.gt o = Ordering.gt

abbrev pub is_lt : Ordering → Bool
is_lt Ordering.lt = true
is_lt Ordering.eq = false
is_lt Ordering.gt = false

unfoldable pub comes_before : Policy → Policy → Bool
comes_before p q = is_lt (
    and_then (field_order p.domain q.domain)
      (and_then (field_order p.subname q.subname) (field_order p.type q.type)))

-- `order_by(...).first()`
unfoldable pub first_of_order : List Policy → Option Policy
unfolding comes_before
first_of_order [] = none
first_of_order (p ∷ ps) = elim (first_of_order ps) [
  | none ↦ some p
  | some q ↦ if comes_before q p then some q else some p
]

-- `Token.get_policy`
unfoldable pub get_policy : Token → Target → Option Policy
unfolding matches first_of_order
get_policy t target = first_of_order (keep (matches target) t.policies)

-- `a + b < now` where one of the operands may be None, which raises a TypeError and counts as not
-- exceeded
abbrev is_past : ℕ → Option ℕ → ℕ → Bool
is_past start none now = false
is_past start (some period) now = ltb (start + period) now

abbrev pub or_created : Option ℕ → ℕ → ℕ
or_created none created = created
or_created (some used) created = used

-- `Token.is_valid` at the time `now`
unfoldable pub is_valid : Token → ℕ → Bool
is_valid t now =
    if is_past t.created t.max_age now
    then false
    else if is_past (or_created t.last_used t.created) t.max_unused_period now
    then false
    else true

abbrev pub has_domain : String → Policy → Bool
has_domain name p = elim p.domain [ none ↦ false | some d ↦ d == name ]

abbrev pub is_null : Option String → Bool
is_null none = true
is_null (some v) = false

-- `Token.can_safely_delete_domain`
unfoldable pub can_safely_delete_domain : Token → String → Bool
can_safely_delete_domain t name = not (
    any (λ p. has_domain name p && not p.perm_write) t.policies
    || not (
        any (λ p. has_domain name p && is_null p.subname && is_null p.type && p.perm_write)
          t.policies)
      && any (λ p. is_null p.domain && not p.perm_write) t.policies)

-- `TokenDomainPolicy.represents_default_policy`
abbrev pub represents_default_policy : Policy → Bool
represents_default_policy p = is_null p.domain && is_null p.subname && is_null p.type

abbrev pub is_the : Policy → Option Policy → Bool
is_the p none = false
is_the p (some q) = nat_beq p.id q.id

-- `TokenDomainPolicy.is_default_policy`
unfoldable pub is_default_policy : Token → Policy → Bool
unfolding get_policy
is_default_policy t p = is_the p (get_policy t no_target)

pub data PolicyError : Type 0 where
  user_override_and_manage_tokens auto_policy_needs_restrictive_default : PolicyError
  first_must_be_default exactly_one_default must_be_restrictive : PolicyError
  default_with_others default_with_auto_policy : PolicyError
  unique_policy not_found : PolicyError

abbrev pub is_some : Option String → Bool
is_some o = not (is_null o)

abbrev pub allows_writing : Option Policy → Bool
allows_writing none = false
allows_writing (some p) = p.perm_write

-- `Token.clean`
unfoldable pub clean_token : Token → Result PolicyError (Unit {0})
unfolding get_policy
clean_token t = do
  raise_if (t.perm_manage_tokens && is_some t.user_override) user_override_and_manage_tokens
  raise_if (t.auto_policy && allows_writing (get_policy t no_target))
      auto_policy_needs_restrictive_default

-- `TokenDomainPolicy.clean` of a policy that is added
unfoldable pub clean_new_policy : Token → Policy → Result PolicyError (Unit {0})
unfolding get_policy
clean_new_policy t p = elim (get_policy t no_target) [
  | none ↦ raise_if (not (represents_default_policy p)) first_must_be_default
  | some d ↦ ok tt
]

-- `TokenDomainPolicy.clean` of a policy that is there, with its fields changed to those of `p`
unfoldable pub clean_policy : Token → Policy → Result PolicyError (Unit {0})
unfolding is_default_policy
clean_policy t p = do
  raise_if (differ (is_default_policy t p) (represents_default_policy p)) exactly_one_default
  raise_if (p.perm_write && is_default_policy t p && t.auto_policy) must_be_restrictive

abbrev pub same_field : Option String → Option String → Bool
same_field none none = true
same_field none (some w) = false
same_field (some v) none = false
same_field (some v) (some w) = v == w

-- The constraint `unique_policy` has `nulls_distinct=False`.
abbrev pub same_scope : Policy → Policy → Bool
same_scope p q =
    same_field p.domain q.domain && same_field p.subname q.subname && same_field p.type q.type

-- `TokenDomainPolicy.save` of a policy that is added
unfoldable pub add_policy : Policy → Token → Result PolicyError Token
unfolding clean_new_policy
add_policy p t = do
  clean_new_policy t p
  raise_if (any (same_scope p) t.policies) unique_policy
  ok (record t { policies = p ∷ t.policies })

abbrev pub other_than : Policy → Policy → Bool
other_than p q = not (nat_beq q.id p.id)

-- `TokenDomainPolicy.save` of the policy with that id, which a view has read
unfoldable pub change_policy : Policy → Token → Result PolicyError Token
unfolding clean_policy
change_policy p t = do
  raise_if (not (any (λ q. nat_beq q.id p.id) t.policies)) not_found
  clean_policy t p
  raise_if (any (same_scope p) (keep (other_than p) t.policies)) unique_policy
  ok (record t { policies = p ∷ keep (other_than p) t.policies })

-- `TokenDomainPolicy.delete` of a policy that a view has read
unfoldable pub delete_policy : Policy → Token → Result PolicyError Token
unfolding is_default_policy
delete_policy p t = do
  raise_if (is_default_policy t p && any (other_than p) t.policies) default_with_others
  raise_if (is_default_policy t p && t.auto_policy) default_with_auto_policy
  ok (record t { policies = keep (other_than p) t.policies })

abbrev pub default_policy : ℕ → Policy
default_policy id = record {
  id = id;
  domain = none;
  subname = none;
  type = none;
  perm_write = false;
}

abbrev pub is_missing : Option Policy → Bool
is_missing none = true
is_missing (some p) = false

-- `Token.save`, with the fields of `t`; `id` is the new id of a policy that it makes. A save of
-- `last_used` alone skips `clean`.
unfoldable pub save_token : Bool → ℕ → Token → Result PolicyError Token
unfolding clean_token add_policy get_policy
save_token only_last_used id t = do
  if only_last_used then ok tt else clean_token t
  if t.auto_policy && is_missing (get_policy t no_target)
      then add_policy (default_policy id) t
      else ok t

-- permissions.py, `TokenHasRRsetPermission`
unfoldable pub has_rrset_permission : Token → Target → Bool
unfolding get_policy
has_rrset_permission t target = elim (get_policy t target) [ none ↦ true | some p ↦ p.perm_write ]

-- A change of a token or of its policies, as a request makes it: `fields` carries the fields that a
-- serializer has set, and `used` is `TokenAuthentication` recording a use.
pub data Edit : Type 0 where
  add_one change_one delete_one : Policy → Edit
  save_fields : (fields : Token) (id : ℕ) → Edit
  used : (now id : ℕ) → Edit

unfoldable pub edit : Edit → Token → Result PolicyError Token
unfolding add_policy change_policy delete_policy save_token
edit (add_one p) t = add_policy p t
edit (change_one p) t = change_policy p t
edit (delete_one p) t = delete_policy p t
edit (save_fields f id) t = save_token false id (record f { policies = t.policies })
edit (used now id) t = save_token true id (record t { last_used = some now })
