-- ===== src/Token/Soundness.antt =====
-- What is to hold of a token and its policies, and how it follows from the default policy.
use desec_stack.Common.{
  ◌≡◌, refl, ◌⊎◌, inl, inr, Bool, true, false, ◌&&◌, none, some, List, [], ◌∷◌, arith, nat_eq,
  string_eq, pair_eq, keep, any, is_empty, In, In-keep,
}
use desec_stack.Token.{
  Policy, Token, no_target, matches, first_of_order, get_policy, represents_default_policy, is_some,
  same_scope, other_than,
}

-- the policies that apply where no other one does
abbrev pub defaults : List Policy → List Policy
defaults ps = keep represents_default_policy ps

-- A token has no policy or exactly one default policy among its policies; where `auto_policy` is in
-- effect there is one, and it is restrictive; and a token that manages tokens overrides no user.
pub record IsSound (t : Token) : Type 0 where
  pub one_default :
      (t.policies ≡ [])
      ⊎ ((d : Policy) × (defaults t.policies ≡ d ∷ []) × ((t.auto_policy && d.perm_write) ≡ false))
  pub made : t.auto_policy ≡ true → is_empty t.policies ≡ false
  pub separate : (t.perm_manage_tokens && is_some t.user_override) ≡ false

matches-defaults : (ps : List Policy) → keep (matches no_target) ps ≡ defaults ps
unfolding keep matches
matches-defaults [] = refl
matches-defaults (p ∷ ps) = ground (arith, matches-defaults ps)

pub get_policy-none : (t : Token) → t.policies ≡ [] → get_policy t no_target ≡ none
unfolding get_policy keep first_of_order
get_policy-none t h = rw h

pub get_policy-default :
    (t : Token) (d : Policy) → defaults t.policies ≡ d ∷ [] → get_policy t no_target ≡ some d
unfolding get_policy first_of_order
get_policy-default t d h = rw (matches-defaults t.policies, h)

keep_swap : (p q : Policy → Bool) (ps : List Policy) → keep p (keep q ps) ≡ keep q (keep p ps)
unfolding keep
keep_swap p q [] = refl
keep_swap p q (x ∷ ps) = ground (arith, keep_swap p q ps)

pub keep_none : (p : Policy → Bool) (ps : List Policy) → any p ps ≡ false → keep p ps ≡ []
unfolding keep
keep_none p [] h = refl
keep_none p (x ∷ ps) h = ground (arith, keep_none p ps)

-- the default policy is one of the policies
pub default-In :
    (d : Policy) (ps : List Policy)
    → defaults ps ≡ d ∷ []
    → In d ps × (represents_default_policy d ≡ true)
default-In d ps h = In-keep represents_default_policy d ps (rw h (inl refl))

-- two default policies have the same scope
pub same_scope-default :
    (p d : Policy)
    → represents_default_policy p ≡ true
    → represents_default_policy d ≡ true
    → same_scope p d ≡ true
same_scope-default p d h k = ground arith

-- what remains of the defaults without the policy of another id
pub defaults_kept :
    (p d : Policy) (ps : List Policy)
    → defaults ps ≡ d ∷ []
    → other_than p d ≡ true
    → defaults (keep (other_than p) ps) ≡ d ∷ []
unfolding keep
defaults_kept p d ps h o = rw (keep_swap represents_default_policy (other_than p) ps, h, o)

pub defaults_gone :
    (p d : Policy) (ps : List Policy)
    → defaults ps ≡ d ∷ []
    → other_than p d ≡ false
    → defaults (keep (other_than p) ps) ≡ []
unfolding keep
defaults_gone p d ps h o = rw (keep_swap represents_default_policy (other_than p) ps, h, o)

pub IsSound-of_default :
    (t : Token) (d : Policy)
    → defaults t.policies ≡ d ∷ []
    → (t.auto_policy && d.perm_write) ≡ false
    → (t.perm_manage_tokens && is_some t.user_override) ≡ false
    → IsSound t
unfolding keep
IsSound-of_default t d h r s = record {
  one_default = inr (d, h, r);
  made = λ a. nonempty t.policies h;
  separate = s;
}
  where
    nonempty : (ps : List Policy) → defaults ps ≡ d ∷ [] → is_empty ps ≡ false
    nonempty [] e = absurd (ground arith)
    nonempty (p ∷ ps) e = refl

pub IsSound-of_empty :
    (t : Token)
    → t.policies ≡ []
    → t.auto_policy ≡ false
    → (t.perm_manage_tokens && is_some t.user_override) ≡ false
    → IsSound t
IsSound-of_empty t h a s = record {
  one_default = inl h;
  made = λ b. absurd (ground arith);
  separate = s;
}
