-- ===== src/Token/Deletion.antt =====
-- `can_safely_delete_domain` against the policies: deleting a domain deletes all its RR sets.
use desec_stack.Common.{
  ◌<◌, String, ◌≡◌, refl, ◌↔◌, ◌⊎◌, inl, inr, true, false, not, ◌&&◌, Option, none, some, arith,
  Bool-cases, ◌==◌, ==_iff, nat_eq, string_eq, pair_eq, any, In, any-In, In-any,
}
use desec_stack.Db.{Item}
use desec_stack.Token.{
  Policy, Token, target_of, field_matches, matches, get_policy, has_domain, is_null,
  can_safely_delete_domain, has_rrset_permission,
}
use desec_stack.Token.Priority.{priority, IsBest, get_policy-IsBest}

same_domain :
    (name : String) (d : Option String)
    → is_null d ≡ false
    → (field_matches (some name) d ≡ true) ↔ (elim d [ none ↦ false | some d ↦ d == name ] ≡ true)
same_domain name none h = absurd (ground arith)
same_domain name (some d) h = ground (arith, ==_iff name d, ==_iff d name)

module _ (k : Token) (name : String) (x : Item)
    (safe : can_safely_delete_domain k name ≡ true) where
  -- no policy of the domain is restrictive
  not_denied_here : (p : Policy) → In p k.policies → has_domain name p ≡ true → p.perm_write ≡ true
  not_denied_here p i h = elim (Bool-cases p.perm_write) [
    | inl w ↦ w
    | inr w ↦ absurd (
        unfold can_safely_delete_domain in
        ground
          (arith, any-In (λ (q : Policy). has_domain name q && not q.perm_write) p k.policies i))
  ]

  -- one of the domain's policies is its default, or no policy without a domain is restrictive
  default_or_free :
      ((p : Policy) → In p k.policies → is_null p.domain ≡ true → p.perm_write ≡ true)
      ⊎ ((q : Policy) × In q k.policies
          × (has_domain name q ≡ true)
          × (is_null q.subname ≡ true)
          × (is_null q.type ≡ true))
  default_or_free =
      elim (Bool-cases (
        any
          (λ (q : Policy). has_domain name q && is_null q.subname && is_null q.type && q.perm_write)
          k.policies)) [
            | inl h ↦
                (let (q, i, e) =
                    In-any
                      (λ (q : Policy).
                        has_domain name q && is_null q.subname && is_null q.type && q.perm_write)
                      k.policies h in
                  inr (q, i, ground arith, ground arith, ground arith))
            | inr n ↦ inl (λ p i z. elim (Bool-cases p.perm_write) [
              | inl w ↦ w
              | inr w ↦ absurd (
                  unfold can_safely_delete_domain in
                  ground (
                    arith,
                    any-In (λ (q : Policy). is_null q.domain && not q.perm_write) p k.policies i,
                  ))
            ])
          ]

  -- a policy without a domain comes after the domain's default
  default_first :
      (p q : Policy)
      → is_null p.domain ≡ true
      → has_domain name q ≡ true
      → is_null q.subname ≡ true
      → is_null q.type ≡ true
      → (matches (target_of name x) q ≡ true) × (priority q < priority p)
  unfolding matches
  default_first p q z h s t = (ground (arith, same_domain name q.domain), ground arith)

  of_domain :
      (p : Policy)
      → matches (target_of name x) p ≡ true
      → is_null p.domain ≡ false
      → has_domain name p ≡ true
  unfolding matches
  of_domain p m n = ground (arith, same_domain name p.domain)

  -- the policy that applies to an RR set of the domain is permissive
  found_permits : (p : Policy) → IsBest (target_of name x) k.policies p → p.perm_write ≡ true
  found_permits p b = elim (Bool-cases (is_null p.domain)) [
    | inr n ↦ not_denied_here p b.listed (of_domain p b.matching n)
    | inl z ↦ elim default_or_free [
      | inl free ↦ free p b.listed z
      | inr (q, i, h, s, t) ↦
          (let (m, l) = default_first p q z h s t in absurd (omega (arith, b.least q i m, l)))
    ]
  ]

-- If `can_safely_delete_domain` lets a token delete a domain, then `TokenHasRRsetPermission` lets it
-- write every RR set that the domain could have, so a token can delete no RR set by way of the domain
-- that it could not delete itself.
pub can_safely_delete_domain-has_rrset_permission :
    (k : Token) (name : String) (x : Item)
    → can_safely_delete_domain k name ≡ true
    → has_rrset_permission k (target_of name x) ≡ true
unfolding has_rrset_permission
can_safely_delete_domain-has_rrset_permission k name x safe =
    split (get_policy k (target_of name x)) (get_policy-IsBest k (target_of name x)).0
  where
    split :
        (o : Option Policy)
        → ((p : Policy) → o ≡ some p → IsBest (target_of name x) k.policies p)
        → elim o [ none ↦ true | some p ↦ p.perm_write ] ≡ true
    split none b = refl
    split (some p) b = found_permits k name x safe p (b p refl)
