-- ===== src/Token/Invariant.antt =====
-- Every change of a token and its policies keeps it sound.
use desec_stack.Common.{
  ℕ, ◌≡◌, refl, ◌⊎◌, inl, inr, Bool, true, false, not, ◌&&◌, some, [], ◌∷◌, arith, nat_beq,
  nat_beq_iff, Bool-cases, nat_eq, string_eq, pair_eq, ok, keep, any, any-In,
}
use desec_stack.Token.{
  Policy, Token, represents_default_policy, is_default_policy, is_some, clean_token,
  clean_new_policy, clean_policy, same_scope, add_policy, other_than, change_policy, delete_policy,
  default_policy, save_token, Edit, add_one, change_one, delete_one, save_fields, used, edit,
}
use desec_stack.Token.Soundness.{
  defaults, IsSound, get_policy-none, get_policy-default, keep_none, default-In, same_scope-default,
  defaults_kept, defaults_gone, IsSound-of_default, IsSound-of_empty,
}

add_policy-IsSound : (p : Policy) (t u : Token) → IsSound t → add_policy p t ≡ ok u → IsSound u
unfolding add_policy clean_new_policy keep
add_policy-IsSound p t u v h = elim v.one_default [
  | inl none_yet ↦
      (let g = get_policy-none t none_yet in
        let c : represents_default_policy p ≡ true = ground arith in
        let same : record t { policies = p ∷ t.policies } ≡ u = ground arith in
        rw (← same) (
          IsSound-of_default (record t { policies = p ∷ t.policies }) p (rw (none_yet, c))
            (ground arith) v.separate))
  | inr (d, e, r) ↦
      (let g = get_policy-default t d e in
        let same : record t { policies = p ∷ t.policies } ≡ u = ground arith in
        let (i, z) = default-In d t.policies e in
        let c : represents_default_policy p ≡ false =
          ground (arith, any-In (same_scope p) d t.policies i, same_scope-default p d) in
        rw (← same)
          (IsSound-of_default (record t { policies = p ∷ t.policies }) d (rw (c, e)) r v.separate))
]

is_default_policy-same :
    (t : Token) (p d : Policy)
    → defaults t.policies ≡ d ∷ []
    → is_default_policy t p ≡ not (other_than p d)
unfolding is_default_policy
is_default_policy-same t p d e =
    rw (get_policy-default t d e) (ground (arith, nat_beq_iff p.id d.id, nat_beq_iff d.id p.id))

-- what a change that goes through has passed
change_policy-clean_policy :
    (p : Policy) (t u : Token)
    → change_policy p t ≡ ok u
    → (is_default_policy t p ≡ represents_default_policy p)
      × ((p.perm_write && is_default_policy t p && t.auto_policy) ≡ false)
      × (any (λ q. nat_beq q.id p.id) t.policies ≡ true)
      × (record t { policies = p ∷ keep (other_than p) t.policies } ≡ u)
unfolding change_policy clean_policy
change_policy-clean_policy p t u h = (ground arith, ground arith, ground arith, ground arith)

change_policy-IsSound :
    (p : Policy) (t u : Token) → IsSound t → change_policy p t ≡ ok u → IsSound u
unfolding keep
change_policy-IsSound p t u v h =
    let (same_test, strict, there, same) = change_policy-clean_policy p t u h in
    elim v.one_default [
      | inl none_yet ↦ absurd (ground arith)
      | inr (d, e, r) ↦
          (let f = is_default_policy-same t p d e in
            elim (Bool-cases (other_than p d)) [
              | inl o ↦
                  (let c : represents_default_policy p ≡ false = ground arith in
                    let k = defaults_kept p d t.policies e o in
                    rw (← same) (
                      IsSound-of_default
                        (record t { policies = p ∷ keep (other_than p) t.policies }) d (rw (c, k)) r
                        v.separate))
              | inr o ↦
                  (let c : represents_default_policy p ≡ true = ground arith in
                    let k = defaults_gone p d t.policies e o in
                    rw (← same) (
                      IsSound-of_default
                        (record t { policies = p ∷ keep (other_than p) t.policies }) p (rw (c, k))
                        (ground arith) v.separate))
            ])
    ]

delete_policy-IsSound :
    (p : Policy) (t u : Token) → IsSound t → delete_policy p t ≡ ok u → IsSound u
unfolding delete_policy is_default_policy keep
delete_policy-IsSound p t u v h = elim v.one_default [
  | inl none_yet ↦
      (let same : record t { policies = keep (other_than p) t.policies } ≡ u =
          ground (arith, get_policy-none t none_yet) in
        rw (← same) (
          IsSound-of_empty (record t { policies = keep (other_than p) t.policies }) (rw none_yet)
            (ground arith) v.separate))
  | inr (d, e, r) ↦
      (let g = get_policy-default t d e in
        let same : record t { policies = keep (other_than p) t.policies } ≡ u = ground arith in
        elim (Bool-cases (other_than p d)) [
          | inl o ↦ rw (← same) (
              IsSound-of_default (record t { policies = keep (other_than p) t.policies }) d
                (defaults_kept p d t.policies e o) r v.separate)
          | inr o ↦
              (let alone : any (other_than p) t.policies ≡ false = ground arith in
                rw (← same) (
                  IsSound-of_empty (record t { policies = keep (other_than p) t.policies })
                    (keep_none (other_than p) t.policies alone) (ground arith) v.separate))
        ])
]

-- the policy that `Token.save` makes for `auto_policy`
made_policy-IsSound :
    (id : ℕ) (t u : Token)
    → t.policies ≡ []
    → (t.perm_manage_tokens && is_some t.user_override) ≡ false
    → add_policy (default_policy id) t ≡ ok u
    → IsSound u
unfolding add_policy clean_new_policy keep
made_policy-IsSound id t u e s h =
    let g = get_policy-none t e in
    let same : record t { policies = default_policy id ∷ t.policies } ≡ u = ground arith in
    rw (← same) (
      IsSound-of_default (record t { policies = default_policy id ∷ t.policies })
        (default_policy id) (rw e) (ground arith) s)

save_token-IsSound :
    (only_last_used : Bool) (id : ℕ) (t u : Token)
    → ((t.policies ≡ []) ⊎ ((d : Policy) × (defaults t.policies ≡ d ∷ [])))
    → (only_last_used ≡ true → IsSound t)
    → save_token only_last_used id t ≡ ok u
    → IsSound u
unfolding save_token clean_token
save_token-IsSound true id t u o v h = elim (v refl).one_default [
  | inl none_yet ↦
      (let same : t ≡ u = ground (arith, (v refl).made, get_policy-none t none_yet) in
        rw (← same) (v refl))
  | inr (d, e, r) ↦
      (let same : t ≡ u = ground (arith, get_policy-default t d e) in rw (← same) (v refl))
]
save_token-IsSound false id t u (inl none_yet) v h = elim (Bool-cases t.auto_policy) [
  | inl a ↦
      (let g = get_policy-none t none_yet in
        let same : add_policy (default_policy id) t ≡ ok u = ground arith in
        made_policy-IsSound id t u none_yet (ground arith) same)
  | inr a ↦
      (let same : t ≡ u = ground arith in
        rw (← same) (IsSound-of_empty t none_yet a (ground arith)))
]
save_token-IsSound false id t u (inr (d, e)) v h =
    let g = get_policy-default t d e in
    let same : t ≡ u = ground arith in
    rw (← same) (IsSound-of_default t d e (ground arith) (ground arith))

-- Every change of a token or of its policies that goes through leaves it sound.
pub edit-IsSound : (e : Edit) (t u : Token) → IsSound t → edit e t ≡ ok u → IsSound u
unfolding edit
edit-IsSound (add_one p) t u v h = add_policy-IsSound p t u v h
edit-IsSound (change_one p) t u v h = change_policy-IsSound p t u v h
edit-IsSound (delete_one p) t u v h = delete_policy-IsSound p t u v h
edit-IsSound (save_fields f id) t u v h =
    save_token-IsSound false id (record f { policies = t.policies }) u
      (elim v.one_default [ inl e ↦ inl e | inr (d, e, r) ↦ inr (d, e) ])
      (λ e. absurd (ground arith)) h
edit-IsSound (used now id) t u v h =
    save_token-IsSound true id (record t { last_used = some now }) u
      (elim v.one_default [ inl e ↦ inl e | inr (d, e, r) ↦ inr (d, e) ])
      (λ e. record { one_default = v.one_default; made = v.made; separate = v.separate }) h
