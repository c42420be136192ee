-- ===== src/Action/Replay.antt =====
-- models/authenticated_actions.py and views/authenticated_actions.py: what has become of a code once
-- its action has been performed.
use desec_stack.Common.{
  ℕ, String, ◌≡◌, refl, sym, ap, ◌∙◌, ◌⊎◌, inl, inr, Bool, true, false, not, ◌&&◌, none, some, List,
  arith, ltb, nat_beq, ltb→lt, if◌then◌else◌, Bool-cases, Eq, ◌==◌, ==_iff, ==_refl, nat_eq,
  string_eq, pair_eq, option_eq, ok, succeeds, >>=-eq-ok, Result-cases, passed, ok_same, any, Dict,
  get, put, pop, get-put, get-pop,
}
use desec_stack.Account.{
  User, Tables, is_true, activate, has_used_factor, save_factor, find_row, not_unique,
  still_has_domains,
}
use desec_stack.Action.{
  UserAction, StateField, Instance, own_fields, state_fields, act_now, fetch, Request, post,
  change_outreach_preference, activate_user, activate_with_override_token, change_user_email,
  create_totp_factor, noop, reset_password, delete_user, renew_domain,
}
use desec_stack.Action.State.{
  find_row-get, same_own, credentials, tells_credentials, post-IsPerformed,
}

-- Whether performing the action changes the state that its code tells of.
abbrev pub consumes : ℕ → ℕ → User → UserAction ℕ ℕ → Tables → Bool
consumes now id u (activate_user _) s = not (is_true u.is_active)
consumes now id u (activate_with_override_token _ _) s = not (is_true u.is_active)
consumes now id u (change_user_email _) s = ltb u.credentials_changed now
consumes now id u (create_totp_factor _) s =
    not (has_used_factor id s) && ltb u.credentials_changed now
consumes now id u (reset_password _) s = ltb u.credentials_changed now
consumes now id u delete_user s = true
consumes now id u (renew_domain d) s = elim (get d s.domains) [
  | none ↦ false
  | some row ↦ not (row.renewal_changed == some now)
]
consumes now id u _ s = false

get-put_self :
    {R : Type 0} (id : ℕ) (row : R) (rows : Dict ℕ R) → get id (put id row rows) ≡ some row
get-put_self id row rows = ground (arith, get-put id id row rows, ==_refl id)

saved_row :
    (id : ℕ) (u v : User) (s s2 : Tables)
    → put id u s.users ≡ s2.users
    → get id s2.users ≡ some v
    → u ≡ v
saved_row id u v s s2 e found =
    let h = get-put_self id u s.users in let k = ap (get id) e in ground arith

-- What performing the action makes of the user's credentials.
abbrev HasConsumed : ℕ → User → User → Type 0
HasConsumed now u v =
    (v.credentials_changed ≡ now) × (ltb u.credentials_changed now ≡ true)
    ⊎ (v.is_active ≡ some true) × (is_true u.is_active ≡ false)

if_false : {A : Type 0} (b : Bool) (x y : A) → b ≡ false → (if b then x else y) ≡ y
if_false true x y h = absurd (ground arith)
if_false false x y h = refl

save_factor-users :
    (now id : ℕ) (u : User) (name : String) (s : Tables) {s2 : Tables}
    → save_factor now id u name s ≡ ok s2
    → has_used_factor id s ≡ false
    → put id (record u { credentials_changed = now }) s.users ≡ s2.users
unfolding save_factor
save_factor-users now id u name s h unused =
    let (_, k) = passed (any (λ f. nat_beq f.user id && f.name == name) s.factors) not_unique _ h in
    ap (λ (w : Tables). w.users) (sym (if_false _ _ _ unused) ∙ ok_same k)

effect :
    (now id : ℕ) (u v : User) (s s2 : Tables) (x : UserAction ℕ ℕ) (a : Instance)
    → fetch s x ≡ ok a
    → act_now now id u a s ≡ ok s2
    → get id s2.users ≡ some v
    → consumes now id u x s ≡ true
    → tells_credentials x ≡ true
    → HasConsumed now u v
unfolding fetch act_now
effect now id u v s s2 (change_outreach_preference _) a e h found c t = absurd (ground arith)
effect now id u v s s2 (activate_user d) a e h found c t =
    let acted = ap (λ i. act_now now id u i s) (ok_same e) ∙ h in
    let same =
      saved_row id (activate u) v s s2 (ap (λ (w : Tables). w.users) (ok_same acted)) found in
    inr (sym (ap (λ (w : User). w.is_active) same), ground arith)
effect now id u v s s2 (activate_with_override_token p t) a e h found c k =
    let (row, _, f) = >>=-eq-ok (find_row t s.tokens) _ e in
    let acted = ap (λ i. act_now now id u i s) (ok_same f) ∙ h in
    let active = activate (record u { outreach_preference = p }) in
    let same = saved_row id active v s s2 (ap (λ (w : Tables). w.users) (ok_same acted)) found in
    inr (sym (ap (λ (w : User). w.is_active) same), ground arith)
effect now id u v s s2 (change_user_email m) a e h found c t =
    let acted = ap (λ i. act_now now id u i s) (ok_same e) ∙ h in
    let (_, k) = passed _ not_unique _ acted in
    let same = saved_row id _ v s s2 (ap (λ (w : Tables). w.users) (ok_same k)) found in
    inl (sym (ap (λ (w : User). w.credentials_changed) same), c)
effect now id u v s s2 (create_totp_factor n) a e h found c t =
    let acted = ap (λ i. act_now now id u i s) (ok_same e) ∙ h in
    let k = save_factor-users now id u n s acted (ground arith) in
    let same = saved_row id _ v s s2 k found in
    inl (sym (ap (λ (w : User). w.credentials_changed) same), ground arith)
effect now id u v s s2 noop a e h found c t = absurd (ground arith)
effect now id u v s s2 (reset_password q) a e h found c t =
    let acted = ap (λ i. act_now now id u i s) (ok_same e) ∙ h in
    let same = saved_row id _ v s s2 (ap (λ (w : Tables). w.users) (ok_same acted)) found in
    inl (sym (ap (λ (w : User). w.credentials_changed) same), c)
effect now id u v s s2 delete_user a e h found c t =
    let acted = ap (λ i. act_now now id u i s) (ok_same e) ∙ h in
    let (_, k) = passed _ still_has_domains _ acted in
    let gone : get id (pop id s.users) ≡ get id s2.users =
      ap (λ (w : Tables). get id w.users) (ok_same k) in
    let popped = get-pop id id s.users in absurd (ground (arith, ==_refl id))
effect now id u v s s2 (renew_domain d) a e h found c t = absurd (ground arith)

-- Renewing a domain changes what its codes tell of it.
renewed :
    (now id d : ℕ) (u v : User) (s s2 : Tables) (a b : Instance)
    → fetch s (renew_domain d) ≡ ok a
    → act_now now id u a s ≡ ok s2
    → fetch s2 (renew_domain d) ≡ ok b
    → consumes now id u (renew_domain d) s ≡ true
    → state_fields id u a ≡ state_fields id v b
    → true ≡ false
unfolding fetch act_now
renewed now id d u v s s2 a b e h f c same =
    let (row, found, k) = >>=-eq-ok (find_row d s.domains) _ e in
    let (row2, found2, l) = >>=-eq-ok (find_row d s2.domains) _ f in
    let at = find_row-get d s.domains found in
    let at2 = find_row-get d s2.domains found2 in
    let acted = ap (λ i. act_now now id u i s) (ok_same k) ∙ h in
    let rows = ap (λ (w : Tables). get d w.domains) (ok_same acted) in
    let back =
      get-put_self d (record row { is_fresh = true; renewal_changed = some now }) s.domains in
    let own =
      ap (own_fields u) (ok_same k)
      ∙ same_own id u v a b same
      ∙ ap (own_fields v) (sym (ok_same l)) in
    let unchanged : row.renewal_changed ≡ row2.renewal_changed = ground arith in
    let changed : row2.renewal_changed ≡ some now = ground arith in
    ground (arith, ==_iff row.renewal_changed (some now))

not_credentials :
    (now id : ℕ) (u v : User) (s s2 : Tables) (x : UserAction ℕ ℕ) (a b : Instance)
    → fetch s x ≡ ok a
    → act_now now id u a s ≡ ok s2
    → fetch s2 x ≡ ok b
    → consumes now id u x s ≡ true
    → state_fields id u a ≡ state_fields id v b
    → tells_credentials x ≡ false
    → true ≡ false
not_credentials now id u v s s2 (renew_domain d) a b e h f c same t =
    renewed now id d u v s s2 a b e h f c same
not_credentials now id u v s s2 (change_outreach_preference p) a b e h f c same t = ground arith
not_credentials now id u v s s2 noop a b e h f c same t = ground arith
not_credentials now id u v s s2 (activate_user d) a b e h f c same t = ground arith
not_credentials now id u v s s2 (activate_with_override_token p w) a b e h f c same t = ground arith
not_credentials now id u v s s2 (change_user_email m) a b e h f c same t = ground arith
not_credentials now id u v s s2 (create_totp_factor n) a b e h f c same t = ground arith
not_credentials now id u v s s2 (reset_password q) a b e h f c same t = ground arith
not_credentials now id u v s s2 delete_user a b e h f c same t = ground arith

outdated :
    (now id : ℕ) (u v : User) (s s2 : Tables) (x : UserAction ℕ ℕ) (a b : Instance)
    → fetch s x ≡ ok a
    → act_now now id u a s ≡ ok s2
    → get id s2.users ≡ some v
    → fetch s2 x ≡ ok b
    → consumes now id u x s ≡ true
    → state_fields id u a ≡ state_fields id v b
    → true ≡ false
outdated now id u v s s2 x a b e h found f c same = elim (Bool-cases (tells_credentials x)) [
  | inl t ↦
      let (k, l) = credentials id u v s s2 x a b e f same t in
      elim (effect now id u v s s2 x a e h found c t) [
        | inl (m, n) ↦ let o = ltb→lt u.credentials_changed now n in absurd (omega arith)
        | inr (m, n) ↦ ground arith
      ]
  | inr t ↦ not_credentials now id u v s s2 x a b e h f c same t
]

module _ {Digest : Type 0} ⦃digests : Eq Digest⦄ (digest : List StateField → Digest) where
  -- A code whose action has been performed is refused from then on while nothing else happens, if the
  -- action changes what the code tells of: a change of email or password at a later time than the last
  -- one, an activation of an account that was not active, the first factor, the deletion of the user,
  -- a renewal. The digests of different states differ.
  pub post-once :
      ((i j : ℕ) (u v : User) (a b : Instance)
        → digest (state_fields i u a) ≡ digest (state_fields j v b)
        → state_fields i u a ≡ state_fields j v b)
      → (now : ℕ) (r : Request Digest) (u : User) (s s2 : Tables) → get r.user s.users ≡ some u
      → consumes now r.user u r.action s ≡ true
      → post digest now r s ≡ ok s2
      → (later : ℕ) → succeeds (post digest later r s2) ≡ false
  post-once collision_free now r u s s2 found c first later =
      elim (Result-cases (post digest later r s2)) [
        | inr (e, k) ↦ ap succeeds k
        | inl (s3, second) ↦
            let p = post-IsPerformed digest now r s first in
            let q = post-IsPerformed digest later r s2 second in
            let found2 = p.user_found in
            let same_user : u ≡ p.user = ground arith in
            let c2 = sym (ap (λ w. consumes now r.user w r.action s) same_user) ∙ c in
            let same =
              collision_free r.user r.user p.user q.user p.instance_of q.instance_of
                (sym p.state ∙ q.state) in
            let conflict =
              outdated now r.user p.user q.user s s2 r.action p.instance_of q.instance_of p.fetched
                p.acted q.user_found q.fetched c2 same in
            absurd (ground arith)
      ]
