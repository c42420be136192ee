-- ===== src/Action/State.antt =====
-- models/authenticated_actions.py and views/authenticated_actions.py: what a code that is accepted
-- says of the tables.
use desec_stack.Common.{
  ℕ, ◌≡◌, refl, sym, ap, ◌∙◌, inl, inr, Bool, true, false, not, ◌&&◌, Option, none, some, List,
  arith, Bool-cases, Option-cases, Eq, ◌==◌, ==_iff, nat_eq, string_eq, pair_eq, option_eq, ok,
  >>=-eq-ok, passed, ok_same, all, Dict, get,
}
use desec_stack.Account.{
  User, OwnedDomain, Tables, is_true, is_false, find_row, invalid_state, not_verified,
  not_permitted, still_has_domains, captcha_missing, not_unique,
}
use desec_stack.Action.{
  UserAction, StateField, optional, credential_fields, Instance, own_fields, state_fields,
  is_serializable, act_now, fetch, needs_active, has_domains, lacks_captcha, takes_email, Request,
  state_of, instantiate, act, post, change_outreach_preference, activate_user,
  activate_with_override_token, change_user_email, create_totp_factor, noop, reset_password,
  delete_user, renew_domain, flag,
}

pub find_row-get :
    {R : Type 0} (id : ℕ) (rows : Dict ℕ R) {row : R}
    → find_row id rows ≡ ok row
    → get id rows ≡ some row
find_row-get id rows h = elim (Option-cases (get id rows)) [
  | inl e ↦ absurd (ground arith)
  | inr (row, e) ↦ ground arith
]

module _ {Digest : Type 0} ⦃digests : Eq Digest⦄ (digest : List StateField → Digest) where
  -- A request that is performed: the rows it names, the state of which its code tells.
  pub record IsPerformed (now : ℕ) (r : Request Digest) (s s2 : Tables) : Type 0 where
    pub user : User
    pub instance_of : Instance
    pub user_found : get r.user s.users ≡ some user
    pub fetched : fetch s r.action ≡ ok instance_of
    pub state : r.state ≡ digest (state_fields r.user user instance_of)
    pub acted : act_now now r.user user instance_of s ≡ ok s2

  state_of-ok :
      (fields : List StateField) {d : Digest} → state_of digest fields ≡ ok d → digest fields ≡ d
  unfolding state_of
  state_of-ok fields h = elim (Bool-cases (all is_serializable fields)) [
    | inl e ↦ ground arith
    | inr e ↦ absurd (ground arith)
  ]

  instantiate-ok :
      (id : ℕ) (u : User) (a : Instance) (state : Digest) {validated : Bool}
      → instantiate digest id u a (some state) ≡ ok validated
      → state ≡ digest (state_fields id u a)
  unfolding instantiate
  instantiate-ok id u a state h =
      let (current, e, k) = >>=-eq-ok (state_of digest (state_fields id u a)) _ h in
      let (same, l) = passed (not (state == current)) invalid_state _ k in
      let d = state_of-ok (state_fields id u a) e in (==_iff state current).0 (ground arith) ∙ sym d

  act-ok :
      (now id : ℕ) (u : User) (a : Instance) (validated : Bool) (s : Tables) {s2 : Tables}
      → act digest now id u a validated s ≡ ok s2
      → (validated ≡ true) × (act_now now id u a s ≡ ok s2)
  unfolding act
  act-ok now id u a validated s h =
      let (v, k) = passed (not validated) not_verified _ h in (ground arith, k)

  pub post-IsPerformed :
      (now : ℕ) (r : Request Digest) (s : Tables) {s2 : Tables}
      → post digest now r s ≡ ok s2
      → IsPerformed now r s s2
  unfolding post
  post-IsPerformed now r s h =
      let (u, found, h1) = >>=-eq-ok (find_row r.user s.users) _ h in
      let (p1, h2) = passed (is_false u.is_active) not_permitted _ h1 in
      let (p2, h3) =
        passed (needs_active r.action && not (is_true u.is_active)) not_permitted _ h2 in
      let (p3, h4) = passed (has_domains r.user r.action s) still_has_domains _ h3 in
      let (a, f, h5) = >>=-eq-ok (fetch s r.action) _ h4 in
      let (p5, h8) = passed (takes_email r.action s) not_unique _ h5 in
      let (p4, h6) = passed (lacks_captcha u r.action r.captcha) captcha_missing _ h8 in
      let (v, i, h7) = >>=-eq-ok (instantiate digest r.user u a (some r.state)) _ h6 in
      record {
        user = u;
        instance_of = a;
        user_found = find_row-get r.user s.users found;
        fetched = f;
        state = instantiate-ok r.user u a r.state i;
        acted = (act-ok now r.user u a v s h7).1;
      }

-- What the state fields of two instances say when they are the same.
same_credentials :
    (u v : User) (a b : List StateField)
    → credential_fields u a ≡ credential_fields v b
    → (u.credentials_changed ≡ v.credentials_changed)
      × (optional flag u.is_active ≡ optional flag v.is_active)
same_credentials u v a b h = (ground arith, ground arith)

same_flag : (a b : Option Bool) → optional flag a ≡ optional flag b → a ≡ b
same_flag none none h = refl
same_flag none (some b) h = absurd (ground arith)
same_flag (some a) none h = absurd (ground arith)
same_flag (some a) (some b) h = ground arith

-- Two instances of the same class with the same state fields.
pub same_own :
    (id : ℕ) (u v : User) (a b : Instance)
    → state_fields id u a ≡ state_fields id v b
    → own_fields u a ≡ own_fields v b
unfolding state_fields
same_own id u v a b h = ground arith

-- The classes below `AuthenticatedUserAction`.
abbrev pub tells_credentials : UserAction ℕ ℕ → Bool
tells_credentials (change_outreach_preference _) = false
tells_credentials noop = false
tells_credentials (renew_domain _) = false
tells_credentials _ = true

fetch-credential_fields :
    (u : User) (s : Tables) (x : UserAction ℕ ℕ) (a : Instance)
    → fetch s x ≡ ok a
    → tells_credentials x ≡ true
    → (rest : List StateField) × (own_fields u a ≡ credential_fields u rest)
unfolding fetch
fetch-credential_fields u s (change_outreach_preference _) a e h = absurd (ground arith)
fetch-credential_fields u s (activate_user d) a e h = (_, ap (own_fields u) (sym (ok_same e)))
fetch-credential_fields u s (activate_with_override_token p t) a e h =
    let (row, f, k) = >>=-eq-ok (find_row t s.tokens) _ e in
    (_, ap (own_fields u) (sym (ok_same k)))
fetch-credential_fields u s (change_user_email m) a e h = (_, ap (own_fields u) (sym (ok_same e)))
fetch-credential_fields u s (create_totp_factor n) a e h = (_, ap (own_fields u) (sym (ok_same e)))
fetch-credential_fields u s noop a e h = absurd (ground arith)
fetch-credential_fields u s (reset_password q) a e h = (_, ap (own_fields u) (sym (ok_same e)))
fetch-credential_fields u s delete_user a e h = (_, ap (own_fields u) (sym (ok_same e)))
fetch-credential_fields u s (renew_domain d) a e h = absurd (ground arith)

pub credentials :
    (id : ℕ) (u v : User) (s s2 : Tables) (x : UserAction ℕ ℕ) (a b : Instance)
    → fetch s x ≡ ok a
    → fetch s2 x ≡ ok b
    → state_fields id u a ≡ state_fields id v b
    → tells_credentials x ≡ true
    → (u.credentials_changed ≡ v.credentials_changed) × (u.is_active ≡ v.is_active)
credentials id u v s s2 x a b e f same h =
    let (rest, p) = fetch-credential_fields u s x a e h in
    let (rest2, q) = fetch-credential_fields v s2 x b f h in
    let (c, d) = same_credentials u v rest rest2 (sym p ∙ same_own id u v a b same ∙ q) in
    (c, same_flag u.is_active v.is_active d)

-- What a code for the action vouches for: that the rows say now what they said then.
abbrev pub Vouches : UserAction ℕ ℕ → User → User → Tables → Tables → Type 0
Vouches (change_outreach_preference _) u v s s2 = u.email ≡ v.email
Vouches noop u v s s2 = Unit {0}
Vouches (renew_domain d) u v s s2 =
    (row : OwnedDomain) × (row2 : OwnedDomain) × (get d s.domains ≡ some row)
    × (get d s2.domains ≡ some row2)
    × (row.name ≡ row2.name)
    × (row.owner ≡ row2.owner)
    × (row.renewal_changed ≡ row2.renewal_changed)
Vouches _ u v s s2 = (u.credentials_changed ≡ v.credentials_changed) × (u.is_active ≡ v.is_active)

vouched_domain :
    (id d : ℕ) (u v : User) (s s2 : Tables) (a b : Instance)
    → fetch s (renew_domain d) ≡ ok a
    → fetch s2 (renew_domain d) ≡ ok b
    → state_fields id u a ≡ state_fields id v b
    → Vouches (renew_domain d) u v s s2
unfolding fetch
vouched_domain id d u v s s2 a b e f same =
    let (row, found, k) = >>=-eq-ok (find_row d s.domains) _ e in
    let (row2, found2, l) = >>=-eq-ok (find_row d s2.domains) _ f in
    let own =
      ap (own_fields u) (ok_same k)
      ∙ same_own id u v a b same
      ∙ ap (own_fields v) (sym (ok_same l)) in
    (
      row,
      row2,
      find_row-get d s.domains found,
      find_row-get d s2.domains found2,
      ground arith,
      ground arith,
      ground arith,
    )

vouched_email :
    (id : ℕ) (p : Bool) (u v : User) (s s2 : Tables) (a b : Instance)
    → fetch s (change_outreach_preference p) ≡ ok a
    → fetch s2 (change_outreach_preference p) ≡ ok b
    → state_fields id u a ≡ state_fields id v b
    → u.email ≡ v.email
unfolding fetch
vouched_email id p u v s s2 a b e f same =
    let own =
      ap (own_fields u) (ok_same e)
      ∙ same_own id u v a b same
      ∙ ap (own_fields v) (sym (ok_same f)) in
    ground arith

vouched :
    (id : ℕ) (u v : User) (s s2 : Tables) (x : UserAction ℕ ℕ) (a b : Instance)
    → fetch s x ≡ ok a
    → fetch s2 x ≡ ok b
    → state_fields id u a ≡ state_fields id v b
    → Vouches x u v s s2
vouched id u v s s2 (change_outreach_preference p) a b e f same =
    vouched_email id p u v s s2 a b e f same
vouched id u v s s2 noop a b e f same = tt
vouched id u v s s2 (renew_domain d) a b e f same = vouched_domain id d u v s s2 a b e f same
vouched id u v s s2 (activate_user d) a b e f same =
    credentials id u v s s2 (activate_user d) a b e f same refl
vouched id u v s s2 (activate_with_override_token p t) a b e f same =
    credentials id u v s s2 (activate_with_override_token p t) a b e f same refl
vouched id u v s s2 (change_user_email m) a b e f same =
    credentials id u v s s2 (change_user_email m) a b e f same refl
vouched id u v s s2 (create_totp_factor n) a b e f same =
    credentials id u v s s2 (create_totp_factor n) a b e f same refl
vouched id u v s s2 (reset_password q) a b e f same =
    credentials id u v s s2 (reset_password q) a b e f same refl
vouched id u v s s2 delete_user a b e f same = credentials id u v s s2 delete_user a b e f same refl

module _ {Digest : Type 0} ⦃digests : Eq Digest⦄ (digest : List StateField → Digest) where
  -- A code that is made for an action on some tables is accepted on other tables only if its user is
  -- there and if, the confirmation of an account apart (`noop`), they say what the tables said for which
  -- it was made: for a change of the outreach preference that the email address is the same, for a
  -- renewal that the domain has its name, owner and renewal, and for all others that the credentials
  -- have not changed since and the account is as active. The digests of different states differ.
  pub post-Vouches :
      ((i j : ℕ) (u v : User) (a b : Instance)
        → digest (state_fields i u a) ≡ digest (state_fields j v b)
        → state_fields i u a ≡ state_fields j v b)
      → (r : Request Digest) (u : User) (a : Instance) (made : Tables) → fetch made r.action ≡ ok a
      → state_of digest (state_fields r.user u a) ≡ ok r.state
      → (now : ℕ) (s s2 : Tables) → post digest now r s ≡ ok s2
      → (v : User) × (get r.user s.users ≡ some v) × Vouches r.action u v made s
  post-Vouches collision_free r u a made f h now s s2 performed =
      let p = post-IsPerformed digest now r s performed in
      let same =
        collision_free r.user r.user u p.user a p.instance_of
          (state_of-ok digest (state_fields r.user u a) h ∙ p.state) in
      (
        p.user,
        p.user_found,
        vouched r.user u p.user made s r.action a p.instance_of f p.fetched same,
      )
