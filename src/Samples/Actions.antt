-- ===== src/Samples/Actions.antt =====
-- A code for a change of password, and what becomes of it.
use desec_stack.Common.{
  ℕ, String, ◌≡◌, refl, sym, ap, ◌∙◌, ◌↔◌, Bool, true, false, ◌&&◌, Option, none, some, List, [],
  ◌∷◌, arith, nat_beq, if◌then◌else◌, Eq, nat_eq, string_eq, pair_eq, option_eq, ok, err, succeeds,
  get, put,
}
use desec_stack.Account.{User, Tables, invalid_state}
use desec_stack.Action.{
  StateField, state_fields, act_now, fetch, Request, state_of, instantiate, act, post,
  reset_password, text, primary_key, moment, flag, null, duration,
}
use desec_stack.Action.State.{Vouches, post-Vouches}
use desec_stack.Action.Replay.{post-once}

-- The texts of different lists of values are different, and so are those of different values.
abbrev code_of : StateField → ℕ × (String × Option ℕ)
code_of (text t) = (0, (t, none))
code_of (primary_key n) = (1, ("", some n))
code_of (moment n) = (2, ("", n))
code_of (flag true) = (3, ("", none))
code_of (flag false) = (4, ("", none))
code_of null = (5, ("", none))
code_of (duration n) = (6, ("", some n))

abbrev uncode : ℕ × (String × Option ℕ) → StateField
uncode (k, (t, n)) =
    if nat_beq k 0
    then text t
    else if nat_beq k 1
    then elim n [ none ↦ null | some i ↦ primary_key i ]
    else if nat_beq k 2
    then moment n
    else if nat_beq k 3
    then flag true
    else if nat_beq k 4
    then flag false
    else if nat_beq k 5
    then null
    else elim n [ none ↦ null | some i ↦ duration i ]

uncode-code_of : (f : StateField) → uncode (code_of f) ≡ f
uncode-code_of (text t) = refl
uncode-code_of (primary_key n) = refl
uncode-code_of (moment n) = refl
uncode-code_of (flag true) = refl
uncode-code_of (flag false) = refl
uncode-code_of null = refl
uncode-code_of (duration n) = refl

abbrev code_eq : Eq (ℕ × (String × Option ℕ))
code_eq =
    pair_eq ⦃left = nat_eq⦄ ⦃right = pair_eq ⦃left = string_eq⦄ ⦃right = option_eq ⦃e = nat_eq⦄⦄⦄

abbrev same_fields : List StateField → List StateField → Bool
same_fields [] [] = true
same_fields [] (g ∷ gs) = false
same_fields (f ∷ fs) [] = false
same_fields (f ∷ fs) (g ∷ gs) = code_eq.same (code_of f) (code_of g) && same_fields fs gs

same_fields_iff : (fs gs : List StateField) → (same_fields fs gs ≡ true) ↔ (fs ≡ gs)
same_fields_iff [] [] = ground arith
same_fields_iff [] (g ∷ gs) = ground arith
same_fields_iff (f ∷ fs) [] = ground arith
same_fields_iff (f ∷ fs) (g ∷ gs) =
    let k : code_of f ≡ code_of g → f ≡ g =
      λ e. sym (uncode-code_of f) ∙ ap uncode e ∙ uncode-code_of g in
    let h = code_eq.same_iff (code_of f) (code_of g) in
    let ih = same_fields_iff fs gs in
    (
      λ e. ap (λ (p : StateField × List StateField). p.0 ∷ p.1) (ground (arith, k, h, ih)),
      λ e. ground (arith, h, ih),
    )

instance abbrev fields_eq : Eq (List StateField)
fields_eq = record { same = same_fields; same_iff = same_fields_iff }

-- A digest without collisions: the list itself.
abbrev sample_digest : List StateField → List StateField
sample_digest fields = fields

abbrev sample_user : User
sample_user = record {
  email = "a@example.com";
  password = "old";
  is_active = some true;
  needs_captcha = false;
  outreach_preference = false;
  credentials_changed = 5;
}

abbrev sample_tables : Tables
sample_tables = record {
  users = (1, sample_user) ∷ [];
  tokens = [];
  domains = [];
  factors = [];
  mails = [];
}

abbrev reset : Request (List StateField)
reset = record {
  user = 1;
  action = reset_password "new";
  state =
      text "AuthenticatedResetPasswordUserAction"
      ∷ primary_key 1
      ∷ moment (some 5)
      ∷ flag true
      ∷ [];
  captcha = none;
}

abbrev tables_after : Tables
tables_after = record {
  users = (1, record sample_user { password = "new"; credentials_changed = 7 }) ∷ [];
  tokens = [];
  domains = [];
  factors = [];
  mails = record { reason = "password-change-confirmation"; recipient = "a@example.com" } ∷ [];
}

first_reset : post sample_digest 7 reset sample_tables ≡ ok tables_after
unfolding post instantiate act act_now fetch state_of state_fields get put
first_reset = refl

second_reset : post sample_digest 8 reset tables_after ≡ err invalid_state
unfolding post instantiate act act_now fetch state_of state_fields get put
second_reset = refl

user_there : get 1 sample_tables.users ≡ some sample_user
unfolding get
user_there = refl

post-once_example : succeeds (post sample_digest 8 reset tables_after) ≡ false
post-once_example =
    post-once sample_digest (λ i j u v a b e. e) 7 reset sample_user sample_tables tables_after
      user_there refl first_reset 8

reset_fetched : fetch sample_tables (reset_password "new") ≡ ok (reset_password "new")
unfolding fetch
reset_fetched = refl

reset_state :
    state_of sample_digest (state_fields 1 sample_user (reset_password "new")) ≡ ok reset.state
unfolding state_of state_fields
reset_state = refl

post-Vouches_example :
    (v : User) × (get 1 sample_tables.users ≡ some v)
    × Vouches (reset_password "new") sample_user v sample_tables sample_tables
post-Vouches_example =
    post-Vouches sample_digest (λ i j u v a b e. e) reset sample_user (reset_password "new")
      sample_tables reset_fetched reset_state 7 sample_tables tables_after first_reset
