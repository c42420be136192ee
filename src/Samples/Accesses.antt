-- ===== src/Samples/Accesses.antt =====
-- A token with one network, used by three requests and from outside.
use desec_stack.Common.{
  ℕ, String, ◌≡◌, refl, inl, inr, Bool, true, false, not, ◌&&◌, Option, none, some, List, [], ◌∷◌,
  arith, if◌then◌else◌, Bool-cases, ◌==◌, ==_iff, nat_eq, string_eq, pair_eq, option_eq, ok, err,
  keep, In, In-keep,
}
use desec_stack.Token.{Token, is_valid, save_token}
use desec_stack.Token.Soundness.{IsSound}
use desec_stack.Access.{
  RequestUser, Credential, Header, absent, with_key, Library, Request, invalid_token, has_key,
  save_row, use_token, authenticate_credentials, is_allowed_address, authenticate, is_misleading,
  dyn_credentials, basic_authenticate, url_authenticate,
}
use desec_stack.Account.{is_true}
use desec_stack.Access.Authentic.{IsLookup, AllSound, IsAuthorised, authenticate-IsAuthorised}
use desec_stack.Access.Upkeep.{accepts_each, IsRenewable, IsProper, accepts_each-regular}
use desec_stack.Access.Bypass.{IsUsable, authenticate-refused_use, url_authenticate-any_address}

abbrev only_active : List Credential → Option Credential
only_active [] = none
only_active (c ∷ []) = if is_true c.user.is_active then some c else none
only_active (_ ∷ _ ∷ _) = none

abbrev sample_look_up : List Credential → String → Option Credential
sample_look_up rows key = only_active (keep (has_key key) rows)

is_true-some : (o : Option Bool) → is_true o ≡ true → o ≡ some true
is_true-some none h = absurd (ground arith)
is_true-some (some b) h = ground arith

only_active-inv :
    (cs : List Credential) (c : Credential)
    → only_active cs ≡ some c
    → In c cs × (c.user.is_active ≡ some true)
only_active-inv [] c h = absurd (ground arith)
only_active-inv (d ∷ []) c h = elim (Bool-cases (is_true d.user.is_active)) [
  | inl t ↦
      (let same : c ≡ d = ground arith in (inl same, rw same (is_true-some d.user.is_active t)))
  | inr t ↦ absurd (ground arith)
]
only_active-inv (_ ∷ _ ∷ _) c h = absurd (ground arith)

sample_look_up-IsLookup : IsLookup sample_look_up
sample_look_up-IsLookup = record {
  listed = λ rows key c h.
      let (i, active) = only_active-inv (keep (has_key key) rows) c h in
      let (j, k) = In-keep (has_key key) c rows i in (j, ground (arith, ==_iff c.key key), active);
  found = λ rows key c unique active. rw (unique, active) refl;
}

abbrev sample_header : List String → Header
sample_header (scheme ∷ key ∷ []) = if scheme == "Token" then with_key key else absent
sample_header _ = absent

abbrev sample_library : Library
sample_library = record {
  read_header = sample_header;
  make_hash = λ key. if key == "secret" then "hash" else key;
  look_up = sample_look_up;
  is_in = λ address subnet. address == "10.0.0.1" && subnet == "10.0.0.0/8";
  decode = λ word. some ("" ∷ word ∷ []);
  lower = λ text. text;
  is_domain_name = λ text. not (text == "");
}

abbrev sample_user : RequestUser
sample_user = record {
  email = "user@example.com";
  is_active = some true;
  mfa_enabled = false;
  limit_domains = some 15;
}

abbrev sample_token : Token
sample_token = record {
  owner = "user@example.com";
  user_override = none;
  mfa = none;
  perm_create_domain = false;
  perm_delete_domain = false;
  perm_manage_tokens = false;
  created = 1000;
  last_used = none;
  max_age = none;
  max_unused_period = some 100;
  auto_policy = false;
  policies = [];
}

abbrev sample_credential : Credential
sample_credential = record {
  key = "hash";
  token = sample_token;
  user = sample_user;
  allowed_subnets = "10.0.0.0/8" ∷ [];
}

abbrev used_credential : ℕ → Credential
used_credential now = record sample_credential { token = use_token now sample_token }

abbrev sample_request : ℕ → String → Request
sample_request now address = record {
  now = now;
  authorization = "Token" ∷ "secret" ∷ [];
  remote_addr = address;
  username = some "";
  password = some "secret";
}

sample_token-IsSound : IsSound sample_token
sample_token-IsSound = record {
  one_default = inl refl;
  made = λ h. absurd (ground arith);
  separate = refl;
}

sample-AllSound : AllSound (sample_credential ∷ [])
sample-AllSound c (inl e) = rw e sample_token-IsSound
sample-AllSound c (inr i) = absurd i

accepted :
    authenticate sample_library 1 (sample_request 1050 "10.0.0.1") (sample_credential ∷ [])
    ≡ (used_credential 1050 ∷ [], ok (some (used_credential 1050)))
unfolding authenticate authenticate_credentials is_allowed_address is_valid save_token save_row keep
accepted = refl

authenticate-IsAuthorised_example :
    IsAuthorised sample_library
      (sample_request 1050 "10.0.0.1")
      (sample_credential ∷ [])
      (used_credential 1050 ∷ [])
      (used_credential 1050)
authenticate-IsAuthorised_example =
    authenticate-IsAuthorised sample_library (sample_credential ∷ []) sample_look_up-IsLookup
      sample-AllSound 1 (sample_request 1050 "10.0.0.1") (used_credential 1050 ∷ [])
      (used_credential 1050) accepted

sample-IsRenewable : IsRenewable "hash" 100 (sample_credential ∷ []) sample_credential
unfolding keep
sample-IsRenewable = record {
  unique = refl;
  active = refl;
  ageless = refl;
  limited = refl;
  sound = sample-AllSound;
}

abbrev three_requests : List Request
three_requests =
    sample_request 1100 "10.0.0.1"
    ∷ sample_request 1200 "10.0.0.1"
    ∷ sample_request 1290 "10.0.0.1"
    ∷ []

three-IsProper :
    (r : Request) → In r three_requests → IsProper sample_library "secret" sample_credential r
unfolding is_allowed_address
three-IsProper r (inl e) = rw e (record { header = refl; allowed = refl })
three-IsProper r (inr (inl e)) = rw e (record { header = refl; allowed = refl })
three-IsProper r (inr (inr (inl e))) = rw e (record { header = refl; allowed = refl })
three-IsProper r (inr (inr (inr i))) = absurd i

accepts_each-regular_example :
    accepts_each sample_library 1 three_requests (sample_credential ∷ []) ≡ true
accepts_each-regular_example =
    accepts_each-regular sample_library sample_look_up-IsLookup 1 "secret" 100 three_requests
      (sample_credential ∷ []) sample_credential sample-IsRenewable three-IsProper refl

-- the last request of the three, had it come too late
not_regular :
    accepts_each sample_library 1
      (sample_request 1100 "10.0.0.1" ∷ sample_request 1201 "10.0.0.1" ∷ [])
      (sample_credential ∷ [])
    ≡ false
unfolding accepts_each authenticate authenticate_credentials is_allowed_address is_valid save_token
    save_row keep
not_regular = refl

sample-IsUsable : IsUsable sample_library 1050 "secret" (sample_credential ∷ []) sample_credential
unfolding keep is_valid
sample-IsUsable = record { unique = refl; active = refl; valid = refl; sound = sample-AllSound }

outside : is_allowed_address sample_library "192.0.2.1" sample_credential ≡ false
unfolding is_allowed_address
outside = refl

authenticate-refused_use_example :
    authenticate sample_library 1 (sample_request 1050 "192.0.2.1") (sample_credential ∷ [])
    ≡ (save_row "hash" (use_token 1050 sample_token) (sample_credential ∷ []), err invalid_token)
authenticate-refused_use_example =
    authenticate-refused_use sample_library sample_look_up-IsLookup 1 "secret"
      (sample_request 1050 "192.0.2.1") (sample_credential ∷ []) sample_credential sample-IsUsable
      refl outside

not_misleading : is_misleading sample_library [] "" sample_user ≡ false
unfolding is_misleading
not_misleading = refl

url_authenticate-any_address_example :
    url_authenticate sample_library [] 1 (sample_request 1050 "192.0.2.1") (sample_credential ∷ [])
    ≡ (
      save_row "hash" (use_token 1050 sample_token) (sample_credential ∷ []),
      ok (some (used_credential 1050)),
    )
url_authenticate-any_address_example =
    url_authenticate-any_address sample_library sample_look_up-IsLookup 1 "secret"
      (sample_request 1050 "192.0.2.1") (sample_credential ∷ []) sample_credential sample-IsUsable
      [] "" refl not_misleading refl

-- a client of dynamic DNS with the key in the header
abbrev basic_request : Request
basic_request = record (sample_request 1050 "192.0.2.1") { authorization = "basic" ∷ "secret" ∷ [] }

basic_accepted :
    basic_authenticate sample_library [] 1 basic_request (sample_credential ∷ [])
    ≡ (used_credential 1050 ∷ [], ok (some (used_credential 1050)))
unfolding basic_authenticate dyn_credentials authenticate_credentials is_misleading is_valid
    save_token save_row keep
basic_accepted = refl
