-- ===== src/Access/Authentic.antt =====
-- authentication.py: what is behind a token that `TokenAuthentication` accepts.
use desec_stack.Common.{
  ℕ, String, ◌≡◌, refl, sym, ◌∙◌, ◌⊎◌, inl, inr, true, Option, some, List, [], ◌∷◌, arith,
  Bool-cases, Option-cases, nat_eq, string_eq, pair_eq, option_eq, ok, err, keep, In,
}
use desec_stack.Token.{Token, is_valid, save_token}
use desec_stack.Token.Soundness.{IsSound, get_policy-none, get_policy-default}
use desec_stack.Access.{
  Credential, Header, absent, malformed, with_key, Library, Request, Answer, has_key, save_row,
  use_token, authenticate_credentials, is_allowed_address, check_address, authenticate,
}

-- The lookup of the REST framework gives the active user's token of that key, and finds it where it is
-- the only one.
pub record IsLookup (look_up : List Credential → String → Option Credential) : Type 0 where
  pub listed :
      (rows : List Credential) (key : String) (c : Credential)
      → look_up rows key ≡ some c
      → In c rows × (c.key ≡ key) × (c.user.is_active ≡ some true)
  pub found :
      (rows : List Credential) (key : String) (c : Credential)
      → keep (has_key key) rows ≡ c ∷ []
      → c.user.is_active ≡ some true
      → look_up rows key ≡ some c

abbrev pub AllSound : List Credential → Type 0
AllSound rows = (c : Credential) → In c rows → IsSound c.token

-- A key has been accepted: it is that of a stored token of an active user, which has not expired, and
-- nothing is changed but the time of its last use.
pub record IsAdmitted (lib : Library) (now : ℕ) (key : String) (rows after : List Credential)
    (c : Credential) : Type 0 where
  pub stored : Credential
  pub listed : In stored rows
  pub hashed : stored.key ≡ lib.make_hash key
  pub active : stored.user.is_active ≡ some true
  pub valid : is_valid stored.token now ≡ true
  pub same : c ≡ record stored { token = use_token now stored.token }
  pub saved : after ≡ save_row stored.key (use_token now stored.token) rows

-- A sound token is saved as it is when its use is recorded.
pub use_token-saved :
    (now id : ℕ) (t : Token)
    → IsSound t
    → save_token true id (use_token now t) ≡ ok (use_token now t)
unfolding save_token
use_token-saved now id t v = elim v.one_default [
  | inl none_yet ↦
      (let made = v.made in let g = get_policy-none (use_token now t) none_yet in ground arith)
  | inr (d, e, r) ↦ (let g = get_policy-default (use_token now t) d e in ground arith)
]

module _ (lib : Library) (rows : List Credential) (is_lookup : IsLookup lib.look_up)
    (sound : AllSound rows) where
  -- the result for the key of a stored token, in time and too late
  pub valid_credentials :
      (now id : ℕ) (key : String) (c : Credential)
      → lib.look_up rows (lib.make_hash key) ≡ some c
      → is_valid c.token now ≡ true
      → authenticate_credentials lib now id key rows ≡ (
        save_row c.key (use_token now c.token) rows,
        ok (record c { token = use_token now c.token }),
      )
  unfolding authenticate_credentials
  valid_credentials now id key c found valid =
      let (i, _, _) = is_lookup.listed rows (lib.make_hash key) c found in
      let saved = use_token-saved now id c.token (sound c i) in ground arith

  pub credentials-IsAdmitted :
      (now id : ℕ) (key : String) (after : List Credential) (c : Credential)
      → authenticate_credentials lib now id key rows ≡ (after, ok c)
      → IsAdmitted lib now key rows after c
  unfolding authenticate_credentials
  credentials-IsAdmitted now id key after c h =
      elim (Option-cases (lib.look_up rows (lib.make_hash key))) [
        | inl n ↦ absurd (ground arith)
        | inr (s, found) ↦ elim (Bool-cases (is_valid s.token now)) [
          | inr late ↦ absurd (ground arith)
          | inl valid ↦
              (let (i, k, a) = is_lookup.listed rows (lib.make_hash key) s found in
                let done = sym (valid_credentials now id key s found valid) ∙ h in
                record {
                  stored = s;
                  listed = i;
                  hashed = k;
                  active = a;
                  valid = valid;
                  same = ground arith;
                  saved = ground arith;
                })
        ]
      ]

-- A request has been authenticated by its header: its key is admitted, and it comes from one of the
-- networks of the token.
pub record IsAuthorised (lib : Library) (r : Request) (rows after : List Credential)
    (c : Credential) : Type 0 where
  pub key : String
  pub header : lib.read_header r.authorization ≡ with_key key
  pub admitted : IsAdmitted lib r.now key rows after c
  pub allowed : is_allowed_address lib r.remote_addr c ≡ true

check_address-inv :
    (lib : Library) (address : String) (a : Answer Credential) (after : List Credential)
    (c : Credential)
    → check_address lib address a ≡ (after, ok (some c))
    → (a ≡ (after, ok c)) × (is_allowed_address lib address c ≡ true)
check_address-inv lib address (rows, err e) after c h = absurd (ground arith)
check_address-inv lib address (rows, ok d) after c h =
    elim (Bool-cases (is_allowed_address lib address d)) [
      | inl e ↦ (let same : d ≡ c = ground arith in (ground arith, rw (← same) e))
      | inr e ↦ absurd (ground arith)
    ]

Header-cases :
    (h : Header) → (h ≡ absent) ⊎ ((h ≡ malformed) ⊎ ((key : String) × (h ≡ with_key key)))
Header-cases absent = inl refl
Header-cases malformed = inr (inl refl)
Header-cases (with_key key) = inr (inr (key, refl))

-- Where `TokenAuthentication` accepts a request, given tokens that are sound and the lookup that the
-- REST framework documents, the hash of the key in the header is that of a stored token of an active
-- user, that token has not expired, the address of the client is in one of its networks, and nothing
-- has changed but the time of its last use, which is now.
pub authenticate-IsAuthorised :
    (lib : Library) (rows : List Credential)
    → IsLookup lib.look_up
    → AllSound rows
    → (id : ℕ) (r : Request) (after : List Credential) (c : Credential)
    → authenticate lib id r rows ≡ (after, ok (some c))
    → IsAuthorised lib r rows after c
unfolding authenticate
authenticate-IsAuthorised lib rows is_lookup sound id r after c h =
    elim (Header-cases (lib.read_header r.authorization)) [
      | inl e ↦ absurd (ground arith)
      | inr (inl e) ↦ absurd (ground arith)
      | inr (inr (key, e)) ↦
          (let checked : check_address lib r.remote_addr
                  (authenticate_credentials lib r.now id key rows)
                ≡ (after, ok (some c)) =
              ground arith in
            let (accepted, allowed) =
              check_address-inv lib r.remote_addr (authenticate_credentials lib r.now id key rows)
                after c checked in
            record {
              key = key;
              header = e;
              admitted =
                  credentials-IsAdmitted lib rows is_lookup sound r.now id key after c accepted;
              allowed = allowed;
            })
    ]
