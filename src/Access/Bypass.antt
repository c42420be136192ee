-- ===== src/Access/Bypass.antt =====
-- authentication.py: what becomes of a request from an address outside the networks of its token.
use desec_stack.Common.{
  ℕ, String, ◌≡◌, true, false, some, List, [], ◌∷◌, arith, nat_eq, string_eq, pair_eq, option_eq,
  ok, err, keep,
}
use desec_stack.Token.{is_valid}
use desec_stack.Access.{
  Credential, with_key, Library, Request, invalid_token, has_key, save_row, use_token,
  authenticate_credentials, is_allowed_address, authenticate, is_misleading, dyn_credentials,
  url_authenticate,
}
use desec_stack.Db.{Domain}
use desec_stack.Access.Authentic.{IsLookup, AllSound, valid_credentials}

-- The token with that key, the only one, of an active user, in time.
pub record IsUsable (lib : Library) (now : ℕ) (key : String) (rows : List Credential)
    (c : Credential) : Type 0 where
  pub unique : keep (has_key (lib.make_hash key)) rows ≡ c ∷ []
  pub active : c.user.is_active ≡ some true
  pub valid : is_valid c.token now ≡ true
  pub sound : AllSound rows

module _ (lib : Library) (is_lookup : IsLookup lib.look_up) (id : ℕ) (key : String) (r : Request)
    (rows : List Credential) (c : Credential) (usable : IsUsable lib r.now key rows c) where
  credentials-used : authenticate_credentials lib r.now id key rows ≡ (
    save_row c.key (use_token r.now c.token) rows,
    ok (record c { token = use_token r.now c.token }),
  )
  credentials-used =
      valid_credentials lib rows is_lookup usable.sound r.now id key c
        (is_lookup.found rows (lib.make_hash key) c usable.unique usable.active) usable.valid

  -- A request with the key of a usable token in its header, from an address outside of the networks of
  -- that token, is refused by `TokenAuthentication`, but it counts as a use: the time of the last use
  -- is set to now.
  pub authenticate-refused_use :
      lib.read_header r.authorization ≡ with_key key
      → is_allowed_address lib r.remote_addr c ≡ false
      → authenticate lib id r rows
        ≡ (save_row c.key (use_token r.now c.token) rows, err invalid_token)
  unfolding authenticate is_allowed_address
  authenticate-refused_use header outside = let done = credentials-used in ground arith

  -- `URLParamAuthentication` accepts the key of a usable token as the password, with a username that is
  -- not misleading (empty, the user's address, or a name in one of the user's zones), from every
  -- address, also from one outside of the networks of that token.
  pub url_authenticate-any_address :
      (domains : List Domain) (username : String)
      → r.username ≡ some username
      → is_misleading lib domains username c.user ≡ false
      → r.password ≡ some key
      → url_authenticate lib domains id r rows ≡ (
        save_row c.key (use_token r.now c.token) rows,
        ok (some (record c { token = use_token r.now c.token })),
      )
  unfolding url_authenticate dyn_credentials
  url_authenticate-any_address domains username name clear password =
      let done = credentials-used in ground arith
