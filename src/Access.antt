-- ===== src/Access.antt =====
-- authentication.py: how a request is authenticated by a token, in the header of the API and in the two
-- ways of dynamic DNS clients, and models/domains.py `filter_qname`. The REST framework's lookup of a
-- key and its reading of the header, Django's hash, base64, letter case, regular expressions and IP
-- networks are the parameter `Library`. A time is a number of seconds.
pub mod Authentic
pub mod Upkeep
pub mod Bypass
pub mod Permissions
pub mod Views
pub mod Passing
pub mod Creation
pub mod Destruction
pub mod Destroyed
pub mod Quota
use desec_stack.Common.{
  ℕ, zero, suc, ◌+◌, ◌-◌, ◌*◌, ◌/◌, ◌%◌, ◌^◌, ◌≤◌, ◌<◌, String, ◌≡◌, refl, sym, ap, ◌∙◌, ◌≢◌, ◌↔◌,
  ◌⊎◌, inl, inr, Bool, true, false, not, xor, ◌&&◌, ◌||◌, Option, none, some, List, [], ◌∷◌, ◌++◌,
  map, arith, ltb, leb, nat_beq, nat_beq_iff, leb→le, ltb→lt, if◌then◌else◌, Bool-cases, differ,
  Option-cases, Eq, ◌==◌, ==_iff, ==_refl, nat_eq, string_eq, pair_eq, option_eq, Result, ok, err,
  ◌>>=◌, ◌>>◌, raise_if, succeeds, >>=-eq-ok, >>=-eq-err, Result-cases, passed, ok_same, length,
  keep, any, all, is_empty, length-append, length-keep-le, any-append, In, In-append_left,
  In-append_right, In-map, In-map_inv, In-keep, keep-In, any-In, In-any, any_mono, In-member,
  member-In, member, add, discard, union, difference, intersection, to_set, member-keep,
  member-append, member-add, member-discard, member-union, member-difference, member-intersection,
  member-to_set, is_empty_of_no_member, member-is_empty, is_distinct, is_distinct-keep,
  is_distinct-append, is_distinct-to_set, set_laws, Dict, get, put, pop, keys, get-put, get-pop,
  keys-get-none, member-keys-put, is_distinct-keys-put, get-keys,
}
use Prim.Native.String.{slice, len, ◌++◌ as ◌^^◌}
use desec_stack.Token.{Token, PolicyError, is_valid, save_token}
use desec_stack.Db.{Domain}

-- `request.user`, with the fields that authentication and permissions read; the address stands for
-- the user, also as the owner of a domain or a token.
pub record RequestUser : Type 0 where
  pub email : String
  pub is_active : Option Bool
  pub mfa_enabled : Bool
  pub limit_domains : Option ℕ

-- A row of `Token` with its key, and the user it stands for.
pub record Credential : Type 0 where
  pub key : String
  pub token : Token
  pub user : RequestUser
  pub allowed_subnets : List String

-- What the REST framework reads from the header: no token, something else, or a key.
pub data Header : Type 0 where
  absent malformed : Header
  with_key : String → Header

-- `is_domain_name` is the regular expression of `validate_domain_name`.
pub record Library : Type 0 where
  pub read_header : List String → Header
  pub make_hash : String → String
  pub look_up : List Credential → String → Option Credential
  pub is_in : String → String → Bool
  pub decode : String → Option (List String)
  pub lower : String → String
  pub is_domain_name : String → Bool

-- A request: its time, the words of its header, the address of the client and its URL parameters.
pub record Request : Type 0 where
  pub now : ℕ
  pub authorization : List String
  pub remote_addr : String
  pub username : Option String
  pub password : Option String

pub data AuthError : Type 0 where
  invalid_header invalid_token authentication_failed : AuthError
  no_credentials has_spaces badauth : AuthError
  no_username no_password : AuthError
  not_saved : PolicyError → AuthError

-- The rows after an authentication, and its result: none leaves the request to the next class.
abbrev pub Answer : Type 0 → Type 0
Answer A = List Credential × Result AuthError A

abbrev pub has_key : String → Credential → Bool
has_key key c = c.key == key

abbrev pub with_token : String → Token → Credential → Credential
with_token key t c = if has_key key c then record c { token = t } else c

-- `token.save` of the row with that key
unfoldable pub save_row : String → Token → List Credential → List Credential
save_row key t rows = map (with_token key t) rows

abbrev pub use_token : ℕ → Token → Token
use_token now t = record t { last_used = some now }

-- `domain.name` with dots in front is an end of the name with a dot in front
abbrev pub is_suffix : String → String → Bool
is_suffix end text = leb (len end) (len text) && slice text (len text - len end) (len text) == end

module _ (lib : Library) where
  -- `TokenAuthentication.authenticate_credentials`; `id` is for a policy that the save may make
  unfoldable pub authenticate_credentials : ℕ → ℕ → String → List Credential → Answer Credential
  unfolding is_valid save_token save_row
  authenticate_credentials now id key rows = elim (lib.look_up rows (lib.make_hash key)) [
    | none ↦ (rows, err invalid_token)
    | some c ↦
        if not (is_valid c.token now)
        then (rows, err invalid_token)
        else elim (save_token true id (use_token now c.token)) [
          | err e ↦ (rows, err (not_saved e))
          | ok t ↦ (save_row c.key t rows, ok (record c { token = t }))
        ]
  ]

  -- `any(client_ip in subnet for subnet in token.allowed_subnets)`
  unfoldable pub is_allowed_address : String → Credential → Bool
  is_allowed_address address c = any (λ subnet. lib.is_in address subnet) c.allowed_subnets

  -- what `authenticate` does when the credentials are there
  abbrev pub check_address : String → Answer Credential → Answer (Option Credential)
  check_address address (rows, err e) = (rows, err e)
  check_address address (rows, ok c) =
      (rows, if is_allowed_address address c then ok (some c) else err invalid_token)

  -- `TokenAuthentication.authenticate`
  unfoldable pub authenticate : ℕ → Request → List Credential → Answer (Option Credential)
  unfolding authenticate_credentials is_allowed_address
  authenticate id r rows = elim (lib.read_header r.authorization) [
    | absent ↦ (rows, ok none)
    | malformed ↦ (rows, err invalid_header)
    | with_key key ↦ check_address r.remote_addr (authenticate_credentials r.now id key rows)
  ]

  -- `Domain.objects.filter_qname(qname, owner=owner)`
  unfoldable pub filter_qname : String → String → List Domain → List Domain
  filter_qname qname owner domains =
      if lib.is_domain_name
        (lib.lower (if slice qname 0 2 == "*." then slice qname 2 (len qname) else qname))
      then keep (λ d. is_suffix ("." ^^ d.name) ("." ^^ qname) && d.owner == owner) domains
      else []

  -- the test of the username in `DynAuthenticationMixin`
  unfoldable pub is_misleading : List Domain → String → RequestUser → Bool
  unfolding filter_qname
  is_misleading domains username user = not (
      username == ""
      || username == user.email
      || not (is_empty (filter_qname (lib.lower username) user.email domains)))

  abbrev pub check_username : List Domain → String → Answer Credential → Answer Credential
  check_username domains username (rows, err e) = (rows, err e)
  check_username domains username (rows, ok c) =
      (rows, if is_misleading domains username c.user then err authentication_failed else ok c)

  -- `DynAuthenticationMixin.authenticate_credentials`
  unfoldable pub dyn_credentials :
      List Domain → ℕ → ℕ → String → String → List Credential → Answer Credential
  unfolding authenticate_credentials is_misleading
  dyn_credentials domains now id username key rows =
      check_username domains username (authenticate_credentials now id key rows)

  -- `except Exception: raise AuthenticationFailed("badauth")`
  abbrev pub or_badauth : Answer Credential → Answer (Option Credential)
  or_badauth (rows, err e) = (rows, err badauth)
  or_badauth (rows, ok c) = (rows, ok (some c))

  -- the user name and key in the word after `Basic`
  abbrev pub basic_credentials :
      List Domain
      → ℕ
      → Request
      → Option (List String)
      → List Credential
      → Answer (Option Credential)
  basic_credentials domains id r (some (username ∷ key ∷ [])) rows =
      or_badauth (dyn_credentials domains r.now id username key rows)
  basic_credentials domains id r _ rows = (rows, err badauth)

  -- `BasicTokenAuthentication.authenticate`
  unfoldable pub basic_authenticate :
      List Domain → ℕ → Request → List Credential → Answer (Option Credential)
  unfolding dyn_credentials
  basic_authenticate domains id r rows = elim r.authorization [
    | [] ↦ (rows, ok none)
    | scheme ∷ words ↦ if not (lib.lower scheme == "basic") then (rows, ok none) else elim words [
      | [] ↦ (rows, err no_credentials)
      | word ∷ more ↦
          if is_empty more
          then basic_credentials domains id r (lib.decode word) rows
          else (rows, err has_spaces)
    ]
  ]

  -- `URLParamAuthentication.authenticate`
  unfoldable pub url_authenticate :
      List Domain → ℕ → Request → List Credential → Answer (Option Credential)
  unfolding dyn_credentials
  url_authenticate domains id r rows = elim r.username [
    | none ↦ (rows, err no_username)
    | some username ↦ elim r.password [
      | none ↦ (rows, err no_password)
      | some password ↦ or_badauth (dyn_credentials domains r.now id username password rows)
    ]
  ]
