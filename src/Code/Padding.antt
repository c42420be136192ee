-- ===== src/Code/Padding.antt =====
-- serializers/authenticated_actions.py: the padding that a code leaves out and gets back.
use desec_stack.Common.{
  ℕ, zero, suc, ◌+◌, ◌-◌, ◌%◌, ◌≤◌, ◌≡◌, refl, sym, ap, ◌∙◌, Option, some, List, [], ◌∷◌, ◌++◌,
  arith, nat_eq, string_eq, pair_eq, option_eq, ok, length, length-append,
}
use desec_stack.Code.{rstrip_equals, equals_signs, pad_code, pack_code, unpack_code}

length-equals_signs : (n : ℕ) → length (equals_signs n) ≡ n
unfolding equals_signs
length-equals_signs zero = refl
length-equals_signs (suc n) = ground (arith, length-equals_signs n)

rstrip_equals-equals_signs : (n : ℕ) → rstrip_equals (equals_signs n) ≡ []
unfolding equals_signs rstrip_equals
rstrip_equals-equals_signs zero = refl
rstrip_equals-equals_signs (suc n) = ground (arith, rstrip_equals-equals_signs n)

rstrip_equals-append :
    (code : List ℕ) (n : ℕ) → rstrip_equals (code ++ equals_signs n) ≡ rstrip_equals code
unfolding rstrip_equals
rstrip_equals-append [] n = rstrip_equals-equals_signs n
rstrip_equals-append (c ∷ code) n = ground (arith, rstrip_equals-append code n)

-- A token in base64: a text that does not end in `=`, padded by at most two to a multiple of four.
pub record IsPadded (token : List ℕ) : Type 0 where
  pub body : List ℕ
  pub padding : ℕ
  pub parts : token ≡ body ++ equals_signs padding
  pub bare : rstrip_equals body ≡ body
  pub short : padding ≤ 2
  pub whole : length token % 4 ≡ 0

missing_signs : (l n : ℕ) → n ≤ 2 → (l + n) % 4 ≡ 0 → (4 - l % 4) % 4 ≡ n
missing_signs l n h e = omega arith

-- What is stripped from a token is what is put back.
pad_code-rstrip_equals : (token : List ℕ) → IsPadded token → pad_code (rstrip_equals token) ≡ token
unfolding pad_code
pad_code-rstrip_equals token p =
    let stripped : rstrip_equals token ≡ p.body =
      ap rstrip_equals p.parts ∙ rstrip_equals-append p.body p.padding ∙ p.bare in
    let size = ap length p.parts ∙ length-append p.body (equals_signs p.padding) in
    let signs = length-equals_signs p.padding in
    let w = p.whole in
    let total : (length p.body + p.padding) % 4 ≡ 0 = ground arith in
    let missing = missing_signs (length p.body) p.padding p.short total in
    ap pad_code stripped ∙ ap (λ n. p.body ++ equals_signs n) missing ∙ sym p.parts

module _ {Data : Type 0} (encrypt : Data → List ℕ)
    (decrypt : List ℕ → Option ℕ → Option (ℕ × Data)) where
  -- If tokens are padded base64 and one that has not expired is read back, then the code made of some
  -- data, which leaves the padding out, is unpacked to the time at which it was made and these data.
  pub unpack_code-pack_code :
      ((value : Data) → IsPadded (encrypt value))
      → (value : Data) (ttl : Option ℕ) (timestamp : ℕ)
      → decrypt (encrypt value) ttl ≡ some (timestamp, value)
      → unpack_code encrypt decrypt (pack_code encrypt decrypt value) ttl ≡ ok (timestamp, value)
  unfolding unpack_code pack_code
  unpack_code-pack_code padded value ttl timestamp h =
      let same = pad_code-rstrip_equals (encrypt value) (padded value) in
      let read = ap (λ token. decrypt token ttl) same ∙ h in ground arith
