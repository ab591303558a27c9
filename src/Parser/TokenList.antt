-- ===== src/Parser/TokenList.antt =====
-- src/libwebvtt/parser.c: `token_in_list` and `find_token`. Tokens are 32-bit patterns, and a list is
-- what stands before its 0.
use webvtt.Base.{
  ℕ, suc, ◌+◌, ◌%◌, ◌^◌, ◌≡◌, Bool, true, false, Option, none, some, List, [], ◌∷◌, arith, ◌==◌,
  if◌then◌else◌, get_elem?, Bool-cases, inl, inr, ==_iff,
}

unfoldable pub token_in_list : ℕ → List ℕ → Bool
token_in_list token [] = false
token_in_list token (t ∷ list) = if token == t then true else token_in_list token list

-- `t & TF_TOKEN_MASK`: the two flags are the highest bits.
abbrev pub token_mask : ℕ → ℕ
token_mask t = t % 2 ^ 30

find_from : ℕ → ℕ → List ℕ → Option ℕ
find_from i token [] = none
find_from i token (t ∷ list) =
    if token == token_mask t then some i else find_from (suc i) token list

-- The index; none for -1.
unfoldable pub find_token : ℕ → List ℕ → Option ℕ
unfolding find_from
find_token = find_from 0

found_from :
    (i token : ℕ) (list : List ℕ) {j : ℕ}
    → find_from i token list ≡ some j
    → (t : ℕ) × (n : ℕ) × (j ≡ i + n) × (get_elem? list n ≡ some t) × (token ≡ token_mask t)
unfolding find_from
found_from i token [] h = cc
found_from i token (t ∷ list) {j} h = elim (Bool-cases (token == token_mask t)) [
  | inl here ↦ (t, 0, ground arith, ground arith, (==_iff token (token_mask t)).0 here)
  | inr other ↦
      let (u, n, e, found, same) = found_from (suc i) token list {j = j} (rw other at h) in
      (u, suc n, omega arith, found, same)
]

-- The token at the index that is found is the one searched for, whatever its flags are.
pub find_token-get_elem? :
    (token : ℕ) (list : List ℕ) {j : ℕ}
    → find_token token list ≡ some j
    → (t : ℕ) × (get_elem? list j ≡ some t) × (token ≡ token_mask t)
unfolding find_token
find_token-get_elem? token list {j} h =
    let (t, n, e, found, same) = found_from 0 token list {j = j} h in
    let index : n ≡ j = omega arith in (t, rw (← index) found, same)
