-- ===== src/Vpcs/Patterns/Reading.antt =====
-- The spellings of a comparison for `_matches` of backend/validation/checks/vpcs.py.
use onlinetlabs.Base.{
  ℕ, ◌+◌, ◌-◌, ◌*◌, ◌≡◌, refl, ap, sym, ◌∙◌, Bool, true, false, ◌||◌, [], ◌∷◌, ◌++◌, some, all,
  arith, subst, false-ne-true, false-ne-true,
}
use onlinetlabs.Vpcs.{Text}
use onlinetlabs.Vpcs.Patterns.{
  Operator, at_least, at_most, equal, above, below, pattern_text, is_space, is_digit, skip_spaces,
  operator_of, digits_from, parse_compare, compare_end, compare_after, compare_by, compare_parsed,
  matches,
}

-- The ways to write an operator.
pub data Spelling : Type 0 where
  ge le double_eq eq gt lt bare : Spelling

abbrev pub text_of : Spelling → Text
text_of ge = 62 ∷ 61 ∷ []
text_of le = 60 ∷ 61 ∷ []
text_of double_eq = 61 ∷ 61 ∷ []
text_of eq = 61 ∷ []
text_of gt = 62 ∷ []
text_of lt = 60 ∷ []
text_of bare = []

abbrev pub meaning : Spelling → Operator
meaning ge = at_least
meaning le = at_most
meaning double_eq = equal
meaning eq = equal
meaning gt = above
meaning lt = below
meaning bare = equal

-- The number that some digits write, after others that write a number.
abbrev pub value_from : ℕ → Text → ℕ
value_from n [] = n
value_from n (d ∷ ds) = value_from (n * 10 + (d - 48)) ds

skip_spaces-append : (sp t : Text) → all is_space sp ≡ true → skip_spaces (sp ++ t) ≡ skip_spaces t
unfolding skip_spaces
skip_spaces-append [] t h = refl
skip_spaces-append (c ∷ sp) t h = ground (arith, skip_spaces-append sp t)

skip_spaces_visible : (c : ℕ) (t : Text) → is_space c ≡ false → skip_spaces (c ∷ t) ≡ c ∷ t
unfolding skip_spaces
skip_spaces_visible c t h = ground arith

-- A text that begins with white space or a digit.
abbrev is_plain : Text → Bool
is_plain [] = false
is_plain (c ∷ _) = is_space c || is_digit c

plain_tail :
    (sp : Text) (d : ℕ) (t : Text)
    → all is_space sp ≡ true
    → is_digit d ≡ true
    → is_plain (sp ++ d ∷ t) ≡ true
plain_tail [] d t h k = ground arith
plain_tail (c ∷ sp) d t h k = ground arith

operator_of-text_of :
    (s : Spelling) (t : Text) → is_plain t ≡ true → operator_of (text_of s ++ t) ≡ (meaning s, t)
unfolding operator_of
operator_of-text_of s [] h = absurd (false-ne-true h)
operator_of-text_of ge (c ∷ t) h = refl
operator_of-text_of le (c ∷ t) h = refl
operator_of-text_of double_eq (c ∷ t) h = refl
operator_of-text_of eq (c ∷ t) h = ground arith
operator_of-text_of gt (c ∷ t) h = ground arith
operator_of-text_of lt (c ∷ t) h = ground arith
operator_of-text_of bare (c ∷ []) h = ground arith
operator_of-text_of bare (c ∷ d ∷ t) h = ground arith

digits_from-append :
    (ds : Text) (n : ℕ) (sp : Text)
    → all is_digit ds ≡ true
    → all is_space sp ≡ true
    → digits_from n (ds ++ sp) ≡ (value_from n ds, sp)
unfolding digits_from
digits_from-append [] n [] h k = refl
digits_from-append [] n (c ∷ sp) h k = ground arith
digits_from-append (d ∷ ds) n sp h k = ground (arith, digits_from-append ds (n * 10 + (d - 48)) sp)

digit_visible : (d : ℕ) → is_digit d ≡ true → is_space d ≡ false
digit_visible d h = ground arith

module _ (sp₁ sp₂ : Text) (d : ℕ) (t : Text) (h₁ : all is_space sp₁ ≡ true)
    (h₂ : all is_space sp₂ ≡ true) (k : is_digit d ≡ true) where
  body_visible : skip_spaces (sp₂ ++ d ∷ t) ≡ d ∷ t
  body_visible = skip_spaces-append sp₂ (d ∷ t) h₂ ∙ skip_spaces_visible d t (digit_visible d k)

  -- What the operator leaves, where the text begins with a sign.
  signed_head :
      (s : Spelling) (c : ℕ) (u : Text)
      → text_of s ≡ c ∷ u
      → is_space c ≡ false
      → operator_of (skip_spaces (sp₁ ++ (text_of s ++ (sp₂ ++ d ∷ t)))) ≡ (meaning s, sp₂ ++ d ∷ t)
  signed_head s c u e q =
      ap operator_of (skip_spaces-append sp₁ (text_of s ++ (sp₂ ++ d ∷ t)) h₁ ∙ visible)
      ∙ operator_of-text_of s (sp₂ ++ d ∷ t) (plain_tail sp₂ d t h₂ k)
    where
      visible : skip_spaces (text_of s ++ (sp₂ ++ d ∷ t)) ≡ text_of s ++ (sp₂ ++ d ∷ t)
      visible =
          subst (λ x. skip_spaces (x ++ (sp₂ ++ d ∷ t)) ≡ x ++ (sp₂ ++ d ∷ t)) (sym e)
            (skip_spaces_visible c (u ++ (sp₂ ++ d ∷ t)) q)

  -- The text after the operator, and what is left of it without white space.
  head_read :
      (s : Spelling)
      → (v : Text) × (operator_of (skip_spaces (sp₁ ++ (text_of s ++ (sp₂ ++ d ∷ t))))
          ≡ (meaning s, v))
        × (skip_spaces v ≡ d ∷ t)
  head_read ge = (_, signed_head ge 62 _ refl refl, body_visible)
  head_read le = (_, signed_head le 60 _ refl refl, body_visible)
  head_read double_eq = (_, signed_head double_eq 61 _ refl refl, body_visible)
  head_read eq = (_, signed_head eq 61 _ refl refl, body_visible)
  head_read gt = (_, signed_head gt 62 _ refl refl, body_visible)
  head_read lt = (_, signed_head lt 60 _ refl refl, body_visible)
  head_read bare = (
    d ∷ t,
    ap operator_of (skip_spaces-append sp₁ (sp₂ ++ d ∷ t) h₁ ∙ body_visible)
        ∙ operator_of-text_of bare (d ∷ t) (ground arith),
    skip_spaces_visible d t (digit_visible d k),
  )

  -- The operator and the number, where the digits are followed by white space.
  parse_compare-text_of :
      (s : Spelling) (n : ℕ) (rest : Text)
      → digits_from 0 (d ∷ t) ≡ (n, rest)
      → all is_space rest ≡ true
      → parse_compare (sp₁ ++ (text_of s ++ (sp₂ ++ d ∷ t))) ≡ some (meaning s, n)
  unfolding parse_compare
  parse_compare-text_of s n rest e q =
      let (v, read, seen) = head_read s in
      ap compare_after read
      ∙ ap (λ u. compare_end (meaning s) u (digits_from 0 u)) seen
      ∙ ap (compare_end (meaning s) (d ∷ t)) e
      ∙ ground arith

-- A text of white space, an operator, white space, digits and white space, each but the digits
-- perhaps empty, is matched as the operator says against the number that the digits write.
pub matches-text_of :
    (a : ℕ) (s : Spelling) (sp₁ sp₂ sp₃ : Text) (d : ℕ) (ds : Text)
    → all is_space sp₁ ≡ true
    → all is_space sp₂ ≡ true
    → all is_space sp₃ ≡ true
    → all is_digit (d ∷ ds) ≡ true
    → matches (some a) (pattern_text (sp₁ ++ (text_of s ++ (sp₂ ++ (d ∷ ds ++ sp₃)))))
      ≡ compare_by (meaning s) a (value_from 0 (d ∷ ds))
unfolding matches
matches-text_of a s sp₁ sp₂ sp₃ d ds h₁ h₂ h₃ k = ap (compare_parsed a) (
    parse_compare-text_of sp₁ sp₂ d (ds ++ sp₃) h₁ h₂ (ground arith) s (value_from 0 (d ∷ ds)) sp₃
      (digits_from-append (d ∷ ds) 0 sp₃ k h₃) h₃)
