-- ===== src/Tap/Mask.antt =====
-- What a password prompt hides of the typed bytes in gns3/gns3-service/src/console_capture.py.
use onlinetlabs.Base.{
  ℕ, ◌≡◌, refl, ap, Bool, true, false, not, ◌||◌, [], ◌∷◌, ◌++◌, arith, if◌then◌else◌, map, any,
  Bool-cases, inl, inr,
}
use onlinetlabs.Capture.{Bytes}
use onlinetlabs.Tap.{is_break, star, mask_password}

-- A line with every byte that is no line break starred out.
abbrev pub stars_of : Bytes → Bytes
stars_of = map (λ b. if is_break b then b else star)

abbrev pub has_text : Bytes → Bool
has_text = any (λ b. not (is_break b))

abbrev pub starts_with_break : Bytes → Bool
starts_with_break [] = false
starts_with_break (b ∷ bs) = is_break b

-- The bytes are parted into hidden ones and the rest, which is empty while the mode is on, and starts
-- with the line break that ended the first line with text once it is off.
abbrev pub IsMasked : Bool → Bytes → Bytes × Bool × Bool → Type 0
IsMasked seen bs (out, redacted, on) =
    (hidden : Bytes) × (rest : Bytes) × (bs ≡ hidden ++ rest)
    × (out ≡ stars_of hidden ++ rest)
    × (redacted ≡ (seen || has_text hidden))
    × (on ≡ true → rest ≡ [])
    × (on ≡ false → (starts_with_break rest ≡ true) × (redacted ≡ true))

IsMasked-cons_break :
    (b : ℕ) (bs : Bytes) (r : Bytes × Bool × Bool)
    → is_break b ≡ true
    → IsMasked false bs r
    → IsMasked false (b ∷ bs) (b ∷ r.0, r.1, r.2)
IsMasked-cons_break b bs (out, redacted, on) e (hidden, rest, p, q, s, t, u) =
    (b ∷ hidden, rest, ap (◌∷◌ b) p, rw e (ap (◌∷◌ b) q), rw e s, t, u)

IsMasked-cons_text :
    (seen : Bool) (b : ℕ) (bs : Bytes) (r : Bytes × Bool × Bool)
    → is_break b ≡ false
    → IsMasked true bs r
    → IsMasked seen (b ∷ bs) (star ∷ r.0, true, r.2)
IsMasked-cons_text seen b bs (out, redacted, on) e (hidden, rest, p, q, s, t, u) = (
  b ∷ hidden,
  rest,
  ap (◌∷◌ b) p,
  rw e (ap (◌∷◌ star) q),
  ground (arith, e),
  t,
  λ h. ((u h).0, refl),
)

mask_password-IsMasked : (seen : Bool) (bs : Bytes) → IsMasked seen bs (mask_password seen bs)
unfolding mask_password
mask_password-IsMasked seen [] = ([], [], refl, refl, ground arith, λ h. refl, λ h. cc)
mask_password-IsMasked seen (b ∷ bs) = elim (Bool-cases (is_break b)) [
  | inl e ↦ elim (Bool-cases seen) [
    | inl s ↦ rw (e, s) ([], b ∷ bs, refl, refl, refl, λ h. cc, λ h. (e, refl))
    | inr s ↦
        rw (e, s)
          (IsMasked-cons_break b bs (mask_password false bs) e (mask_password-IsMasked false bs))
  ]
  | inr e ↦
      rw e (IsMasked-cons_text seen b bs (mask_password true bs) e (mask_password-IsMasked true bs))
]

-- What the password mode does to typed bytes: they are parted into hidden ones, of which each that is no
-- line break is replaced by a star, and the rest, which is left; some are said to be redacted exactly
-- where a hidden one is no line break. The mode is on after it only if all are hidden, and off only if
-- the rest starts with the line break that ended a line with text.
mask_password_lem :
    (bs : Bytes)
    → let (out, redacted, on) = mask_password false bs in
      (hidden : Bytes) × (rest : Bytes) × (bs ≡ hidden ++ rest)
      × (out ≡ stars_of hidden ++ rest)
      × (redacted ≡ has_text hidden)
      × (on ≡ true → rest ≡ [])
      × (on ≡ false → (starts_with_break rest ≡ true) × (redacted ≡ true))
mask_password_lem bs = mask_password-IsMasked false bs
