-- ===== src/Tap/Closing.antt =====
-- What `close` of gns3/gns3-service/src/console_capture.py leaves in the buffers of a socket.
use onlinetlabs.Base.{
  ℕ, zero, suc, ◌-◌, ◌<◌, ◌≡◌, refl, ap, ◌∙◌, arith, Bool, true, false, ◌||◌, [], ◌∷◌, leb, ◌==◌,
  ==_iff, if◌then◌else◌, length, drop, length-drop, Bool-cases, ◌⊎◌, inl, inr,
}
use onlinetlabs.Regime.{Time}
use onlinetlabs.Capture.{Bytes, Direction, from_learner, from_machine}
use onlinetlabs.Tap.{
  TapLimits, Tap, Buffer, buffer_of, put_buffer, mask_typed, over_row_budget, submit_frame,
  emit_buffer, close_buffer,
}

if-cases {ℓ κ} :
    {A : Type ℓ} (P : A → Type κ) (b : Bool) (x y : A)
    → (b ≡ true → P x)
    → (b ≡ false → P y)
    → P (if b then x else y)
if-cases P true x y p q = p refl
if-cases P false x y p q = q refl

empty_block : (bs : Bytes) → (length bs == 0) ≡ true → bs ≡ []
empty_block [] h = refl
empty_block (b ∷ bs) h = absurd (omega (arith, (==_iff (length (b ∷ bs)) 0).0 h))

by_second : (a b : Bool) → a ≡ false → (a || b) ≡ true → b ≡ true
by_second a b e h = ground (arith)

some_left : (a : Bool) (n : ℕ) → (a || n == 0) ≡ false → 0 < n
some_left a n h = ground (arith)

less : (m n size fuel : ℕ) → m ≡ n - size → n < suc fuel → 0 < n → 0 < size → m < fuel
less m n size fuel e h some taken = omega arith

module _ {R : Type 0} (l : TapLimits) (redact : Bytes → Bytes × Bool) where
  -- Each direction's buffer.
  Held : Tap R → Direction → Bytes → Type 0
  Held t dir block = (buffer_of t dir).block ≡ block

  submit_frame-Held :
      (t : Tap R) (at dir : Direction) (payload block : Bytes) (truncated redacted : Bool)
      (ts : Time)
      → Held t at block
      → Held (submit_frame l redact t dir payload truncated redacted ts) at block
  unfolding submit_frame over_row_budget Held
  submit_frame-Held t from_learner dir payload block truncated redacted ts h =
      elim (Bool-cases (leb l.rows t.rows)) [ inl e ↦ rw e h | inr e ↦ rw e h ]
  submit_frame-Held t from_machine dir payload block truncated redacted ts h =
      elim (Bool-cases (leb l.rows t.rows)) [ inl e ↦ rw e h | inr e ↦ rw e h ]

  mask_typed-Held :
      (t : Tap R) (at dir : Direction) (payload block : Bytes)
      → Held t at block
      → Held (mask_typed l redact t dir payload).0 at block
  unfolding mask_typed Held
  mask_typed-Held t at from_machine payload block h = h
  mask_typed-Held t from_learner from_learner payload block h = elim (Bool-cases t.password_mode) [
    | inl e ↦ rw e h
    | inr e ↦ rw e h
  ]
  mask_typed-Held t from_machine from_learner payload block h = elim (Bool-cases t.password_mode) [
    | inl e ↦ rw e h
    | inr e ↦ rw e h
  ]

  put_buffer-Held :
      (t : Tap R) (dir : Direction) (b : Buffer) → Held (put_buffer t dir b) dir b.block
  unfolding Held
  put_buffer-Held t from_learner b = refl
  put_buffer-Held t from_machine b = refl

  emit_buffer-Held :
      (t : Tap R) (dir : Direction) (size : ℕ) (truncated : Bool) (now : Time)
      → Held (emit_buffer l redact t dir size truncated now) dir (drop size (buffer_of t dir).block)
  unfolding emit_buffer
  emit_buffer-Held t dir size truncated now =
      submit_frame-Held _ dir dir _ _ truncated _ _
        (mask_typed-Held _ dir dir _ _ (put_buffer-Held t dir _))

  -- Nothing waits, or the socket is over its budget.
  Done : Direction → Tap R → Type 0
  Done dir t = (t.over_budget ≡ true) ⊎ ((buffer_of t dir).block ≡ [])

  stopped :
      (t : Tap R) (dir : Direction)
      → (t.over_budget || length (buffer_of t dir).block == 0) ≡ true
      → Done dir t
  unfolding Done
  stopped t dir h = elim (Bool-cases t.over_budget) [
    | inl over ↦ inl over
    | inr under ↦ inr (empty_block (buffer_of t dir).block (by_second _ _ under h))
  ]

  shorter :
      (t : Tap R) (dir : Direction) (size : ℕ) (truncated : Bool) (now : Time)
      → length (buffer_of (emit_buffer l redact t dir size truncated now) dir).block
        ≡ length (buffer_of t dir).block - size
  unfolding Held
  shorter t dir size truncated now =
      ap length (emit_buffer-Held t dir size truncated now)
      ∙ length-drop size (buffer_of t dir).block

  -- The fuel of the loop of `close` is enough: where it is more than the bytes that wait, the buffer is
  -- empty in the end, or the socket is over its budget.
  close_buffer_lem :
      (fuel : ℕ) (t : Tap R) (dir : Direction) (now : Time)
      → 0 < l.chunk
      → length (buffer_of t dir).block < fuel
      → Done dir (close_buffer l redact fuel t dir now)
  unfolding close_buffer
  close_buffer_lem zero t dir now size enough = absurd (omega (arith, enough))
  close_buffer_lem (suc fuel) t dir now size enough =
      let n = length (buffer_of t dir).block in
      if-cases (Done dir) (t.over_budget || n == 0) t _ (stopped t dir) (λ on.
        if-cases (Done dir) (leb n l.chunk) _ _
          (λ h. close_buffer_lem fuel (emit_buffer l redact t dir n false now) dir now size (
            less _ n n fuel (shorter t dir n false now) enough (some_left _ _ on)
              (some_left _ _ on)))
          (λ h. close_buffer_lem fuel (emit_buffer l redact t dir l.chunk true now) dir now size (
            less _ n l.chunk fuel (shorter t dir l.chunk true now) enough (some_left _ _ on) size)))
