-- ===== src/Tap/Pieces.antt =====
-- The pieces of a stream and the search for the last line break in the buffers of
-- gns3/gns3-service/src/console_capture.py.
use onlinetlabs.Base.{
  ℕ, zero, suc, ◌≤◌, ◌≡◌, refl, sym, ap, ◌∙◌, Bool, true, false, Option, List, [], ◌∷◌, ◌++◌, arith,
  length, take, drop, any, append_assoc,
}
use onlinetlabs.Regime.{Time}
use onlinetlabs.Capture.{Bytes, Direction, from_learner, from_machine, Item, frame, command}
use onlinetlabs.Tap.{Buffer, is_break, last_break, stamp_buffer}

-- No line break.
abbrev pub IsPartial : Bytes → Type 0
IsPartial bs = any is_break bs ≡ false

take-all {ℓ} : {A : Type ℓ} (n : ℕ) (xs : List A) → length xs ≤ n → take n xs ≡ xs
take-all zero [] h = refl
take-all zero (x ∷ xs) h = absurd (omega (arith, h))
take-all (suc n) [] h = refl
take-all (suc n) (x ∷ xs) h = ap (◌∷◌ x) (take-all n xs (omega (arith, h)))

pub take-drop {ℓ} : {A : Type ℓ} (n : ℕ) (xs : List A) → take n xs ++ drop n xs ≡ xs
take-drop zero xs = refl
take-drop (suc n) [] = refl
take-drop (suc n) (x ∷ xs) = ap (◌∷◌ x) (take-drop n xs)

pub last_break-le :
    (limit searched : ℕ) (bs : Bytes)
    → (last_break limit searched bs ≤ limit) × (last_break limit searched bs ≤ length bs)
unfolding last_break
last_break-le limit searched [] = (omega arith, omega arith)
last_break-le zero searched (b ∷ bs) = (omega arith, omega arith)
last_break-le (suc limit) zero (b ∷ bs) = ground (arith, last_break-le limit zero bs)
last_break-le (suc limit) (suc searched) (b ∷ bs) = ground (arith, last_break-le limit searched bs)

-- Where the bytes before `searched` hold no line break, a search of the rest that finds none settles it.
pub last_break-none :
    (limit searched : ℕ) (bs : Bytes)
    → last_break limit searched bs ≡ 0
    → IsPartial (take searched bs)
    → length bs ≤ limit
    → IsPartial bs
unfolding last_break
last_break-none limit searched [] h p n = refl
last_break-none zero searched (b ∷ bs) h p n = absurd (omega (arith, n))
last_break-none (suc limit) zero (b ∷ bs) h p n = ground (arith, last_break-none limit zero bs)
last_break-none (suc limit) (suc searched) (b ∷ bs) h p n =
    ground (arith, last_break-none limit searched bs)

-- The payloads of the node's frames.
abbrev pub out_of : Direction → Bytes → List Bytes
out_of from_machine payload = payload ∷ []
out_of from_learner payload = []

abbrev pub outs : List Item → List Bytes
outs [] = []
outs (frame f ∷ is) = out_of f.direction f.payload ++ outs is
outs (command c ∷ is) = outs is

pub outs-append : (xs ys : List Item) → outs (xs ++ ys) ≡ outs xs ++ outs ys
outs-append [] ys = refl
outs-append (frame f ∷ xs) ys =
    ap (λ r. out_of f.direction f.payload ++ r) (outs-append xs ys)
    ∙ sym (append_assoc (out_of f.direction f.payload) (outs xs) (outs ys))
outs-append (command c ∷ xs) ys = outs-append xs ys

pub length-take_within {ℓ} :
    {A : Type ℓ} (n : ℕ) (xs : List A) → n ≤ length xs → length (take n xs) ≡ n
length-take_within zero xs h = refl
length-take_within (suc n) [] h = absurd (omega (arith, h))
length-take_within (suc n) (x ∷ xs) h = ap suc (length-take_within n xs (omega (arith, h)))

abbrev pub concat : List Bytes → Bytes
concat [] = []
concat (p ∷ ps) = p ++ concat ps

pub not_both : (b : Bool) → b ≡ true → b ≡ false → ⊥
not_both b h k = cc (sym h ∙ k)

stamp_held :
    (ts : Option Time) (held block : Bytes) (now : Time)
    → (stamp_buffer (record { block = held; ts = ts }) block now).block ≡ held ++ block
stamp_held ts [] block now = refl
stamp_held ts (x ∷ xs) block now = refl

pub stamp_buffer-block :
    (b : Buffer) (block : Bytes) (now : Time) → (stamp_buffer b block now).block ≡ b.block ++ block
stamp_buffer-block b block now = stamp_held b.ts b.block block now

pub take-front {ℓ} : {A : Type ℓ} (xs ys : List A) → take (length xs) (xs ++ ys) ≡ xs
take-front [] ys = refl
take-front (x ∷ xs) ys = ap (◌∷◌ x) (take-front xs ys)
