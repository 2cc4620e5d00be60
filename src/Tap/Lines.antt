-- ===== src/Tap/Lines.antt =====
-- The frames of one direction in gns3/gns3-service/src/console_capture.py against the stream of its bytes.
use mathlib.Core.Path.{subst}
use onlinetlabs.Base.{
  if-true, if-false, false-ne-true, ℕ, zero, suc, ◌+◌, ◌≤◌, ◌<◌, ◌≡◌, refl, sym, ap, ◌∙◌, Bool,
  true, false, List, [], ◌∷◌, ◌++◌, arith, ltb, leb, if◌then◌else◌, length, take, drop, map,
  Bool-cases, inl, inr, All, length-append, length-drop, append_assoc, append-nil,
}
use onlinetlabs.Regime.{Time}
use onlinetlabs.Capture.{Bytes, Direction, from_machine}
use onlinetlabs.Tap.{
  TapLimits, Tap, last_break, over_row_budget, submit_frame, emit_buffer, ingest_loop, ingest,
  stamp_buffer, put_buffer,
}
use onlinetlabs.Tap.Pieces.{
  IsPartial, take-drop, last_break-le, last_break-none, outs, outs-append, length-take_within,
  concat, not_both, stamp_buffer-block, take-front,
}

module _ {R : Type 0} (l : TapLimits) (redact : Bytes → Bytes × Bool) where
  emit_buffer-machine :
      (t : Tap R) (size : ℕ) (truncated : Bool) (now : Time)
      → let t' = emit_buffer l redact t from_machine size truncated now in
        (t'.output.block ≡ drop size t.output.block)
        × (t'.over_budget ≡ false
            → outs t'.sent ≡ outs t.sent ++ (redact (take size t.output.block)).0 ∷ [])
  unfolding emit_buffer submit_frame over_row_budget
  emit_buffer-machine t size truncated now = elim (Bool-cases (leb l.rows t.rows)) [
    | inl e ↦ rw e (refl, λ h. cc)
    | inr e ↦ rw e (refl, λ h. outs-append t.sent _)
  ]

  -- The pieces of the stream that became frames, and what is left of it.
  abbrev pub IsParted : Tap R → Tap R → Type 0
  IsParted t t' =
      (pieces : List Bytes) × (concat pieces ++ t'.output.block ≡ t.output.block)
      × (outs t'.sent ≡ outs t.sent ++ map (λ p. (redact p).0) pieces)
      × All (λ p. (0 < length p) × (length p ≤ l.chunk)) pieces

  IsParted-refl : (t : Tap R) → IsParted t t
  IsParted-refl t = ([], refl, sym (append-nil (outs t.sent)), tt)

  IsParted-cons :
      (t t' t'' : Tap R) (size : ℕ)
      → 0 < size
      → size ≤ l.chunk
      → size ≤ length t.output.block
      → t'.output.block ≡ drop size t.output.block
      → outs t'.sent ≡ outs t.sent ++ (redact (take size t.output.block)).0 ∷ []
      → IsParted t' t''
      → IsParted t t''
  IsParted-cons t t' t'' size pos small fits left more (pieces, p, q, s) =
      let cut = length-take_within size t.output.block fits in
      (
        take size t.output.block ∷ pieces,
        append_assoc (take size t.output.block) (concat pieces) t''.output.block
            ∙ ap (λ r. take size t.output.block ++ r) (p ∙ left)
            ∙ take-drop size t.output.block,
        q
            ∙ ap (λ r. r ++ map (λ p. (redact p).0) pieces) more
            ∙ append_assoc (outs t.sent) ((redact (take size t.output.block)).0 ∷ [])
                (map (λ p. (redact p).0) pieces),
        ((omega (arith, cut, pos), omega (arith, cut, small)), s),
      )

  ingest_loop-over :
      (fuel : ℕ) (t : Tap R) (dir : Direction) (searched : ℕ) (now : Time)
      → t.over_budget ≡ true
      → ingest_loop l redact fuel t dir searched now ≡ t
  unfolding ingest_loop
  ingest_loop-over zero t dir searched now h = refl
  ingest_loop-over (suc fuel) t dir searched now h = rw h refl

  abbrev pub IsIngested : Tap R → Tap R → Type 0
  IsIngested t t' = IsParted t t' × IsPartial t'.output.block × (length t'.output.block < l.chunk)

  -- One frame, and then what the rest of the loop does.
  after_frame :
      (fuel : ℕ) (t t' : Tap R) (size : ℕ) (now : Time)
      → 0 < size
      → size ≤ l.chunk
      → size ≤ length t.output.block
      → (t'.output.block ≡ drop size t.output.block)
        × (t'.over_budget ≡ false
            → outs t'.sent ≡ outs t.sent ++ (redact (take size t.output.block)).0 ∷ [])
      → (let t'' = ingest_loop l redact fuel t' from_machine 0 now in
          t''.over_budget ≡ false → IsIngested t' t'')
      → let t'' = ingest_loop l redact fuel t' from_machine 0 now in
        t''.over_budget ≡ false → IsIngested t t''
  after_frame fuel t t' size now pos small fits (left, more) rest h =
      elim (Bool-cases t'.over_budget) [
        | inl over ↦
            cc (h, ap (λ x. x.over_budget) (ingest_loop-over fuel t' from_machine 0 now over), over)
        | inr under ↦
            let t'' = ingest_loop l redact fuel t' from_machine 0 now in
            let (parted, partial, short) = rest h in
            (IsParted-cons t t' t'' size pos small fits left (more under) parted, partial, short)
      ]

  -- A loop that ends for want of budget stops there.
  ingest_loop-IsIngested :
      (fuel : ℕ) (t : Tap R) (searched : ℕ) (now : Time)
      → 0 < l.chunk
      → length t.output.block < fuel
      → IsPartial (take searched t.output.block)
      → let t' = ingest_loop l redact fuel t from_machine searched now in
        t'.over_budget ≡ false → IsIngested t t'
  unfolding ingest_loop
  ingest_loop-IsIngested zero t searched now size enough p = absurd (omega (arith, enough))
  ingest_loop-IsIngested (suc fuel) t searched now size enough p = elim (Bool-cases t.over_budget) [
    | inl over ↦
        subst (λ r. r.over_budget ≡ false → IsIngested t r) (sym (if-true t.over_budget t _ over))
          (λ h. absurd (not_both t.over_budget over h))
    | inr under ↦
        let held = t.output.block in
        let limit = if leb (length held) l.chunk then length held else l.chunk in
        let reach = last_break limit searched held in
        let within = last_break-le limit searched held in
        let limit_le : (limit ≤ l.chunk) × (limit ≤ length held) = ground arith in
        let t1 = emit_buffer l redact t from_machine reach false now in
        let t2 = emit_buffer l redact t from_machine l.chunk true now in
        let line = ingest_loop l redact fuel t1 from_machine 0 now in
        let part = ingest_loop l redact fuel t2 from_machine 0 now in
        let full = leb l.chunk (length held) in
        let start =
          if-false t.over_budget t (if ltb 0 reach then line else (if full then part else t))
            under in
        elim (Bool-cases (ltb 0 reach)) [
          | inl found ↦
              let first = emit_buffer-machine t reach false now in
              let pos : 0 < reach = ground (arith, found) in
              subst (λ r. r.over_budget ≡ false → IsIngested t r)
                (sym (start ∙ if-true (ltb 0 reach) line (if full then part else t) found))
                (after_frame fuel t t1 reach now pos (omega (arith, within.0, limit_le.0))
                  (omega (arith, within.1)) first
                  (ingest_loop-IsIngested fuel t1 0 now size
                    (omega
                      (arith, ap length first.0, length-drop reach held, pos, within.1, enough))
                    refl))
          | inr none_found ↦ elim (Bool-cases (leb l.chunk (length held))) [
            | inl long ↦
                let first = emit_buffer-machine t l.chunk true now in
                let fits : l.chunk ≤ length held = ground (arith, long) in
                subst (λ r. r.over_budget ≡ false → IsIngested t r)
                  (sym (
                    start
                    ∙ if-false (ltb 0 reach) line (if full then part else t) none_found
                    ∙ if-true full part t long))
                  (after_frame fuel t t2 l.chunk now size (omega arith) fits first (
                    ingest_loop-IsIngested fuel t2 0 now size
                      (omega
                        (arith, ap length first.0, length-drop l.chunk held, size, fits, enough))
                      refl))
            | inr short ↦
                subst (λ r. r.over_budget ≡ false → IsIngested t r)
                  (sym (
                    start
                    ∙ if-false (ltb 0 reach) line (if full then part else t) none_found
                    ∙ if-false full part t short))
                  (λ h. (
                    IsParted-refl t,
                    last_break-none limit searched held (ground (arith, none_found)) p
                        (ground (arith, short)),
                    ground (arith, short),
                  ))
          ]
        ]
  ]

  abbrev IsPartedWith : Tap R → Bytes → Tap R → Type 0
  IsPartedWith t block t' =
      (pieces : List Bytes) × (concat pieces ++ t'.output.block ≡ t.output.block ++ block)
      × (outs t'.sent ≡ outs t.sent ++ map (λ p. (redact p).0) pieces)
      × All (λ p. (0 < length p) × (length p ≤ l.chunk)) pieces
      × IsPartial t'.output.block
      × (length t'.output.block < l.chunk)

  ingest-parts :
      (t : Tap R) (block : Bytes) (now : Time)
      → 0 < l.chunk
      → IsPartial t.output.block
      → length t.output.block < l.chunk
      → let t' = ingest l redact t from_machine block now in
        t'.over_budget ≡ false → IsPartedWith t block t'
  unfolding ingest
  ingest-parts t [] now size p short =
      λ h. ([], sym (append-nil t.output.block), sym (append-nil (outs t.sent)), tt, p, short)
  ingest-parts t (d ∷ block) now size p short =
      let more = d ∷ block in
      let t' : Tap R = record t { bytes = t.bytes + length more } in
      let t'' : Tap R = put_buffer t' from_machine (stamp_buffer t.output more now) in
      let spent : Tap R = record t' { over_budget = true } in
      let fuel = suc (length t.output.block + length more) in
      let loop = ingest_loop l redact fuel t'' from_machine (length t.output.block) now in
      let over = ltb l.connection_bytes (t.bytes + length more) in
      let goal : Tap R → Type 0 = λ r. r.over_budget ≡ false → IsPartedWith t more r in
      elim (Bool-cases t.over_budget) [
        | inl out ↦
            subst goal (sym (if-true t.over_budget t (if over then spent else loop) out))
              (λ h. absurd (not_both t.over_budget out h))
        | inr under ↦ elim (Bool-cases over) [
          | inl much ↦
              subst goal
                (sym (
                  if-false t.over_budget t (if over then spent else loop) under
                  ∙ if-true over spent loop much))
                (λ h. absurd (false-ne-true (sym h)))
          | inr left ↦
              let held : t''.output.block ≡ t.output.block ++ more =
                stamp_buffer-block t.output more now in
              subst goal
                (sym (
                  if-false t.over_budget t (if over then spent else loop) under
                  ∙ if-false over spent loop left))
                (λ h.
                  let ((pieces, whole, sent, small), partial, low) =
                    ingest_loop-IsIngested fuel t'' (length t.output.block) now size
                      (omega (arith, ap length held, length-append t.output.block more))
                      (subst IsPartial
                        (sym
                          (ap (take (length t.output.block)) held ∙ take-front t.output.block more))
                        p)
                      h in
                  (pieces, whole ∙ held, sent, small, partial, low))
        ]
      ]

  -- The output of a node is parted into pieces of at most a chunk, none of them empty, and a rest
  -- without a line break that is shorter than a chunk: each piece becomes one frame, in their order,
  -- with what `redact` makes of it as its payload, and nothing of the stream is left out, repeated or
  -- moved. This holds of each call of `_ingest` that ends within the budgets, from a rest as such a
  -- call leaves it, and the fuel of the loop is enough.
  pub ingest_lem :
      (t : Tap R) (block : Bytes) (now : Time)
      → 0 < l.chunk
      → IsPartial t.output.block
      → length t.output.block < l.chunk
      → (ingest l redact t from_machine block now).over_budget ≡ false
      → let t' = ingest l redact t from_machine block now in
        (pieces : List Bytes) × (concat pieces ++ t'.output.block ≡ t.output.block ++ block)
        × (outs t'.sent ≡ outs t.sent ++ map (λ p. (redact p).0) pieces)
        × All (λ p. (0 < length p) × (length p ≤ l.chunk)) pieces
        × IsPartial t'.output.block
        × (length t'.output.block < l.chunk)
  ingest_lem t block now size p short h = ingest-parts t block now size p short h
