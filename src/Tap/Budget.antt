-- ===== src/Tap/Budget.antt =====
-- The rows of one console socket in gns3/gns3-service/src/console_capture.py: their number, and the
-- numbers that the frames carry.
use onlinetlabs.Base.{
  ℕ, zero, suc, ◌+◌, ◌≤◌, ◌≡◌, refl, sym, ap, ◌∙◌, Bool, true, false, ◌||◌, List, [], ◌∷◌, ◌++◌,
  arith, ltb, leb, if-keeps, length, Bool-cases, inl, inr, length-append, append-nil,
}
use onlinetlabs.Regime.{Time}
use onlinetlabs.Capture.{Bytes, Direction, from_learner, from_machine, Item, frame, command}
use onlinetlabs.Tap.{
  TapLimits, Tap, Finished, Buffer, over_row_budget, submit_frame, emit_buffer, mask_typed,
  ingest_loop, ingest, stamp_buffer, buffer_of, put_buffer, is_learner_command, match_enter,
  drop_old, submit_command, emit_command, emit, from_client, close_buffer, from_node, close,
}

-- The numbers of the frames, in the order in which they were submitted.
abbrev pub frame_seqs : List Item → List ℕ
frame_seqs [] = []
frame_seqs (frame f ∷ is) = f.seq ∷ frame_seqs is
frame_seqs (command c ∷ is) = frame_seqs is

frame_seqs-append : (xs ys : List Item) → frame_seqs (xs ++ ys) ≡ frame_seqs xs ++ frame_seqs ys
frame_seqs-append [] ys = refl
frame_seqs-append (frame f ∷ xs) ys = ap (◌∷◌ f.seq) (frame_seqs-append xs ys)
frame_seqs-append (command c ∷ xs) ys = frame_seqs-append xs ys

-- 1, 2, …, n
abbrev pub up_to : ℕ → List ℕ
up_to zero = []
up_to (suc n) = up_to n ++ suc n ∷ []

-- One row for each item, within the allowance, and frames numbered from 1 without a gap.
pub record IsNumbered {R : Type 0} (l : TapLimits) (t : Tap R) : Type 0 where
  pub one_row_each : length t.sent ≡ t.rows
  pub rows_within : t.rows ≤ l.rows
  pub seqs : frame_seqs t.sent ≡ up_to t.seq

module _ {R : Type 0} (l : TapLimits) (redact : Bytes → Bytes × Bool) where
  submit_frame-IsNumbered :
      (t : Tap R) (dir : Direction) (payload : Bytes) (truncated redacted : Bool) (ts : Time)
      → IsNumbered l t
      → IsNumbered l (submit_frame l redact t dir payload truncated redacted ts)
  unfolding submit_frame over_row_budget
  submit_frame-IsNumbered t dir payload truncated redacted ts v =
      elim (Bool-cases (leb l.rows t.rows)) [
        | inl e ↦
            rw e
              (record { one_row_each = v.one_row_each; rows_within = v.rows_within; seqs = v.seqs })
        | inr e ↦ rw e (record {
          one_row_each = length-append t.sent _ ∙ omega (arith, v.one_row_each);
          rows_within = ground (arith, e);
          seqs = frame_seqs-append t.sent _ ∙ ap (λ r. r ++ suc t.seq ∷ []) v.seqs;
        })
      ]

  mask_typed-IsNumbered :
      (t : Tap R) (dir : Direction) (payload : Bytes)
      → IsNumbered l t
      → IsNumbered l (mask_typed l redact t dir payload).0
  unfolding mask_typed
  mask_typed-IsNumbered t from_machine payload v = v
  mask_typed-IsNumbered t from_learner payload v = elim (Bool-cases t.password_mode) [
    | inl e ↦
        rw e (record { one_row_each = v.one_row_each; rows_within = v.rows_within; seqs = v.seqs })
    | inr e ↦
        rw e (record { one_row_each = v.one_row_each; rows_within = v.rows_within; seqs = v.seqs })
  ]

  put_buffer-IsNumbered :
      (t : Tap R) (dir : Direction) (b : Buffer)
      → IsNumbered l t
      → IsNumbered l (put_buffer t dir b)
  put_buffer-IsNumbered t from_machine b v = record {
    one_row_each = v.one_row_each;
    rows_within = v.rows_within;
    seqs = v.seqs;
  }
  put_buffer-IsNumbered t from_learner b v = record {
    one_row_each = v.one_row_each;
    rows_within = v.rows_within;
    seqs = v.seqs;
  }

  emit_buffer-IsNumbered :
      (t : Tap R) (dir : Direction) (size : ℕ) (truncated : Bool) (now : Time)
      → IsNumbered l t
      → IsNumbered l (emit_buffer l redact t dir size truncated now)
  unfolding emit_buffer
  emit_buffer-IsNumbered t dir size truncated now v =
      submit_frame-IsNumbered _ dir _ truncated _ _
        (mask_typed-IsNumbered _ dir _ (put_buffer-IsNumbered t dir _ v))

  ingest_loop-IsNumbered :
      (fuel : ℕ) (t : Tap R) (dir : Direction) (searched : ℕ) (now : Time)
      → IsNumbered l t
      → IsNumbered l (ingest_loop l redact fuel t dir searched now)
  unfolding ingest_loop
  ingest_loop-IsNumbered zero t dir searched now v = v
  ingest_loop-IsNumbered (suc fuel) t dir searched now v =
      if-keeps (IsNumbered l) t.over_budget t _ v (
        if-keeps (IsNumbered l) (ltb 0 _) _ _
          (ingest_loop-IsNumbered fuel _ dir 0 now (emit_buffer-IsNumbered t dir _ false now v))
          (if-keeps (IsNumbered l) (leb l.chunk _) _ t
            (ingest_loop-IsNumbered fuel _ dir 0 now
              (emit_buffer-IsNumbered t dir l.chunk true now v))
            v))

  counted-IsNumbered : (t : Tap R) (n : ℕ) → IsNumbered l t → IsNumbered l (record t { bytes = n })
  counted-IsNumbered t n v = record {
    one_row_each = v.one_row_each;
    rows_within = v.rows_within;
    seqs = v.seqs;
  }

  ingest-IsNumbered :
      (t : Tap R) (dir : Direction) (block : Bytes) (now : Time)
      → IsNumbered l t
      → IsNumbered l (ingest l redact t dir block now)
  unfolding ingest
  ingest-IsNumbered t dir [] now v = v
  ingest-IsNumbered t dir (d ∷ block) now v = if-keeps (IsNumbered l) t.over_budget t _ v (
      if-keeps (IsNumbered l) (ltb l.connection_bytes _) _ _
        (record { one_row_each = v.one_row_each; rows_within = v.rows_within; seqs = v.seqs })
        (ingest_loop-IsNumbered (suc (length (buffer_of t dir).block + length (d ∷ block))) _ dir
          (length (buffer_of t dir).block) now
          (put_buffer-IsNumbered _ dir (stamp_buffer (buffer_of t dir) (d ∷ block) now)
            (counted-IsNumbered t (t.bytes + length (d ∷ block)) v))))

  close_buffer-IsNumbered :
      (fuel : ℕ) (t : Tap R) (dir : Direction) (now : Time)
      → IsNumbered l t
      → IsNumbered l (close_buffer l redact fuel t dir now)
  unfolding close_buffer
  close_buffer-IsNumbered zero t dir now v = v
  close_buffer-IsNumbered (suc fuel) t dir now v =
      if-keeps (IsNumbered l) (t.over_budget || _) t _ v (
        if-keeps (IsNumbered l) (leb _ l.chunk) _ _
          (close_buffer-IsNumbered fuel _ dir now (emit_buffer-IsNumbered t dir _ false now v))
          (close_buffer-IsNumbered fuel _ dir now
            (emit_buffer-IsNumbered t dir l.chunk true now v)))

  match_enter-IsNumbered :
      (t : Tap R) (ts : Time) (es : List Time)
      → IsNumbered l t
      → IsNumbered l (match_enter t ts es).0
  unfolding match_enter
  match_enter-IsNumbered t ts [] v = record {
    one_row_each = v.one_row_each;
    rows_within = v.rows_within;
    seqs = v.seqs;
  }
  match_enter-IsNumbered t ts (e ∷ es) v =
      if-keeps (λ (r : Tap R × Bool). IsNumbered l r.0) (leb e ts) _ _
        (record { one_row_each = v.one_row_each; rows_within = v.rows_within; seqs = v.seqs })
        (record { one_row_each = v.one_row_each; rows_within = v.rows_within; seqs = v.seqs })

  submit_command-IsNumbered :
      (t : Tap R) (c : Finished)
      → IsNumbered l t
      → IsNumbered l (submit_command l redact t c (over_row_budget l redact t))
  unfolding submit_command over_row_budget
  submit_command-IsNumbered t c v = elim (Bool-cases (leb l.rows t.rows)) [
    | inl e ↦
        rw e (record { one_row_each = v.one_row_each; rows_within = v.rows_within; seqs = v.seqs })
    | inr e ↦ rw e (record {
      one_row_each = length-append t.sent _ ∙ omega (arith, v.one_row_each);
      rows_within = ground (arith, e);
      seqs = frame_seqs-append t.sent _ ∙ append-nil (frame_seqs t.sent) ∙ v.seqs;
    })
  ]

  emit_command-IsNumbered :
      (t : Tap R) (c : Finished) → IsNumbered l t → IsNumbered l (emit_command l redact t c)
  unfolding emit_command is_learner_command
  emit_command-IsNumbered t c v =
      let (t', learner) = match_enter t c.ts (drop_old c.ts t.last_enter_match t.pending_enters) in
      let w = match_enter-IsNumbered t c.ts (drop_old c.ts t.last_enter_match t.pending_enters) v in
      if-keeps (IsNumbered l) learner _ t'
        (if-keeps (IsNumbered l) t'.over_budget t' _ w (submit_command-IsNumbered t' c w)) w

  emit-IsNumbered :
      (t : Tap R) (cs : List Finished) → IsNumbered l t → IsNumbered l (emit l redact t cs)
  unfolding emit
  emit-IsNumbered t [] v = v
  emit-IsNumbered t (c ∷ cs) v =
      emit-IsNumbered (emit_command l redact t c) cs (emit_command-IsNumbered t c v)

-- What happens on one socket.
pub data Traffic : Type 0 where
  typed_in : Bytes → Time → Traffic
  printed : Bytes → Time → Traffic
  closed : Time → Traffic

module _ {R : Type 0} (l : TapLimits) (redact : Bytes → Bytes × Bool) (asks_password : Bytes → Bool)
    (feed : R → Bytes → Time → R × List Finished) (flush : R → R × List Finished) where
  unfoldable pub handle : Tap R → Traffic → Tap R
  handle t (typed_in bs now) = from_client l redact t bs now
  handle t (printed bs now) = from_node l redact asks_password feed flush t bs now
  handle t (closed now) = close l redact asks_password feed flush t now

  unfoldable pub handle_all : Tap R → List Traffic → Tap R
  unfolding handle
  handle_all t [] = t
  handle_all t (x ∷ xs) = handle_all (handle t x) xs

  same-IsNumbered :
      (t t' : Tap R)
      → t'.sent ≡ t.sent
      → t'.rows ≡ t.rows
      → t'.seq ≡ t.seq
      → IsNumbered l t
      → IsNumbered l t'
  same-IsNumbered t t' sent rows seq v = record {
    one_row_each = ap length sent ∙ v.one_row_each ∙ sym rows;
    rows_within = omega (arith, rows, v.rows_within);
    seqs = ap frame_seqs sent ∙ v.seqs ∙ ap up_to (sym seq);
  }

  handle-IsNumbered : (t : Tap R) (x : Traffic) → IsNumbered l t → IsNumbered l (handle t x)
  unfolding handle from_client from_node close
  handle-IsNumbered t (typed_in bs now) v =
      same-IsNumbered (ingest l redact t from_learner bs now) _ refl refl refl
        (ingest-IsNumbered l redact t from_learner bs now v)
  handle-IsNumbered t (printed bs now) v =
      let t1 = ingest l redact t from_machine bs now in
      let (parser, commands) = feed t1.parser bs now in
      let t2 = record t1 { parser = parser } in
      same-IsNumbered (emit l redact t2 commands) _ refl refl refl (
        emit-IsNumbered l redact t2 commands (
          same-IsNumbered t1 t2 refl refl refl
            (ingest-IsNumbered l redact t from_machine bs now v)))
  handle-IsNumbered t (closed now) v =
      let t1 = close_buffer l redact (suc (length t.typed.block)) t from_learner now in
      let t2 = close_buffer l redact (suc (length t1.output.block)) t1 from_machine now in
      let (parser, commands) = flush t2.parser in
      let w =
        close_buffer-IsNumbered l redact (suc (length t1.output.block)) t1 from_machine now
          (close_buffer-IsNumbered l redact (suc (length t.typed.block)) t from_learner now v) in
      emit-IsNumbered l redact _ commands
        (same-IsNumbered t2 (record t2 { parser = parser }) refl refl refl w)

  -- Whatever is typed and printed on a socket, until it is closed or later, the items that it submits,
  -- frames and commands together, are exactly as many as its rows, these stay within the allowance,
  -- and its frames are numbered 1, 2, 3 and so on in the order in which they are submitted, whatever
  -- `redact`, the password prompts and the parser of commands make of the bytes; a new socket is
  -- such.
  handle_all-IsNumbered :
      (t : Tap R) (xs : List Traffic) → IsNumbered l t → IsNumbered l (handle_all t xs)
  unfolding handle_all
  handle_all-IsNumbered t [] v = v
  handle_all-IsNumbered t (x ∷ xs) v =
      handle_all-IsNumbered (handle t x) xs (handle-IsNumbered t x v)
