-- ===== src/Tap.antt =====
-- gns3/gns3-service/src/console_capture.py: `ConsoleTap`, the capture of one console socket. What it
-- submits is the list `sent`. A byte is a number. The regular expressions and the incremental parser of
-- commands are arguments: `redact` stars out the arguments of credentials, `asks_password` finds a
-- password prompt at the end of the output, and `feed` and `flush` give the commands that are
-- finished. One reading of the clock serves a whole call.
pub mod Mask
pub mod Pieces
pub mod Lines
pub mod Budget
pub mod Closing
use onlinetlabs.Base.{
  ℕ, zero, suc, ◌+◌, ◌-◌, ◌*◌, Bool, true, false, not, ◌&&◌, ◌||◌, Option, none, some, List, [],
  ◌∷◌, ◌++◌, ltb, leb, ◌==◌, if◌then◌else◌, or_else, length, take, drop,
}
use onlinetlabs.Regime.{Time}
use onlinetlabs.Capture.{Bytes, Direction, from_learner, from_machine, Item, frame, command}

-- `CR` and `LF`
abbrev pub is_break : ℕ → Bool
is_break b = b == 13 || b == 10

abbrev pub star : ℕ
star = 42

-- `MAX_CHUNK_BYTES`, `MAX_CONNECTION_BYTES`, `MAX_CONNECTION_ROWS`, and the longest of prompts.
pub record TapLimits : Type 0 where
  pub chunk : ℕ
  pub connection_bytes : ℕ
  pub rows : ℕ
  pub prompt : ℕ

-- `_TAIL_BYTES`, `_MAX_PENDING_ENTERS`, `_LEARNER_ENTER_WINDOW` in microseconds
abbrev pub tail_bytes : ℕ
tail_bytes = 64

abbrev pub max_pending_enters : ℕ
max_pending_enters = 256

abbrev pub learner_enter_window : ℕ
learner_enter_window = 2 * 1000000

-- `_DirectionBuffer`
pub record Buffer : Type 0 where
  pub block : Bytes
  pub ts : Option Time

-- `ReconstructedCommand`
pub record Finished : Type 0 where
  pub seq : ℕ
  pub prompt : Bytes
  pub command : Bytes
  pub response : Bytes
  pub ts : Time

pub record Tap (R : Type 0) : Type 0 where
  pub session_id : ℕ
  pub node_id : ℕ
  pub connection_id : ℕ
  pub seq : ℕ
  pub bytes : ℕ
  pub over_budget : Bool
  pub rows : ℕ
  pub tail : Bytes
  pub password_mode : Bool
  pub pending_enters : List Time
  pub last_enter_match : Time
  pub typed : Buffer
  pub output : Buffer
  pub parser : R
  pub sent : List Item

-- The last elements of a list, as many as are wanted.
abbrev pub keep_last {ℓ} : {A : Type ℓ} → ℕ → List A → List A
keep_last n xs = drop (length xs - n) xs

-- `_mask_password` while the password mode is on: the masked bytes, whether any was masked, and
-- whether the mode is still on. `seen` says that the line has bytes already.
unfoldable pub mask_password : Bool → Bytes → Bytes × Bool × Bool
mask_password seen [] = ([], seen, true)
mask_password seen (b ∷ bs) =
    let (line, redacted, on) = mask_password false bs in
    let (stars, _, still) = mask_password true bs in
    if is_break b
    then (if seen then (b ∷ bs, true, false) else (b ∷ line, redacted, on))
    else (star ∷ stars, true, still)

-- The greater of the two `rfind`s, plus one: how far the last line break reaches, among the bytes from
-- `searched` up to `limit`, and 0 where there is none.
unfoldable pub last_break : ℕ → ℕ → Bytes → ℕ
last_break limit searched [] = 0
last_break zero searched (b ∷ bs) = 0
last_break (suc limit) zero (b ∷ bs) =
    let rest = last_break limit zero bs in
    if ltb 0 rest then suc rest else if is_break b then 1 else 0
last_break (suc limit) (suc searched) (b ∷ bs) =
    let rest = last_break limit searched bs in if ltb 0 rest then suc rest else 0

-- The keypresses of Enter, a CR before an LF counting as none of its own.
abbrev pub starts_with_lf : Bytes → Bool
starts_with_lf [] = false
starts_with_lf (b ∷ bs) = b == 10

unfoldable pub enters : Bytes → ℕ
enters [] = 0
enters (b ∷ bs) = (if is_break b && not (b == 13 && starts_with_lf bs) then 1 else 0) + enters bs

-- The loop of `_is_learner_command` over the enters that are too old.
unfoldable pub drop_old : Time → Time → List Time → List Time
drop_old ts last [] = []
drop_old ts last (e ∷ es) =
    let rest = drop_old ts last es in
    if ltb (e + learner_enter_window) ts && ltb (last + learner_enter_window) ts
    then rest
    else e ∷ es

-- The presses of Enter of one call go to the queue, which keeps the last ones.
unfoldable pub press : ℕ → Time → List Time → List Time
press zero now es = es
press (suc n) now es = press n now (keep_last max_pending_enters (es ++ now ∷ []))

-- New bytes at the end of a buffer, which is stamped with the time of its first one.
abbrev pub stamp_buffer : Buffer → Bytes → Time → Buffer
stamp_buffer b block now = elim b.block [
  | [] ↦ record { block = block; ts = some now }
  | _ ∷ _ ↦ record b { block = b.block ++ block }
]

module _ {R : Type 0} where
  abbrev pub buffer_of : Tap R → Direction → Buffer
  buffer_of t from_learner = t.typed
  buffer_of t from_machine = t.output

  abbrev pub put_buffer : Tap R → Direction → Buffer → Tap R
  put_buffer t from_learner b = record t { typed = b }
  put_buffer t from_machine b = record t { output = b }

  unfoldable pub match_enter : Tap R → Time → List Time → Tap R × Bool
  match_enter t ts [] = (record t { pending_enters = [] }, false)
  match_enter t ts (e ∷ es) =
      if leb e ts
      then (record t { pending_enters = es; last_enter_match = ts }, true)
      else (record t { pending_enters = e ∷ es }, false)

  -- `_is_learner_command`
  unfoldable pub is_learner_command : Tap R → Time → Tap R × Bool
  unfolding match_enter
  is_learner_command t ts = match_enter t ts (drop_old ts t.last_enter_match t.pending_enters)

module _ {R : Type 0} (l : TapLimits) (redact : Bytes → Bytes × Bool) where
  -- `_over_row_budget`: whether the rows are used up; else one more is.
  unfoldable pub over_row_budget : Tap R → Tap R × Bool
  over_row_budget t =
      if leb l.rows t.rows
      then (record t { over_budget = true }, true)
      else (record t { rows = suc t.rows }, false)

  -- The end of `_emit_buffer`: a frame is submitted where a row is left.
  unfoldable pub submit_frame : Tap R → Direction → Bytes → Bool → Bool → Time → Tap R
  unfolding over_row_budget
  submit_frame t dir payload truncated redacted ts =
      let (text, found) = redact payload in
      let (t', over) = over_row_budget t in
      if over then t' else record t' {
        seq = suc t.seq;
        sent =
            t.sent
            ++ frame (record {
              session_id = t.session_id;
              node_id = t.node_id;
              connection_id = t.connection_id;
              seq = suc t.seq;
              direction = dir;
              payload = text;
              truncated = truncated;
              redacted = redacted || found;
              ts = ts;
            })
              ∷ [];
      }

  unfoldable pub mask_typed : Tap R → Direction → Bytes → Tap R × Bytes × Bool
  mask_typed t from_machine payload = (t, payload, false)
  mask_typed t from_learner payload =
      let (masked, redacted, on) = mask_password false payload in
      if t.password_mode
      then (record t { password_mode = on; tail = if on then t.tail else [] }, masked, redacted)
      else (t, payload, false)

  -- `_emit_buffer`
  unfoldable pub emit_buffer : Tap R → Direction → ℕ → Bool → Time → Tap R
  unfolding mask_typed submit_frame
  emit_buffer t dir size truncated now =
      let b = buffer_of t dir in
      let rest = drop size b.block in
      let t' =
        put_buffer t dir
          (record { block = rest; ts = elim rest [ [] ↦ none | _ ∷ _ ↦ some now ] }) in
      let (t'', payload, redacted) = mask_typed t' dir (take size b.block) in
      submit_frame t'' dir payload truncated redacted (or_else b.ts now)

  -- The loop of `_ingest`, with fuel: each round takes a byte at least.
  unfoldable pub ingest_loop : ℕ → Tap R → Direction → ℕ → Time → Tap R
  ingest_loop zero t dir searched now = t
  ingest_loop (suc fuel) t dir searched now =
      let block = (buffer_of t dir).block in
      let reach =
        last_break (if leb (length block) l.chunk then length block else l.chunk) searched block in
      let line = ingest_loop fuel (emit_buffer t dir reach false now) dir 0 now in
      let part = ingest_loop fuel (emit_buffer t dir l.chunk true now) dir 0 now in
      if t.over_budget
      then t
      else (if ltb 0 reach then line else (if leb l.chunk (length block) then part else t))

  -- `_ingest`
  unfoldable pub ingest : Tap R → Direction → Bytes → Time → Tap R
  unfolding ingest_loop
  ingest t dir [] now = t
  ingest t dir (d ∷ block) now =
      let t' = record t { bytes = t.bytes + length (d ∷ block) } in
      let b = buffer_of t dir in
      let t'' = put_buffer t' dir (stamp_buffer b (d ∷ block) now) in
      if t.over_budget
      then t
      else (if ltb l.connection_bytes t'.bytes
          then record t' { over_budget = true }
          else ingest_loop (suc (length b.block + length (d ∷ block))) t'' dir (length b.block) now)

  unfoldable pub submit_command : Tap R → Finished → Tap R × Bool → Tap R
  submit_command t c (t', true) = t'
  submit_command t c (t', false) = record t' {
    sent =
        t'.sent
        ++ command (record {
          session_id = t.session_id;
          node_id = t.node_id;
          connection_id = t.connection_id;
          seq = c.seq;
          prompt = take l.prompt c.prompt;
          command = (redact c.command).0;
          response = (redact c.response).0;
          ts = c.ts;
        })
          ∷ [];
  }

  -- One round of `_emit`.
  unfoldable pub emit_command : Tap R → Finished → Tap R
  unfolding submit_command over_row_budget
  emit_command t c =
      let (t', learner) = is_learner_command t c.ts in
      if learner
      then (if t'.over_budget then t' else submit_command t' c (over_row_budget t'))
      else t'

  -- `_emit`
  unfoldable pub emit : Tap R → List Finished → Tap R
  emit t [] = t
  emit t (c ∷ cs) = emit (emit_command t c) cs

  -- `from_client`
  unfoldable pub from_client : Tap R → Bytes → Time → Tap R
  unfolding press
  from_client t block now =
      let t' = ingest t from_learner block now in
      record t' { pending_enters = press (enters block) now t'.pending_enters }

  -- The loop of `close` over one buffer, with fuel.
  unfoldable pub close_buffer : ℕ → Tap R → Direction → Time → Tap R
  close_buffer zero t dir now = t
  close_buffer (suc fuel) t dir now =
      let block = (buffer_of t dir).block in
      let last = close_buffer fuel (emit_buffer t dir (length block) false now) dir now in
      let part = close_buffer fuel (emit_buffer t dir l.chunk true now) dir now in
      if t.over_budget || length block == 0
      then t
      else (if leb (length block) l.chunk then last else part)

module _ {R : Type 0} (l : TapLimits) (redact : Bytes → Bytes × Bool) (asks_password : Bytes → Bool)
    (feed : R → Bytes → Time → R × List Finished) (flush : R → R × List Finished) where
  -- `from_node`
  unfoldable pub from_node : Tap R → Bytes → Time → Tap R
  from_node t block now =
      let t1 = ingest l redact t from_machine block now in
      let (parser, commands) = feed t1.parser block now in
      let t2 = emit l redact (record t1 { parser = parser }) commands in
      let tail = keep_last tail_bytes (t2.tail ++ block) in
      record t2 { tail = tail; password_mode = t2.password_mode || asks_password tail }

  -- `close`
  unfoldable pub close : Tap R → Time → Tap R
  close t now =
      let t1 = close_buffer l redact (suc (length t.typed.block)) t from_learner now in
      let t2 = close_buffer l redact (suc (length t1.output.block)) t1 from_machine now in
      let (parser, commands) = flush t2.parser in
      emit l redact (record t2 { parser = parser }) commands
