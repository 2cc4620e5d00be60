-- ===== src/Capture/Runs.antt =====
-- Submits and drains of gns3/gns3-service/src/console_capture.py in any order.
use onlinetlabs.Base.{ℕ, ◌-◌, if-keeps, List, [], ◌∷◌, length}
use onlinetlabs.Capture.{
  Item, CaptureLimits, Capture, Fate, Round, drain_rounds, submit_all, disturbed, Finish, returned,
  interrupted, write, submit, fill, settled, continue, batch_from, batch_of, drain_once,
}

-- What the rest of the service does with the capture.
pub data Event : Type 0 where
  submits : Item → Event
  drains : List Round → Event

unfoldable pub run : CaptureLimits → Capture → List Event → Capture
run l c [] = c
run l c (submits i ∷ es) = run l (submit l c i) es
run l c (drains rounds ∷ es) = run l (drain_once l rounds c).0 es

-- What every operation of the capture keeps, all of them keep together.
module _ (l : CaptureLimits) (P : Capture → Type 0)
    (submitted : (c : Capture) (i : Item) → P c → P (submit l c i))
    (filled : (room : ℕ) (c : Capture) → P c → P (fill room c))
    (wrote : (c : Capture) (fate : Fate) → P c → P (settled (write c fate)).0) where
  submit_all-keeps : (c : Capture) (is : List Item) → P c → P (submit_all l c is)
  unfolding submit_all
  submit_all-keeps c [] v = v
  submit_all-keeps c (i ∷ is) v = submit_all-keeps (submit l c i) is (submitted c i v)

  continue-keeps :
      (next : Capture → Capture × Finish)
      → ((c : Capture) → P c → P (next c).0)
      → (r : Capture × Finish) → P r.0
      → P (continue next r).0
  unfolding continue
  continue-keeps next h (c, interrupted) v = v
  continue-keeps next h (c, returned) v = h c v

  batch_from-keeps :
      (next : Capture → Capture × Finish) (meanwhile : List Item) (fate : Fate) (c : Capture)
      (batch : List Item)
      → ((c : Capture) → P c → P (next c).0)
      → P c
      → P (batch_from next (λ d. submit_all l d meanwhile) fate c batch).0
  unfolding batch_from
  batch_from-keeps next meanwhile fate c [] h v = v
  batch_from-keeps next meanwhile fate c (i ∷ batch) h v =
      let r = settled (write c fate) in
      continue-keeps next h (disturbed (λ d. submit_all l d meanwhile) r)
        (submit_all-keeps r.0 meanwhile (wrote c fate v))

  drain_rounds-keeps : (rounds : List Round) (c : Capture) → P c → P (drain_rounds l rounds c).0
  unfolding drain_rounds batch_of
  drain_rounds-keeps [] c v = v
  drain_rounds-keeps (round ∷ rounds) c v =
      let room = l.batch_size - length c.in_flight in
      batch_from-keeps (drain_rounds l rounds) round.meanwhile round.fate (fill room c)
        (fill room c).in_flight (drain_rounds-keeps rounds) (filled room c v)

  drain_once-keeps : (rounds : List Round) (c : Capture) → P c → P (drain_once l rounds c).0
  unfolding drain_once
  drain_once-keeps rounds c v =
      if-keeps (λ r. P r.0) l.has_db (drain_rounds l rounds c) (c, returned)
        (drain_rounds-keeps rounds c v) v

  pub run-keeps : (c : Capture) (es : List Event) → P c → P (run l c es)
  unfolding run
  run-keeps c [] v = v
  run-keeps c (submits i ∷ es) v = run-keeps (submit l c i) es (submitted c i v)
  run-keeps c (drains rounds ∷ es) v =
      run-keeps (drain_once l rounds c).0 es (drain_once-keeps rounds c v)
