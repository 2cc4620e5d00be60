-- ===== src/Capture/Accounts.antt =====
-- Every item that is submitted to the capture of gns3/gns3-service/src/console_capture.py is accounted
-- for, and the bytes of its backlog are counted.
use onlinetlabs.Base.{
  ℕ, zero, suc, ◌+◌, ◌-◌, ◌≤◌, ◌≡◌, refl, sym, ap, Bool, not, List, [], ◌∷◌, ◌++◌, arith, length,
  filter,
}
use onlinetlabs.Capture.Runs.{Event, run, run-keeps}
use onlinetlabs.Capture.{
  Item, is_frame, frame_bytes, CaptureLimits, Capture, Commit, committed, failed, cancelled, Fate,
  write_commands, write_chunks, write, submit, unload, fill, settled,
}

-- How many items pass a test.
abbrev pub tally_of : (Item → Bool) → List Item → ℕ
tally_of p is = length (filter p is)

pub tally-append :
    (p : Item → Bool) (xs ys : List Item) → tally_of p (xs ++ ys) ≡ tally_of p xs + tally_of p ys
tally-append p [] ys = omega arith
tally-append p (x ∷ xs) ys = ground (arith, tally-append p xs ys)

tally-append_two :
    (p : Item → Bool) (xs ys zs : List Item)
    → tally_of p (xs ++ ys ++ zs) ≡ tally_of p xs + tally_of p ys + tally_of p zs
tally-append_two p xs ys zs = omega (arith, tally-append p (xs ++ ys) zs, tally-append p xs ys)

tally-parts :
    (p q : Item → Bool) (xs : List Item)
    → tally_of p (filter q xs) + tally_of p (filter (λ i. not (q i)) xs) ≡ tally_of p xs
tally-parts p q [] = refl
tally-parts p q (x ∷ xs) = ground (arith, tally-parts p q xs)

-- The items that wait, that are being written, that are written, and that the log gives as dropped.
abbrev pub tally : (Item → Bool) → Capture → ℕ
tally p c = tally_of p c.queue + tally_of p c.in_flight + tally_of p c.written + tally_of p c.lost

-- The drops of items that stayed in flight are counted apart, and are drops.
abbrev pub IsAccounted : (Item → Bool) → Capture → Type 0
IsAccounted p c =
    (tally p c ≡ tally_of p c.offered + tally_of p c.kept) × (tally_of p c.kept ≤ tally_of p c.lost)

-- A write puts the rest of what is in flight somewhere, once the round is settled.
write_commands-tally :
    (p : Item → Bool) (c : Capture) (reported rows : List Item) (fate : Commit) (n : ℕ)
    → tally_of p c.in_flight ≡ n + tally_of p rows
    → n ≡ tally_of p reported
    → let d = (settled (write_commands c reported rows fate)).0 in
      tally p d + tally_of p reported + tally_of p c.kept ≡ tally p c + tally_of p d.kept
unfolding write_commands settled
write_commands-tally p c reported [] fate n h e = omega (arith, h, e)
write_commands-tally p c reported (i ∷ rows) committed n h e =
    omega (arith, h, e, tally-append p c.written (i ∷ rows))
write_commands-tally p c reported (i ∷ rows) failed n h e =
    omega (arith, h, e, tally-append p (i ∷ rows) c.lost)
write_commands-tally p c reported (i ∷ rows) cancelled n h e =
    omega (arith, h, e, tally-append p reported c.kept)

write_chunks-tally :
    (p : Item → Bool) (c : Capture) (chunks rows : List Item) (fate : Fate) (commit : Commit)
    → tally_of p c.in_flight ≡ tally_of p chunks + tally_of p rows
    → let d = (settled (write_chunks c chunks rows fate commit)).0 in
      tally p d + tally_of p c.kept ≡ tally p c + tally_of p d.kept
unfolding write_chunks
write_chunks-tally p c [] rows fate commit h =
    omega (arith, write_commands-tally p c [] rows fate.commands 0 h refl)
write_chunks-tally p c (i ∷ chunks) rows fate committed h =
    let c' : Capture = record c { written = c.written ++ i ∷ chunks; in_flight = rows } in
    omega (
      arith,
      h,
      write_commands-tally p c' [] rows fate.commands 0 (omega arith) refl,
      tally-append p c.written (i ∷ chunks),
    )
write_chunks-tally p c (i ∷ chunks) rows fate failed h =
    let c' : Capture = record c { lost = (i ∷ chunks) ++ c.lost } in
    omega (
      arith,
      h,
      write_commands-tally p c' (i ∷ chunks) rows fate.commands (tally_of p (i ∷ chunks)) h refl,
      tally-append p (i ∷ chunks) c.lost,
    )
write_chunks-tally p c (i ∷ chunks) rows fate cancelled h = unfold settled in refl

write-tally :
    (p : Item → Bool) (c : Capture) (fate : Fate)
    → let d = (settled (write c fate)).0 in
      tally p d + tally_of p c.kept ≡ tally p c + tally_of p d.kept
unfolding write
write-tally p c fate =
    write_chunks-tally p c (filter is_frame c.in_flight)
      (filter (λ i. not (is_frame i)) c.in_flight) fate fate.chunks
      (sym (tally-parts p is_frame c.in_flight))

write_commands-offered :
    (c : Capture) (reported rows : List Item) (fate : Commit)
    → (settled (write_commands c reported rows fate)).0.offered ≡ c.offered
unfolding write_commands settled
write_commands-offered c reported [] fate = refl
write_commands-offered c reported (i ∷ rows) committed = refl
write_commands-offered c reported (i ∷ rows) failed = refl
write_commands-offered c reported (i ∷ rows) cancelled = refl

write_chunks-offered :
    (c : Capture) (chunks rows : List Item) (fate : Fate) (commit : Commit)
    → (settled (write_chunks c chunks rows fate commit)).0.offered ≡ c.offered
unfolding write_chunks
write_chunks-offered c [] rows fate commit = write_commands-offered c [] rows fate.commands
write_chunks-offered c (i ∷ chunks) rows fate committed =
    write_commands-offered (record c { written = c.written ++ i ∷ chunks; in_flight = rows }) []
      rows fate.commands
write_chunks-offered c (i ∷ chunks) rows fate failed =
    write_commands-offered (record c { lost = (i ∷ chunks) ++ c.lost }) (i ∷ chunks) rows
      fate.commands
write_chunks-offered c (i ∷ chunks) rows fate cancelled = unfold settled in refl

write_commands-kept :
    (p : Item → Bool) (c : Capture) (reported rows : List Item) (fate : Commit)
    → tally_of p reported + tally_of p c.kept ≤ tally_of p c.lost
    → let d = (settled (write_commands c reported rows fate)).0 in
      tally_of p d.kept ≤ tally_of p d.lost
unfolding write_commands settled
write_commands-kept p c reported [] fate h = omega (arith, h)
write_commands-kept p c reported (i ∷ rows) committed h = omega (arith, h)
write_commands-kept p c reported (i ∷ rows) failed h =
    omega (arith, h, tally-append p (i ∷ rows) c.lost)
write_commands-kept p c reported (i ∷ rows) cancelled h =
    omega (arith, h, tally-append p reported c.kept)

write_chunks-kept :
    (p : Item → Bool) (c : Capture) (chunks rows : List Item) (fate : Fate) (commit : Commit)
    → tally_of p c.kept ≤ tally_of p c.lost
    → let d = (settled (write_chunks c chunks rows fate commit)).0 in
      tally_of p d.kept ≤ tally_of p d.lost
unfolding write_chunks
write_chunks-kept p c [] rows fate commit h =
    write_commands-kept p c [] rows fate.commands (omega (arith, h))
write_chunks-kept p c (i ∷ chunks) rows fate committed h =
    write_commands-kept p (record c { written = c.written ++ i ∷ chunks; in_flight = rows }) [] rows
      fate.commands (omega (arith, h))
write_chunks-kept p c (i ∷ chunks) rows fate failed h =
    write_commands-kept p (record c { lost = (i ∷ chunks) ++ c.lost }) (i ∷ chunks) rows
      fate.commands (omega (arith, h, tally-append p (i ∷ chunks) c.lost))
write_chunks-kept p c (i ∷ chunks) rows fate cancelled h = unfold settled in h

write-kept :
    (p : Item → Bool) (c : Capture) (fate : Fate)
    → tally_of p c.kept ≤ tally_of p c.lost
    → let d = (settled (write c fate)).0 in tally_of p d.kept ≤ tally_of p d.lost
unfolding write
write-kept p c fate =
    write_chunks-kept p c (filter is_frame c.in_flight) (filter (λ i. not (is_frame i)) c.in_flight)
      fate fate.chunks

write-IsAccounted :
    (p : Item → Bool) (c : Capture) (fate : Fate)
    → IsAccounted p c
    → IsAccounted p (settled (write c fate)).0
write-IsAccounted p c fate (v, k) =
    let d = (settled (write c fate)).0 in
    let same : d.offered ≡ c.offered =
      unfold write in
      write_chunks-offered c (filter is_frame c.in_flight)
        (filter (λ i. not (is_frame i)) c.in_flight) fate fate.chunks in
    (omega (arith, v, write-tally p c fate, ap (tally_of p) same), write-kept p c fate k)

unload-tally :
    (p : Item → Bool) (room : ℕ) (q : List Item) (c : Capture)
    → let d = unload room q c in
      (tally p d ≡ tally_of p q + tally_of p c.in_flight + tally_of p c.written + tally_of p c.lost)
      × (d.offered ≡ c.offered)
      × (d.kept ≡ c.kept)
      × (d.lost ≡ c.lost)
unfolding unload
unload-tally p zero q c = (refl, refl, refl, refl)
unload-tally p (suc room) [] c = (refl, refl, refl, refl)
unload-tally p (suc room) (i ∷ q) c =
    let c' : Capture = record c {
      queued_bytes = c.queued_bytes - frame_bytes i;
      in_flight = c.in_flight ++ i ∷ [];
    } in
    let (count, o, k, lost) = unload-tally p room q c' in
    (ground (arith, count, tally-append p c.in_flight (i ∷ [])), o, k, lost)

unload-IsAccounted :
    (p : Item → Bool) (room : ℕ) (c : Capture) → IsAccounted p c → IsAccounted p (fill room c)
unload-IsAccounted p room c (v, h) =
    let (count, o, k, lost) = unload-tally p room c.queue c in
    (
      omega (arith, v, count, ap (tally_of p) o, ap (tally_of p) k),
      omega (arith, h, ap (tally_of p) k, ap (tally_of p) lost),
    )

submit-IsAccounted :
    (l : CaptureLimits) (p : Item → Bool) (c : Capture) (i : Item)
    → IsAccounted p c
    → IsAccounted p (submit l c i)
unfolding submit
submit-IsAccounted l p c i (v, k) =
    (ground (arith, v, tally-append p c.queue (i ∷ [])), ground (arith, k))

pub run-IsAccounted :
    (l : CaptureLimits) (p : Item → Bool) (c : Capture) (es : List Event)
    → IsAccounted p c
    → IsAccounted p (run l c es)
run-IsAccounted l p =
    run-keeps l (IsAccounted p) (submit-IsAccounted l p) (unload-IsAccounted p)
      (write-IsAccounted p)
