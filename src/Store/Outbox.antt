-- ===== src/Store/Outbox.antt =====
-- internal/store/memory.go: the outbox side of the in-memory store, which the relay drives.
pub mod Exclusive
use pixrail_go_payment_switc.Prelude.{
  ℕ, zero, suc, ◌-◌, Bool, true, ◌&&◌, ◌||◌, not, List, [], ◌∷◌, Option, none, some, Text, str,
  text_eq, is_empty, ℤ, pos, pos_part, inc64, leb_ℤ, ltb_ℤ, eqb_ℤ, ltb, if◌then◌else◌, Result, ok,
  err, ◌>>=◌, Error, Kind, fault,
}
use pixrail_go_payment_switc.Rail.{Time, AuditRecord, claimed_after}
use pixrail_go_payment_switc.Events.{OutboxRecord}
use pixrail_go_payment_switc.Store.{MemoryStore, health}

-- `if limit <= 0 { limit = 100 }`, less one: the records that may follow the first.
abbrev pub followers : ℤ → ℕ
followers limit = if leb_ℤ limit (pos 0) then 99 else pos_part limit - 1

-- Not published, due, and under no live claim.
abbrev pub claimable : Time → OutboxRecord → Bool
claimable now r =
    not (r.published || ltb now r.available_at) && not (claimed_after r.claimed_until now)

-- `sort.Slice` by `Sequence`.
unfoldable pub insert_by_sequence : OutboxRecord → List OutboxRecord → List OutboxRecord
insert_by_sequence r [] = r ∷ []
insert_by_sequence r (x ∷ xs) =
    if ltb_ℤ x.sequence r.sequence then x ∷ insert_by_sequence r xs else r ∷ (x ∷ xs)

unfoldable pub sort_by_sequence : List OutboxRecord → List OutboxRecord
unfolding insert_by_sequence
sort_by_sequence [] = []
sort_by_sequence (r ∷ rs) = insert_by_sequence r (sort_by_sequence rs)

-- The loop of `PendingOutbox`, which breaks at the limit.
unfoldable pub pending_loop : ℕ → Time → List OutboxRecord → List OutboxRecord
pending_loop k now [] = []
pending_loop zero now (r ∷ rs) =
    let rest = pending_loop zero now rs in if claimable now r then r ∷ [] else rest
pending_loop (suc k) now (r ∷ rs) =
    let taken = pending_loop k now rs in
    let passed = pending_loop (suc k) now rs in if claimable now r then r ∷ taken else passed

unfoldable pub pending_outbox : Option Error → MemoryStore → ℤ → Time → Result (List OutboxRecord)
unfolding pending_loop sort_by_sequence
pending_outbox ctx s limit now = do
  live ← health ctx
  ok (sort_by_sequence (pending_loop (followers limit) now s.events))

abbrev pub claim : Text → Time → OutboxRecord → OutboxRecord
claim claim_token claim_until r = record r {
  claim_token = claim_token;
  claimed_until = some claim_until;
}

-- The loop of `ClaimPendingOutbox`: the claimed records, and all records after the writes.
unfoldable pub claim_loop :
    ℕ → Text → Time → Time → List OutboxRecord → List OutboxRecord × List OutboxRecord
claim_loop k token until now [] = ([], [])
claim_loop zero token until now (r ∷ rs) =
    let (claimed, events) = claim_loop zero token until now rs in
    if claimable now r
    then (claim token until r ∷ [], claim token until r ∷ rs)
    else (claimed, r ∷ events)
claim_loop (suc k) token until now (r ∷ rs) =
    let taken = claim_loop k token until now rs in
    let passed = claim_loop (suc k) token until now rs in
    if claimable now r
    then (claim token until r ∷ taken.0, claim token until r ∷ taken.1)
    else (passed.0, r ∷ passed.1)

-- `checked` is the first reading of the clock, `now` the second.
unfoldable pub claim_pending_outbox :
    Option Error
    → MemoryStore
    → ℤ
    → Text
    → Time
    → Time
    → Time
    → Result (List OutboxRecord × MemoryStore)
unfolding claim_loop sort_by_sequence
claim_pending_outbox ctx s limit claim_token claim_until checked now = do
  live ← health ctx
  if is_empty claim_token || not (ltb checked claim_until)
      then err (fault Kind.validation (str "valid outbox claim token and expiry are required"))
      else (let r = claim_loop (followers limit) claim_token claim_until now s.events in
          ok (sort_by_sequence r.0, record s { events = r.1 }))

-- The loop of `MarkOutboxPublished` and `MarkOutboxFailed` up to the record with the sequence.
unfoldable pub update_claimed :
    ℤ → Text → (OutboxRecord → OutboxRecord) → List OutboxRecord → Result (List OutboxRecord)
update_claimed sequence token change [] =
    err (fault Kind.not_found (str "outbox sequence not found"))
update_claimed sequence token change (r ∷ rs) =
    let rest = update_claimed sequence token change rs in
    if not (eqb_ℤ r.sequence sequence)
    then (do rs' ← rest; ok (r ∷ rs'))
    else if is_empty r.claim_token || not (text_eq r.claim_token token)
    then err (fault Kind.conflict (str "outbox record is not claimed by this worker"))
    else ok (change r ∷ rs)

abbrev pub publish : Time → OutboxRecord → OutboxRecord
publish dispatched_at r = record r {
  published = true;
  last_error = [];
  claim_token = [];
  claimed_until = none;
  dispatched_at = some dispatched_at;
}

abbrev pub fail : Text → Time → OutboxRecord → OutboxRecord
fail last_error retry_at r = record r {
  attempts = inc64 r.attempts;
  last_error = last_error;
  available_at = retry_at;
  claim_token = [];
  claimed_until = none;
}

unfoldable pub mark_outbox_published :
    Option Error → MemoryStore → ℤ → Text → Time → Result MemoryStore
unfolding update_claimed
mark_outbox_published ctx s sequence claim_token dispatched_at = do
  live ← health ctx
  events ← update_claimed sequence claim_token (publish dispatched_at) s.events
  ok (record s { events = events })

unfoldable pub mark_outbox_failed :
    Option Error → MemoryStore → ℤ → Text → Text → Time → Result MemoryStore
unfolding update_claimed
mark_outbox_failed ctx s sequence claim_token last_error retry_at = do
  live ← health ctx
  events ← update_claimed sequence claim_token (fail last_error retry_at) s.events
  ok (record s { events = events })

unfoldable pub outbox : Option Error → MemoryStore → Result (List OutboxRecord)
outbox ctx s = do live ← health ctx; ok s.events

unfoldable pub audit : Option Error → MemoryStore → Result (List AuditRecord)
audit ctx s = do live ← health ctx; ok s.audit
