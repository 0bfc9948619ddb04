-- ===== src/Store.antt =====
-- internal/store/memory.go: the in-memory store. Each method runs under the store's lock, so it is
-- one step: it takes the store and returns its result with the new store. No path that returns an
-- error writes anything, so an error comes without a store. `ctx` is `ctx.Err()`, `none` while the
-- context is live, and `now` is what `time.Now()` returns.
pub mod Outbox
pub mod Pending
pub mod Invariant
pub mod Steps
pub mod Changes
pub mod Methods
pub mod History
pub mod Promises
use pixrail_go_payment_switc.Prelude.{
  ℕ, Bool, true, false, ◌&&◌, ◌||◌, not, List, [], ◌∷◌, ◌++◌, Option, none, some, Text, str,
  text_eq, is_empty, ℤ, pos, inc64, Map, lookup, insert, if◌then◌else◌, Result, ok, err, ◌>>=◌,
  Error, Kind, fault, sentinel,
}
use pixrail_go_payment_switc.Rail.{
  Time, Transfer, TransferStatus, AuditRecord, SpiMessage, SettlementCallback, status_eq,
}
use pixrail_go_payment_switc.Rail.Request.{callback_fingerprint}
use pixrail_go_payment_switc.Rail.Transitions
use pixrail_go_payment_switc.Events.{Event, OutboxRecord}

pub record MemoryStore : Type 0 where
  pub transfers : Map Transfer
  pub idempotency : Map Text
  pub callbacks : Map Text
  pub events : List OutboxRecord
  pub audit : List AuditRecord
  pub next_seq : ℤ

-- `NewMemoryStore()`
abbrev pub new_memory_store : MemoryStore
new_memory_store = record {
  transfers = [];
  idempotency = [];
  callbacks = [];
  events = [];
  audit = [];
  next_seq = pos 0;
}

-- `Health`
abbrev pub health : Option Error → Result (Unit {0})
health none = ok tt
health (some e) = err e

-- `tenantID + ":" + key`
unfoldable pub scoped : Text → Text → Text
scoped tenant_id key = tenant_id ++ (b':' ∷ key)

abbrev pub idempotency_key : Transfer → Text
idempotency_key t = scoped t.tenant_id t.idempotency_key

-- The record that `appendEventsLocked` makes of one event.
abbrev pub fresh_record : ℤ → Event → OutboxRecord
fresh_record sequence event = record {
  sequence = sequence;
  event = event;
  published = false;
  attempts = pos 0;
  last_error = [];
  available_at = event.occurred_at;
  claim_token = [];
  claimed_until = none;
  dispatched_at = none;
}

-- `appendEventsLocked`
unfoldable pub append_events : List Event → MemoryStore → MemoryStore
append_events [] s = s
append_events (e ∷ es) s = append_events es (record s {
  next_seq = inc64 s.next_seq;
  events = s.events ++ (fresh_record (inc64 s.next_seq) e ∷ []);
})

-- The transfer that an idempotency key leads to; `none` is the `false` of the source.
unfoldable pub find_by_idempotency :
    Option Error → MemoryStore → Text → Text → Result (Option Transfer)
find_by_idempotency ctx s tenant_id key = do
  live ← health ctx
  ok (elim (lookup (scoped tenant_id key) s.idempotency) [
    | none ↦ none
    | some id ↦ lookup id s.transfers
  ])

-- `existingID, ok := …; ok && existingID != transfer.ID`
abbrev pub taken_by_another : Option Text → Text → Bool
taken_by_another none id = false
taken_by_another (some existing) id = not (text_eq existing id)

abbrev is_some {ℓ} : {A : Type ℓ} → Option A → Bool
is_some none = false
is_some (some a) = true

abbrev pub put_transfer : Transfer → MemoryStore → MemoryStore
put_transfer t s = record s { transfers = insert t.id t s.transfers }

-- The writes that end a method: the events, then the audit records.
abbrev pub log : List Event → List AuditRecord → MemoryStore → MemoryStore
log outbox audit s = let s' = append_events outbox s in record s' { audit = s'.audit ++ audit }

unfoldable pub insert_transfer :
    MemoryStore → Transfer → List Event → List AuditRecord → Result MemoryStore
insert_transfer s t outbox audit =
    if taken_by_another (lookup (idempotency_key t) s.idempotency) t.id
    then err (fault Kind.conflict (str "idempotency key already used"))
    else if is_some (lookup t.id s.transfers)
    then err (fault Kind.conflict (str "transfer already exists"))
    else ok (
        log outbox audit (record s {
          transfers = insert t.id t s.transfers;
          idempotency = insert (idempotency_key t) t.id s.idempotency;
        }))

-- `transfer, ok := s.transfers[transferID]; if !ok || transfer.TenantID != tenantID`
abbrev pub owned_by : Text → Option Transfer → Result Transfer
owned_by tenant_id none = err (sentinel Kind.not_found)
owned_by tenant_id (some t) =
    if text_eq t.tenant_id tenant_id then ok t else err (sentinel Kind.not_found)

unfoldable pub get_transfer : MemoryStore → Text → Text → Result Transfer
get_transfer s tenant_id transfer_id = owned_by tenant_id (lookup transfer_id s.transfers)

-- The result of a method that may find its work done: the transfer, whether it is a replay, and
-- the store.
abbrev pub Replayable : Type 0
Replayable = Transfer × Bool × MemoryStore

unfoldable pub claim_spi_submission :
    Option Error → MemoryStore → Text → Text → Text → Time → Time → Result Replayable
claim_spi_submission ctx s tenant_id transfer_id claim_token claim_until now = do
  live ← health ctx
  t ← get_transfer s tenant_id transfer_id
  if status_eq t.status TransferStatus.approved && not (is_empty t.spi_message_id)
      then ok (t, true, s)
      else (do
        t' ← Transitions.claim_spi_submission t claim_token claim_until now
        ok (t', false, put_transfer t' s))

unfoldable pub record_spi_submission :
    Option Error
    → MemoryStore
    → Text
    → Text
    → Text
    → SpiMessage
    → List Event
    → AuditRecord
    → Result Replayable
record_spi_submission ctx s tenant_id transfer_id claim_token message outbox audit = do
  live ← health ctx
  t ← get_transfer s tenant_id transfer_id
  if status_eq t.status TransferStatus.approved && text_eq t.spi_message_id message.message_id
      then ok (t, true, s)
      else (do
        t' ← Transitions.record_spi_submission t claim_token message
        ok (t', false, log outbox (audit ∷ []) (put_transfer t' s)))

unfoldable pub release_spi_submission :
    Option Error → MemoryStore → Text → Text → Text → Text → Time → Time → Result MemoryStore
release_spi_submission ctx s tenant_id transfer_id claim_token last_error retry_at now = do
  live ← health ctx
  t ← get_transfer s tenant_id transfer_id
  if status_eq t.status TransferStatus.approved && not (is_empty t.spi_message_id)
      then ok s
      else (do
        t' ← Transitions.release_spi_submission t claim_token last_error retry_at now
        ok (put_transfer t' s))

unfoldable pub record_review_decision :
    MemoryStore
    → Text
    → Text
    → TransferStatus
    → Text
    → List Event
    → AuditRecord
    → Result (Transfer × MemoryStore)
record_review_decision s tenant_id transfer_id status reason outbox audit = do
  t ← get_transfer s tenant_id transfer_id
  t' ← Transitions.record_review_decision t status reason audit.created_at
  ok (t', log outbox (audit ∷ []) (put_transfer t' s))

-- What `s.callbacks` says about a callback's hash: unknown, the same, or another.
pub data Answer : Type 0 where
  first same conflicting : Answer

abbrev pub answered : Option Text → Text → Answer
answered none hash = first
answered (some existing) hash = if text_eq existing hash then same else conflicting

module _ (digest : Text → Text) where
  abbrev pub hash_of : SettlementCallback → Text
  hash_of callback =
      if is_empty callback.callback_hash
      then callback_fingerprint digest callback
      else callback.callback_hash

  unfoldable pub update_settlement :
      MemoryStore → Text → Text → SettlementCallback → List Event → AuditRecord → Result Replayable
  update_settlement s tenant_id transfer_id callback outbox audit = do
    let hash = hash_of callback
    let key = scoped tenant_id callback.spi_message_id
    t ← get_transfer s tenant_id transfer_id
    elim (answered (lookup key s.callbacks) hash) [
      | same ↦ ok (t, true, s)
      | conflicting ↦
          err (fault Kind.conflict (str "conflicting settlement callback for terminal transfer"))
      | first ↦ do
        t' ← Transitions.record_settlement t callback
        let s' = put_transfer t' s
        ok (
          t',
          false,
          log outbox (audit ∷ []) (record s' { callbacks = insert key hash s.callbacks }),
        )
    ]
