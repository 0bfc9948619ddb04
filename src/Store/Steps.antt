-- ===== src/Store/Steps.antt =====
-- What each transfer method of the in-memory store (internal/store/memory.go) does when it
-- succeeds.
use pixrail_go_payment_switc.Prelude.{
  Bool, true, false, ◌&&◌, not, ◌≡◌, ◌⊎◌, refl, List, [], ◌∷◌, Option, none, some, Text,
  text_eq_iff, lookup, insert, Bool-cases, inl, inr, arith, ok, Error, Result-cases, Option-cases,
  is_empty,
}
use pixrail_go_payment_switc.Rail.{
  Time, Transfer, TransferStatus, AuditRecord, SpiMessage, SettlementCallback, status_eq,
}
use pixrail_go_payment_switc.Rail.Transitions
use pixrail_go_payment_switc.Events.{Event}
use pixrail_go_payment_switc.Store.{
  MemoryStore, scoped, append_events, log, put_transfer, get_transfer, claim_spi_submission,
  record_spi_submission, release_spi_submission, record_review_decision, update_settlement, hash_of,
}

-- Appending events touches neither the maps nor the audit trail.
pub record SameMaps (s s' : MemoryStore) : Type 0 where
  pub transfers : s'.transfers ≡ s.transfers
  pub idempotency : s'.idempotency ≡ s.idempotency
  pub callbacks : s'.callbacks ≡ s.callbacks
  pub audit : s'.audit ≡ s.audit

pub append_events-SameMaps : (es : List Event) (s : MemoryStore) → SameMaps s (append_events es s)
unfolding append_events
append_events-SameMaps [] s = record {
  transfers = refl;
  idempotency = refl;
  callbacks = refl;
  audit = refl;
}
append_events-SameMaps (e ∷ es) s =
    let r = append_events-SameMaps es _ in
    record {
      transfers = r.transfers;
      idempotency = r.idempotency;
      callbacks = r.callbacks;
      audit = r.audit;
    }

-- Only the owner reads a transfer.
pub get_transfer-ok :
    (s : MemoryStore) (tenant_id id : Text) (t : Transfer)
    → get_transfer s tenant_id id ≡ ok t
    → (lookup id s.transfers ≡ some t) × (t.tenant_id ≡ tenant_id)
unfolding get_transfer
get_transfer-ok s tenant_id id t e = elim (Option-cases (lookup id s.transfers)) [
  | inl missing ↦ ground arith
  | inr (u, found) ↦ ground (arith, text_eq_iff u.tenant_id tenant_id)
]

-- The SPI has the transfer already.
abbrev sent : Transfer → Bool
sent t = status_eq t.status TransferStatus.approved && not (is_empty t.spi_message_id)

module _ (ctx : Option Error) (s : MemoryStore) (tenant_id id token : Text) where
  pub claim_inv :
      (until now : Time) (u : Transfer) (replay : Bool) (s' : MemoryStore)
      → claim_spi_submission ctx s tenant_id id token until now ≡ ok (u, replay, s')
      → (t : Transfer) × (get_transfer s tenant_id id ≡ ok t)
        × (((replay ≡ true) × (u ≡ t) × (s' ≡ s))
            ⊎ ((replay ≡ false)
                × (Transitions.claim_spi_submission t token until now ≡ ok u)
                × (s' ≡ put_transfer u s)))
  unfolding claim_spi_submission
  claim_inv until now u replay s' e = elim (Result-cases (get_transfer s tenant_id id)) [
    | inl (t, got) ↦ (t, got, ground arith)
    | inr (x, got) ↦ absurd (ground arith)
  ]

  pub record_inv :
      (message : SpiMessage) (outbox : List Event) (audit : AuditRecord) (u : Transfer)
      (replay : Bool) (s' : MemoryStore)
      → record_spi_submission ctx s tenant_id id token message outbox audit ≡ ok (u, replay, s')
      → (t : Transfer) × (get_transfer s tenant_id id ≡ ok t)
        × (((replay ≡ true) × (u ≡ t) × (s' ≡ s))
            ⊎ ((replay ≡ false)
                × (Transitions.record_spi_submission t token message ≡ ok u)
                × (s' ≡ log outbox (audit ∷ []) (put_transfer u s))))
  unfolding record_spi_submission
  record_inv message outbox audit u replay s' e =
      elim (Result-cases (get_transfer s tenant_id id)) [
        | inl (t, got) ↦ (t, got, ground arith)
        | inr (x, got) ↦ absurd (ground arith)
      ]

  pub release_inv :
      (error : Text) (retry_at now : Time) (s' : MemoryStore)
      → release_spi_submission ctx s tenant_id id token error retry_at now ≡ ok s'
      → (t : Transfer) × (get_transfer s tenant_id id ≡ ok t)
        × ((s' ≡ s)
            ⊎ ((u : Transfer) × (Transitions.release_spi_submission t token error retry_at now
                  ≡ ok u)
                × (s' ≡ put_transfer u s)))
  unfolding release_spi_submission
  release_inv error retry_at now s' e = elim (Result-cases (get_transfer s tenant_id id)) [
    | inl (t, got) ↦
        elim (Result-cases (Transitions.release_spi_submission t token error retry_at now)) [
          | inl (u, moved) ↦ elim (Bool-cases (sent t)) [
            | inl done ↦ (t, got, inl (ground arith))
            | inr live ↦ (t, got, inr (u, moved, ground arith))
          ]
          | inr (x, refused) ↦ (t, got, inl (ground arith))
        ]
    | inr (x, got) ↦ absurd (ground arith)
  ]

module _ (s : MemoryStore) (tenant_id id : Text) where
  pub review_inv :
      (status : TransferStatus) (reason : Text) (outbox : List Event) (audit : AuditRecord)
      (u : Transfer) (s' : MemoryStore)
      → record_review_decision s tenant_id id status reason outbox audit ≡ ok (u, s')
      → (t : Transfer) × (get_transfer s tenant_id id ≡ ok t)
        × (Transitions.record_review_decision t status reason audit.created_at ≡ ok u)
        × (s' ≡ log outbox (audit ∷ []) (put_transfer u s))
  unfolding record_review_decision
  review_inv status reason outbox audit u s' e = elim (Result-cases (get_transfer s tenant_id id)) [
    | inl (t, got) ↦ (t, got, ground arith, ground arith)
    | inr (x, got) ↦ absurd (ground arith)
  ]

  pub settlement_inv :
      (digest : Text → Text) (callback : SettlementCallback) (outbox : List Event)
      (audit : AuditRecord) (u : Transfer) (replay : Bool) (s' : MemoryStore)
      → update_settlement digest s tenant_id id callback outbox audit ≡ ok (u, replay, s')
      → let key = scoped tenant_id callback.spi_message_id in
        (t : Transfer) × (get_transfer s tenant_id id ≡ ok t)
        × (((replay ≡ true)
              × (u ≡ t)
              × (s' ≡ s)
              × (lookup key s.callbacks ≡ some (hash_of digest callback)))
            ⊎ ((replay ≡ false)
                × (lookup key s.callbacks ≡ none)
                × (Transitions.record_settlement t callback ≡ ok u)
                × (s'
                    ≡ log outbox (audit ∷ []) (record (put_transfer u s) {
                      callbacks = insert key (hash_of digest callback) s.callbacks;
                    }))))
  unfolding update_settlement
  settlement_inv digest callback outbox audit u replay s' e =
      let hash = hash_of digest callback in
      let key = scoped tenant_id callback.spi_message_id in
      elim (Result-cases (get_transfer s tenant_id id)) [
        | inl (t, got) ↦ elim (Option-cases (lookup key s.callbacks)) [
          | inl fresh ↦ (t, got, inr (ground arith, fresh, ground arith, ground arith))
          | inr (old, seen) ↦ (
            t,
            got,
            inl (ground arith, ground arith, ground arith, ground (arith, text_eq_iff old hash)),
          )
        ]
        | inr (x, got) ↦ absurd (ground arith)
      ]
