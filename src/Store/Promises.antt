-- ===== src/Store/Promises.antt =====
-- What the in-memory store (internal/store/memory.go) promises its callers across any history.
use pixrail_go_payment_switc.Prelude.{
  true, false, ◌≡◌, ◌≢◌, refl, ap, ◌∙◌, List, none, some, Text, str, text_eq_iff, lookup, insert,
  lookup-insert_self, ok, err, Kind, fault, sentinel, inl, inr, arith, All, Option-cases,
}
use pixrail_go_payment_switc.Rail.{
  Time, Transfer, AuditRecord, SpiMessage, SettlementCallback, TransferStatus, terminal,
}
use pixrail_go_payment_switc.Rail.Lifecycle.{Later}
use pixrail_go_payment_switc.Rail.Transitions
use pixrail_go_payment_switc.Events.{Event}
use pixrail_go_payment_switc.Store.{
  MemoryStore, idempotency_key, scoped, insert_transfer, find_by_idempotency, update_settlement,
  hash_of, get_transfer, put_transfer, claim_spi_submission, record_spi_submission,
  release_spi_submission, record_review_decision,
}
use pixrail_go_payment_switc.Store.Invariant.{IsValid}
use pixrail_go_payment_switc.Store.Changes.{Change-IsValid, Grows}
use pixrail_go_payment_switc.Store.Methods.{IsNew, insert-Change, settlement-Change}
use pixrail_go_payment_switc.Store.Steps.{append_events-SameMaps, get_transfer-ok, settlement_inv}
use pixrail_go_payment_switc.Store.History.{Op, IsFresh, run, run-Grows}

get_transfer_found :
    (s : MemoryStore) (id : Text) (t : Transfer)
    → lookup id s.transfers ≡ some t
    → get_transfer s t.tenant_id id ≡ ok t
unfolding get_transfer
get_transfer_found s id t e = ground (arith, text_eq_iff t.tenant_id t.tenant_id)

-- After an insertion its key and its transfer are in the maps.
insert_written :
    (s s' : MemoryStore) (t : Transfer) (es : List Event) (trail : List AuditRecord)
    → insert_transfer s t es trail ≡ ok s'
    → (lookup t.id s'.transfers ≡ some t) × (lookup (idempotency_key t) s'.idempotency ≡ some t.id)
unfolding insert_transfer
insert_written s s' t es trail e =
    let before : MemoryStore = record s {
      transfers = insert t.id t s.transfers;
      idempotency = insert (idempotency_key t) t.id s.idempotency;
    } in
    let r = append_events-SameMaps es before in
    ground (
      arith,
      r.transfers,
      r.idempotency,
      lookup-insert_self t.id t s.transfers,
      lookup-insert_self (idempotency_key t) t.id s.idempotency,
    )

module _ (digest : Text → Text) (s s' : MemoryStore) (t : Transfer) (es : List Event)
    (trail : List AuditRecord) (ops : List Op) (v : IsValid s) (new : IsNew t)
    (done : insert_transfer s t es trail ≡ ok s') (fresh : All IsFresh ops) where
  grown : Grows s' (run digest s' ops)
  grown =
      run-Grows digest s' ops (Change-IsValid (insert-Change s s' t es trail v new done) v) fresh

  -- In a store whose maps agree, the idempotency key of a new transfer that was put in leads to
  -- what became of it, after any history in which every transfer that is put in is new.
  pub insert_once :
      (u : Transfer) × (find_by_idempotency none (run digest s' ops) t.tenant_id t.idempotency_key
        ≡ ok (some u))
      × Later t u
  unfolding find_by_idempotency
  insert_once =
      let (stored, keyed) = insert_written s s' t es trail done in
      let (u, there, since) = grown.kept t.id t stored in
      let key = grown.keys (idempotency_key t) t.id keyed in (u, rw (key, there) refl, since)

  -- After a new transfer was put in a store whose maps agree, and after any history in which
  -- every transfer that is put in is new, no transfer with another ID is put in under its
  -- idempotency key.
  pub insert_rival :
      (rival : Transfer) (es' : List Event) (trail' : List AuditRecord)
      → idempotency_key rival ≡ idempotency_key t
      → rival.id ≢ t.id
      → insert_transfer (run digest s' ops) rival es' trail'
        ≡ err (fault Kind.conflict (str "idempotency key already used"))
  unfolding insert_transfer
  insert_rival rival es' trail' same other =
      let (stored, keyed) = insert_written s s' t es trail done in
      let key = grown.keys (idempotency_key t) t.id keyed in
      ground (
        arith,
        ap (λ k. lookup k (run digest s' ops).idempotency) same,
        key,
        text_eq_iff t.id rival.id,
      )

-- A settlement that was taken in: its transfer and its callback are in the maps.
settlement_written :
    (digest : Text → Text) (s s' : MemoryStore) (tenant_id id : Text)
    (callback : SettlementCallback) (es : List Event) (audit : AuditRecord) (u : Transfer)
    → IsValid s
    → update_settlement digest s tenant_id id callback es audit ≡ ok (u, false, s')
    → (lookup id s'.transfers ≡ some u)
      × (u.tenant_id ≡ tenant_id)
      × (terminal u.status ≡ true)
      × (lookup (scoped tenant_id callback.spi_message_id) s'.callbacks
          ≡ some (hash_of digest callback))
unfolding Transitions.record_settlement
settlement_written digest s s' tenant_id id callback es audit u v e =
    let (t, got, how) = settlement_inv s tenant_id id digest callback es audit u false s' e in
    let (found, owner) = get_transfer-ok s tenant_id id t got in
    elim how [
      | inl (replayed, _, _, _) ↦ cc
      | inr (_, free, done, new) ↦
          let key = scoped tenant_id callback.spi_message_id in
          let hash = hash_of digest callback in
          let before : MemoryStore = record (put_transfer u s) {
            callbacks = insert key hash s.callbacks;
          } in
          let r = append_events-SameMaps es before in
          let at_u : u.id ≡ id = ground (arith, v.keyed id t found) in
          (
            ap (λ x. lookup id x.transfers) new
                ∙ ap (lookup id) r.transfers
                ∙ ap (λ k. lookup id (insert k u s.transfers)) at_u
                ∙ lookup-insert_self id u s.transfers,
            ground arith,
            ground arith,
            ap (λ x. lookup key x.callbacks) new
                ∙ ap (lookup key) r.callbacks
                ∙ lookup-insert_self key hash s.callbacks,
          )
    ]

-- Once a callback has settled a transfer, that transfer never changes again: the same callback is
-- answered by it as a replay that writes nothing, and another callback is refused.
pub settle_once :
    (digest : Text → Text) (s s' : MemoryStore) (tenant_id id : Text)
    (callback : SettlementCallback) (es : List Event) (audit : AuditRecord) (u : Transfer)
    (ops : List Op)
    → IsValid s
    → update_settlement digest s tenant_id id callback es audit ≡ ok (u, false, s')
    → All IsFresh ops
    → let later = run digest s' ops in
      (lookup id later.transfers ≡ some u)
      × ((again : SettlementCallback) (es' : List Event) (audit' : AuditRecord)
          → again.spi_message_id ≡ callback.spi_message_id
          → (hash_of digest again ≡ hash_of digest callback
              → update_settlement digest later tenant_id id again es' audit' ≡ ok (u, true, later))
            × (hash_of digest again ≢ hash_of digest callback
                → update_settlement digest later tenant_id id again es' audit'
                  ≡ err (
                      fault Kind.conflict
                        (str "conflicting settlement callback for terminal transfer"))))
unfolding update_settlement
settle_once digest s s' tenant_id id callback es audit u ops v e fresh =
    let (stored, owner, final, seen) =
      settlement_written digest s s' tenant_id id callback es audit u v e in
    let valid' =
      Change-IsValid (settlement-Change s tenant_id id digest callback es audit u false s' e) v in
    let later = run digest s' ops in
    let grown = run-Grows digest s' ops valid' fresh in
    let (w, there, since) = grown.kept id u stored in
    let still : lookup id later.transfers ≡ some u = there ∙ ap some (since.final final) in
    let got : get_transfer later tenant_id id ≡ ok u =
      rw (← owner) (get_transfer_found later id u still) in
    let known = grown.replies _ _ seen in
    (
      still,
      λ again es' audit' same.
          let there' : lookup (scoped tenant_id again.spi_message_id) later.callbacks
              ≡ some (hash_of digest callback) =
            ap (λ m. lookup (scoped tenant_id m) later.callbacks) same ∙ known in
          (
            λ equal.
                ground (
                  arith,
                  got,
                  there',
                  text_eq_iff (hash_of digest callback) (hash_of digest again),
                ),
            λ other.
                ground (
                  arith,
                  got,
                  there',
                  text_eq_iff (hash_of digest callback) (hash_of digest again),
                ),
          ),
    )

-- Every method that takes a tenant and the ID of a transfer answers `not found` for the transfer of
-- another tenant. `FindByIdempotency` takes an idempotency key instead, and is not among them.
pub record Isolated (digest : Text → Text) (s : MemoryStore) (tenant_id id : Text) : Type 0 where
  pub gets : get_transfer s tenant_id id ≡ err (sentinel Kind.not_found)
  pub claims :
      (token : Text) (until now : Time)
      → claim_spi_submission none s tenant_id id token until now ≡ err (sentinel Kind.not_found)
  pub submits :
      (token : Text) (message : SpiMessage) (es : List Event) (audit : AuditRecord)
      → record_spi_submission none s tenant_id id token message es audit
        ≡ err (sentinel Kind.not_found)
  pub releases :
      (token error : Text) (retry_at now : Time)
      → release_spi_submission none s tenant_id id token error retry_at now
        ≡ err (sentinel Kind.not_found)
  pub reviews :
      (status : TransferStatus) (reason : Text) (es : List Event) (audit : AuditRecord)
      → record_review_decision s tenant_id id status reason es audit ≡ err (sentinel Kind.not_found)
  pub settles :
      (callback : SettlementCallback) (es : List Event) (audit : AuditRecord)
      → update_settlement digest s tenant_id id callback es audit ≡ err (sentinel Kind.not_found)

-- When the transfer under an ID, if there is one, belongs to another tenant, every method of the
-- store that takes a tenant and the ID of a transfer, in a live context, answers that there is no
-- such transfer.
pub isolation :
    (digest : Text → Text) (s : MemoryStore) (tenant_id id : Text)
    → ((t : Transfer) → lookup id s.transfers ≡ some t → t.tenant_id ≢ tenant_id)
    → Isolated digest s tenant_id id
unfolding claim_spi_submission record_spi_submission release_spi_submission record_review_decision
    update_settlement
isolation digest s tenant_id id foreign =
    let missing : get_transfer s tenant_id id ≡ err (sentinel Kind.not_found) =
      elim (Option-cases (lookup id s.transfers)) [
        | inl none_there ↦ unfold get_transfer in ground arith
        | inr (t, found) ↦
            unfold get_transfer in
            ground (arith, foreign t found, text_eq_iff t.tenant_id tenant_id)
      ] in
    record {
      gets = missing;
      claims = λ token until now. ground (arith, missing);
      submits = λ token message es audit. ground (arith, missing);
      releases = λ token error retry_at now. ground (arith, missing);
      reviews = λ status reason es audit. ground (arith, missing);
      settles = λ callback es audit. ground (arith, missing);
    }
