-- ===== src/Store/Methods.antt =====
-- Each method of the in-memory store (internal/store/memory.go) that succeeds makes one of the
-- changes of `Change`.
use pixrail_go_payment_switc.Prelude.{
  Bool, true, false, ◌≡◌, ◌≢◌, refl, sym, subst, ap, ◌∙◌, List, [], ◌∷◌, Option, none, some, Text,
  text_eq_iff, lookup, insert, inl, inr, arith, ok, Error, Option-cases,
}
use pixrail_go_payment_switc.Rail.{
  Time, Transfer, TransferStatus, AuditRecord, SpiMessage, SettlementCallback,
}
use pixrail_go_payment_switc.Rail.Calls.{call, claims, submits, releases, reviews, settles}
use pixrail_go_payment_switc.Rail.Lifecycle
use pixrail_go_payment_switc.Rail.Transitions
use pixrail_go_payment_switc.Events.{Event}
use pixrail_go_payment_switc.Store.{
  MemoryStore, idempotency_key, scoped, log, put_transfer, insert_transfer, claim_spi_submission,
  record_spi_submission, release_spi_submission, record_review_decision, update_settlement, hash_of,
}
use pixrail_go_payment_switc.Store.Invariant.{IsValid, is_settled}
use pixrail_go_payment_switc.Store.Changes.{
  Change, none_made, moved, added, CallbackChange, silent, replied,
}
use pixrail_go_payment_switc.Store.Steps.{
  append_events-SameMaps, get_transfer-ok, claim_inv, record_inv, release_inv, review_inv,
  settlement_inv,
}

-- What comes before the log decides the change.
log-Change :
    (s s' : MemoryStore) (es : List Event) (trail : List AuditRecord)
    → Change s s'
    → Change s (log es trail s')
log-Change s s' es trail (none_made a b c) =
    let r = append_events-SameMaps es s' in
    none_made (r.transfers ∙ a) (r.idempotency ∙ b) (r.callbacks ∙ c)
log-Change s s' es trail (moved id t u m found done a b calls) =
    let r = append_events-SameMaps es s' in
    moved id t u m found done (r.transfers ∙ a) (r.idempotency ∙ b)
      (subst (CallbackChange t u s.callbacks) (sym r.callbacks) calls)
log-Change s s' es trail (added t free unused alive fresh a b c) =
    let r = append_events-SameMaps es s' in
    added t free unused alive fresh (r.transfers ∙ a) (r.idempotency ∙ b) (r.callbacks ∙ c)

unchanged : (s s' : MemoryStore) → s' ≡ s → Change s s'
unchanged s s' e =
    none_made (ap (λ x. x.transfers) e) (ap (λ x. x.idempotency) e) (ap (λ x. x.callbacks) e)

-- A move that settles nothing leaves the callbacks alone.
unsettling :
    (s : MemoryStore) (t u : Transfer)
    → (is_settled u.status ≡ true
        → (is_settled t.status ≡ true) × (u.spi_message_id ≡ t.spi_message_id))
    → CallbackChange t u s.callbacks (put_transfer u s).callbacks
unsettling s t u back = silent refl back

insert_new_id :
    (s : MemoryStore) (t : Transfer)
    → IsValid s
    → lookup t.id s.transfers ≡ none
    → (id : Text) → lookup (idempotency_key t) s.idempotency ≡ some id
    → id ≢ t.id
insert_new_id s t v free id e same = let (u, there, _) = v.indexed (idempotency_key t) id e in cc

-- A new transfer as the switch makes them: in a state that its methods reach, and not settled.
abbrev pub IsNew : Transfer → Type 0
IsNew t = Lifecycle.IsValid t × (is_settled t.status ≡ false)

pub insert-Change :
    (s s' : MemoryStore) (t : Transfer) (es : List Event) (trail : List AuditRecord)
    → IsValid s
    → IsNew t
    → insert_transfer s t es trail ≡ ok s'
    → Change s s'
unfolding insert_transfer
insert-Change s s' t es trail v new e = elim (Option-cases (lookup t.id s.transfers)) [
  | inl free ↦ elim (Option-cases (lookup (idempotency_key t) s.idempotency)) [
    | inl unused ↦ subst (Change s) (ground arith) (
        log-Change s
          (record s {
            transfers = insert t.id t s.transfers;
            idempotency = insert (idempotency_key t) t.id s.idempotency;
          })
          es trail (added t free unused new.0 new.1 refl refl refl))
    | inr (id, used) ↦
        absurd (insert_new_id s t v free id used (ground (arith, text_eq_iff id t.id)))
  ]
  | inr (u, found) ↦ absurd (ground arith)
]

module _ (ctx : Option Error) (s : MemoryStore) (tenant_id id token : Text) where
  pub claim-Change :
      (until now : Time) (u : Transfer) (replay : Bool) (s' : MemoryStore)
      → claim_spi_submission ctx s tenant_id id token until now ≡ ok (u, replay, s')
      → Change s s'
  unfolding call
  claim-Change until now u replay s' e =
      let (t, got, how) = claim_inv ctx s tenant_id id token until now u replay s' e in
      elim how [
        | inl (_, _, same) ↦ unchanged s s' same
        | inr (_, done, new) ↦ subst (Change s) (sym new) (
            moved id t u (claims token until now) (get_transfer-ok s tenant_id id t got).0 done refl
              refl (unsettling s t u (unfold Transitions.claim_spi_submission in ground arith)))
      ]

  pub record-Change :
      (message : SpiMessage) (outbox : List Event) (audit : AuditRecord) (u : Transfer)
      (replay : Bool) (s' : MemoryStore)
      → record_spi_submission ctx s tenant_id id token message outbox audit ≡ ok (u, replay, s')
      → Change s s'
  unfolding call
  record-Change message outbox audit u replay s' e =
      let (t, got, how) = record_inv ctx s tenant_id id token message outbox audit u replay s' e in
      elim how [
        | inl (_, _, same) ↦ unchanged s s' same
        | inr (_, done, new) ↦ subst (Change s) (sym new) (
            log-Change s (put_transfer u s) outbox (audit ∷ []) (
              moved id t u (submits token message) (get_transfer-ok s tenant_id id t got).0 done
                refl refl
                (unsettling s t u (unfold Transitions.record_spi_submission in ground arith))))
      ]

  pub release-Change :
      (error : Text) (retry_at now : Time) (s' : MemoryStore)
      → release_spi_submission ctx s tenant_id id token error retry_at now ≡ ok s'
      → Change s s'
  unfolding call
  release-Change error retry_at now s' e =
      let (t, got, how) = release_inv ctx s tenant_id id token error retry_at now s' e in
      elim how [
        | inl same ↦ unchanged s s' same
        | inr (u, done, new) ↦ subst (Change s) (sym new) (
            moved id t u (releases token error retry_at now)
              (get_transfer-ok s tenant_id id t got).0 done refl refl
              (unsettling s t u (unfold Transitions.release_spi_submission in ground arith)))
      ]

module _ (s : MemoryStore) (tenant_id id : Text) where
  pub review-Change :
      (status : TransferStatus) (reason : Text) (outbox : List Event) (audit : AuditRecord)
      (u : Transfer) (s' : MemoryStore)
      → record_review_decision s tenant_id id status reason outbox audit ≡ ok (u, s')
      → Change s s'
  unfolding call
  review-Change status reason outbox audit u s' e =
      let (t, got, done, new) = review_inv s tenant_id id status reason outbox audit u s' e in
      subst (Change s) (sym new) (
        log-Change s (put_transfer u s) outbox (audit ∷ []) (
          moved id t u (reviews status reason audit.created_at)
            (get_transfer-ok s tenant_id id t got).0 done refl refl
            (unsettling s t u (unfold Transitions.record_review_decision in ground arith))))

  settles_own :
      (t u : Transfer) (callback : SettlementCallback)
      → Transitions.record_settlement t callback ≡ ok u
      → (u.tenant_id ≡ t.tenant_id) × (u.spi_message_id ≡ callback.spi_message_id)
  unfolding Transitions.record_settlement
  settles_own t u callback e = ground (arith, text_eq_iff t.spi_message_id callback.spi_message_id)

  pub settlement-Change :
      (digest : Text → Text) (callback : SettlementCallback) (outbox : List Event)
      (audit : AuditRecord) (u : Transfer) (replay : Bool) (s' : MemoryStore)
      → update_settlement digest s tenant_id id callback outbox audit ≡ ok (u, replay, s')
      → Change s s'
  unfolding call
  settlement-Change digest callback outbox audit u replay s' e =
      let (t, got, how) =
        settlement_inv s tenant_id id digest callback outbox audit u replay s' e in
      let (found, owner) = get_transfer-ok s tenant_id id t got in
      elim how [
        | inl (_, _, same, _) ↦ unchanged s s' same
        | inr (_, free, done, new) ↦
            let (kept, spi) = settles_own t u callback done in
            let key : scoped u.tenant_id u.spi_message_id
                ≡ scoped tenant_id callback.spi_message_id =
              cc (kept, owner, spi) in
            subst (Change s) (sym new) (
              log-Change s
                (record (put_transfer u s) {
                  callbacks =
                      insert (scoped tenant_id callback.spi_message_id) (hash_of digest callback)
                        s.callbacks;
                })
                outbox (audit ∷ [])
                (moved id t u (settles callback) found done refl refl (
                  replied (hash_of digest callback) (ap (λ k. lookup k s.callbacks) key ∙ free)
                    (ap (λ k. insert k (hash_of digest callback) s.callbacks) (sym key)))))
      ]
