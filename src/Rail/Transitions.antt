-- ===== src/Rail/Transitions.antt =====
-- internal/rail/model.go: the five methods of `Transfer` that move its state.
use pixrail_go_payment_switc.Prelude.{
  Bool, ◌&&◌, ◌||◌, not, [], Option, none, some, Text, str, text_eq, is_empty, trim, inc64, ltb,
  if◌then◌else◌, Result, ok, err, Kind, fault,
}
use pixrail_go_payment_switc.Rail.{
  Time, Transfer, TransferStatus, SpiMessage, SettlementCallback, SettlementStatus, status_eq,
  terminal, claimed_after,
}

unfoldable pub claim_spi_submission : Transfer → Text → Time → Time → Result Transfer
claim_spi_submission t claim_token claim_until now =
    if is_empty (trim claim_token) || not (ltb now claim_until)
    then err (fault Kind.validation (str "valid spi claim token and expiry are required"))
    else if not (status_eq t.status TransferStatus.accepted)
    then err (fault Kind.conflict (str "transfer is not pending SPI submission"))
    else if claimed_after t.spi_claimed_until now
    then err (fault Kind.conflict (str "transfer already claimed for SPI submission"))
    else ok (record t {
      spi_claim_token = claim_token;
      spi_claimed_until = some claim_until;
      spi_submission_attempts = inc64 t.spi_submission_attempts;
      spi_last_error = [];
      updated_at = now;
    })

-- `t.SPIClaimToken == "" || t.SPIClaimToken != claimToken`
abbrev pub not_claimed_by : Transfer → Text → Bool
not_claimed_by t claim_token =
    is_empty t.spi_claim_token || not (text_eq t.spi_claim_token claim_token)

unfoldable pub record_spi_submission : Transfer → Text → SpiMessage → Result Transfer
record_spi_submission t claim_token message =
    if not (status_eq t.status TransferStatus.accepted)
    then err (fault Kind.conflict (str "transfer is not pending SPI submission"))
    else if not_claimed_by t claim_token
    then err (fault Kind.conflict (str "transfer is not claimed by this SPI worker"))
    else if is_empty (trim message.message_id) || is_empty (trim message.end_to_end_id)
    then err (fault Kind.validation (str "spi identifiers are required"))
    else ok (record t {
      status = TransferStatus.approved;
      spi_message_id = message.message_id;
      end_to_end_id = message.end_to_end_id;
      spi_claim_token = [];
      spi_claimed_until = none;
      spi_last_error = [];
      updated_at = message.submitted_at;
    })

unfoldable pub release_spi_submission : Transfer → Text → Text → Time → Time → Result Transfer
release_spi_submission t claim_token last_error retry_at now =
    if status_eq t.status TransferStatus.approved && not (is_empty t.spi_message_id)
    then ok t
    else if not_claimed_by t claim_token
    then err (fault Kind.conflict (str "transfer is not claimed by this SPI worker"))
    else ok (record t {
      spi_claim_token = [];
      spi_claimed_until = some retry_at;
      spi_last_error = last_error;
      updated_at = now;
    })

unfoldable pub record_review_decision : Transfer → TransferStatus → Text → Time → Result Transfer
record_review_decision t status reason reviewed_at =
    if not (status_eq t.status TransferStatus.review)
    then err (fault Kind.conflict (str "transfer is not waiting for review"))
    else if status_eq status TransferStatus.accepted || status_eq status TransferStatus.blocked
    then ok (record t {
      status = status;
      decision_reason = if is_empty reason then t.decision_reason else reason;
      updated_at = reviewed_at;
    })
    else err (fault Kind.validation (str "review can only accept or block"))

-- The status that a settlement callback asks for.
abbrev pub settled_status : SettlementStatus → Option TransferStatus
settled_status SettlementStatus.accepted = some TransferStatus.settled
settled_status SettlementStatus.rejected = some TransferStatus.rejected
settled_status (SettlementStatus.unknown s) = none

abbrev settle_as : Transfer → SettlementCallback → Option TransferStatus → Result Transfer
settle_as t callback none = err (fault Kind.validation (str "unsupported settlement status"))
settle_as t callback (some status) = ok (record t {
  status = status;
  settlement_code = callback.code;
  updated_at = callback.received_at;
})

unfoldable pub record_settlement : Transfer → SettlementCallback → Result Transfer
record_settlement t callback =
    if is_empty t.spi_message_id || not (text_eq t.spi_message_id callback.spi_message_id)
    then err (fault Kind.conflict (str "spi_message_id mismatch"))
    else if terminal t.status
    then err (fault Kind.conflict (str "terminal transfer has no matching callback hash"))
    else if not (status_eq t.status TransferStatus.approved)
    then err (fault Kind.conflict (str "transfer is not approved for settlement callback"))
    else settle_as t callback (settled_status callback.status)
