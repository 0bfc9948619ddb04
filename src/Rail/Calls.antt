-- ===== src/Rail/Calls.antt =====
-- The calls of the methods of `Transfer` (internal/rail/model.go) as data. A call that fails
-- leaves the caller with the transfer that it had.
use pixrail_go_payment_switc.Prelude.{List, [], ◌∷◌, Text, Result, ok, err}
use pixrail_go_payment_switc.Rail.{Time, Transfer, TransferStatus, SpiMessage, SettlementCallback}
use pixrail_go_payment_switc.Rail.Transitions.{
  claim_spi_submission, record_spi_submission, release_spi_submission, record_review_decision,
  record_settlement,
}

pub data Call : Type 0 where
  claims : Text → Time → Time → Call
  submits : Text → SpiMessage → Call
  releases : Text → Text → Time → Time → Call
  reviews : TransferStatus → Text → Time → Call
  settles : SettlementCallback → Call

unfoldable pub call : Transfer → Call → Result Transfer
call t (claims token until now) = claim_spi_submission t token until now
call t (submits token message) = record_spi_submission t token message
call t (releases token error retry_at now) = release_spi_submission t token error retry_at now
call t (reviews status reason at) = record_review_decision t status reason at
call t (settles callback) = record_settlement t callback

abbrev pub after : Transfer → Result Transfer → Transfer
after t (ok u) = u
after t (err e) = t

unfoldable pub history : Transfer → List Call → Transfer
unfolding call
history t [] = t
history t (c ∷ cs) = history (after t (call t c)) cs
