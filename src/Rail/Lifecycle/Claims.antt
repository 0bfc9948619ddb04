-- ===== src/Rail/Lifecycle/Claims.antt =====
-- The lease that a worker holds on a transfer while it talks to the SPI.
use pixrail_go_payment_switc.Prelude.{
  false, ◌≡◌, ◌≢◌, ◌<◌, [], Text, str, text_eq_iff, is_empty, trim, ok, err, arith, Kind, fault,
  none, some, inc64, ltb, if◌then◌else◌,
}
use pixrail_go_payment_switc.Rail.{Time, Transfer, TransferStatus, SpiMessage}
use pixrail_go_payment_switc.Rail.Transitions.{
  claim_spi_submission, record_spi_submission, release_spi_submission,
}
use pixrail_go_payment_switc.Rail.Lifecycle.Invariant.{trim-empty}

module _ (t u : Transfer) (token : Text) (until now : Time)
    (claimed : claim_spi_submission t token until now ≡ ok u) where
  -- While a claim is live no other claim with a token and an expiry ahead succeeds, not even the
  -- claiming worker's own.
  pub claim_excludes :
      (rival : Text) (rival_until later : Time)
      → is_empty (trim rival) ≡ false
      → later < rival_until
      → later < until
      → claim_spi_submission u rival rival_until later
        ≡ err (fault Kind.conflict (str "transfer already claimed for SPI submission"))
  unfolding claim_spi_submission
  claim_excludes rival rival_until later named ahead live = ground arith

  -- After a claim the claiming worker records the answer of the SPI whenever it has both
  -- identifiers, and the transfer is then approved and free of claims.
  pub claim_submits :
      (message : SpiMessage)
      → is_empty (trim message.message_id) ≡ false
      → is_empty (trim message.end_to_end_id) ≡ false
      → record_spi_submission u token message
        ≡ ok (record u {
          status = TransferStatus.approved;
          spi_message_id = message.message_id;
          end_to_end_id = message.end_to_end_id;
          spi_claim_token = [];
          spi_claimed_until = none;
          spi_last_error = [];
          updated_at = message.submitted_at;
        })
  unfolding claim_spi_submission record_spi_submission
  claim_submits message named traced = ground (arith, text_eq_iff token token, trim-empty token)

  -- After a claim nobody without its token records an answer of the SPI.
  pub claim_refuses_strangers :
      (stranger : Text) (message : SpiMessage)
      → stranger ≢ token
      → record_spi_submission u stranger message
        ≡ err (fault Kind.conflict (str "transfer is not claimed by this SPI worker"))
  unfolding claim_spi_submission record_spi_submission
  claim_refuses_strangers stranger message ne = ground (arith, text_eq_iff token stranger)

  -- After a claim the claiming worker can always let go. From then on no worker gets the transfer
  -- before the retry time, and any worker with a token and an expiry ahead gets it from the retry
  -- time on.
  pub claim_retries :
      (error : Text) (retry_at released : Time) (next : Text) (next_until later : Time)
      → is_empty (trim next) ≡ false
      → later < next_until
      → (w : Transfer) × (release_spi_submission u token error retry_at released ≡ ok w)
        × (claim_spi_submission w next next_until later ≡ (
            if ltb later retry_at
            then err (fault Kind.conflict (str "transfer already claimed for SPI submission"))
            else ok (record w {
              spi_claim_token = next;
              spi_claimed_until = some next_until;
              spi_submission_attempts = inc64 w.spi_submission_attempts;
              spi_last_error = [];
              updated_at = later;
            })))
  unfolding claim_spi_submission release_spi_submission
  claim_retries error retry_at released next next_until later named ahead = (
    record u {
      spi_claim_token = [];
      spi_claimed_until = some retry_at;
      spi_last_error = error;
      updated_at = released;
    },
    ground (arith, text_eq_iff token token, trim-empty token),
    ground arith,
  )
