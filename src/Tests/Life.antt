-- ===== src/Tests/Life.antt =====
-- The life cycle of a transfer and the fraud policy on concrete data.
use pixrail_go_payment_switc.Prelude.{
  ◌+◌, ◌≤◌, ◌<◌, ◌≡◌, ◌≢◌, refl, arith, trim, text_eq, text_eq_iff, ◌^◌, ◌≤ℤ◌, ltb, List, [], ◌∷◌,
  some, true, false, ok, err, pos, inc64, str, fault, Kind, ◌^◌, ◌≤ℤ◌, ltb, if◌then◌else◌,
}
use pixrail_go_payment_switc.Rail.{Transfer, TransferStatus}
use pixrail_go_payment_switc.Rail.Transitions.{
  claim_spi_submission, record_spi_submission, release_spi_submission, record_settlement,
}
use pixrail_go_payment_switc.Rail.Calls.{claims, submits, settles, Call, call, history}
use pixrail_go_payment_switc.Rail.Lifecycle.{
  IsValid, SameOrder, ◌⟶*◌, history-⟶*, history-SameOrder, history-IsValid, terminal-history,
  claim_excludes, claim_retries,
}
use pixrail_go_payment_switc.Fraud.{score}
use pixrail_go_payment_switc.Fraud.Policy.{points, Decides, score-Decides}
use pixrail_go_payment_switc.Tests.{
  a_transfer, a_worker, claimed_transfer, a_message, a_callback, a_request, an_entry,
}

rival_ahead : 30 < 60
rival_ahead = omega arith

still_claimed : 30 < 40
still_claimed = omega arith

next_ahead : 60 < 90
next_ahead = omega arith

room_10 : 10 + 115 < 2 ^ 63
room_10 = omega arith

room_85 : 85 + 115 < 2 ^ 63
room_85 = omega arith

high : 80 ≤ 85
high = omega arith

more : pos 1200 ≤ℤ pos 2000000
more = omega arith

v_is_not_w : b'v' ∷ [] ≢ a_worker
unfolding text_eq
v_is_not_w e = let t : false ≡ true = (text_eq_iff (b'v' ∷ []) a_worker).1 e in cc

a_transfer-IsValid : IsValid a_transfer
a_transfer-IsValid = record { known = refl; unsent = refl; unclaimed = λ ne. refl }

abbrev whole_life : List Call
whole_life = claims a_worker 40 10 ∷ submits a_worker a_message ∷ settles a_callback ∷ []

whole_life_run : (history a_transfer whole_life).status ≡ TransferStatus.settled
unfolding history call claim_spi_submission record_spi_submission record_settlement trim text_eq
whole_life_run = refl

history-⟶*_example : TransferStatus.accepted ⟶* (history a_transfer whole_life).status
history-⟶*_example = history-⟶* a_transfer whole_life

history-SameOrder_example : SameOrder a_transfer (history a_transfer whole_life)
history-SameOrder_example = history-SameOrder a_transfer whole_life

history-IsValid_example : IsValid (history a_transfer whole_life)
history-IsValid_example = history-IsValid a_transfer whole_life a_transfer-IsValid

abbrev blocked_transfer : Transfer
blocked_transfer = record a_transfer { status = TransferStatus.blocked }

terminal-history_example : history blocked_transfer whole_life ≡ blocked_transfer
terminal-history_example =
    terminal-history blocked_transfer whole_life
      (record { known = refl; unsent = refl; unclaimed = λ ne. refl }) refl

claimed_run : claim_spi_submission a_transfer a_worker 40 10 ≡ ok claimed_transfer
unfolding claim_spi_submission trim inc64
claimed_run = refl

claim_excludes_example :
    claim_spi_submission claimed_transfer (b'v' ∷ []) 60 30
    ≡ err (fault Kind.conflict (str "transfer already claimed for SPI submission"))
unfolding trim
claim_excludes_example =
    claim_excludes a_transfer claimed_transfer a_worker 40 10 claimed_run (b'v' ∷ []) 60 30 refl
      rival_ahead still_claimed

claim_retries_example :
    (w : Transfer) × (release_spi_submission claimed_transfer a_worker [] 50 20 ≡ ok w)
    × (claim_spi_submission w (b'v' ∷ []) 90 60 ≡ (
        if ltb 60 50
        then err (fault Kind.conflict (str "transfer already claimed for SPI submission"))
        else ok (record w {
          spi_claim_token = b'v' ∷ [];
          spi_claimed_until = some 90;
          spi_submission_attempts = inc64 w.spi_submission_attempts;
          spi_last_error = [];
          updated_at = 60;
        })))
unfolding trim
claim_retries_example =
    claim_retries a_transfer claimed_transfer a_worker 40 10 claimed_run [] 50 20 (b'v' ∷ []) 90 60
      refl next_ahead

score-Decides_example : Decides (score a_request an_entry).status (10 + points a_request an_entry)
score-Decides_example = score-Decides a_request an_entry 10 refl room_10
