-- ===== src/Codec/Proto/RoundTrip.antt =====
-- What internal/codec/proto_wire.go writes it reads back, but for empty rules.
use mathlib.Core.List.{append_assoc, append-nil}
use pixrail_go_payment_switc.Prelude.{
  ℕ, ◌≡◌, refl, ◌∙◌, List, [], ◌∷◌, ◌++◌, Text, to_u64, from_u64, from_u64-to_u64, IsInt64, arith,
  All, some,
}
use pixrail_go_payment_switc.Codec.{PaymentEvent}
use pixrail_go_payment_switc.Codec.Bytes.{value}
use pixrail_go_payment_switc.Codec.Cbor.Heads.{Fits}
use pixrail_go_payment_switc.Codec.Proto.{
  append_string, marshal, set_number, set_text, loop, no_event, unmarshal,
}
use pixrail_go_payment_switc.Codec.Proto.Fields.{
  text_field, number_field, rules_fields, append_string-field, append_varint-field,
  append_rules-fields, run, run-nonempty, run-text_field, run-number_field,
}

-- The rules that are not empty.
unfoldable pub non_empty : List Text → List Text
non_empty [] = []
non_empty ([] ∷ ss) = non_empty ss
non_empty ((x ∷ s) ∷ ss) = (x ∷ s) ∷ non_empty ss

-- The event once the rules are read.
abbrev with_rules : PaymentEvent → List Text → PaymentEvent
with_rules e ss = record e { fraud_rules = e.fraud_rules ++ non_empty ss }

run-no_rules : (e : PaymentEvent) → run e [] ≡ some (value (with_rules e []))
unfolding run loop non_empty
run-no_rules e = rw (append-nil e.fraud_rules) refl

rules_fields-empty : (ss : List Text) → rules_fields ([] ∷ ss) ≡ rules_fields ss
unfolding rules_fields text_field append_string
rules_fields-empty ss = refl

run-rule :
    (e : PaymentEvent) (x : ℕ) (s : Text) (ss : List Text)
    → Fits (x ∷ s)
    → run e (rules_fields ((x ∷ s) ∷ ss) ++ [])
      ≡ run (record e { fraud_rules = e.fraud_rules ++ ((x ∷ s) ∷ []) }) (rules_fields ss ++ [])
unfolding rules_fields set_text
run-rule e x s ss fits =
    rw (append_assoc (text_field 15 (x ∷ s)) (rules_fields ss) [])
      (run-nonempty 15 x s (rules_fields ss ++ []) e (omega arith) fits)

run-rules_fields :
    (e : PaymentEvent) (ss : List Text)
    → All Fits ss
    → run e (rules_fields ss ++ []) ≡ some (value (with_rules e ss))
unfolding non_empty
run-rules_fields e [] h = unfold rules_fields in run-no_rules e
run-rules_fields e ([] ∷ ss) h = rw (rules_fields-empty ss) (run-rules_fields e ss h.1)
run-rules_fields e ((x ∷ s) ∷ ss) h =
    run-rule e x s ss h.0
    ∙ (run-rules_fields (record e { fraud_rules = e.fraud_rules ++ ((x ∷ s) ∷ []) }) ss h.1
        ∙ rw (append_assoc e.fraud_rules ((x ∷ s) ∷ []) (non_empty ss)) refl)

-- Strings and numbers that a Go program can hold.
pub record IsMachine (e : PaymentEvent) : Type 0 where
  pub event_id : Fits e.event_id
  pub event_type : Fits e.event_type
  pub tenant_id : Fits e.tenant_id
  pub account_id : Fits e.account_id
  pub transfer_id : Fits e.transfer_id
  pub correlation_id : Fits e.correlation_id
  pub occurred_at : IsInt64 e.occurred_at_unix_nano
  pub amount : IsInt64 e.amount_cents
  pub currency : Fits e.currency
  pub receiver_key_type : Fits e.receiver_key_type
  pub decision_reason : Fits e.decision_reason
  pub spi_message_id : Fits e.spi_message_id
  pub end_to_end_id : Fits e.end_to_end_id
  pub score : IsInt64 e.fraud_score
  pub rules : All Fits e.fraud_rules

message : PaymentEvent → Text
message e =
    text_field 1 e.event_id
    ++ (text_field 2 e.event_type
        ++ (text_field 3 e.tenant_id
            ++ (text_field 4 e.account_id
                ++ (text_field 5 e.transfer_id
                    ++ (text_field 6 e.correlation_id
                        ++ (number_field 7 e.occurred_at_unix_nano
                            ++ (number_field 8 e.amount_cents
                                ++ (text_field 9 e.currency
                                    ++ (text_field 10 e.receiver_key_type
                                        ++ (text_field 11 e.decision_reason
                                            ++ (text_field 12 e.spi_message_id
                                                ++ (text_field 13 e.end_to_end_id
                                                    ++ (number_field 14 e.fraud_score
                                                        ++ (rules_fields e.fraud_rules
                                                            ++ []))))))))))))))

marshal-message : (e : PaymentEvent) → marshal e ≡ message e
unfolding marshal message
marshal-message e =
    simp (append_string-field, append_varint-field, append_rules-fields, append_assoc, append-nil)

numbers_kept :
    (e : PaymentEvent)
    → IsMachine e
    → some (
        value (
          with_rules
            (record e {
              occurred_at_unix_nano = from_u64 (to_u64 e.occurred_at_unix_nano);
              amount_cents = from_u64 (to_u64 e.amount_cents);
              fraud_score = from_u64 (to_u64 e.fraud_score);
              fraud_rules = [];
            })
            e.fraud_rules))
      ≡ some (value (record e { fraud_rules = non_empty e.fraud_rules }))
numbers_kept e w =
    rw
      (
        from_u64-to_u64 e.occurred_at_unix_nano w.occurred_at,
        from_u64-to_u64 e.amount_cents w.amount,
        from_u64-to_u64 e.fraud_score w.score,
      )
      refl

run-message :
    (e : PaymentEvent)
    → IsMachine e
    → run no_event (message e) ≡ some (value (record e { fraud_rules = non_empty e.fraud_rules }))
unfolding message no_event set_text set_number from_u64
run-message e w =
    let e1 = set_text 1 e.event_id no_event in
    let e2 = set_text 2 e.event_type e1 in
    let e3 = set_text 3 e.tenant_id e2 in
    let e4 = set_text 4 e.account_id e3 in
    let e5 = set_text 5 e.transfer_id e4 in
    let e6 = set_text 6 e.correlation_id e5 in
    let e7 = set_number 7 (to_u64 e.occurred_at_unix_nano) e6 in
    let e8 = set_number 8 (to_u64 e.amount_cents) e7 in
    let e9 = set_text 9 e.currency e8 in
    let e10 = set_text 10 e.receiver_key_type e9 in
    let e11 = set_text 11 e.decision_reason e10 in
    let e12 = set_text 12 e.spi_message_id e11 in
    let e13 = set_text 13 e.end_to_end_id e12 in
    let e14 = set_number 14 (to_u64 e.fraud_score) e13 in
    run-text_field 1 e.event_id _ no_event (omega arith) w.event_id refl
    ∙ (run-text_field 2 e.event_type _ e1 (omega arith) w.event_type refl
        ∙ (run-text_field 3 e.tenant_id _ e2 (omega arith) w.tenant_id refl
            ∙ (run-text_field 4 e.account_id _ e3 (omega arith) w.account_id refl
                ∙ (run-text_field 5 e.transfer_id _ e4 (omega arith) w.transfer_id refl
                    ∙ (run-text_field 6 e.correlation_id _ e5 (omega arith) w.correlation_id refl
                        ∙ (run-number_field 7 e.occurred_at_unix_nano _ e6 (omega arith) refl
                            ∙ (run-number_field 8 e.amount_cents _ e7 (omega arith) refl
                                ∙ (run-text_field 9 e.currency _ e8 (omega arith) w.currency refl
                                    ∙ (run-text_field 10 e.receiver_key_type _ e9 (omega arith)
                                          w.receiver_key_type refl
                                        ∙ (run-text_field 11 e.decision_reason _ e10 (omega arith)
                                              w.decision_reason refl
                                            ∙ (run-text_field 12 e.spi_message_id _ e11
                                                  (omega arith) w.spi_message_id refl
                                                ∙ (run-text_field 13 e.end_to_end_id _ e12
                                                      (omega arith) w.end_to_end_id refl
                                                    ∙ (run-number_field 14 e.fraud_score _ e13
                                                          (omega arith) refl
                                                        ∙ (run-rules_fields e14 e.fraud_rules
                                                            w.rules
                                                            ∙ numbers_kept e w))))))))))))))

-- The protobuf codec reads every event that it writes, with strings shorter than 2 ^ 63 and
-- 64-bit numbers, back within its fuel as the same event without its empty fraud rules.
pub unmarshal-marshal_proto :
    (e : PaymentEvent)
    → IsMachine e
    → unmarshal (marshal e) ≡ some (value (record e { fraud_rules = non_empty e.fraud_rules }))
unfolding unmarshal run
unmarshal-marshal_proto e w = rw (marshal-message e) (run-message e w)
