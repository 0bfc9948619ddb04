-- ===== src/Codec/MsgPack/RoundTrip.antt =====
-- What internal/codec/msgpack.go writes it reads back, when every length has 16 bits.
use mathlib.Core.List.{append_assoc, append-nil}
use pixrail_go_payment_switc.Prelude.{
  ◌^◌, ◌<◌, ◌≡◌, refl, [], ◌∷◌, ◌++◌, Text, IsInt64, length, All,
}
use pixrail_go_payment_switc.Codec.{PaymentEvent}
use pixrail_go_payment_switc.Codec.Bytes.{value, finish, read16}
use pixrail_go_payment_switc.Codec.MsgPack.{
  marshal_fields, marshal, read_array_len, read_fields, unmarshal,
}
use pixrail_go_payment_switc.Codec.MsgPack.Items.{
  string_bytes, int_bytes, strings_bytes, array_bytes, append_string-bytes, append_int64-bytes,
  append_string_array-bytes, Short, read_string-bytes, read_int64-bytes, read_string_array-bytes,
}

-- An event whose strings and whose list of rules are shorter than 2 ^ 16, with 64-bit numbers.
pub record IsShort (e : PaymentEvent) : Type 0 where
  pub event_id : Short e.event_id
  pub event_type : Short e.event_type
  pub tenant_id : Short e.tenant_id
  pub account_id : Short e.account_id
  pub transfer_id : Short e.transfer_id
  pub correlation_id : Short e.correlation_id
  pub occurred_at : IsInt64 e.occurred_at_unix_nano
  pub amount : IsInt64 e.amount_cents
  pub currency : Short e.currency
  pub receiver_key_type : Short e.receiver_key_type
  pub decision_reason : Short e.decision_reason
  pub spi_message_id : Short e.spi_message_id
  pub end_to_end_id : Short e.end_to_end_id
  pub score : IsInt64 e.fraud_score
  pub rules : All Short e.fraud_rules
  pub few_rules : length e.fraud_rules < 2 ^ 16

-- The fields of an event after the count.
fields_bytes : PaymentEvent → Text
fields_bytes e =
    string_bytes e.event_id
    ++ (string_bytes e.event_type
        ++ (string_bytes e.tenant_id
            ++ (string_bytes e.account_id
                ++ (string_bytes e.transfer_id
                    ++ (string_bytes e.correlation_id
                        ++ (int_bytes e.occurred_at_unix_nano
                            ++ (int_bytes e.amount_cents
                                ++ (string_bytes e.currency
                                    ++ (string_bytes e.receiver_key_type
                                        ++ (string_bytes e.decision_reason
                                            ++ (string_bytes e.spi_message_id
                                                ++ (string_bytes e.end_to_end_id
                                                    ++ (int_bytes e.fraud_score
                                                        ++ (array_bytes (length e.fraud_rules)
                                                            ++ (strings_bytes e.fraud_rules
                                                            ++ [])))))))))))))))

marshal-bytes : (e : PaymentEvent) → marshal e ≡ 0xdc ∷ 0x00 ∷ 15 ∷ fields_bytes e
unfolding marshal marshal_fields fields_bytes
marshal-bytes e =
    simp
      (append_string-bytes, append_int64-bytes, append_string_array-bytes, append_assoc, append-nil)

read_fields-bytes : (e : PaymentEvent) → IsShort e → read_fields (fields_bytes e) ≡ value (e, [])
unfolding read_fields fields_bytes
read_fields-bytes e w =
    rw
      (
        read_string-bytes e.event_id _ w.event_id,
        read_string-bytes e.event_type _ w.event_type,
        read_string-bytes e.tenant_id _ w.tenant_id,
        read_string-bytes e.account_id _ w.account_id,
        read_string-bytes e.transfer_id _ w.transfer_id,
        read_string-bytes e.correlation_id _ w.correlation_id,
        read_int64-bytes e.occurred_at_unix_nano _ w.occurred_at,
        read_int64-bytes e.amount_cents _ w.amount,
        read_string-bytes e.currency _ w.currency,
        read_string-bytes e.receiver_key_type _ w.receiver_key_type,
        read_string-bytes e.decision_reason _ w.decision_reason,
        read_string-bytes e.spi_message_id _ w.spi_message_id,
        read_string-bytes e.end_to_end_id _ w.end_to_end_id,
        read_int64-bytes e.fraud_score _ w.score,
        read_string_array-bytes e.fraud_rules [] w.rules w.few_rules,
      )
      refl

-- The MessagePack codec reads back every event that it writes, when its strings and its list of
-- rules are shorter than 2 ^ 16 and its numbers fit 64 bits.
pub unmarshal-marshal_msgpack : (e : PaymentEvent) → IsShort e → unmarshal (marshal e) ≡ value e
unfolding unmarshal read_array_len finish read16
unmarshal-marshal_msgpack e w = rw (marshal-bytes e, read_fields-bytes e w) refl
