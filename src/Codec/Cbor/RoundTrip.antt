-- ===== src/Codec/Cbor/RoundTrip.antt =====
-- What internal/codec/cbor.go writes it reads back.
use mathlib.Core.List.{append_assoc, append-nil}
use pixrail_go_payment_switc.Prelude.{
  ℕ, ◌^◌, ◌≤◌, ◌<◌, ◌≡◌, refl, List, [], ◌++◌, Text, str, from_u64, from_u64-to_u64, IsInt64,
  length, arith, All,
}
use pixrail_go_payment_switc.Codec.{PaymentEvent}
use pixrail_go_payment_switc.Codec.Bytes.{value, panicked, ◌>>=◌, bind_assoc, finish}
use pixrail_go_payment_switc.Codec.Cbor.{
  append_array, marshal_fields, marshal, read_array_len, read_text_array, read_fields, unmarshal,
}
use pixrail_go_payment_switc.Codec.Cbor.Heads.{
  head, text_bytes, uint_bytes, texts_bytes, Fits, append_text-bytes, append_uint-bytes,
  append_array-bytes, append_texts-bytes, read_text-bytes, read_uint-bytes, read_array_len-head,
  read_texts-bytes, read_major-head,
}

-- An event that a Go program can hold: every string and every list of it is shorter than 2 ^ 63, its
-- numbers are 64-bit integers, and there is room for its rules.
pub record IsWritable (room : ℕ) (e : PaymentEvent) : Type 0 where
  pub event_id : Fits e.event_id
  pub event_type : Fits e.event_type
  pub tenant_id : Fits e.tenant_id
  pub account_id : Fits e.account_id
  pub transfer_id : Fits e.transfer_id
  pub correlation_id : Fits e.correlation_id
  pub occurred_at : IsInt64 e.occurred_at_unix_nano
  pub amount : IsInt64 e.amount_cents
  pub currency : Fits e.currency
  pub receiver_key_type : Fits e.receiver_key_type
  pub decision_reason : Fits e.decision_reason
  pub spi_message_id : Fits e.spi_message_id
  pub end_to_end_id : Fits e.end_to_end_id
  pub score : IsInt64 e.fraud_score
  pub rules : All Fits e.fraud_rules
  pub few_rules : length e.fraud_rules ≤ room
  pub room_fits : room < 2 ^ 63

read_text_array-bytes :
    (room : ℕ) (ss : List Text) (rest : Text)
    → All Fits ss
    → length ss ≤ room
    → room < 2 ^ 63
    → read_text_array room (head 4 (length ss) ++ (texts_bytes ss ++ rest)) ≡ value (ss, rest)
unfolding read_text_array
read_text_array-bytes room ss rest fit few small =
    let counted = read_array_len-head (length ss) (texts_bytes ss ++ rest) (omega arith) in
    let listed = read_texts-bytes ss rest fit in rw counted (ground (arith, listed))

-- The fields of an event after the count, and what stands for its rules.
fields_then : PaymentEvent → Text → Text
fields_then e tail =
    text_bytes e.event_id
    ++ (text_bytes e.event_type
        ++ (text_bytes e.tenant_id
            ++ (text_bytes e.account_id
                ++ (text_bytes e.transfer_id
                    ++ (text_bytes e.correlation_id
                        ++ (uint_bytes e.occurred_at_unix_nano
                            ++ (uint_bytes e.amount_cents
                                ++ (text_bytes e.currency
                                    ++ (text_bytes e.receiver_key_type
                                        ++ (text_bytes e.decision_reason
                                            ++ (text_bytes e.spi_message_id
                                                ++ (text_bytes e.end_to_end_id
                                                    ++ (uint_bytes e.fraud_score
                                                        ++ tail)))))))))))))

marshal_fields-bytes :
    (e : PaymentEvent) (tail : Text) → marshal_fields e ++ tail ≡ head 4 15 ++ fields_then e tail
unfolding marshal_fields fields_then
marshal_fields-bytes e tail =
    simp (append_text-bytes, append_uint-bytes, append_array-bytes, append_assoc)

marshal-bytes :
    (e : PaymentEvent)
    → marshal e
      ≡ marshal_fields e ++ (head 4 (length e.fraud_rules) ++ (texts_bytes e.fraud_rules ++ []))
unfolding marshal
marshal-bytes e = simp (append_array-bytes, append_texts-bytes, append_assoc, append-nil)

read_fields-then :
    (room : ℕ) (e : PaymentEvent) (tail : Text)
    → IsWritable room e
    → read_fields room (fields_then e tail)
      ≡ (read_text_array room tail >>= λ p. value (record e { fraud_rules = p.0 }, p.1))
unfolding read_fields fields_then
read_fields-then room e tail w =
    rw
      (
        read_text-bytes e.event_id _ w.event_id,
        read_text-bytes e.event_type _ w.event_type,
        read_text-bytes e.tenant_id _ w.tenant_id,
        read_text-bytes e.account_id _ w.account_id,
        read_text-bytes e.transfer_id _ w.transfer_id,
        read_text-bytes e.correlation_id _ w.correlation_id,
        read_uint-bytes e.occurred_at_unix_nano _,
        read_uint-bytes e.amount_cents _,
        read_text-bytes e.currency _ w.currency,
        read_text-bytes e.receiver_key_type _ w.receiver_key_type,
        read_text-bytes e.decision_reason _ w.decision_reason,
        read_text-bytes e.spi_message_id _ w.spi_message_id,
        read_text-bytes e.end_to_end_id _ w.end_to_end_id,
        read_uint-bytes e.fraud_score _,
        from_u64-to_u64 e.occurred_at_unix_nano w.occurred_at,
        from_u64-to_u64 e.amount_cents w.amount,
        from_u64-to_u64 e.fraud_score w.score,
      )
      refl

-- A reader that has the fields of an event before it goes on to the rules.
unmarshal-then :
    (room : ℕ) (e : PaymentEvent) (tail : Text)
    → IsWritable room e
    → unmarshal room (marshal_fields e ++ tail) ≡ (
        read_text_array room tail >>= λ p. finish (str "cbor") (record e { fraud_rules = p.0 }) p.1)
unfolding unmarshal
unmarshal-then room e tail w =
    let counted = read_array_len-head 15 (fields_then e tail) (omega arith) in
    rw (marshal_fields-bytes e tail, counted, read_fields-then room e tail w)
      (bind_assoc (read_text_array room tail) _ _)

-- The CBOR codec reads back every event that it writes, when its strings are shorter than 2 ^ 63,
-- its numbers fit 64 bits and there is room for as many rules.
pub unmarshal-marshal_cbor :
    (room : ℕ) (e : PaymentEvent) → IsWritable room e → unmarshal room (marshal e) ≡ value e
unfolding finish
unmarshal-marshal_cbor room e w =
    let listed = read_text_array-bytes room e.fraud_rules [] w.rules w.few_rules w.room_fits in
    rw (marshal-bytes e, unmarshal-then room e _ w, listed) refl

read_text_array_panics :
    (room n : ℕ) (rest : Text)
    → room < 2 ^ 63
    → room < n
    → n < 2 ^ 64
    → read_text_array room (head 4 n ++ rest) ≡ panicked
unfolding read_text_array read_array_len from_u64
read_text_array_panics room n rest fits above small =
    rw (read_major-head 4 n (str "array") rest small) (ground arith)

-- An event whose fields the CBOR codec wrote, followed by the head of an array longer than there
-- is room for, makes the reader panic, whatever comes after.
pub unmarshal_panics :
    (room n : ℕ) (e : PaymentEvent) (rest : Text)
    → IsWritable room e
    → room < n
    → n < 2 ^ 64
    → unmarshal room (append_array (marshal_fields e) n ++ rest) ≡ panicked
unmarshal_panics room n e rest w above small =
    rw
      (
        append_array-bytes (marshal_fields e) n,
        append_assoc (marshal_fields e) (head 4 n) rest,
        unmarshal-then room e (head 4 n ++ rest) w,
        read_text_array_panics room n rest w.room_fits above small,
      )
      refl
