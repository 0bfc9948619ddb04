-- ===== src/Codec/Proto.antt =====
-- internal/codec/proto_wire.go. `none` of a varint is the count -1; the loop of `Unmarshal` runs on as
-- much fuel as there are bytes, and is `none` when that is spent.
pub mod Varint
pub mod Loop
pub mod Fields
pub mod RoundTrip
use pixrail_go_payment_switc.Prelude.{
  plain_error, ℕ, zero, suc, ◌+◌, ◌-◌, ◌*◌, ◌/◌, ◌%◌, ◌^◌, Bool, true, false, ◌==◌, ltb, List, [],
  ◌∷◌, ◌++◌, Text, str, is_empty, ℤ, pos, to_u64, from_u64, if◌then◌else◌, length, take, drop,
  Option, none, some,
}
use pixrail_go_payment_switc.Rail.Request.{decimal}
use pixrail_go_payment_switc.Codec.{PaymentEvent}
use pixrail_go_payment_switc.Codec.Bytes.{
  Read, value, failed, panicked, ◌>>=◌, unexpected_eof, byte, slices,
}

-- The loop of `appendProtoVarintRaw`; a 64-bit number has at most ten groups of seven bits.
unfoldable pub append_groups : ℕ → Text → ℕ → Text
append_groups zero out v = out ++ (byte v ∷ [])
append_groups (suc k) out v = elim (ltb v 0x80) [
  | true ↦ out ++ (byte v ∷ [])
  | false ↦ append_groups k (out ++ ((v % 128 + 128) ∷ [])) (v / 128)
]

unfoldable pub append_varint_raw : Text → ℕ → Text
unfolding append_groups
append_varint_raw out v = append_groups 10 out v

-- `appendProtoVarint`
unfoldable pub append_varint : Text → ℕ → ℕ → Text
unfolding append_varint_raw
append_varint out field v =
    if v == 0 then out else append_varint_raw (append_varint_raw out (field * 8)) v

-- `appendProtoString`
unfoldable pub append_string : Text → ℕ → Text → Text
unfolding append_varint_raw
append_string out field s =
    if is_empty s
    then out
    else append_varint_raw (append_varint_raw out (field * 8 + 2)) (length s) ++ s

unfoldable pub append_rules : Text → List Text → Text
unfolding append_string
append_rules out [] = out
append_rules out (s ∷ ss) = append_rules (append_string out 15 s) ss

-- `ProtoWireCodec.Marshal`, which never fails.
unfoldable pub marshal : PaymentEvent → Text
marshal e =
    let o1 = append_string [] 1 e.event_id in
    let o2 = append_string o1 2 e.event_type in
    let o3 = append_string o2 3 e.tenant_id in
    let o4 = append_string o3 4 e.account_id in
    let o5 = append_string o4 5 e.transfer_id in
    let o6 = append_string o5 6 e.correlation_id in
    let o7 = append_varint o6 7 (to_u64 e.occurred_at_unix_nano) in
    let o8 = append_varint o7 8 (to_u64 e.amount_cents) in
    let o9 = append_string o8 9 e.currency in
    let o10 = append_string o9 10 e.receiver_key_type in
    let o11 = append_string o10 11 e.decision_reason in
    let o12 = append_string o11 12 e.spi_message_id in
    let o13 = append_string o12 13 e.end_to_end_id in
    let o14 = append_varint o13 14 (to_u64 e.fraud_score) in append_rules o14 e.fraud_rules

-- The loop of `readProtoVarint` at byte `i`: the value and what follows it.
unfoldable pub read_groups : ℕ → ℕ → Text → Option (ℕ × Text)
read_groups i v [] = none
read_groups i v (b ∷ raw) = elim (i == 10) [
  | true ↦ none
  | false ↦
      let so_far = v + b % 128 * 2 ^ (7 * i) % 2 ^ 64 in
      elim (ltb b 0x80) [ true ↦ some (so_far, raw) | false ↦ read_groups (suc i) so_far raw ]
]

unfoldable pub read_varint : Text → Option (ℕ × Text)
unfolding read_groups
read_varint raw = read_groups 0 0 raw

-- The text of a length, with what `readProtoString` tests.
unfoldable pub take_text : ℕ → Text → Read (Text × Text)
unfolding slices
take_text n rest =
    if ltb (length rest) n
    then failed unexpected_eof
    else if ltb (2 ^ 63 - 1) n
    then failed (plain_error (str "protobuf string too large"))
    else slices n rest

-- What is done with a varint, unless the count says that there is none.
abbrev pub with_varint {ℓ} : {A : Type ℓ} → Option (ℕ × Text) → (ℕ → Text → Read A) → Read A
with_varint none f = failed unexpected_eof
with_varint (some p) f = f p.0 p.1

unfoldable pub read_string : Text → Read (Text × Text)
unfolding read_varint take_text
read_string raw = with_varint (read_varint raw) take_text

-- The two inner switches of `Unmarshal`; other fields are skipped.
unfoldable pub set_number : ℕ → ℕ → PaymentEvent → PaymentEvent
set_number field v e =
    if field == 7
    then record e { occurred_at_unix_nano = from_u64 v }
    else if field == 8
    then record e { amount_cents = from_u64 v }
    else if field == 14
    then record e { fraud_score = from_u64 v }
    else e

unfoldable pub set_text : ℕ → Text → PaymentEvent → PaymentEvent
set_text field s e =
    if field == 1
    then record e { event_id = s }
    else if field == 2
    then record e { event_type = s }
    else if field == 3
    then record e { tenant_id = s }
    else if field == 4
    then record e { account_id = s }
    else if field == 5
    then record e { transfer_id = s }
    else if field == 6
    then record e { correlation_id = s }
    else if field == 9
    then record e { currency = s }
    else if field == 10
    then record e { receiver_key_type = s }
    else if field == 11
    then record e { decision_reason = s }
    else if field == 12
    then record e { spi_message_id = s }
    else if field == 13
    then record e { end_to_end_id = s }
    else if field == 15
    then record e { fraud_rules = e.fraud_rules ++ (s ∷ []) }
    else e

-- A pass of the loop of `Unmarshal`, from behind the key on.
unfoldable pub read_field : PaymentEvent → ℕ → Text → Read (PaymentEvent × Text)
unfolding read_varint read_string set_number set_text
read_field e key raw =
    if key % 8 == 0
    then with_varint (read_varint raw) (λ v rest. value (set_number (key / 8) v e, rest))
    else if key % 8 == 2
    then (read_string raw >>= λ p. value (set_text (key / 8) p.0 e, p.1))
    else failed (plain_error (str "unsupported protobuf wire type " ++ decimal (pos (key % 8))))

unfoldable pub step : PaymentEvent → Text → Read (PaymentEvent × Text)
unfolding read_varint read_field
step e raw = with_varint (read_varint raw) (read_field e)

-- The loop goes on with a value, and returns otherwise.
abbrev pub after {ℓ} :
    {A : Type ℓ} → Read (A × Text) → (A → Text → Option (Read A)) → Option (Read A)
after (value p) f = f p.0 p.1
after (failed x) f = some (failed x)
after panicked f = some panicked

unfoldable pub loop : ℕ → PaymentEvent → Text → Option (Read PaymentEvent)
unfolding step
loop k e [] = some (value e)
loop zero e (b ∷ raw) = none
loop (suc k) e (b ∷ raw) = after (step e (b ∷ raw)) (loop k)

-- `var event PaymentEvent`
unfoldable pub no_event : PaymentEvent
no_event = record {
  event_id = [];
  event_type = [];
  tenant_id = [];
  account_id = [];
  transfer_id = [];
  correlation_id = [];
  occurred_at_unix_nano = pos 0;
  amount_cents = pos 0;
  currency = [];
  receiver_key_type = [];
  decision_reason = [];
  spi_message_id = [];
  end_to_end_id = [];
  fraud_score = pos 0;
  fraud_rules = [];
}

-- `ProtoWireCodec.Unmarshal`
unfoldable pub unmarshal : Text → Option (Read PaymentEvent)
unfolding loop no_event
unmarshal raw = loop (length raw) no_event raw
