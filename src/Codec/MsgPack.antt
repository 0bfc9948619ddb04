-- ===== src/Codec/MsgPack.antt =====
-- internal/codec/msgpack.go. Room for the list of rules is no question here: a length has 16 bits.
pub mod Items
pub mod RoundTrip
use pixrail_go_payment_switc.Prelude.{
  plain_error, ℕ, zero, suc, ◌+◌, ◌*◌, ◌/◌, ◌%◌, ◌^◌, Bool, true, false, ◌&&◌, ◌||◌, not, ◌==◌, ltb,
  ltb_ℤ, leb, leb_ℤ, List, [], ◌∷◌, ◌++◌, Text, str, ℤ, pos, pos_part, to_u64, from_u64, eqb_ℤ,
  if◌then◌else◌, length,
}
use pixrail_go_payment_switc.Rail.Request.{decimal}
use pixrail_go_payment_switc.Codec.{PaymentEvent}
use pixrail_go_payment_switc.Codec.Bytes.{
  Read, value, failed, panicked, ◌>>=◌, unexpected_eof, be16, be64, read16, read64, read_bytes,
  hex_byte, finish,
}

-- `appendMsgPackString`
unfoldable pub append_string : Text → Text → Text
append_string out s =
    if leb (length s) 31
    then (out ++ ((0xa0 + length s) ∷ [])) ++ s
    else (out ++ (0xda ∷ be16 (length s))) ++ s

-- `appendMsgPackInt64`
unfoldable pub append_int64 : Text → ℤ → Text
append_int64 out z =
    if leb_ℤ (pos 0) z && leb_ℤ z (pos 127)
    then out ++ (pos_part z ∷ [])
    else (out ++ (0xd3 ∷ [])) ++ be64 (to_u64 z)

-- The loop of `appendMsgPackStringArray`.
unfoldable pub append_strings : Text → List Text → Text
append_strings out [] = out
append_strings out (s ∷ ss) = append_strings (append_string out s) ss

unfoldable pub append_string_array : Text → List Text → Text
unfolding append_strings
append_string_array out ss =
    append_strings
      (if leb (length ss) 15
        then out ++ ((0x90 + length ss) ∷ [])
        else out ++ (0xdc ∷ be16 (length ss)))
      ss

-- `MsgPackCodec.Marshal` up to the fraud rules.
unfoldable pub marshal_fields : PaymentEvent → Text
marshal_fields e =
    let o1 = append_string (0xdc ∷ 0x00 ∷ 15 ∷ []) e.event_id in
    let o2 = append_string o1 e.event_type in
    let o3 = append_string o2 e.tenant_id in
    let o4 = append_string o3 e.account_id in
    let o5 = append_string o4 e.transfer_id in
    let o6 = append_string o5 e.correlation_id in
    let o7 = append_int64 o6 e.occurred_at_unix_nano in
    let o8 = append_int64 o7 e.amount_cents in
    let o9 = append_string o8 e.currency in
    let o10 = append_string o9 e.receiver_key_type in
    let o11 = append_string o10 e.decision_reason in
    let o12 = append_string o11 e.spi_message_id in
    let o13 = append_string o12 e.end_to_end_id in append_int64 o13 e.fraud_score

-- `MsgPackCodec.Marshal`, which never fails.
unfoldable pub marshal : PaymentEvent → Text
unfolding marshal_fields
marshal e = append_string_array (marshal_fields e) e.fraud_rules

-- `readArrayLen`
unfoldable pub read_array_len : Text → Read (ℕ × Text)
read_array_len [] = failed unexpected_eof
read_array_len (prefix ∷ raw) =
    if leb 0x90 prefix && leb prefix 0x9f
    then value (prefix % 16, raw)
    else if prefix == 0xdc
    then read16 raw
    else failed (plain_error (str "unsupported msgpack array prefix 0x" ++ hex_byte prefix))

-- The length of a string, with which `readString` begins.
unfoldable pub read_string_len : Text → Read (ℕ × Text)
read_string_len [] = failed unexpected_eof
read_string_len (prefix ∷ raw) =
    if leb 0xa0 prefix && leb prefix 0xbf
    then value (prefix % 32, raw)
    else if prefix == 0xda
    then read16 raw
    else failed (plain_error (str "unsupported msgpack string prefix 0x" ++ hex_byte prefix))

unfoldable pub read_string : Text → Read (Text × Text)
unfolding read_string_len
read_string raw = do (n, rest) ← read_string_len raw; read_bytes n rest

-- `readInt64`
unfoldable pub read_int64 : Text → Read (ℤ × Text)
read_int64 [] = failed unexpected_eof
read_int64 (prefix ∷ raw) =
    if leb prefix 0x7f
    then value (pos prefix, raw)
    else if not (prefix == 0xd3)
    then failed (plain_error (str "unsupported msgpack int prefix 0x" ++ hex_byte prefix))
    else (read64 raw >>= λ p. value (from_u64 p.0, p.1))

-- The loop of `readStringArray`.
unfoldable pub read_strings : ℕ → Text → Read (List Text × Text)
unfolding read_string
read_strings zero raw = value ([], raw)
read_strings (suc n) raw = do
  (s, rest) ← read_string raw
  (ss, end) ← read_strings n rest
  value (s ∷ ss, end)

unfoldable pub read_string_array : Text → Read (List Text × Text)
unfolding read_array_len read_strings
read_string_array raw = do (n, rest) ← read_array_len raw; read_strings n rest

-- The fields after the count.
unfoldable pub read_fields : Text → Read (PaymentEvent × Text)
unfolding read_string read_int64 read_string_array
read_fields r0 = do
  (event_id, r1) ← read_string r0
  (event_type, r2) ← read_string r1
  (tenant_id, r3) ← read_string r2
  (account_id, r4) ← read_string r3
  (transfer_id, r5) ← read_string r4
  (correlation_id, r6) ← read_string r5
  (occurred_at, r7) ← read_int64 r6
  (amount, r8) ← read_int64 r7
  (currency, r9) ← read_string r8
  (receiver_key_type, r10) ← read_string r9
  (decision_reason, r11) ← read_string r10
  (spi_message_id, r12) ← read_string r11
  (end_to_end_id, r13) ← read_string r12
  (score, r14) ← read_int64 r13
  (rules, r15) ← read_string_array r14
  value (
    record {
      event_id = event_id;
      event_type = event_type;
      tenant_id = tenant_id;
      account_id = account_id;
      transfer_id = transfer_id;
      correlation_id = correlation_id;
      occurred_at_unix_nano = occurred_at;
      amount_cents = amount;
      currency = currency;
      receiver_key_type = receiver_key_type;
      decision_reason = decision_reason;
      spi_message_id = spi_message_id;
      end_to_end_id = end_to_end_id;
      fraud_score = score;
      fraud_rules = rules;
    },
    r15,
  )

-- `MsgPackCodec.Unmarshal`
unfoldable pub unmarshal : Text → Read PaymentEvent
unfolding read_array_len read_fields
unmarshal raw = do
  (count, r0) ← read_array_len raw
  if not (count == 15)
      then failed (plain_error (str "msgpack field count " ++ decimal (pos count)))
      else (do (event, rest) ← read_fields r0; finish (str "msgpack") event rest)
