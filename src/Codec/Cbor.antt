-- ===== src/Codec/Cbor.antt =====
-- internal/codec/cbor.go. `make([]string, 0, length)` panics when the length is negative or above
-- `room`, the largest capacity that the runtime can give: a parameter.
pub mod Heads
pub mod RoundTrip
use pixrail_go_payment_switc.Prelude.{
  plain_error, ℕ, zero, suc, ◌+◌, ◌*◌, ◌/◌, ◌%◌, ◌^◌, Bool, true, false, ◌||◌, not, ◌==◌, ltb,
  ltb_ℤ, leb, List, [], ◌∷◌, ◌++◌, Text, str, ℤ, pos, pos_part, to_u64, from_u64, eqb_ℤ,
  if◌then◌else◌, length,
}
use pixrail_go_payment_switc.Rail.Request.{decimal}
use pixrail_go_payment_switc.Codec.{PaymentEvent}
use pixrail_go_payment_switc.Codec.Bytes.{
  Read, value, failed, panicked, ◌>>=◌, unexpected_eof, byte, be16, be32, be64, read8, read16,
  read32, read64, read_bytes, finish,
}

-- `appendCBORMajor`: `prefix|byte(value)`, where the prefix has the upper three bits.
unfoldable pub append_major : Text → ℕ → ℕ → Text
append_major out major v =
    if ltb v 24
    then out ++ ((major * 32 + v) ∷ [])
    else if leb v 0xff
    then out ++ ((major * 32 + 24) ∷ byte v ∷ [])
    else if leb v 0xffff
    then out ++ ((major * 32 + 25) ∷ be16 v)
    else if leb v 0xffffffff
    then (out ++ ((major * 32 + 26) ∷ [])) ++ be32 v
    else (out ++ ((major * 32 + 27) ∷ [])) ++ be64 v

unfoldable pub append_array : Text → ℕ → Text
append_array out n = append_major out 4 n

unfoldable pub append_text : Text → Text → Text
append_text out s = append_major out 3 (length s) ++ s

unfoldable pub append_uint : Text → ℕ → Text
append_uint out v = append_major out 0 v

unfoldable pub append_texts : Text → List Text → Text
append_texts out [] = out
append_texts out (s ∷ ss) = append_texts (append_text out s) ss

-- `CBORCodec.Marshal` up to the fraud rules.
unfoldable pub marshal_fields : PaymentEvent → Text
marshal_fields e =
    let o1 = append_text (append_array [] 15) e.event_id in
    let o2 = append_text o1 e.event_type in
    let o3 = append_text o2 e.tenant_id in
    let o4 = append_text o3 e.account_id in
    let o5 = append_text o4 e.transfer_id in
    let o6 = append_text o5 e.correlation_id in
    let o7 = append_uint o6 (to_u64 e.occurred_at_unix_nano) in
    let o8 = append_uint o7 (to_u64 e.amount_cents) in
    let o9 = append_text o8 e.currency in
    let o10 = append_text o9 e.receiver_key_type in
    let o11 = append_text o10 e.decision_reason in
    let o12 = append_text o11 e.spi_message_id in
    let o13 = append_text o12 e.end_to_end_id in append_uint o13 (to_u64 e.fraud_score)

-- `CBORCodec.Marshal`, which never fails.
unfoldable pub marshal : PaymentEvent → Text
unfolding marshal_fields
marshal e = append_texts (append_array (marshal_fields e) (length e.fraud_rules)) e.fraud_rules

-- With the major type in front of a value.
abbrev pub with_major : ℕ → Read (ℕ × Text) → Read (ℕ × ℕ × Text)
with_major major r = r >>= λ p. value (major, p.0, p.1)

-- `readHead`: `head >> 5`, `head & 0x1f`, and the value.
unfoldable pub read_head : Text → Read (ℕ × ℕ × Text)
read_head [] = failed unexpected_eof
read_head (head ∷ raw) =
    let major = head / 32 in
    let additional = head % 32 in
    if additional == 24
    then with_major major (read8 raw)
    else if additional == 25
    then with_major major (read16 raw)
    else if additional == 26
    then with_major major (read32 raw)
    else if additional == 27
    then with_major major (read64 raw)
    else if ltb additional 24
    then value (major, additional, raw)
    else failed (plain_error (str "unsupported cbor additional info " ++ decimal (pos additional)))

-- The value of a head that must be of the major type `expected`.
unfoldable pub read_major : ℕ → Text → Text → Read (ℕ × Text)
unfolding read_head
read_major expected name raw = do
  (major, v, rest) ← read_head raw
  if not (major == expected)
      then failed (
          plain_error
            (str "expected cbor " ++ (name ++ (str ", got major " ++ decimal (pos major)))))
      else value (v, rest)

-- `readArrayLen`: `int(value)`.
unfoldable pub read_array_len : Text → Read (ℤ × Text)
unfolding read_major
read_array_len raw = do (v, rest) ← read_major 4 (str "array") raw; value (from_u64 v, rest)

unfoldable pub read_text : Text → Read (Text × Text)
unfolding read_major
read_text raw = do (v, rest) ← read_major 3 (str "text") raw; read_bytes v rest

unfoldable pub read_uint : Text → Read (ℕ × Text)
unfolding read_major
read_uint raw = read_major 0 (str "uint") raw

-- The loop of `readTextArray`.
unfoldable pub read_texts : ℕ → Text → Read (List Text × Text)
unfolding read_text
read_texts zero raw = value ([], raw)
read_texts (suc n) raw = do
  (s, rest) ← read_text raw
  (ss, end) ← read_texts n rest
  value (s ∷ ss, end)

module _ (room : ℕ) where
  unfoldable pub read_text_array : Text → Read (List Text × Text)
  unfolding read_array_len read_texts
  read_text_array raw = do
    (n, rest) ← read_array_len raw
    if ltb_ℤ n (pos 0) || ltb room (pos_part n) then panicked else read_texts (pos_part n) rest

  -- The fields after the count.
  unfoldable pub read_fields : Text → Read (PaymentEvent × Text)
  unfolding read_text read_uint read_text_array
  read_fields r0 = do
    (event_id, r1) ← read_text r0
    (event_type, r2) ← read_text r1
    (tenant_id, r3) ← read_text r2
    (account_id, r4) ← read_text r3
    (transfer_id, r5) ← read_text r4
    (correlation_id, r6) ← read_text r5
    (occurred_at, r7) ← read_uint r6
    (amount, r8) ← read_uint r7
    (currency, r9) ← read_text r8
    (receiver_key_type, r10) ← read_text r9
    (decision_reason, r11) ← read_text r10
    (spi_message_id, r12) ← read_text r11
    (end_to_end_id, r13) ← read_text r12
    (score, r14) ← read_uint r13
    (rules, r15) ← read_text_array r14
    value (
      record {
        event_id = event_id;
        event_type = event_type;
        tenant_id = tenant_id;
        account_id = account_id;
        transfer_id = transfer_id;
        correlation_id = correlation_id;
        occurred_at_unix_nano = from_u64 occurred_at;
        amount_cents = from_u64 amount;
        currency = currency;
        receiver_key_type = receiver_key_type;
        decision_reason = decision_reason;
        spi_message_id = spi_message_id;
        end_to_end_id = end_to_end_id;
        fraud_score = from_u64 score;
        fraud_rules = rules;
      },
      r15,
    )

  -- `CBORCodec.Unmarshal`
  unfoldable pub unmarshal : Text → Read PaymentEvent
  unfolding read_array_len read_fields
  unmarshal raw = do
    (count, r0) ← read_array_len raw
    if not (eqb_ℤ count (pos 15))
        then failed (plain_error (str "cbor field count " ++ decimal count))
        else (do (event, rest) ← read_fields r0; finish (str "cbor") event rest)
