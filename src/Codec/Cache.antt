-- ===== src/Codec/Cache.antt =====
-- internal/codec/cache.go: the profile of a receiver, as the cache keeps it in MessagePack or CBOR.
pub mod RoundTrip
use pixrail_go_payment_switc.Prelude.{
  plain_error, ℕ, Bool, true, false, not, ◌==◌, List, [], ◌∷◌, ◌++◌, Text, str, is_empty, ℤ, pos,
  ltb_ℤ, leb_ℤ, to_u64, from_u64, eqb_ℤ, if◌then◌else◌, Option, none, some, Result, ok, err, Error,
}
use pixrail_go_payment_switc.Rail.Request.{decimal}
use pixrail_go_payment_switc.Codec.Bytes.{Read, value, failed, ◌>>=◌, finish}
use pixrail_go_payment_switc.Codec.Cbor
use pixrail_go_payment_switc.Codec.MsgPack

pub record ParticipantProfileCache : Type 0 where
  pub receiver_id : Text
  pub bank_ispb : Text
  pub name : Text
  pub risk_signal : ℤ
  pub resolved_at_unix_nano : ℤ
  pub expires_at_unix_nano : ℤ

-- `%w: …` of `ErrInvalidParticipantProfileCache`.
abbrev invalid : Text → Option Error
invalid message = some (plain_error (str "invalid participant profile cache: " ++ message))

-- `validateParticipantProfileCache`
unfoldable pub validate : ParticipantProfileCache → Option Error
validate p =
    if is_empty p.receiver_id
    then invalid (str "receiver_id is required")
    else if is_empty p.bank_ispb
    then invalid (str "bank_ispb is required")
    else if ltb_ℤ p.risk_signal (pos 0)
    then invalid (str "risk_signal must be non-negative")
    else if ltb_ℤ p.resolved_at_unix_nano (pos 0)
    then invalid (str "resolved_at_unix_nano must be non-negative")
    else if leb_ℤ p.expires_at_unix_nano (pos 0)
    then invalid (str "expires_at_unix_nano is required")
    else if leb_ℤ p.expires_at_unix_nano p.resolved_at_unix_nano
    then invalid (str "expires_at_unix_nano must be after resolved_at_unix_nano")
    else none

-- Bytes, unless there is an error.
abbrev pub unless : Option Error → Text → Result Text
unless none bytes = ok bytes
unless (some e) bytes = err e

-- The bytes of `ParticipantProfileMsgPackCodec.Marshal`.
unfoldable pub msgpack_bytes : ParticipantProfileCache → Text
msgpack_bytes p =
    let o1 = MsgPack.append_string (0xdc ∷ 0x00 ∷ 6 ∷ []) p.receiver_id in
    let o2 = MsgPack.append_string o1 p.bank_ispb in
    let o3 = MsgPack.append_string o2 p.name in
    let o4 = MsgPack.append_int64 o3 p.risk_signal in
    let o5 = MsgPack.append_int64 o4 p.resolved_at_unix_nano in
    MsgPack.append_int64 o5 p.expires_at_unix_nano

-- `ParticipantProfileMsgPackCodec.Marshal`
unfoldable pub marshal_msgpack : ParticipantProfileCache → Result Text
unfolding validate msgpack_bytes
marshal_msgpack p = unless (validate p) (msgpack_bytes p)

unfoldable pub read_msgpack_fields : Text → Read (ParticipantProfileCache × Text)
read_msgpack_fields r0 = do
  (receiver_id, r1) ← MsgPack.read_string r0
  (bank_ispb, r2) ← MsgPack.read_string r1
  (name, r3) ← MsgPack.read_string r2
  (risk, r4) ← MsgPack.read_int64 r3
  (resolved_at, r5) ← MsgPack.read_int64 r4
  (expires_at, r6) ← MsgPack.read_int64 r5
  value (
    record {
      receiver_id = receiver_id;
      bank_ispb = bank_ispb;
      name = name;
      risk_signal = risk;
      resolved_at_unix_nano = resolved_at;
      expires_at_unix_nano = expires_at;
    },
    r6,
  )

-- `ParticipantProfileMsgPackCodec.Unmarshal`
unfoldable pub unmarshal_msgpack : Text → Read ParticipantProfileCache
unfolding read_msgpack_fields
unmarshal_msgpack raw = do
  (count, r0) ← MsgPack.read_array_len raw
  if not (count == 6)
      then failed
          (plain_error (str "participant profile msgpack field count " ++ decimal (pos count)))
      else (do
        (profile, rest) ← read_msgpack_fields r0
        finish (str "participant profile msgpack") profile rest)

-- The bytes of `ParticipantProfileCBORCodec.Marshal`.
unfoldable pub cbor_bytes : ParticipantProfileCache → Text
cbor_bytes p =
    let o1 = Cbor.append_text (Cbor.append_array [] 6) p.receiver_id in
    let o2 = Cbor.append_text o1 p.bank_ispb in
    let o3 = Cbor.append_text o2 p.name in
    let o4 = Cbor.append_uint o3 (to_u64 p.risk_signal) in
    let o5 = Cbor.append_uint o4 (to_u64 p.resolved_at_unix_nano) in
    Cbor.append_uint o5 (to_u64 p.expires_at_unix_nano)

-- `ParticipantProfileCBORCodec.Marshal`
unfoldable pub marshal_cbor : ParticipantProfileCache → Result Text
unfolding validate cbor_bytes
marshal_cbor p = unless (validate p) (cbor_bytes p)

unfoldable pub read_cbor_fields : Text → Read (ParticipantProfileCache × Text)
read_cbor_fields r0 = do
  (receiver_id, r1) ← Cbor.read_text r0
  (bank_ispb, r2) ← Cbor.read_text r1
  (name, r3) ← Cbor.read_text r2
  (risk, r4) ← Cbor.read_uint r3
  (resolved_at, r5) ← Cbor.read_uint r4
  (expires_at, r6) ← Cbor.read_uint r5
  value (
    record {
      receiver_id = receiver_id;
      bank_ispb = bank_ispb;
      name = name;
      risk_signal = from_u64 risk;
      resolved_at_unix_nano = from_u64 resolved_at;
      expires_at_unix_nano = from_u64 expires_at;
    },
    r6,
  )

-- `ParticipantProfileCBORCodec.Unmarshal`
unfoldable pub unmarshal_cbor : Text → Read ParticipantProfileCache
unfolding read_cbor_fields
unmarshal_cbor raw = do
  (count, r0) ← Cbor.read_array_len raw
  if not (eqb_ℤ count (pos 6))
      then failed (plain_error (str "participant profile cbor field count " ++ decimal count))
      else (do
        (profile, rest) ← read_cbor_fields r0
        finish (str "participant profile cbor") profile rest)

-- `SampleParticipantProfileCache()`
unfoldable pub sample_profile : ParticipantProfileCache
sample_profile = record {
  receiver_id = str "dict_receiver_123";
  bank_ispb = str "10000000";
  name = str "Recebedor PixRail";
  risk_signal = pos 12;
  resolved_at_unix_nano = pos 1780228800000000000;
  expires_at_unix_nano = pos 1780232400000000000;
}
