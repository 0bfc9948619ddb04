-- ===== src/Tests/Encoded.antt =====
-- Events and profiles through the codecs of internal/codec.
use pixrail_go_payment_switc.Rail.Request.{digits, decimal}
use pixrail_go_payment_switc.Prelude.{
  plain_error, to_u64, from_u64, ◌%◌, ◌^◌, ◌≡◌, refl, [], ◌∷◌, ◌++◌, str, take, drop, length, some,
  ok, err, arith,
}
use pixrail_go_payment_switc.Codec.Cache.{
  read_cbor_fields, sample_profile, validate, msgpack_bytes, marshal_msgpack, unmarshal_msgpack,
  cbor_bytes, marshal_cbor, unmarshal_cbor,
}
use pixrail_go_payment_switc.Codec.Bytes.{
  read_bytes, read8, read64, read32, read16, finish, be64, be32, be16, Read, value, failed,
  panicked,
}
use pixrail_go_payment_switc.Codec.{PaymentEvent, sample_requested, sample_blocked}
use pixrail_go_payment_switc.Codec.Cbor
use pixrail_go_payment_switc.Codec.Cbor.RoundTrip.{
  IsWritable, unmarshal-marshal_cbor, unmarshal_panics,
}
use pixrail_go_payment_switc.Codec.MsgPack
use pixrail_go_payment_switc.Codec.MsgPack.Items.{read_string-append_string}
use pixrail_go_payment_switc.Codec.MsgPack.RoundTrip.{IsShort, unmarshal-marshal_msgpack}
use pixrail_go_payment_switc.Codec.Proto
use pixrail_go_payment_switc.Codec.Proto.Loop.{IsCalm, unmarshal_ends}
use pixrail_go_payment_switc.Codec.Proto.RoundTrip.{non_empty, unmarshal-marshal_proto}
use pixrail_go_payment_switc.Codec.Cache.RoundTrip.{
  IsValid, IsMachineProfile, validate-IsValid, cache_codecs,
}

-- An event with an empty rule between two.
abbrev gappy : PaymentEvent
gappy = record sample_blocked { fraud_rules = str "a" ∷ [] ∷ str "b" ∷ [] }

sample_blocked-IsWritable : IsWritable 1000 sample_blocked
unfolding sample_blocked sample_requested str
sample_blocked-IsWritable = record {
  event_id = omega arith;
  event_type = omega arith;
  tenant_id = omega arith;
  account_id = omega arith;
  transfer_id = omega arith;
  correlation_id = omega arith;
  occurred_at = (omega arith, omega arith);
  amount = (omega arith, omega arith);
  currency = omega arith;
  receiver_key_type = omega arith;
  decision_reason = omega arith;
  spi_message_id = omega arith;
  end_to_end_id = omega arith;
  score = (omega arith, omega arith);
  rules = (omega arith, (omega arith, tt));
  few_rules = omega arith;
  room_fits = omega arith;
}

unmarshal-marshal_cbor_example :
    Cbor.unmarshal 1000 (Cbor.marshal sample_blocked) ≡ value sample_blocked
unmarshal-marshal_cbor_example =
    unmarshal-marshal_cbor 1000 sample_blocked sample_blocked-IsWritable

unmarshal_panics_example :
    Cbor.unmarshal 1000 (Cbor.append_array (Cbor.marshal_fields sample_blocked) (2 ^ 63) ++ [])
    ≡ panicked
unmarshal_panics_example =
    unmarshal_panics 1000 (2 ^ 63) sample_blocked [] sample_blocked-IsWritable (omega arith)
      (omega arith)

sample_blocked-IsShort : IsShort sample_blocked
unfolding sample_blocked sample_requested str
sample_blocked-IsShort = record {
  event_id = omega arith;
  event_type = omega arith;
  tenant_id = omega arith;
  account_id = omega arith;
  transfer_id = omega arith;
  correlation_id = omega arith;
  occurred_at = (omega arith, omega arith);
  amount = (omega arith, omega arith);
  currency = omega arith;
  receiver_key_type = omega arith;
  decision_reason = omega arith;
  spi_message_id = omega arith;
  end_to_end_id = omega arith;
  score = (omega arith, omega arith);
  rules = (omega arith, (omega arith, tt));
  few_rules = omega arith;
}

unmarshal-marshal_msgpack_example :
    MsgPack.unmarshal (MsgPack.marshal sample_blocked) ≡ value sample_blocked
unmarshal-marshal_msgpack_example = unmarshal-marshal_msgpack sample_blocked sample_blocked-IsShort

read_string-append_string_example :
    MsgPack.read_string
      (MsgPack.append_string [] (str "receiver risk over payment-rail policy") ++ (1 ∷ []))
    ≡ value (
      take
          (length (str "receiver risk over payment-rail policy") % 2 ^ 16)
          (str "receiver risk over payment-rail policy"),
      drop
            (length (str "receiver risk over payment-rail policy") % 2 ^ 16)
            (str "receiver risk over payment-rail policy")
          ++ (1 ∷ []),
    )
read_string-append_string_example =
    read_string-append_string (str "receiver risk over payment-rail policy") (1 ∷ [])

gappy-IsMachine : Proto.RoundTrip.IsMachine gappy
unfolding sample_blocked sample_requested str
gappy-IsMachine = record {
  event_id = omega arith;
  event_type = omega arith;
  tenant_id = omega arith;
  account_id = omega arith;
  transfer_id = omega arith;
  correlation_id = omega arith;
  occurred_at = (omega arith, omega arith);
  amount = (omega arith, omega arith);
  currency = omega arith;
  receiver_key_type = omega arith;
  decision_reason = omega arith;
  spi_message_id = omega arith;
  end_to_end_id = omega arith;
  score = (omega arith, omega arith);
  rules = (omega arith, (omega arith, (omega arith, tt)));
}

unmarshal-marshal_proto_example :
    Proto.unmarshal (Proto.marshal gappy)
    ≡ some (value (record gappy { fraud_rules = str "a" ∷ str "b" ∷ [] }))
unfolding non_empty str
unmarshal-marshal_proto_example = unmarshal-marshal_proto gappy gappy-IsMachine

unmarshal_ends_example :
    (r : Read PaymentEvent) × (Proto.unmarshal (8 ∷ 0xff ∷ []) ≡ some r) × IsCalm r
unmarshal_ends_example = unmarshal_ends (8 ∷ 0xff ∷ [])

sample_profile-IsMachine : IsMachineProfile sample_profile
unfolding sample_profile str
sample_profile-IsMachine = record {
  risk = (omega arith, omega arith);
  resolved = (omega arith, omega arith);
  expires = (omega arith, omega arith);
}

sample_profile-IsValid : IsValid sample_profile
unfolding validate sample_profile str
sample_profile-IsValid = (validate-IsValid sample_profile).0 refl

cache_codecs_example :
    (marshal_msgpack sample_profile ≡ ok (msgpack_bytes sample_profile))
    × (unmarshal_msgpack (msgpack_bytes sample_profile) ≡ value sample_profile)
    × (marshal_cbor sample_profile ≡ ok (cbor_bytes sample_profile))
    × (unmarshal_cbor (cbor_bytes sample_profile) ≡ value sample_profile)
unfolding sample_profile str
cache_codecs_example =
    cache_codecs sample_profile sample_profile-IsValid (omega arith) (omega arith) (omega arith)
      sample_profile-IsMachine

-- The tests of internal/codec/codec_test.go on malformed profiles.
malformed_msgpack :
    unmarshal_msgpack (0x95 ∷ [])
    ≡ failed (plain_error (str "participant profile msgpack field count 5"))
unfolding unmarshal_msgpack MsgPack.read_array_len str decimal
malformed_msgpack = refl

malformed_cbor :
    unmarshal_cbor (0x85 ∷ []) ≡ failed (plain_error (str "participant profile cbor field count 5"))
unfolding unmarshal_cbor Cbor.read_array_len from_u64 str decimal
malformed_cbor = refl

trailing_cbor :
    unmarshal_cbor (cbor_bytes sample_profile ++ (0 ∷ []))
    ≡ failed (plain_error (str "participant profile cbor trailing bytes 1"))
unfolding unmarshal_cbor Cbor.read_array_len cbor_bytes Cbor.append_uint Cbor.append_major to_u64
    sample_profile Cbor.append_text str Cbor.append_array from_u64 Cbor.read_text read_bytes be64
    Cbor.read_uint read64 finish be16 be32 read16 read32 read8 read_cbor_fields Cbor.read_head
    Cbor.read_major decimal digits
trailing_cbor = refl

sample_expired :
    marshal_cbor
      (record sample_profile { expires_at_unix_nano = sample_profile.resolved_at_unix_nano })
    ≡ err (
        plain_error (
          str
            "invalid participant profile cache: expires_at_unix_nano must be after resolved_at_unix_nano"))
unfolding marshal_cbor sample_profile str
sample_expired = refl
