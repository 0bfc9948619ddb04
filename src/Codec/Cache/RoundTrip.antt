-- ===== src/Codec/Cache/RoundTrip.antt =====
-- What the codecs of internal/codec/cache.go accept, and that they read it back.
use mathlib.Core.List.{append_assoc, append-nil}
use pixrail_go_payment_switc.Prelude.{
  not_empty, ◌≡◌, refl, ◌≢◌, ◌↔◌, false, is_empty, ◌≤ℤ◌, ◌<ℤ◌, [], ◌∷◌, ◌++◌, Text, pos, IsInt64,
  from_u64-to_u64, arith, none, ok,
}
use pixrail_go_payment_switc.Codec.Bytes.{value, finish, read16}
use pixrail_go_payment_switc.Codec.Cache.{
  ParticipantProfileCache, validate, msgpack_bytes, marshal_msgpack, read_msgpack_fields,
  unmarshal_msgpack, cbor_bytes, marshal_cbor, read_cbor_fields, unmarshal_cbor,
}
use pixrail_go_payment_switc.Codec.MsgPack.{read_array_len}
use pixrail_go_payment_switc.Codec.MsgPack.Items.{
  string_bytes, int_bytes, append_string-bytes, append_int64-bytes, Short, read_string-bytes,
  read_int64-bytes,
}
use pixrail_go_payment_switc.Codec.Cbor.Heads.{
  head, text_bytes, uint_bytes, append_text-bytes, append_uint-bytes, append_array-bytes, Fits,
  read_text-bytes, read_uint-bytes, read_array_len-head,
}

-- A profile that may be cached.
pub record IsValid (p : ParticipantProfileCache) : Type 0 where
  pub receiver_id : p.receiver_id ≢ []
  pub bank_ispb : p.bank_ispb ≢ []
  pub risk : pos 0 ≤ℤ p.risk_signal
  pub resolved : pos 0 ≤ℤ p.resolved_at_unix_nano
  pub expires : p.resolved_at_unix_nano <ℤ p.expires_at_unix_nano

-- 64-bit numbers.
pub record IsMachineProfile (p : ParticipantProfileCache) : Type 0 where
  pub risk : IsInt64 p.risk_signal
  pub resolved : IsInt64 p.resolved_at_unix_nano
  pub expires : IsInt64 p.expires_at_unix_nano

msgpack_fields : ParticipantProfileCache → Text
msgpack_fields p =
    string_bytes p.receiver_id
    ++ (string_bytes p.bank_ispb
        ++ (string_bytes p.name
            ++ (int_bytes p.risk_signal
                ++ (int_bytes p.resolved_at_unix_nano
                    ++ (int_bytes p.expires_at_unix_nano ++ [])))))

msgpack_bytes_lem :
    (p : ParticipantProfileCache) → msgpack_bytes p ≡ 0xdc ∷ 0x00 ∷ 6 ∷ msgpack_fields p
unfolding msgpack_bytes msgpack_fields
msgpack_bytes_lem p = simp (append_string-bytes, append_int64-bytes, append_assoc, append-nil)

cbor_fields : ParticipantProfileCache → Text
cbor_fields p =
    text_bytes p.receiver_id
    ++ (text_bytes p.bank_ispb
        ++ (text_bytes p.name
            ++ (uint_bytes p.risk_signal
                ++ (uint_bytes p.resolved_at_unix_nano
                    ++ (uint_bytes p.expires_at_unix_nano ++ [])))))

cbor_bytes_lem : (p : ParticipantProfileCache) → cbor_bytes p ≡ head 4 6 ++ cbor_fields p
unfolding cbor_bytes cbor_fields
cbor_bytes_lem p =
    simp (append_text-bytes, append_uint-bytes, append_array-bytes, append_assoc, append-nil)

read_msgpack_fields_lem :
    (p : ParticipantProfileCache)
    → Short p.receiver_id
    → Short p.bank_ispb
    → Short p.name
    → IsMachineProfile p
    → read_msgpack_fields (msgpack_fields p) ≡ value (p, [])
unfolding read_msgpack_fields msgpack_fields
read_msgpack_fields_lem p receiver bank name w =
    rw
      (
        read_string-bytes p.receiver_id _ receiver,
        read_string-bytes p.bank_ispb _ bank,
        read_string-bytes p.name _ name,
        read_int64-bytes p.risk_signal _ w.risk,
        read_int64-bytes p.resolved_at_unix_nano _ w.resolved,
        read_int64-bytes p.expires_at_unix_nano _ w.expires,
      )
      refl

read_cbor_fields_lem :
    (p : ParticipantProfileCache)
    → Fits p.receiver_id
    → Fits p.bank_ispb
    → Fits p.name
    → IsMachineProfile p
    → read_cbor_fields (cbor_fields p) ≡ value (p, [])
unfolding read_cbor_fields cbor_fields
read_cbor_fields_lem p receiver bank name w =
    rw
      (
        read_text-bytes p.receiver_id _ receiver,
        read_text-bytes p.bank_ispb _ bank,
        read_text-bytes p.name _ name,
        read_uint-bytes p.risk_signal _,
        read_uint-bytes p.resolved_at_unix_nano _,
        read_uint-bytes p.expires_at_unix_nano _,
        from_u64-to_u64 p.risk_signal w.risk,
        from_u64-to_u64 p.resolved_at_unix_nano w.resolved,
        from_u64-to_u64 p.expires_at_unix_nano w.expires,
      )
      refl

unmarshal_msgpack-bytes :
    (p : ParticipantProfileCache)
    → Short p.receiver_id
    → Short p.bank_ispb
    → Short p.name
    → IsMachineProfile p
    → unmarshal_msgpack (msgpack_bytes p) ≡ value p
unfolding unmarshal_msgpack read_array_len read16 finish
unmarshal_msgpack-bytes p receiver bank name w =
    rw (msgpack_bytes_lem p, read_msgpack_fields_lem p receiver bank name w) refl

unmarshal_cbor-bytes :
    (p : ParticipantProfileCache)
    → Fits p.receiver_id
    → Fits p.bank_ispb
    → Fits p.name
    → IsMachineProfile p
    → unmarshal_cbor (cbor_bytes p) ≡ value p
unfolding unmarshal_cbor finish
unmarshal_cbor-bytes p receiver bank name w =
    let counted = read_array_len-head 6 (cbor_fields p) (omega arith) in
    rw (cbor_bytes_lem p, counted, read_cbor_fields_lem p receiver bank name w) refl

is_empty-false : (s : Text) → s ≢ [] → is_empty s ≡ false
is_empty-false [] h = elim (h refl) [ ]
is_empty-false (x ∷ s) h = refl

IsValid-of_accepted : (p : ParticipantProfileCache) → validate p ≡ none → IsValid p
unfolding validate
IsValid-of_accepted p h = record {
  receiver_id = not_empty p.receiver_id (ground arith);
  bank_ispb = not_empty p.bank_ispb (ground arith);
  risk = ground arith;
  resolved = ground arith;
  expires = ground arith;
}

accepted_of_valid : (p : ParticipantProfileCache) → IsValid p → validate p ≡ none
unfolding validate
accepted_of_valid p v =
    let receiver = is_empty-false p.receiver_id v.receiver_id in
    let bank = is_empty-false p.bank_ispb v.bank_ispb in
    let risk = v.risk in let resolved = v.resolved in let expires = v.expires in ground arith

pub validate-IsValid : (p : ParticipantProfileCache) → validate p ≡ none ↔ IsValid p
validate-IsValid p = (IsValid-of_accepted p, accepted_of_valid p)

-- Both codecs of the profile cache accept a valid profile with texts shorter than 2 ^ 16 and
-- 64-bit numbers, and each reads back what it wrote.
pub cache_codecs :
    (p : ParticipantProfileCache)
    → IsValid p
    → Short p.receiver_id
    → Short p.bank_ispb
    → Short p.name
    → IsMachineProfile p
    → (marshal_msgpack p ≡ ok (msgpack_bytes p))
      × (unmarshal_msgpack (msgpack_bytes p) ≡ value p)
      × (marshal_cbor p ≡ ok (cbor_bytes p))
      × (unmarshal_cbor (cbor_bytes p) ≡ value p)
unfolding marshal_msgpack marshal_cbor
cache_codecs p v receiver bank name w =
    let accepted = accepted_of_valid p v in
    (
      rw accepted refl,
      unmarshal_msgpack-bytes p receiver bank name w,
      rw accepted refl,
      unmarshal_cbor-bytes p (omega arith) (omega arith) (omega arith) w,
    )
