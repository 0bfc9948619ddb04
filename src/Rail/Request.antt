-- ===== src/Rail/Request.antt =====
-- internal/rail/model.go: `CreateTransferRequest.Validate` and the two fingerprints. The digest
-- (SHA-256 in hexadecimal) is a parameter.
use pixrail_go_payment_switc.Prelude.{
  ℕ, zero, suc, ◌+◌, ◌/◌, ◌%◌, Bool, true, false, not, List, [], ◌∷◌, ◌++◌, Text, str, text_eq,
  is_empty, trim, ℤ, pos, negsuc, leb_ℤ, ltb_ℤ, ltb, if◌then◌else◌, Result, ok, err, Kind, fault,
  ◌≡◌, refl,
}
use pixrail_go_payment_switc.Rail.{
  CreateTransferRequest, SettlementCallback, DictKeyType, SettlementStatus,
}

-- `strings.Join(parts, sep)`
unfoldable pub join : Text → List Text → Text
join sep [] = []
join sep (p ∷ []) = p
join sep (p ∷ q ∷ ps) = p ++ (sep ++ join sep (q ∷ ps))

-- `fmt.Sprintf("%d", z)`. A 64-bit integer has at most 20 digits.
unfoldable pub digits : ℕ → ℕ → Text
digits zero n = []
digits (suc fuel) n =
    let front = digits fuel (n / 10) in
    if ltb n 10 then (48 + n) ∷ [] else front ++ ((48 + n % 10) ∷ [])

unfoldable pub decimal : ℤ → Text
unfolding digits
decimal (pos n) = digits 20 n
decimal (negsuc n) = b'-' ∷ digits 20 (suc n)

unfoldable pub key_type_text : DictKeyType → Text
key_type_text DictKeyType.cpf = str "CPF"
key_type_text DictKeyType.cnpj = str "CNPJ"
key_type_text DictKeyType.email = str "EMAIL"
key_type_text DictKeyType.phone = str "PHONE"
key_type_text DictKeyType.evp = str "EVP"
key_type_text (DictKeyType.unknown s) = s

unfoldable pub settlement_text : SettlementStatus → Text
settlement_text SettlementStatus.accepted = str "accepted"
settlement_text SettlementStatus.rejected = str "rejected"
settlement_text (SettlementStatus.unknown s) = s

abbrev pub is_known_key_type : DictKeyType → Bool
is_known_key_type (DictKeyType.unknown s) = false
is_known_key_type _ = true

-- One entry of `problems`, when the test finds one.
abbrev problem_if : Bool → Text → List Text
problem_if true p = p ∷ []
problem_if false p = []

-- `Currency` with its default.
abbrev pub or_brl : Text → Text
or_brl c = if is_empty c then str "BRL" else c

abbrev pub amount_limit : ℕ
amount_limit = 2000000

unfoldable pub problems : CreateTransferRequest → List Text
problems r =
    problem_if (is_empty (trim r.tenant_id)) (str "tenant_id is required")
    ++ (problem_if (is_empty (trim r.account_id)) (str "account_id is required")
        ++ (problem_if (is_empty (trim r.idempotency_key)) (str "idempotency key is required")
            ++ (problem_if (leb_ℤ r.amount_cents (pos 0))
                  (str "amount_cents must be greater than zero")
                ++ (problem_if (ltb_ℤ (pos amount_limit) r.amount_cents)
                      (str "amount_cents exceeds per-transfer limit")
                    ++ (problem_if (not (text_eq (or_brl r.currency) (str "BRL")))
                          (str "currency must be BRL")
                        ++ (problem_if (is_empty (trim r.receiver_key))
                              (str "receiver_key is required")
                            ++ problem_if (not (is_known_key_type r.receiver_key_type))
                                (str "receiver_key_type is invalid")))))))

unfoldable pub validate : CreateTransferRequest → Result (Unit {0})
unfolding problems
validate r = elim (problems r) [
  | [] ↦ ok tt
  | p ∷ ps ↦ err (fault Kind.validation (join (str "; ") (p ∷ ps)))
]

unfoldable pub request_parts : CreateTransferRequest → List Text
request_parts r =
    trim r.tenant_id
    ∷ trim r.account_id
    ∷ decimal r.amount_cents
    ∷ or_brl (trim r.currency)
    ∷ trim r.receiver_key
    ∷ key_type_text r.receiver_key_type
    ∷ trim r.description
    ∷ []

unfoldable pub callback_parts : SettlementCallback → List Text
callback_parts c =
    trim c.tenant_id
    ∷ trim c.transfer_id
    ∷ trim c.spi_message_id
    ∷ settlement_text c.status
    ∷ trim c.code
    ∷ []

module _ (digest : Text → Text) where
  unfoldable pub hash_parts : List Text → Text
  hash_parts parts = digest (join (0 ∷ []) parts)

  -- `CreateTransferRequest.Fingerprint`
  unfoldable pub request_fingerprint : CreateTransferRequest → Text
  unfolding request_parts hash_parts
  request_fingerprint r = hash_parts (request_parts r)

  -- `SettlementCallback.Fingerprint`
  unfoldable pub callback_fingerprint : SettlementCallback → Text
  unfolding callback_parts hash_parts
  callback_fingerprint c = hash_parts (callback_parts c)

decimal_run : decimal (negsuc 1204) ≡ str "-1205"
unfolding decimal str
decimal_run = refl
