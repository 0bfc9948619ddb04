-- ===== src/Ports/Laws.antt =====
-- What internal/dict/resolver.go gives to the fraud rules.
use pixrail_go_payment_switc.Prelude.{
  ◌++◌, ℕ, ◌%◌, ◌≤◌, ◌≡◌, refl, sym, ap, ◌∙◌, subst, true, ◌||◌, Bool-cases, Option-cases, inl, inr,
  Text, str, trim, pos, ltb_ℤ, leb_ℤ, none, ok, if◌then◌else◌, arith,
}
use pixrail_go_payment_switc.Rail.{DictKeyType, DictEntry, CreateTransferRequest, TransferStatus}
use pixrail_go_payment_switc.Fraud.{score}
use pixrail_go_payment_switc.Fraud.Policy.{score_risky}
use pixrail_go_payment_switc.Ports.{
  Outside, StaticResolver, contains, byte_of, entry_of, look_up, resolve,
}

module _ (out : Outside) (r : StaticResolver) (tenant_id key : Text) (key_type : DictKeyType)
    (entry : DictEntry) where
  look_up-entry_of :
      look_up out r tenant_id key key_type ≡ ok entry → entry_of out tenant_id key key_type ≡ entry
  unfolding look_up
  look_up-entry_of h =
      elim (Option-cases
        (out.wait (if leb_ℤ r.timeout_signal (pos 0) then pos 20000000 else r.timeout_signal))) [
          | inl fired ↦ ground arith
          | inr (e, done) ↦ ground arith
        ]

  -- Whatever is waited for, an entry that is returned is the one of the key.
  resolve-entry_of :
      resolve out r tenant_id key key_type ≡ ok entry → entry_of out tenant_id key key_type ≡ entry
  unfolding resolve
  resolve-entry_of h =
      elim (Option-cases (if ltb_ℤ (pos 0) r.latency then out.wait r.latency else none)) [
        | inl waited ↦ look_up-entry_of (ground arith)
        | inr (e, gone) ↦ ground arith
      ]

  -- The signal is one that the fraud rules count without an overflow.
  pub resolve-risk :
      resolve out r tenant_id key key_type ≡ ok entry
      → (risk : ℕ) × (entry.risk_signal ≡ pos risk) × (risk ≤ 92)
  unfolding entry_of
  resolve-risk h =
      let it = resolve-entry_of h in
      let hash = out.sha256 (tenant_id ++ (str ":" ++ out.lower (trim key))) in
      subst (λ (x : DictEntry). (risk : ℕ) × (x.risk_signal ≡ pos risk) × (risk ≤ 92)) it
        (elim (Bool-cases (
          contains (out.lower (trim key)) (str "mule")
          || contains (out.lower (trim key)) (str "risk"))) [
            | inl risky ↦ (92, rw risky refl, omega arith)
            | inr calm ↦ (byte_of 0 hash % 35, rw calm refl, omega arith)
          ])

  -- A transfer to a key that tells of a mule or of risk is blocked, whatever its amount.
  pub resolve-blocked :
      (request : CreateTransferRequest)
      → resolve out r tenant_id key key_type ≡ ok entry
      → (contains (out.lower (trim key)) (str "mule")
          || contains (out.lower (trim key)) (str "risk"))
        ≡ true
      → (score request entry).status ≡ TransferStatus.blocked
  unfolding entry_of
  resolve-blocked request h risky =
      let it = resolve-entry_of h in
      let signal : entry.risk_signal ≡ pos 92 =
        sym (ap (λ (x : DictEntry). x.risk_signal) it) ∙ rw risky refl in
      score_risky request entry 92 signal (omega arith) (omega arith)
