-- ===== src/Ports.antt =====
-- internal/dict/resolver.go and internal/spi/simulator.go: what stands behind the switch's resolver
-- and its SPI client. SHA-256, `strings.ToLower`, the format of a time, the waits and the clock are
-- parameters.
pub mod Laws
use pixrail_go_payment_switc.Prelude.{
  ℕ, zero, suc, ◌+◌, ◌*◌, ◌/◌, ◌%◌, Bool, true, false, ◌||◌, ◌==◌, List, [], ◌∷◌, ◌++◌, Text, str,
  trim, ℤ, pos, ltb_ℤ, leb_ℤ, Option, none, some, take, if◌then◌else◌, Result, ok, err, Error, Kind,
  fault, sentinel, ltb,
}
use pixrail_go_payment_switc.Rail.{Time, Transfer, DictKeyType, DictEntry, SpiMessage}
use pixrail_go_payment_switc.Rail.Request.{decimal}
use pixrail_go_payment_switc.Codec.Bytes.{hex_digit}

-- `hex.EncodeToString`
unfoldable pub hex : Text → Text
hex [] = []
hex (b ∷ s) = hex_digit (b / 16) ∷ hex_digit (b % 16) ∷ hex s

-- `strings.Contains`
unfoldable pub starts_with : Text → Text → Bool
starts_with [] s = true
starts_with (p ∷ ps) [] = false
starts_with (p ∷ ps) (x ∷ s) = let rest = starts_with ps s in if p == x then rest else false

unfoldable pub contains : Text → Text → Bool
unfolding starts_with
contains [] part = starts_with part []
contains (x ∷ s) part = starts_with part (x ∷ s) || contains s part

-- `hash[n]`; SHA-256 has 32 bytes.
abbrev pub byte_of : ℕ → Text → ℕ
byte_of n [] = 0
byte_of zero (b ∷ s) = b
byte_of (suc n) (b ∷ s) = byte_of n s

pub record Outside : Type 0 where
  pub sha256 : Text → Text
  pub lower : Text → Text
  -- How a wait of so many nanoseconds ends: by the timer, or by an error of the context.
  pub wait : ℤ → Option Error
  pub now : Time
  -- `Format("20060102150405")`
  pub stamp : Time → Text

pub record StaticResolver : Type 0 where
  pub latency : ℤ
  pub timeout_signal : ℤ

module _ (out : Outside) where
  -- The entry of a key that is there.
  unfoldable pub entry_of : Text → Text → DictKeyType → DictEntry
  entry_of tenant_id key key_type =
      let normalized = out.lower (trim key) in
      let hash = out.sha256 (tenant_id ++ (str ":" ++ normalized)) in
      let risky = contains normalized (str "mule") || contains normalized (str "risk") in
      record {
        key = key;
        key_type = key_type;
        receiver_id = str "dict_" ++ hex (take 6 hash);
        name = if risky then str "Conta de Alto Risco" else str "Recebedor PixRail";
        bank_ispb = decimal (pos (10000000 + byte_of 1 hash * 1000 + byte_of 2 hash));
        account_hash = hex (take 12 hash);
        risk_signal = if risky then pos 92 else pos (byte_of 0 hash % 35);
        resolved_at = out.now;
      }

  -- `Resolve` after the latency.
  unfoldable pub look_up : StaticResolver → Text → Text → DictKeyType → Result DictEntry
  unfolding entry_of
  look_up r tenant_id key key_type =
      let normalized = out.lower (trim key) in
      if contains normalized (str "missing")
      then err (fault Kind.dependency_failed (str "dict key not found"))
      else if contains normalized (str "timeout")
      then elim (out.wait
          (if leb_ℤ r.timeout_signal (pos 0) then pos 20000000 else r.timeout_signal)) [
            | some e ↦ err e
            | none ↦ err (sentinel Kind.deadline_exceeded)
          ]
      else ok (entry_of tenant_id key key_type)

  -- `StaticResolver.Resolve`
  unfoldable pub resolve : StaticResolver → Text → Text → DictKeyType → Result DictEntry
  unfolding look_up
  resolve r tenant_id key key_type =
      elim (if ltb_ℤ (pos 0) r.latency then out.wait r.latency else none) [
        | some e ↦ err e
        | none ↦ look_up r tenant_id key key_type
      ]

  -- `Simulator.Submit`
  unfoldable pub submit : Transfer → SpiMessage
  submit t =
      let sum = out.sha256 (t.id ++ (str ":" ++ (t.account_id ++ (str ":" ++ t.receiver_key)))) in
      let submitted_at = if t.created_at == 0 then out.now else t.created_at in
      record {
        message_id = str "spi_" ++ hex (take 8 sum);
        end_to_end_id = str "E" ++ (out.stamp submitted_at ++ hex (take 8 sum));
        transfer_id = t.id;
        submitted_at = submitted_at;
      }
