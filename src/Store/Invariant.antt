-- ===== src/Store/Invariant.antt =====
-- The invariant of the in-memory store (internal/store/memory.go): its three maps agree.
use pixrail_go_payment_switc.Prelude.{
  Bool, true, false, ◌≡◌, ◌≢◌, subst, ◌∙◌, none, some, Text, text_eq, text_eq_iff, Map, lookup,
  insert, lookup-insert, lookup-insert_self, Bool-cases, inl, inr, ◌⊎◌, arith,
}
use pixrail_go_payment_switc.Rail.{Transfer, TransferStatus}
use pixrail_go_payment_switc.Rail.Lifecycle
use pixrail_go_payment_switc.Store.{MemoryStore, idempotency_key, scoped, new_memory_store}

-- A settlement callback has been taken in.
abbrev pub is_settled : TransferStatus → Bool
is_settled TransferStatus.settled = true
is_settled TransferStatus.rejected = true
is_settled _ = false

pub record Coherent (transfers : Map Transfer) (idempotency callbacks : Map Text) : Type 0 where
  -- A transfer is stored under its own ID, in a state that its methods can reach.
  pub keyed : (id : Text) (t : Transfer) → lookup id transfers ≡ some t → t.id ≡ id
  pub alive : (id : Text) (t : Transfer) → lookup id transfers ≡ some t → Lifecycle.IsValid t
  -- An idempotency key leads to the one transfer that carries it.
  pub indexed :
      (key id : Text)
      → lookup key idempotency ≡ some id
      → (t : Transfer) × (lookup id transfers ≡ some t) × (idempotency_key t ≡ key)
  pub unique :
      (id : Text) (t : Transfer)
      → lookup id transfers ≡ some t
      → lookup (idempotency_key t) idempotency ≡ some id
  -- The callback that settled a transfer is on record.
  pub answered :
      (id : Text) (t : Transfer)
      → lookup id transfers ≡ some t
      → is_settled t.status ≡ true
      → (hash : Text) × (lookup (scoped t.tenant_id t.spi_message_id) callbacks ≡ some hash)

abbrev pub IsValid : MemoryStore → Type 0
IsValid s = Coherent s.transfers s.idempotency s.callbacks

pub new_memory_store-IsValid : IsValid new_memory_store
unfolding lookup
new_memory_store-IsValid = record {
  keyed = λ id t e. cc;
  alive = λ id t e. cc;
  indexed = λ key id e. cc;
  unique = λ id t e. cc;
  answered = λ id t e. λ h. cc;
}

-- What a read after a write finds: the new value at its key, or what was there.
pub lookup-insert_cases {ℓ} :
    {V : Type ℓ} (k j : Text) (v w : V) (m : Map V)
    → lookup j (insert k v m) ≡ some w
    → ((k ≡ j) × (v ≡ w)) ⊎ ((k ≢ j) × (lookup j m ≡ some w))
lookup-insert_cases k j v w m e = ground (arith, lookup-insert k j v m, text_eq_iff k j)

pub lookup-insert_ne {ℓ} :
    {V : Type ℓ} (k j : Text) (v : V) (m : Map V) → k ≢ j → lookup j (insert k v m) ≡ lookup j m
lookup-insert_ne k j v m h = ground (arith, lookup-insert k j v m, text_eq_iff k j)

pub text_cases : (a b : Text) → (a ≡ b) ⊎ (a ≢ b)
text_cases a b = elim (Bool-cases (text_eq a b)) [
  | inl e ↦ inl ((text_eq_iff a b).0 e)
  | inr e ↦ inr (λ same. cc ((text_eq_iff a b).1 same))
]

module _ (m : Map Transfer) (idem calls : Map Text) (h : Coherent m idem calls) where
  -- A stored transfer moves on: it keeps its keys, and its callback is on record if it is settled.
  pub replace-Coherent :
      (id : Text) (t u : Transfer) (calls' : Map Text)
      → lookup id m ≡ some t
      → u.id ≡ id
      → idempotency_key u ≡ idempotency_key t
      → Lifecycle.IsValid u
      → ((key hash : Text)
          → lookup key calls ≡ some hash
          → (hash' : Text) × (lookup key calls' ≡ some hash'))
      → (is_settled u.status ≡ true
          → (hash : Text) × (lookup (scoped u.tenant_id u.spi_message_id) calls' ≡ some hash))
      → Coherent (insert id u m) idem calls'
  replace-Coherent id t u calls' found at_u same_key valid grown settled = record {
    keyed = λ j w e. elim (lookup-insert_cases id j u w m e) [
      | inl (k, v) ↦ cc
      | inr (k, old) ↦ h.keyed j w old
    ];
    alive = λ j w e. elim (lookup-insert_cases id j u w m e) [
      | inl (k, v) ↦ subst Lifecycle.IsValid v valid
      | inr (k, old) ↦ h.alive j w old
    ];
    indexed = λ key j e.
        let (w, old, key_of) = h.indexed key j e in
        elim (text_cases id j) [
          | inl same ↦ (u, cc (lookup-insert_self id u m), same_key ∙ cc (found, old, same, key_of))
          | inr other ↦ (w, lookup-insert_ne id j u m other ∙ old, key_of)
        ];
    unique = λ j w e. elim (lookup-insert_cases id j u w m e) [
      | inl (k, v) ↦ cc (h.unique id t found)
      | inr (k, old) ↦ h.unique j w old
    ];
    answered = λ j w e done. elim (lookup-insert_cases id j u w m e) [
      | inl (k, v) ↦
          subst
            (λ x.
              is_settled x.status ≡ true
              → (hash : Text) × (lookup (scoped x.tenant_id x.spi_message_id) calls' ≡ some hash))
            v settled done
      | inr (k, old) ↦ let (hash, seen) = h.answered j w old done in grown _ hash seen
    ];
  }

  -- A new transfer comes in under a free ID and a free idempotency key.
  pub add-Coherent :
      (t : Transfer)
      → lookup t.id m ≡ none
      → lookup (idempotency_key t) idem ≡ none
      → Lifecycle.IsValid t
      → is_settled t.status ≡ false
      → Coherent (insert t.id t m) (insert (idempotency_key t) t.id idem) calls
  add-Coherent t free unused valid open_ = record {
    keyed = λ j w e. elim (lookup-insert_cases t.id j t w m e) [
      | inl (k, v) ↦ cc
      | inr (k, old) ↦ h.keyed j w old
    ];
    alive = λ j w e. elim (lookup-insert_cases t.id j t w m e) [
      | inl (k, v) ↦ subst Lifecycle.IsValid v valid
      | inr (k, old) ↦ h.alive j w old
    ];
    indexed = λ key j e. elim (lookup-insert_cases (idempotency_key t) key t.id j idem e) [
      | inl (k, v) ↦ (t, cc (lookup-insert_self t.id t m), k)
      | inr (k, old) ↦
          let (w, there, key_of) = h.indexed key j old in
          (w, lookup-insert_ne t.id j t m (λ same. cc) ∙ there, key_of)
    ];
    unique = λ j w e. elim (lookup-insert_cases t.id j t w m e) [
      | inl (k, v) ↦ cc (lookup-insert_self (idempotency_key t) t.id idem)
      | inr (k, old) ↦
          lookup-insert_ne (idempotency_key t) (idempotency_key w) t.id idem
            (λ same. cc (h.unique j w old))
          ∙ h.unique j w old
    ];
    answered = λ j w e done. elim (lookup-insert_cases t.id j t w m e) [
      | inl (k, v) ↦ cc
      | inr (k, old) ↦ h.answered j w old done
    ];
  }
