-- ===== src/Store/Changes.antt =====
-- The ways in which a call can change the maps of the in-memory store (internal/store/memory.go),
-- and what every such change keeps.
use pixrail_go_payment_switc.Prelude.{
  true, false, ◌≡◌, sym, subst, ap, ◌∙◌, none, some, Text, Map, lookup, insert, lookup-insert_self,
  inl, inr, ok,
}
use pixrail_go_payment_switc.Rail.{Transfer}
use pixrail_go_payment_switc.Rail.Calls.{Call, call}
use pixrail_go_payment_switc.Rail.Lifecycle
use pixrail_go_payment_switc.Rail.Lifecycle.{Later, Later-refl, Later-trans}
use pixrail_go_payment_switc.Store.{MemoryStore, idempotency_key, scoped}
use pixrail_go_payment_switc.Store.Invariant.{
  Coherent, IsValid, is_settled, add-Coherent, replace-Coherent, lookup-insert_ne, text_cases,
}

-- What a move does to the callbacks: nothing, unless it settles the transfer for the first time.
pub data CallbackChange (t u : Transfer) (old new : Map Text) : Type 0 where
  silent :
      new ≡ old
      → (is_settled u.status ≡ true
          → (is_settled t.status ≡ true) × (u.spi_message_id ≡ t.spi_message_id))
      → CallbackChange t u old new
  replied :
      (hash : Text)
      → lookup (scoped u.tenant_id u.spi_message_id) old ≡ none
      → new ≡ insert (scoped u.tenant_id u.spi_message_id) hash old
      → CallbackChange t u old new

pub data Change (s s' : MemoryStore) : Type 0 where
  none_made :
      s'.transfers ≡ s.transfers
      → s'.idempotency ≡ s.idempotency
      → s'.callbacks ≡ s.callbacks
      → Change s s'
  moved :
      (id : Text) (t u : Transfer) (c : Call)
      → lookup id s.transfers ≡ some t
      → call t c ≡ ok u
      → s'.transfers ≡ insert u.id u s.transfers
      → s'.idempotency ≡ s.idempotency
      → CallbackChange t u s.callbacks s'.callbacks
      → Change s s'
  added :
      (t : Transfer)
      → lookup t.id s.transfers ≡ none
      → lookup (idempotency_key t) s.idempotency ≡ none
      → Lifecycle.IsValid t
      → is_settled t.status ≡ false
      → s'.transfers ≡ insert t.id t s.transfers
      → s'.idempotency ≡ insert (idempotency_key t) t.id s.idempotency
      → s'.callbacks ≡ s.callbacks
      → Change s s'

keep_entry :
    (k j hash old : Text) (m : Map Text)
    → lookup k m ≡ none
    → lookup j m ≡ some old
    → lookup j (insert k hash m) ≡ some old
keep_entry k j hash old m free e = lookup-insert_ne k j hash m (λ same. cc) ∙ e

CallbackChange-keeps :
    {t u : Transfer} {old new : Map Text}
    → CallbackChange t u old new
    → (key hash : Text) → lookup key old ≡ some hash
    → lookup key new ≡ some hash
CallbackChange-keeps (silent same _) key hash e = rw same e
CallbackChange-keeps {u = u} (replied h free grown) key hash e =
    rw grown (keep_entry _ key h hash _ free e)

CallbackChange-answers :
    {t u : Transfer} {old new : Map Text}
    → CallbackChange t u old new
    → u.tenant_id ≡ t.tenant_id
    → (is_settled t.status ≡ true
        → (hash : Text) × (lookup (scoped t.tenant_id t.spi_message_id) old ≡ some hash))
    → is_settled u.status ≡ true
    → (hash : Text) × (lookup (scoped u.tenant_id u.spi_message_id) new ≡ some hash)
CallbackChange-answers (silent same back) owner had done =
    let (was, spi) = back done in let (hash, e) = had was in (hash, rw (same, owner, spi) e)
CallbackChange-answers (replied h free grown) owner had done =
    (h, rw grown (lookup-insert_self _ h _))

Change-at :
    (s : MemoryStore) (id : Text) (t u : Transfer) (c : Call)
    → IsValid s
    → lookup id s.transfers ≡ some t
    → call t c ≡ ok u
    → u.id ≡ id
Change-at s id t u c v found done = (Lifecycle.call-SameOrder t u c done).id ∙ v.keyed id t found

-- Every change keeps the maps coherent.
pub Change-IsValid : {s s' : MemoryStore} → Change s s' → IsValid s → IsValid s'
Change-IsValid (none_made a b c) v = rw (a, b, c) v
Change-IsValid {s} {s'} (moved id t u c found done a b calls) v =
    let order = Lifecycle.call-SameOrder t u c done in
    let at_u = Change-at s id t u c v found done in
    rw (a, b)
      (subst (λ k. Coherent (insert k u s.transfers) s.idempotency s'.callbacks) (sym at_u)
        (replace-Coherent s.transfers s.idempotency s.callbacks v id t u s'.callbacks found at_u
          (cc (order.tenant_id, order.idempotency_key))
          (Lifecycle.call-IsValid t u c done (v.alive id t found))
          (λ key hash e. (hash, CallbackChange-keeps calls key hash e))
          (CallbackChange-answers calls order.tenant_id (v.answered id t found))))
Change-IsValid {s} (added t free unused alive fresh a b c) v =
    rw (a, b, c) (add-Coherent s.transfers s.idempotency s.callbacks v t free unused alive fresh)

-- What stays, whatever happens to the store: its transfers, its keys and its callbacks.
pub record Grows (s s' : MemoryStore) : Type 0 where
  pub kept :
      (id : Text) (t : Transfer)
      → lookup id s.transfers ≡ some t
      → (u : Transfer) × (lookup id s'.transfers ≡ some u) × Later t u
  pub keys :
      (key id : Text) → lookup key s.idempotency ≡ some id → lookup key s'.idempotency ≡ some id
  pub replies :
      (key hash : Text) → lookup key s.callbacks ≡ some hash → lookup key s'.callbacks ≡ some hash

pub Grows-refl : (s : MemoryStore) → Grows s s
Grows-refl s = record {
  kept = λ id t e. (t, e, Later-refl t);
  keys = λ key id e. e;
  replies = λ key hash e. e;
}

pub Grows-trans : {a b c : MemoryStore} → Grows a b → Grows b c → Grows a c
Grows-trans p q = record {
  kept = λ id t e.
      let (u, eu, tu) = p.kept id t e in
      let (w, ew, uw) = q.kept id u eu in (w, ew, Later-trans tu uw);
  keys = λ key id e. q.keys key id (p.keys key id e);
  replies = λ key hash e. q.replies key hash (p.replies key hash e);
}

moved_kept :
    (s : MemoryStore) (id : Text) (t u : Transfer) (c : Call)
    → IsValid s
    → lookup id s.transfers ≡ some t
    → call t c ≡ ok u
    → (j : Text) (w : Transfer) → lookup j s.transfers ≡ some w
    → (x : Transfer) × (lookup j (insert u.id u s.transfers) ≡ some x) × Later w x
moved_kept s id t u c v found done j w e = elim (text_cases u.id j) [
  | inl same ↦ (
    u,
    cc (lookup-insert_self u.id u s.transfers),
    subst (λ x. Later x u) (cc (Change-at s id t u c v found done))
        (Lifecycle.call-Later t u c (v.alive id t found) done),
  )
  | inr other ↦ (w, lookup-insert_ne u.id j u s.transfers other ∙ e, Later-refl w)
]

pub Change-Grows : {s s' : MemoryStore} → Change s s' → IsValid s → Grows s s'
Change-Grows (none_made a b c) v = record {
  kept = λ id t e. (t, rw a e, Later-refl t);
  keys = λ key id e. rw b e;
  replies = λ key hash e. rw c e;
}
Change-Grows {s} {s'} (moved id t u c found done a b calls) v = record {
  kept = λ j w e.
      let (x, at_x, later) = moved_kept s id t u c v found done j w e in
      (x, ap (lookup j) a ∙ at_x, later);
  keys = λ key j e. rw b e;
  replies = CallbackChange-keeps calls;
}
Change-Grows {s} (added t free unused alive fresh a b c) v = record {
  kept = λ j w e.
      (w, ap (lookup j) a ∙ lookup-insert_ne t.id j t s.transfers (λ same. cc) ∙ e, Later-refl w);
  keys = λ key j e. rw b (keep_entry (idempotency_key t) key t.id j s.idempotency unused e);
  replies = λ key hash e. rw c e;
}
