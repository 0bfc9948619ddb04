-- ===== src/Tests/Stored.antt =====
-- The in-memory store on concrete data: histories of its methods.
use pixrail_go_payment_switc.Prelude.{
  ◌≡◌, ◌≢◌, refl, List, [], ◌∷◌, none, some, Text, text_eq, text_eq_iff, lookup, insert, ok, true,
  false, All,
}
use pixrail_go_payment_switc.Rail.{Transfer}
use pixrail_go_payment_switc.Rail.Lifecycle.{Later}
use pixrail_go_payment_switc.Store.{
  MemoryStore, new_memory_store, insert_transfer, find_by_idempotency, append_events, scoped,
}
use pixrail_go_payment_switc.Store.Invariant.{IsValid, new_memory_store-IsValid}
use pixrail_go_payment_switc.Store.Changes.{Grows}
use pixrail_go_payment_switc.Store.Methods.{IsNew}
use pixrail_go_payment_switc.Store.History.{
  Op, inserts, claims, submits, settles, IsFresh, run, run-IsValid, run-Grows,
}
use pixrail_go_payment_switc.Store.Promises.{insert_once, Isolated, isolation}
use pixrail_go_payment_switc.Tests.{a_transfer, a_worker, a_message, a_callback, an_audit}

abbrev plain_digest : Text → Text
plain_digest s = s

-- The transfer goes in, is claimed, sent and settled.
abbrev some_calls : List Op
some_calls =
    claims none (b'a' ∷ []) (b't' ∷ []) a_worker 40 10
    ∷ submits none (b'a' ∷ []) (b't' ∷ []) a_worker a_message [] an_audit
    ∷ settles (b'a' ∷ []) (b't' ∷ []) a_callback [] an_audit
    ∷ []

a_transfer-IsNew : IsNew a_transfer
a_transfer-IsNew = (record { known = refl; unsent = refl; unclaimed = λ ne. refl }, refl)

rest-IsFresh : All IsFresh some_calls
rest-IsFresh = (tt, (tt, (tt, tt)))

calls-IsFresh : All IsFresh (inserts a_transfer [] [] ∷ some_calls)
calls-IsFresh = (a_transfer-IsNew, rest-IsFresh)

run-IsValid_example :
    IsValid (run plain_digest new_memory_store (inserts a_transfer [] [] ∷ some_calls))
run-IsValid_example =
    run-IsValid plain_digest new_memory_store (inserts a_transfer [] [] ∷ some_calls)
      new_memory_store-IsValid calls-IsFresh

run-Grows_example :
    Grows new_memory_store
      (run plain_digest new_memory_store (inserts a_transfer [] [] ∷ some_calls))
run-Grows_example =
    run-Grows plain_digest new_memory_store (inserts a_transfer [] [] ∷ some_calls)
      new_memory_store-IsValid calls-IsFresh

abbrev one_transfer : MemoryStore
one_transfer = record new_memory_store {
  transfers = insert (b't' ∷ []) a_transfer [];
  idempotency = insert (b'a' ∷ b':' ∷ b'k' ∷ []) (b't' ∷ []) [];
}

inserted : insert_transfer new_memory_store a_transfer [] [] ≡ ok one_transfer
unfolding insert_transfer scoped insert lookup append_events
inserted = refl

insert_once_example :
    (u : Transfer) × (find_by_idempotency none
        (run plain_digest one_transfer some_calls)
        (b'a' ∷ [])
        (b'k' ∷ [])
      ≡ ok (some u))
    × Later a_transfer u
insert_once_example =
    insert_once plain_digest new_memory_store one_transfer a_transfer [] [] some_calls
      new_memory_store-IsValid a_transfer-IsNew inserted rest-IsFresh

abbrev a_rival : Transfer
a_rival = record a_transfer { id = b'u' ∷ [] }

different_ids : a_rival.id ≢ a_transfer.id
unfolding text_eq
different_ids e = let t : false ≡ true = (text_eq_iff a_rival.id a_transfer.id).1 e in cc

other_tenant :
    (t : Transfer) → lookup (b't' ∷ []) one_transfer.transfers ≡ some t → t.tenant_id ≢ b'b' ∷ []
unfolding lookup insert text_eq
other_tenant t e same =
    let own : t.tenant_id ≡ b'a' ∷ [] = cc in
    let no_ : text_eq t.tenant_id (b'b' ∷ []) ≡ true =
      (text_eq_iff t.tenant_id (b'b' ∷ [])).1 same in
    let t' : false ≡ true = rw own at no_ in cc

isolation_example : Isolated plain_digest one_transfer (b'b' ∷ []) (b't' ∷ [])
isolation_example = isolation plain_digest one_transfer (b'b' ∷ []) (b't' ∷ []) other_tenant
