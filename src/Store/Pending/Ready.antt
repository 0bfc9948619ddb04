-- ===== src/Store/Pending/Ready.antt =====
-- What `PendingSPISubmissions` of internal/store/memory.go gives to the worker.
use pixrail_go_payment_switc.Prelude.{
  Text, some, none, is_empty, false, refl, ℕ, zero, suc, ◌≤◌, ◌≡◌, true, List, [], ◌∷◌, Option, map,
  ℤ, ltb, take, length, ok, Error, arith, Bool-cases, inl, inr, Result-cases,
}
use pixrail_go_payment_switc.Rail.{Time, Transfer, TransferStatus, claimed_after, accepted_when}
use pixrail_go_payment_switc.Store.{MemoryStore, health}
use pixrail_go_payment_switc.Store.Pending.{
  limit_or_100, submittable, select, insert_by_age, sort_by_age, pending_spi_submissions,
}

-- Whether the claim of a transfer has run out: there is none, or its time has come.
abbrev pub IsUnclaimed : Time → Option Time → Type 0
IsUnclaimed now none = Unit {0}
IsUnclaimed now (some until) = until ≤ now

-- A transfer that waits for its submission at `now`.
pub record IsDue (now : Time) (t : Transfer) : Type 0 where
  pub accepted : t.status ≡ TransferStatus.accepted
  pub unsent : t.spi_message_id ≡ []
  pub unclaimed : IsUnclaimed now t.spi_claimed_until

claimed_after-IsUnclaimed :
    (now : Time) (until : Option Time) → claimed_after until now ≡ false → IsUnclaimed now until
claimed_after-IsUnclaimed now none e = tt
claimed_after-IsUnclaimed now (some until) e = ground arith

empty_when : (s : Text) → is_empty s ≡ true → s ≡ []
empty_when [] e = refl
empty_when (x ∷ s) e = ground arith

submittable-IsDue : (now : Time) (t : Transfer) → submittable now t ≡ true → IsDue now t
submittable-IsDue now t e = record {
  accepted = accepted_when t.status (ground arith);
  unsent = empty_when t.spi_message_id (ground arith);
  unclaimed = claimed_after-IsUnclaimed now t.spi_claimed_until (ground arith);
}

-- Transfers that are due at `now`, the oldest first, none created before `from`.
abbrev pub IsReady : Time → Time → List Transfer → Type 0
IsReady now from [] = Unit {0}
IsReady now from (t ∷ ts) = IsDue now t × (from ≤ t.created_at) × IsReady now t.created_at ts

-- Transfers that are due, in any order.
abbrev AllDue : Time → List Transfer → Type 0
AllDue now [] = Unit {0}
AllDue now (t ∷ ts) = IsDue now t × AllDue now ts

select-AllDue : (now : Time) (ts : List Transfer) → AllDue now (select now ts)
unfolding select
select-AllDue now [] = tt
select-AllDue now (t ∷ ts) = elim (Bool-cases (submittable now t)) [
  | inl fit ↦ rw (fit, select) (submittable-IsDue now t fit, select-AllDue now ts)
  | inr unfit ↦ rw (unfit, select) (select-AllDue now ts)
]

insert_by_age-IsReady :
    (now from : Time) (t : Transfer) (ts : List Transfer)
    → IsDue now t
    → from ≤ t.created_at
    → IsReady now from ts
    → IsReady now from (insert_by_age t ts)
unfolding insert_by_age
insert_by_age-IsReady now from t [] fit le ready = (fit, le, tt)
insert_by_age-IsReady now from t (u ∷ us) fit le ready =
    elim (Bool-cases (ltb u.created_at t.created_at)) [
      | inl older ↦
          let rest = insert_by_age-IsReady now u.created_at t us fit (ground arith) ready.2 in
          rw (older, insert_by_age) (ready.0, ready.1, rest)
      | inr younger ↦
          let after : t.created_at ≤ u.created_at = ground arith in
          rw (younger, insert_by_age) (fit, le, (ready.0, after, ready.2))
    ]

sort_by_age-IsReady :
    (now : Time) (ts : List Transfer) → AllDue now ts → IsReady now 0 (sort_by_age ts)
unfolding sort_by_age
sort_by_age-IsReady now [] fit = tt
sort_by_age-IsReady now (t ∷ ts) fit =
    insert_by_age-IsReady now 0 t (sort_by_age ts) fit.0 (omega arith)
      (sort_by_age-IsReady now ts fit.1)

take-IsReady :
    (n : ℕ) (now from : Time) (ts : List Transfer)
    → IsReady now from ts
    → IsReady now from (take n ts) × (length (take n ts) ≤ n)
take-IsReady zero now from ts ready = (tt, ground arith)
take-IsReady (suc n) now from [] ready = (tt, ground arith)
take-IsReady (suc n) now from (t ∷ ts) ready =
    let rest = take-IsReady n now t.created_at ts ready.2 in
    ((ready.0, ready.1, rest.0), ground (arith, rest.1))

-- Whatever order the map is walked in, every pending submission that is returned is accepted, has
-- no SPI message, and has no claim or one that has run out; they come oldest first, and there are
-- no more of them than the limit.
pub pending_spi_submissions-IsReady :
    (walk : List Transfer → List Transfer) (ctx : Option Error) (s : MemoryStore) (limit : ℤ)
    (now : Time) (ts : List Transfer)
    → pending_spi_submissions walk ctx s limit now ≡ ok ts
    → IsReady now 0 ts × (length ts ≤ limit_or_100 limit)
unfolding pending_spi_submissions
pending_spi_submissions-IsReady walk ctx s limit now ts e =
    let chosen = select now (walk (map (λ x. x.1) s.transfers)) in
    let taken =
      take-IsReady (limit_or_100 limit) now 0 (sort_by_age chosen)
        (sort_by_age-IsReady now chosen (select-AllDue now (walk (map (λ x. x.1) s.transfers)))) in
    elim (Result-cases (health ctx)) [
      | inr (x, h) ↦ absurd (ground arith)
      | inl (u, h) ↦
          let same : take (limit_or_100 limit) (sort_by_age chosen) ≡ ts = ground arith in
          rw same at taken
    ]
