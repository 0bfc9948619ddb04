-- ===== src/Store/Pending.antt =====
-- internal/store/memory.go: `PendingSPISubmissions`. Go walks a map in no fixed order and
-- `sort.Slice` is not stable: `walk` is the order of the walk, any permutation, and the sort is by
-- insertion, so every answer of the source is one of the model's.
pub mod Ready
use pixrail_go_payment_switc.Prelude.{
  ℕ, Bool, ◌&&◌, not, List, [], ◌∷◌, Option, map, ℤ, pos, pos_part, leb_ℤ, ltb, take, is_empty,
  if◌then◌else◌, Result, ok, ◌>>=◌, Error,
}
use pixrail_go_payment_switc.Rail.{Time, Transfer, TransferStatus, status_eq, claimed_after}
use pixrail_go_payment_switc.Store.{MemoryStore, health}

abbrev pub limit_or_100 : ℤ → ℕ
limit_or_100 limit = if leb_ℤ limit (pos 0) then 100 else pos_part limit

-- Accepted, not yet sent, and under no live claim.
abbrev pub submittable : Time → Transfer → Bool
submittable now t =
    (status_eq t.status TransferStatus.accepted && is_empty t.spi_message_id)
    && not (claimed_after t.spi_claimed_until now)

-- The loop over the map.
unfoldable pub select : Time → List Transfer → List Transfer
select now [] = []
select now (t ∷ ts) = let rest = select now ts in if submittable now t then t ∷ rest else rest

-- `sort.Slice` by `CreatedAt`.
unfoldable pub insert_by_age : Transfer → List Transfer → List Transfer
insert_by_age t [] = t ∷ []
insert_by_age t (u ∷ us) =
    let rest = insert_by_age t us in
    if ltb u.created_at t.created_at then u ∷ rest else t ∷ (u ∷ us)

unfoldable pub sort_by_age : List Transfer → List Transfer
unfolding insert_by_age
sort_by_age [] = []
sort_by_age (t ∷ ts) = insert_by_age t (sort_by_age ts)

unfoldable pub pending_spi_submissions :
    (List Transfer → List Transfer) → Option Error → MemoryStore → ℤ → Time → Result (List Transfer)
unfolding select sort_by_age
pending_spi_submissions walk ctx s limit now = do
  live ← health ctx
  ok (take (limit_or_100 limit) (sort_by_age (select now (walk (map (λ e. e.1) s.transfers)))))
