-- ===== src/Switch/Sound.antt =====
-- What every use case of internal/switcher/service.go must keep of the store, as long as the
-- requests that run meanwhile keep it.
use pixrail_go_payment_switc.Prelude.{ℕ, ◌≡◌}
use pixrail_go_payment_switc.Store.{MemoryStore}
use pixrail_go_payment_switc.Store.Invariant.{IsValid}
use pixrail_go_payment_switc.Store.Changes.{
  Change, Change-IsValid, Grows, Grows-refl, Grows-trans, Change-Grows,
}
use pixrail_go_payment_switc.Switch.{Env}

-- From one store to a later one the maps stay coherent, and nothing is lost.
abbrev pub Keeps : MemoryStore → MemoryStore → Type 0
Keeps s s' = IsValid s → IsValid s' × Grows s s'

abbrev pub IsSound : Env → Type 0
IsSound env = (n : ℕ) (s : MemoryStore) → Keeps s (env.meanwhile n s)

-- Nobody else writes during the use case.
abbrev pub IsQuiet : Env → Type 0
IsQuiet env = (n : ℕ) (s : MemoryStore) → env.meanwhile n s ≡ s

pub Keeps-refl : (s : MemoryStore) → Keeps s s
Keeps-refl s v = (v, Grows-refl s)

pub Keeps-trans : (a b c : MemoryStore) → Keeps a b → Keeps b c → Keeps a c
Keeps-trans a b c p q v = let (vb, gb) = p v in let (vc, gc) = q vb in (vc, Grows-trans gb gc)

pub Keeps-Change : (s s' : MemoryStore) → (IsValid s → Change s s') → Keeps s s'
Keeps-Change s s' c v = (Change-IsValid (c v) v, Change-Grows (c v) v)
