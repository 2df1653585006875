-- ===== src/Store/Unique.antt =====
-- internal/store/store.go: the constraints of the table `leases`, and what the statements on it
-- keep.
use dhcp_server.Base.{ℕ, ◌≡◌, refl, true, false}
use dhcp_server.Base.{List, arith}
use dhcp_server.Base.Outcome.{ok}
use dhcp_server.Base.{◌==◌, some}
use dhcp_server.Base.Upsert.{upsert, upsert-mem}
use dhcp_server.Store.{Lease}
use dhcp_server.Store.Table.{is_at, is_of, is_rival, overwrite, save_lease, or_violation-eq-ok}
use mathlib.Core.List.{Memᴰ}

-- UNIQUE (scope_id, ip_addr).
unfoldable pub HasUniqueAddresses : List Lease → Type 0
HasUniqueAddresses ls =
    (k l : Lease) → Memᴰ k ls → Memᴰ l ls → k.scope_id ≡ l.scope_id → k.ip_addr ≡ l.ip_addr → k ≡ l

-- UNIQUE (scope_id, mac_addr).
unfoldable pub HasUniqueClients : List Lease → Type 0
HasUniqueClients ls =
    (k l : Lease)
    → Memᴰ k ls
    → Memᴰ l ls
    → k.scope_id ≡ l.scope_id
    → k.mac_addr ≡ l.mac_addr
    → k ≡ l

-- The primary key.
unfoldable pub HasUniqueIds : List Lease → Type 0
HasUniqueIds ls = (k l : Lease) → Memᴰ k ls → Memᴰ l ls → k.id ≡ l.id → k ≡ l

pub is_at-true : (s a : ℕ) (l : Lease) → is_at s a l ≡ true → (l.scope_id ≡ s) × (l.ip_addr ≡ a)
unfolding is_at
is_at-true s a l h = ground arith

pub is_at_of_eq : (s a : ℕ) (l : Lease) → l.scope_id ≡ s → l.ip_addr ≡ a → is_at s a l ≡ true
unfolding is_at
is_at_of_eq s a l h k = ground arith

pub is_of-true : (s m : ℕ) (l : Lease) → is_of s m l ≡ true → (l.scope_id ≡ s) × (l.mac_addr ≡ m)
unfolding is_of
is_of-true s m l h = ground arith

pub is_of_of_eq : (s m : ℕ) (l : Lease) → l.scope_id ≡ s → l.mac_addr ≡ m → is_of s m l ≡ true
unfolding is_of
is_of_of_eq s m l h k = ground arith

pub overwrite-elsewhere :
    (new l : Lease) → is_at new.scope_id new.ip_addr l ≡ false → overwrite new l ≡ l
unfolding overwrite
overwrite-elsewhere new l h = rw h refl

-- saveLeaseTx is an INSERT … ON CONFLICT.
pub save_lease-upsert :
    (new : Lease) (ls ls' : List Lease)
    → save_lease new ls ≡ ok ls'
    → upsert
        (is_at new.scope_id new.ip_addr)
        (is_rival new)
        (λ l. l.id == new.id)
        (overwrite new)
        new
        ls
      ≡ some ls'
unfolding save_lease
save_lease-upsert new ls ls' h = or_violation-eq-ok _ ls' h

-- saveLeaseTx changes no row at another address.
pub save_lease-mem :
    (new : Lease) (ls ls' : List Lease) (k : Lease)
    → save_lease new ls ≡ ok ls'
    → Memᴰ k ls
    → is_at new.scope_id new.ip_addr k ≡ false
    → Memᴰ k ls'
save_lease-mem new ls ls' k h m a =
    upsert-mem (is_at new.scope_id new.ip_addr) (is_rival new) (λ l. l.id == new.id) (overwrite new)
      new ls ls' k (save_lease-upsert new ls ls' h) m (overwrite-elsewhere new k a)
