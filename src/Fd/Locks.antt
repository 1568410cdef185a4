-- ===== src/Fd/Locks.antt =====
-- The locks of `fd_state_map`: src/mthvac_comm_client.cpp. Each function on the map holds the
-- reader-writer lock of the descriptor's shard for as long as it uses the map; any number of threads
-- run.
use mt_hvac.Base.{
  ℕ, zero, suc, ◌+◌, ◌%◌, ◌≡◌, refl, ◌≢◌, ite, Bool, true, false, ◌&&◌, ◌||◌, arith, ℤ, pos, negsuc,
  is_negative, int_key, nat_key, ◌=?◌, ℕ_discrete,
}

abbrev pub shards : ℕ
shards = 64

-- get_fd_rwlock: the index `fd % FD_STATE_SHARDS`, which C rounds towards 0.
unfoldable pub shard : ℤ → ℤ
shard (pos n) = pos (n % shards)
shard (negsuc n) = elim ((n + 1) % shards) [ zero ↦ pos 0 | suc k ↦ negsuc k ]

-- What a thread wants of the map: `hvac_get_fd_status` reads it, `hvac_set_fd_opening` and
-- `hvac_cleanup_fd_state` write it.
pub data Mode : Type 0 where
  reads writes : Mode

pub data Phase : Type 0 where
  outside : Phase
  inside : Mode → ℤ → Phase

abbrev writing : Mode → Bool
writing reads = false
writing writes = true

-- Two holders of one lock, one of them for writing.
unfoldable pub conflicts : Phase → Phase → Bool
unfolding shard
conflicts outside q = false
conflicts (inside m a) outside = false
conflicts (inside m a) (inside m' b) = (writing m || writing m') && (shard a =? shard b)

abbrev pub Threads : Type 0
Threads = ℕ → Phase

abbrev pub set_phase : Threads → ℕ → Phase → Threads
set_phase s i p j = ite (ℕ_discrete i j) p (s j)

-- A lock is granted only if no other holder conflicts.
pub data Step (s : Threads) : Threads → Type 0 where
  acquire :
      (i : ℕ) (m : Mode) (fd : ℤ)
      → s i ≡ outside
      → is_negative (shard fd) ≡ false
      → ((j : ℕ) → conflicts (inside m fd) (s j) ≡ false)
      → Step s (set_phase s i (inside m fd))
  release : (i : ℕ) (m : Mode) (fd : ℤ) → s i ≡ inside m fd → Step s (set_phase s i outside)

abbrev pub all_outside : Threads
all_outside i = outside

pub data Reach : Threads → Type 0 where
  start : Reach all_outside
  next : {s t : Threads} → Reach s → Step s t → Reach t

conflicts_comm : (p q : Phase) → conflicts p q ≡ conflicts q p
unfolding conflicts
conflicts_comm outside outside = refl
conflicts_comm outside (inside m b) = refl
conflicts_comm (inside m a) outside = refl
conflicts_comm (inside m a) (inside m' b) = ground arith

Step-exclusive :
    {s t : Threads}
    → Step s t
    → ((i j : ℕ) → i ≢ j → conflicts (s i) (s j) ≡ false)
    → (i j : ℕ) → i ≢ j
    → conflicts (t i) (t j) ≡ false
unfolding conflicts
Step-exclusive {s} (acquire k m fd e v free) h i j ne =
    ground (arith, h i j, free i, free j, conflicts_comm (inside m fd) (s i))
Step-exclusive {s} (release k m fd e) h i j ne = ground (arith, h i j)

start_exclusive : (i j : ℕ) → conflicts (all_outside i) (all_outside j) ≡ false
unfolding conflicts
start_exclusive i j = refl

-- Of two threads that use descriptors of one shard at the same time, neither writes the map.
Reach-exclusive : {s : Threads} → Reach s → (i j : ℕ) → i ≢ j → conflicts (s i) (s j) ≡ false
Reach-exclusive start i j ne = start_exclusive i j
Reach-exclusive (next r st) i j ne = Step-exclusive st (Reach-exclusive r) i j ne

-- But the map is one for all shards: two threads can write it at the same time, for any two
-- descriptors of different shards.
pub two_writers :
    (a b : ℕ)
    → (shard (pos a) =? shard (pos b)) ≡ false
    → (s : Threads) × Reach s × (s 0 ≡ inside writes (pos a)) × (s 1 ≡ inside writes (pos b))
unfolding conflicts
two_writers a b apart =
    let s₁ = set_phase all_outside 0 (inside writes (pos a)) in
    let s₂ = set_phase s₁ 1 (inside writes (pos b)) in
    (
      s₂,
      next (next start (acquire 0 writes (pos a) refl refl (λ j. refl)))
          (acquire 1 writes (pos b) (ground arith) refl (λ j. ground arith)),
      ground arith,
      ground arith,
    )
