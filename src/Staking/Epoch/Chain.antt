-- ===== src/Staking/Epoch/Chain.antt =====
-- The epochs tile the chain: each begins where the one before it ends.
use axiom_lib.Common.{ℕ, ◌+◌, ◌≤◌, ◌<◌, ◌≡◌, refl, ◌∙◌, Bool, some, arith}
use native.Mathlib.Decide.{ℕ_discrete}
use axiom_lib.Common.Maps.{update}
use axiom_lib.Common.Words.{add64, u64_mod}
use axiom_lib.Common.Action.{ok}
use axiom_lib.Staking.Types.{Storage, EpochInfo}
use axiom_lib.Staking.Epoch.{genesis_init, update_next_epoch, turn_into_new_epoch, following}

-- `e` is the current epoch, `n` the next one: `n` has the following number and begins where `e`
-- ends, and every epoch from 1 to the current one is in the history under its number, each
-- beginning where the one before it ends.
pub record IsTiled (s : Storage) : Type 0 where
  pub current : EpochInfo
  pub next : EpochInfo
  pub has_current : s.current_epoch_id ≡ some current.epoch
  pub has_history : s.history_epoch current.epoch ≡ some current
  pub has_next : s.next_epoch_info ≡ some next
  pub next_number : next.epoch ≡ current.epoch + 1
  pub next_start : next.start_block ≡ add64 current.start_block current.epoch_period
  pub linked :
      (k : ℕ)
      → 1 ≤ k
      → k < current.epoch
      → (a b : EpochInfo) × (s.history_epoch k ≡ some a)
        × (s.history_epoch (k + 1) ≡ some b)
        × (b.start_block ≡ add64 a.start_block a.epoch_period)

-- A genesis that is accepted, and the storage that it leaves.
genesis_init_lem :
    (validate : EpochInfo → Bool) (g : EpochInfo) (s : Storage)
    → (genesis_init validate g s).0 ≡ ok tt
    → (g.epoch ≡ 1)
      × ((genesis_init validate g s).1 ≡ record s {
        current_epoch_id = some g.epoch;
        next_epoch_info = some (following g);
        history_epoch = update s.history_epoch g.epoch (some g);
      })
unfolding genesis_init
genesis_init_lem validate g s h = ground arith

genesis_init-IsTiled :
    (validate : EpochInfo → Bool) (g : EpochInfo) (s : Storage)
    → (genesis_init validate g s).0 ≡ ok tt
    → IsTiled (genesis_init validate g s).1
genesis_init-IsTiled validate g s h =
    let (first, e) = genesis_init_lem validate g s h in
    rw e (record {
      current = g;
      next = following g;
      has_current = refl;
      has_history = ground arith;
      has_next = refl;
      next_number = ground arith;
      next_start = refl;
      linked = λ k lo hi. absurd (omega arith);
    })

turn_into_new_epoch_lem :
    (n : EpochInfo) (s : Storage)
    → s.next_epoch_info ≡ some n
    → turn_into_new_epoch s ≡ (
      ok n,
      record s {
        current_epoch_id = some n.epoch;
        next_epoch_info = some (following n);
        history_epoch = update s.history_epoch n.epoch (some n);
      },
    )
unfolding turn_into_new_epoch
turn_into_new_epoch_lem n s h = ground arith

-- The link from the current epoch to the next joins those that were there.
linked-turn :
    (s : Storage) (t : IsTiled s) (k : ℕ)
    → 1 ≤ k
    → k < t.next.epoch
    → let m = update s.history_epoch t.next.epoch (some t.next) in
      (a b : EpochInfo) × (m k ≡ some a)
      × (m (k + 1) ≡ some b)
      × (b.start_block ≡ add64 a.start_block a.epoch_period)
linked-turn s t k lo hi = elim (ℕ_discrete k t.current.epoch) [
  | yes last ↦ (t.current, t.next, ground arith, ground arith, t.next_start)
  | no earlier ↦
      let (a, b, ha, hb, link) = t.linked k lo (omega (arith, t.next_number)) in
      (a, b, ground (arith, t.next_number), ground (arith, t.next_number), link)
]

turn_into_new_epoch-IsTiled :
    (s : Storage) (t : IsTiled s) → t.next.epoch + 1 < u64_mod → IsTiled (turn_into_new_epoch s).1
turn_into_new_epoch-IsTiled s t small = rw (turn_into_new_epoch_lem t.next s t.has_next) (record {
  current = t.next;
  next = following t.next;
  has_current = refl;
  has_history = ground arith;
  has_next = refl;
  next_number = omega arith;
  next_start = refl;
  linked = linked-turn s t;
})

update_next_epoch-IsTiled :
    (s : Storage) (t : IsTiled s) (n : EpochInfo)
    → n.epoch ≡ t.next.epoch
    → n.start_block ≡ t.next.start_block
    → IsTiled (update_next_epoch n s).1
unfolding update_next_epoch
update_next_epoch-IsTiled s t n e b = record {
  current = t.current;
  next = n;
  has_current = t.has_current;
  has_history = t.has_history;
  has_next = refl;
  next_number = omega (arith, t.next_number);
  next_start = b ∙ t.next_start;
  linked = t.linked;
}

-- What happens to the epochs after genesis: the next epoch begins, below the last number that a
-- uint64 can hold, or its parameters are changed, its number and first block kept.
pub data Step (s : Storage) : Storage → Type 0 where
  turn :
      (n : EpochInfo)
      → s.next_epoch_info ≡ some n
      → n.epoch + 1 < u64_mod
      → Step s (turn_into_new_epoch s).1
  change :
      (n n' : EpochInfo)
      → s.next_epoch_info ≡ some n
      → n'.epoch ≡ n.epoch
      → n'.start_block ≡ n.start_block
      → Step s (update_next_epoch n' s).1

pub data Reach (s : Storage) : Storage → Type 0 where
  here : Reach s s
  next : {t u : Storage} → Reach s t → Step t u → Reach s u

Step-IsTiled : {s u : Storage} → Step s u → IsTiled s → IsTiled u
Step-IsTiled {s} (turn n h small) t = turn_into_new_epoch-IsTiled s t (ground (arith, t.has_next))
Step-IsTiled {s} (change n n' h e b) t =
    update_next_epoch-IsTiled s t n' (ground (arith, t.has_next)) (ground (arith, t.has_next))

-- From an accepted genesis on, whatever sequence of epoch changes and parameter updates follows,
-- the epochs are numbered without a gap and each begins where the one before it ends.
pub genesis-Reach-IsTiled :
    (validate : EpochInfo → Bool) (g : EpochInfo) (s t : Storage)
    → (genesis_init validate g s).0 ≡ ok tt
    → Reach (genesis_init validate g s).1 t
    → IsTiled t
genesis-Reach-IsTiled validate g s t h here = genesis_init-IsTiled validate g s h
genesis-Reach-IsTiled validate g s t h (next r st) =
    Step-IsTiled st (genesis-Reach-IsTiled validate g s _ h r)
