-- ===== src/SmartAccount/Nonces.antt =====
-- NonceManager of internal/executor/system/saccount/nonce_manager.go: a sequence of nonces for each
-- sender and key; a nonce is its key times 2 ^ 64 and its number in the sequence.
use axiom_lib.Common.{
  ℕ, ◌+◌, ◌*◌, ◌/◌, Bool, true, false, Option, none, some, ◌==◌, if◌then◌else◌, ◌≡◌, ◌≢◌, ◌⊎◌, refl,
  sym, ap, ◌∙◌, arith, Bool-cases, inl, inr, ==_iff,
}
use axiom_lib.Common.Maps.{update, update_self}
use axiom_lib.Common.Words.{u64_mod, add64}

-- nonceSequenceNumber, by sender and key
abbrev pub Sequences : Type 0
Sequences = ℕ → ℕ → Option ℕ

abbrev put_nonce : ℕ → ℕ → ℕ → Sequences → Sequences
put_nonce sender key n m = update m sender (update (m sender) key (some n))

-- GetNonce, which stores the first nonce of a key that it does not find
unfoldable pub get_nonce : ℕ → ℕ → Sequences → ℕ × Sequences
get_nonce sender key m = elim (m sender key) [
  | some n ↦ (n, m)
  | none ↦ (key * u64_mod, put_nonce sender key (key * u64_mod) m)
]

-- The nonce that incrementNonce stores; out of the range of its key the sequence starts again.
abbrev pub next_nonce : ℕ → ℕ → ℕ
next_nonce key n = if (n + 1) / u64_mod == key then n + 1 else key * u64_mod

-- incrementNonce
unfoldable pub increment_nonce : ℕ → ℕ → Sequences → Sequences
increment_nonce sender key m =
    let (n, m') = get_nonce sender key m in put_nonce sender key (next_nonce key n) m'

-- validateAndUpdateNonce
unfoldable pub validate_and_update_nonce : ℕ → ℕ → Sequences → Bool × Sequences
validate_and_update_nonce sender nonce m =
    let (n, m') = get_nonce sender (nonce / u64_mod) m in
    if n == nonce then (true, increment_nonce sender (nonce / u64_mod) m') else (false, m')

get_nonce-put_nonce :
    (sender key n : ℕ) (m : Sequences) → (get_nonce sender key (put_nonce sender key n m)).0 ≡ n
unfolding get_nonce
get_nonce-put_nonce sender key n m = ground (
  arith,
  update_self m sender (update (m sender) key (some n)),
  update_self (m sender) key (some n),
)

get_nonce-get_nonce :
    (sender key : ℕ) (m : Sequences)
    → (get_nonce sender key (get_nonce sender key m).1).0 ≡ (get_nonce sender key m).0
unfolding get_nonce
get_nonce-get_nonce sender key m = ground arith

get_nonce-validate_next :
    (sender nonce : ℕ) (m : Sequences)
    → ((validate_and_update_nonce sender nonce m).0
        ≡ ((get_nonce sender (nonce / u64_mod) m).0 == nonce))
      × ((get_nonce sender (nonce / u64_mod) (validate_and_update_nonce sender nonce m).1).0 ≡ (
          if (get_nonce sender (nonce / u64_mod) m).0 == nonce
          then next_nonce (nonce / u64_mod) nonce
          else (get_nonce sender (nonce / u64_mod) m).0))
unfolding validate_and_update_nonce increment_nonce
get_nonce-validate_next sender nonce m =
    let key = nonce / u64_mod in
    let r = get_nonce sender key m in
    elim (Bool-cases (r.0 == nonce)) [
      | inl e ↦ rw e (
        refl,
        get_nonce-put_nonce sender key (next_nonce key (get_nonce sender key r.1).0)
              (get_nonce sender key r.1).1
            ∙ ap (next_nonce key) (get_nonce-get_nonce sender key m ∙ (==_iff r.0 nonce).0 e),
      )
      | inr e ↦ rw e (refl, get_nonce-get_nonce sender key m)
    ]

-- The high 192 bits stay, and the low 64 bits are counted up and wrap.
next_nonce_wraps : (n : ℕ) → next_nonce (n / u64_mod) n ≡ n / u64_mod * u64_mod + add64 n 1
next_nonce_wraps n = ground arith

-- A nonce is accepted exactly where it is the next one of its sender and key. After a nonce is
-- accepted, the next one has the same key, and its low 64 bits are those of the accepted nonce counted
-- up, which wrap; after a nonce is refused the next one is as before.
pub get_nonce-validate :
    (sender nonce : ℕ) (m : Sequences)
    → ((validate_and_update_nonce sender nonce m).0
        ≡ ((get_nonce sender (nonce / u64_mod) m).0 == nonce))
      × ((get_nonce sender (nonce / u64_mod) (validate_and_update_nonce sender nonce m).1).0 ≡ (
          if (get_nonce sender (nonce / u64_mod) m).0 == nonce
          then nonce / u64_mod * u64_mod + add64 nonce 1
          else (get_nonce sender (nonce / u64_mod) m).0))
get_nonce-validate sender nonce m =
    rw (sym (next_nonce_wraps nonce)) (get_nonce-validate_next sender nonce m)

next_nonce_ne : (n : ℕ) → (next_nonce (n / u64_mod) n == n) ≡ false
next_nonce_ne n = ground arith

-- A nonce that was accepted is refused where it comes again at once.
pub validate-validate :
    (sender nonce : ℕ) (m : Sequences)
    → (validate_and_update_nonce sender nonce m).0 ≡ true
    → (validate_and_update_nonce sender nonce (validate_and_update_nonce sender nonce m).1).0
      ≡ false
validate-validate sender nonce m h =
    let (a, c) = get_nonce-validate_next sender nonce m in
    let m' = (validate_and_update_nonce sender nonce m).1 in
    (get_nonce-validate_next sender nonce m').0
    ∙ (ap (λ x. x == nonce) (c ∙ rw (sym a ∙ h) refl) ∙ next_nonce_ne nonce)

-- What is stored for the other senders stays, and for the other keys of the sender.
validate-other :
    (sender nonce s k : ℕ) (m : Sequences)
    → (s ≢ sender) ⊎ (k ≢ nonce / u64_mod)
    → (validate_and_update_nonce sender nonce m).1 s k ≡ m s k
unfolding validate_and_update_nonce increment_nonce get_nonce
validate-other sender nonce s k m h = ground arith
