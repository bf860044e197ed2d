-- ===== src/Token/Supply.antt =====
-- The total supply of internal/executor/system/token/axc.go against the balances of the ledger.
use axiom_lib.Common.{
  ℕ, true, false, some, List, [], ◌∷◌, ◌==◌, if◌then◌else◌, ◌≡◌, refl, sym, ap, ◌∙◌, subst, arith,
  Bool-cases, ==_iff, inl, inr,
}
use axiom_lib.Common.Distinct.{contains, NoRepeat}
use axiom_lib.Common.Maps.{update}
use axiom_lib.Common.Int.{ℤ, pos, ◌+ℤ◌, ◌-ℤ◌, ltb_ℤ, pos_part, neg_part, int_laws}
use axiom_lib.Common.Action.{ok}
use axiom_lib.Token.Axc.{
  Account, GenesisNodeInfo, GenesisConfig, Axc, axc_contract_addr, supply_accounts, supply_nodes,
  genesis_init, total_supply, mint, burn,
}
use axiom_lib.Token.Laws.{burned, mint_lem, burn_lem}

-- The coins of some addresses.
abbrev pub total : (ℕ → ℤ) → List ℕ → ℤ
total coin [] = pos 0
total coin (a ∷ bs) = coin a +ℤ total coin bs

-- What the nodes of the genesis stake: the data syncers stake nothing.
abbrev pub staked : List GenesisNodeInfo → ℤ
staked [] = pos 0
staked (x ∷ xs) = (if x.is_data_syncer then pos 0 else x.stake_number) +ℤ staked xs

-- The addresses hold all accounts of the genesis.
abbrev pub IsAll : List ℕ → List Account → Type 0
IsAll bs [] = Unit
IsAll bs (x ∷ xs) = (contains x.address bs ≡ true) × IsAll bs xs

total_other :
    (coin : ℕ → ℤ) (a : ℕ) (v : ℤ) (bs : List ℕ)
    → contains a bs ≡ false
    → total (update coin a v) bs ≡ total coin bs
total_other coin a v [] h = refl
total_other coin a v (b ∷ bs) h = elim (Bool-cases (b == a)) [
  | inl e ↦ absurd (ground (arith, h, e))
  | inr e ↦ rw (e, total_other coin a v bs (ground (arith, h, e))) refl
]

-- One balance that changes by v changes the sum by v.
total_update :
    (coin : ℕ → ℤ) (a : ℕ) (v : ℤ) (bs : List ℕ)
    → NoRepeat bs
    → contains a bs ≡ true
    → total (update coin a (coin a +ℤ v)) bs ≡ total coin bs +ℤ v
total_update coin a v [] h k = absurd (ground (arith, k))
total_update coin a v (b ∷ bs) (n, h) k = elim (Bool-cases (b == a)) [
  | inl e ↦
      let eq = (==_iff b a).0 e in
      rw (e, total_other coin a (coin a +ℤ v) bs (ground (arith, n, eq)), eq) (omega int_laws)
  | inr e ↦ rw (e, total_update coin a v bs h (ground (arith, k, e))) (omega int_laws)
]

cancel : (t n x s p : ℤ) → t +ℤ (n +ℤ x) ≡ (s +ℤ x) +ℤ p → t +ℤ n ≡ s +ℤ p
cancel t n x s p h = omega (int_laws, ap pos_part h, ap neg_part h)

supply_accounts_lem :
    (bs : List ℕ) (xs : List Account) (coin : ℕ → ℤ) (n : ℤ)
    → NoRepeat bs
    → IsAll bs xs
    → total (supply_accounts xs coin n).0 bs +ℤ n ≡ total coin bs +ℤ (supply_accounts xs coin n).1
supply_accounts_lem bs [] coin n h k = refl
supply_accounts_lem bs (x ∷ xs) coin n h (c, k) =
    let coin' = update coin x.address (coin x.address +ℤ x.balance) in
    let (last, m) = supply_accounts xs coin' (n +ℤ x.balance) in
    cancel (total last bs) n x.balance (total coin bs) m (
      supply_accounts_lem bs xs coin' (n +ℤ x.balance) h k
      ∙ ap (λ r. r +ℤ m) (total_update coin x.address x.balance bs h c))

supply_nodes_lem : (xs : List GenesisNodeInfo) (n : ℤ) → supply_nodes xs n ≡ n +ℤ staked xs
supply_nodes_lem [] n = omega int_laws
supply_nodes_lem (x ∷ xs) n =
    supply_nodes_lem xs (if x.is_data_syncer then n else n +ℤ x.stake_number)
    ∙ elim (Bool-cases x.is_data_syncer) [
      | inl e ↦ rw e (omega int_laws)
      | inr e ↦ rw e (omega int_laws)
    ]

-- The supply is the coins of the addresses and the stakes k.
abbrev pub IsBacked : List ℕ → ℤ → Axc → Type 0
IsBacked bs k s = s.slot ≡ some (total s.coin bs +ℤ k)

mint-IsBacked :
    (bs : List ℕ) (k v : ℤ) (s : Axc)
    → NoRepeat bs
    → contains axc_contract_addr bs ≡ true
    → IsBacked bs k s
    → IsBacked bs k (mint v s).1
mint-IsBacked bs k v s h c b =
    subst (λ r. IsBacked bs k r.1) (sym (mint_lem v (total s.coin bs +ℤ k) s b))
      (elim (Bool-cases (ltb_ℤ v (pos 0))) [
        | inl e ↦ rw e b
        | inr e ↦ rw (e, total_update s.coin axc_contract_addr v bs h c) (ap some (omega int_laws))
      ])

-- Taking v away is adding -v.
minus : (a v : ℤ) → a +ℤ (pos 0 -ℤ v) ≡ a -ℤ v
minus a v = omega int_laws

burned-IsBacked :
    (bs : List ℕ) (k v : ℤ) (s : Axc)
    → NoRepeat bs
    → contains axc_contract_addr bs ≡ true
    → IsBacked bs k (burned v (total s.coin bs +ℤ k) s)
burned-IsBacked bs k v s h c =
    let own = s.coin axc_contract_addr in
    let eq =
      subst (λ x. total (update s.coin axc_contract_addr x) bs ≡ total s.coin bs +ℤ (pos 0 -ℤ v))
        (minus own v) (total_update s.coin axc_contract_addr (pos 0 -ℤ v) bs h c) in
    rw eq (ap some (omega int_laws))

burn-IsBacked :
    (bs : List ℕ) (k v : ℤ) (s : Axc)
    → NoRepeat bs
    → contains axc_contract_addr bs ≡ true
    → IsBacked bs k s
    → IsBacked bs k (burn v s).1
burn-IsBacked bs k v s h c b =
    let n = total s.coin bs +ℤ k in
    subst (λ r. IsBacked bs k r.1) (sym (burn_lem v n s b))
      (elim (Bool-cases (ltb_ℤ v (pos 0))) [
        | inl e ↦ rw e b
        | inr e ↦ elim (Bool-cases (ltb_ℤ (s.coin axc_contract_addr) v)) [
          | inl f ↦ rw (e, f) b
          | inr f ↦ elim (Bool-cases (ltb_ℤ n v)) [
            | inl g ↦ rw (e, f, g) b
            | inr g ↦ rw (e, f, g) (burned-IsBacked bs k v s h c)
          ]
        ]
      ])

-- Mint and Burn, whether they succeed or not, and coins that move between the addresses.
pub data Step : List ℕ → Axc → Axc → Type 0 where
  mints : {bs : List ℕ} {s : Axc} (v : ℤ) → Step bs s (mint v s).1
  burns : {bs : List ℕ} {s : Axc} (v : ℤ) → Step bs s (burn v s).1
  moves :
      {bs : List ℕ} {s : Axc} (coin : ℕ → ℤ)
      → total coin bs ≡ total s.coin bs
      → Step bs s (record s { coin = coin })

pub data Steps : List ℕ → Axc → Axc → Type 0 where
  done : {bs : List ℕ} {s : Axc} → Steps bs s s
  next : {bs : List ℕ} {s t u : Axc} → Steps bs s t → Step bs t u → Steps bs s u

Step-IsBacked :
    (bs : List ℕ) (k : ℤ) (s t : Axc)
    → NoRepeat bs
    → contains axc_contract_addr bs ≡ true
    → IsBacked bs k s
    → Step bs s t
    → IsBacked bs k t
Step-IsBacked bs k s t h c b (mints v) = mint-IsBacked bs k v s h c b
Step-IsBacked bs k s t h c b (burns v) = burn-IsBacked bs k v s h c b
Step-IsBacked bs k s t h c b (moves coin e) = b ∙ ap (λ x. some (x +ℤ k)) (sym e)

Steps-IsBacked :
    (bs : List ℕ) (k : ℤ) (s t : Axc)
    → NoRepeat bs
    → contains axc_contract_addr bs ≡ true
    → IsBacked bs k s
    → Steps bs s t
    → IsBacked bs k t
Steps-IsBacked bs k s _ h c b done = b
Steps-IsBacked bs k s u h c b (next {t = t} r x) =
    Step-IsBacked bs k t u h c (Steps-IsBacked bs k s t h c b r) x

start : (n t z : ℤ) → t +ℤ pos 0 ≡ z +ℤ n → z ≡ pos 0 → n ≡ t
start n t z h e = omega (int_laws, ap pos_part h, ap neg_part h, ap pos_part e, ap neg_part e)

genesis-IsBacked :
    (genesis : GenesisConfig) (bs : List ℕ) (s : Axc)
    → NoRepeat bs
    → IsAll bs genesis.accounts
    → total s.coin bs ≡ pos 0
    → IsBacked bs (staked genesis.nodes) (genesis_init genesis s)
unfolding genesis_init
genesis-IsBacked genesis bs s h a z =
    let (coin, n) = supply_accounts genesis.accounts s.coin (pos 0) in
    ap some (
      supply_nodes_lem genesis.nodes n
      ∙ ap (λ x. x +ℤ staked genesis.nodes)
          (start n (total coin bs) (total s.coin bs)
            (supply_accounts_lem bs genesis.accounts s.coin (pos 0) h a) z))

-- From GenesisInit on a ledger where the addresses hold no coins, whatever is minted, burned or moved
-- between addresses that have no repetition and include the accounts of the genesis and the contract,
-- TotalSupply succeeds, changes nothing, and returns the coins of these addresses and the stakes of the
-- genesis nodes other than data syncers.
pub supply_backed :
    (genesis : GenesisConfig) (bs : List ℕ) (s t : Axc)
    → NoRepeat bs
    → contains axc_contract_addr bs ≡ true
    → IsAll bs genesis.accounts
    → total s.coin bs ≡ pos 0
    → Steps bs (genesis_init genesis s) t
    → total_supply t ≡ (ok (total t.coin bs +ℤ staked genesis.nodes), t)
unfolding total_supply
supply_backed genesis bs s t h c a z r =
    rw
      (Steps-IsBacked bs (staked genesis.nodes) (genesis_init genesis s) t h c
        (genesis-IsBacked genesis bs s h a z) r)
      refl
