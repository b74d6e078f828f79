-- ===== src/Transactions/Builder/Select/Enough.antt =====
-- What `find_btc_in_program_utxos` selects: enough, no more than needed, or nothing but the error.
use saturn_crates.Prelude.{
  ℕ, zero, suc, ◌+◌, ◌%◌, ◌≤◌, ◌<◌, ◌≡◌, refl, sym, ap, ◌∙◌, List, [], ◌∷◌, ◌++◌, true, false, none,
  some, ok-injective, Result, ok, panicked, Result-cases, leb, ltb, if◌then◌else◌, length, take,
  get_elem?, arith, Bool-cases, Option-cases, inl, inr, ◌⊎◌,
}
use mathlib.Core.Path.{subst}
use saturn_crates.Prelude.Exec.{◌>>=◌, return, fail, continue}
use saturn_crates.Prelude.Sort.{sum_by}
use saturn_crates.SafeMath.{u64_mod}
use saturn_crates.Transactions.Chain.{confirmed}
use saturn_crates.Transactions.Errors.{BitcoinTxError, not_enough_btc_in_pool}
use saturn_crates.Transactions.Builder.State.{UtxoInfo, Caps, TransactionBuilder}
use saturn_crates.Transactions.Builder.Inputs.{add_tx_input}
use saturn_crates.Transactions.Builder.Select.{
  value_at, select, sorted_indices, find_btc_in_program_utxos,
}
use saturn_crates.Transactions.Builder.Select.Order.{pool, pool-sorted_indices}

-- `sel` is what the loop takes off the front of `is`, started with `btc`: its values are added up, it
-- leaves something only when the amount is reached, and the amount was not reached before the last.
abbrev pub Selection : List UtxoInfo → ℕ → ℕ → List ℕ → List ℕ → ℕ → Type 0
Selection utxos amount btc is sel total =
    (rest : List ℕ) × (is ≡ sel ++ rest)
    × (total ≡ btc + sum_by (value_at utxos) sel)
    × ((amount ≤ total) ⊎ (rest ≡ []))
    × ((k : ℕ) → k < length sel → btc + sum_by (value_at utxos) (take k sel) < amount)

module _ (utxos : List UtxoInfo) (c : Caps) (signer amount : ℕ) where
  stop : (is : List ℕ) (btc : ℕ) → (amount ≤ btc) ⊎ (is ≡ []) → Selection utxos amount btc is [] btc
  stop is btc e = (is, refl, omega arith, e, λ k h. omega arith)

  add_selected :
      (i : ℕ) (is sel : List ℕ) (btc total : ℕ)
      → btc < amount
      → Selection utxos amount (btc + value_at utxos i) is sel total
      → Selection utxos amount btc (i ∷ is) (i ∷ sel) total
  add_selected i is sel btc total less (rest, split, sum, end, minimal) =
      (rest, ap (λ l. i ∷ l) split, omega (arith, sum), end, before)
    where
      before :
          (k : ℕ) → k < length (i ∷ sel) → btc + sum_by (value_at utxos) (take k (i ∷ sel)) < amount
      before zero h = omega arith
      before (suc k) h = omega (arith, minimal k (omega arith))

  stopped :
      (is sel : List ℕ) (btc total : ℕ)
      → (amount ≤ btc) ⊎ (is ≡ [])
      → ◌≡◌ {A = Result BitcoinTxError (List ℕ × ℕ)} (ok ([], btc)) (ok (sel, total))
      → Selection utxos amount btc is sel total
  stopped is sel btc total e h =
      let same = ok-injective h in
      subst (λ p. Selection utxos amount btc is p.0 p.1) same (stop is btc e)

  -- the rounds after the one that takes `i`
  abbrev rounds : ℕ → List ℕ → ℕ → TransactionBuilder → Result BitcoinTxError (List ℕ × ℕ)
  rounds i is btc b =
      ((select utxos c signer amount is ((btc + value_at utxos i) % u64_mod)
          >>= (λ p. return (i ∷ p.0, p.1)))
        b).0

  select_reached :
      (i : ℕ) (is : List ℕ) (btc : ℕ) (b : TransactionBuilder)
      → leb amount btc ≡ true
      → (select utxos c signer amount (i ∷ is) btc b).0 ≡ ok ([], btc)
  unfolding select
  select_reached i is btc b e = ground arith

  select_missing :
      (i : ℕ) (is : List ℕ) (btc : ℕ) (b : TransactionBuilder)
      → leb amount btc ≡ false
      → get_elem? utxos i ≡ none
      → (select utxos c signer amount (i ∷ is) btc b).0 ≡ panicked
  unfolding select
  select_missing i is btc b e missing = ground arith

  select_found :
      (i : ℕ) (is : List ℕ) (btc : ℕ) (b : TransactionBuilder) (u : UtxoInfo)
      → leb amount btc ≡ false
      → get_elem? utxos i ≡ some u
      → (select utxos c signer amount (i ∷ is) btc b).0
        ≡ (continue
            (add_tx_input c u confirmed signer b).0
            (λ _.
              select utxos c signer amount is ((btc + value_at utxos i) % u64_mod)
              >>= (λ p. return (i ∷ p.0, p.1)))
            (add_tx_input c u confirmed signer b).1).0
  unfolding select
  select_found i is btc b u e found = ground arith

  select_round :
      (i : ℕ) (is : List ℕ) (btc : ℕ) (b : TransactionBuilder) (sel : List ℕ) (total : ℕ)
      → leb amount btc ≡ false
      → (select utxos c signer amount (i ∷ is) btc b).0 ≡ ok (sel, total)
      → (b' : TransactionBuilder) × (rounds i is btc b' ≡ ok (sel, total))
  select_round i is btc b sel total e h = elim (Option-cases (get_elem? utxos i)) [
    | inl missing ↦ absurd (cc (sym h ∙ select_missing i is btc b e missing))
    | inr (u, found) ↦
        let run = sym (select_found i is btc b u e found) ∙ h in
        elim (Result-cases (add_tx_input c u confirmed signer b).0) [
          | inl (t, done) ↦ ((add_tx_input c u confirmed signer b).1, rw done at run)
          | inr (inl (x, failed)) ↦ absurd (cc (rw failed at run))
          | inr (inr panic) ↦ absurd (cc (rw panic at run))
        ]
  ]

  rounds-ok :
      (i : ℕ) (is : List ℕ) (btc : ℕ) (b : TransactionBuilder) (sel : List ℕ) (total : ℕ)
      → rounds i is btc b ≡ ok (sel, total)
      → (sel' : List ℕ) × ((select utxos c signer amount is
            ((btc + value_at utxos i) % u64_mod)
            b).0
          ≡ ok (sel', total))
        × (sel ≡ i ∷ sel')
  rounds-ok i is btc b sel total h =
      elim (Result-cases
        (select utxos c signer amount is ((btc + value_at utxos i) % u64_mod) b).0) [
          | inl ((sel', t), done) ↦ found sel' t done (ok-injective (rw (done, rounds) at h))
          | inr (inl (x, failed)) ↦ absurd (cc (rw (failed, rounds) at h))
          | inr (inr panic) ↦ absurd (cc (rw (panic, rounds) at h))
        ]
    where
      found :
          (sel' : List ℕ) (t : ℕ)
          → (select utxos c signer amount is ((btc + value_at utxos i) % u64_mod) b).0
            ≡ ok (sel', t)
          → ◌≡◌ {A = List ℕ × ℕ} (i ∷ sel', t) (sel, total)
          → (s : List ℕ) × ((select utxos c signer amount is
                ((btc + value_at utxos i) % u64_mod)
                b).0
              ≡ ok (s, total))
            × (sel ≡ i ∷ s)
      found sel' t done same =
          (sel', done ∙ ap (λ p. ok (sel', p.1)) same, sym (ap (λ p. p.0) same))

  select-Selection :
      (is : List ℕ) (btc : ℕ) (b : TransactionBuilder) (sel : List ℕ) (total : ℕ)
      → btc + sum_by (value_at utxos) is < u64_mod
      → (select utxos c signer amount is btc b).0 ≡ ok (sel, total)
      → Selection utxos amount btc is sel total
  unfolding select
  select-Selection [] btc b sel total small h = stopped [] sel btc total (inr refl) h
  select-Selection (i ∷ is) btc b sel total small h = elim (Bool-cases (leb amount btc)) [
    | inl e ↦
        stopped (i ∷ is) sel btc total (inl (ground arith)) (sym (select_reached i is btc b e) ∙ h)
    | inr e ↦
        let (b', h') = select_round i is btc b sel total e h in
        let (sel', done, split) = rounds-ok i is btc b' sel total h' in
        rw split (
          add_selected i is sel' btc total (ground arith) (
            select-Selection is (btc + value_at utxos i) b' sel' total (omega arith)
              (rw (mod_small (btc + value_at utxos i) (omega arith)) at done)))
  ]
    where
      mod_small : (x : ℕ) → x < u64_mod → x % u64_mod ≡ x
      mod_small x h = omega arith

  -- A selection is what the loop takes off the front of the sorted indices: its total is the sum of the
  -- values selected, at least the amount asked for, and every shorter selection falls short. (The values
  -- of the pool together are less than 2^64.)
  pub find_btc_in_program_utxos-Selection :
      (b : TransactionBuilder) (sel : List ℕ) (total : ℕ)
      → pool utxos < u64_mod
      → (find_btc_in_program_utxos utxos c signer amount b).0 ≡ ok (sel, total)
      → Selection utxos amount 0 (sorted_indices utxos) sel total × (amount ≤ total)
  unfolding find_btc_in_program_utxos
  find_btc_in_program_utxos-Selection b sel total small h =
      elim (Result-cases (select utxos c signer amount (sorted_indices utxos) 0 b).0) [
        | inl ((sel', t), done) ↦
            let (enough, same) =
              checked t sel' (select utxos c signer amount (sorted_indices utxos) 0 b).1
                (rw done at h) in
            (
              select-Selection (sorted_indices utxos) 0 b sel total
                  (omega (arith, small, pool-sorted_indices utxos)) (rw same at done),
              enough,
            )
        | inr (inl (x, failed)) ↦ absurd (cc (rw failed at h))
        | inr (inr panic) ↦ absurd (cc (rw panic at h))
      ]
    where
      checked :
          (t : ℕ) (sel' : List ℕ) (b' : TransactionBuilder)
          → ((if ltb t amount
                then fail {S = TransactionBuilder} {A = List ℕ × ℕ} not_enough_btc_in_pool
                else return (sel', t))
              b').0
            ≡ ok (sel, total)
          → (amount ≤ total) × (◌≡◌ {A = List ℕ × ℕ} (sel', t) (sel, total))
      checked t sel' b' h = ground arith
