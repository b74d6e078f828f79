-- ===== src/Transactions/Mempool.antt =====
-- saturn-bitcoin-transactions/src/mempool.rs: the fees and sizes of the pending transactions behind a
-- list of UTXOs, each transaction counted once.
--
-- `get_utxo_status` belongs to mempool_oracle_sdk; it is the parameter `get_utxo_status`.
use saturn_crates.Prelude.{
  ℕ, ◌+◌, ◌%◌, ◌<◌, ◌≡◌, refl, List, [], ◌∷◌, ◌++◌, true, false, ◌==◌, any, arith, Bool-cases, inl,
  inr,
}
use saturn_crates.Prelude.Sort.{sum_by}
use saturn_crates.SafeMath.{u64_mod}
use saturn_crates.Transactions.Chain.{MempoolInfo, TxStatus, pending, confirmed}
use saturn_crates.Transactions.Builder.State.{UtxoInfo}

module _ (get_utxo_status : ℕ → TxStatus) where
  abbrev pub counted : TxStatus → MempoolInfo → MempoolInfo
  counted confirmed info = info
  counted (pending i) info = record {
    total_fee = (info.total_fee + i.total_fee) % u64_mod;
    total_size = (info.total_size + i.total_size) % u64_mod;
  }

  -- the loop, with the UTXOs before it
  unfoldable pub count_from : List UtxoInfo → List UtxoInfo → MempoolInfo → MempoolInfo
  count_from before [] info = info
  count_from before (u ∷ us) info =
      let skipped = count_from (before ++ (u ∷ [])) us info in
      let added = count_from (before ++ (u ∷ [])) us (counted (get_utxo_status u.meta.txid) info) in
      elim (any (λ p. p.meta.txid == u.meta.txid) before) [ true ↦ skipped | false ↦ added ]

  unfoldable pub generate_mempool_info : List UtxoInfo → MempoolInfo
  unfolding count_from
  generate_mempool_info utxos = count_from [] utxos (record { total_fee = 0; total_size = 0 })

  -- the UTXOs whose transaction stands behind none before them
  abbrev pub first_of_each : List UtxoInfo → List UtxoInfo → List UtxoInfo
  first_of_each before [] = []
  first_of_each before (u ∷ us) = elim (any (λ p. p.meta.txid == u.meta.txid) before) [
    | true ↦ first_of_each (before ++ (u ∷ [])) us
    | false ↦ u ∷ first_of_each (before ++ (u ∷ [])) us
  ]

  abbrev pub fee_of : TxStatus → ℕ
  fee_of confirmed = 0
  fee_of (pending i) = i.total_fee

  abbrev pub size_of : TxStatus → ℕ
  size_of confirmed = 0
  size_of (pending i) = i.total_size

  abbrev pub pending_fees : List UtxoInfo → ℕ
  pending_fees = sum_by (λ u. fee_of (get_utxo_status u.meta.txid))

  abbrev pub pending_sizes : List UtxoInfo → ℕ
  pending_sizes = sum_by (λ u. size_of (get_utxo_status u.meta.txid))

  counted_lem :
      (s : TxStatus) (info : MempoolInfo)
      → info.total_fee < u64_mod
      → info.total_size < u64_mod
      → ((counted s info).total_fee ≡ (info.total_fee + fee_of s) % u64_mod)
        × ((counted s info).total_size ≡ (info.total_size + size_of s) % u64_mod)
  counted_lem confirmed info f s = (omega arith, omega arith)
  counted_lem (pending i) info f s = (refl, refl)

  count_from_lem :
      (before us : List UtxoInfo) (info : MempoolInfo)
      → info.total_fee < u64_mod
      → info.total_size < u64_mod
      → ((count_from before us info).total_fee
          ≡ (info.total_fee + pending_fees (first_of_each before us)) % u64_mod)
        × ((count_from before us info).total_size
            ≡ (info.total_size + pending_sizes (first_of_each before us)) % u64_mod)
  unfolding count_from
  count_from_lem before [] info f s = (omega arith, omega arith)
  count_from_lem before (u ∷ us) info f s =
      elim (Bool-cases (any (λ p. p.meta.txid == u.meta.txid) before)) [
        | inl seen ↦
            rw (seen, count_from, first_of_each) (count_from_lem (before ++ (u ∷ [])) us info f s)
        | inr new ↦
            let (fee, size) = counted_lem (get_utxo_status u.meta.txid) info f s in
            let (fees, sizes) =
              count_from_lem (before ++ (u ∷ [])) us (counted (get_utxo_status u.meta.txid) info)
                (omega (arith, fee)) (omega (arith, size)) in
            rw (new, count_from, first_of_each)
              (omega (arith, fee, fees), omega (arith, size, sizes))
      ]

  -- The totals are the sums, modulo 2^64, of the fees and sizes of the pending transactions behind the
  -- UTXOs, each counted where it stands first.
  pub generate_mempool_info_lem :
      (utxos : List UtxoInfo)
      → ((generate_mempool_info utxos).total_fee ≡ pending_fees (first_of_each [] utxos) % u64_mod)
        × ((generate_mempool_info utxos).total_size
            ≡ pending_sizes (first_of_each [] utxos) % u64_mod)
  unfolding generate_mempool_info
  generate_mempool_info_lem utxos =
      let (fees, sizes) =
        count_from_lem [] utxos (record { total_fee = 0; total_size = 0 }) (omega arith)
          (omega arith) in
      (omega (arith, fees), omega (arith, sizes))
