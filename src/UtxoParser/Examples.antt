-- ===== src/UtxoParser/Examples.antt =====
-- A parser with a UTXO of 1000 satoshis, an optional one with runes, and the rest.
use saturn_crates.Prelude.{ℕ, ◌≡◌, ◌↔◌, refl, List, [], ◌∷◌, true, false, some, none, Result, ok}
use saturn_crates.Transactions.Chain.{UtxoMeta}
use saturn_crates.Transactions.Builder.State.{UtxoInfo}
use saturn_crates.Accounts.{ProgramError}
use saturn_crates.UtxoParser.{
  Field, UtxoAttr, single, optional, vec, some_runes, try_utxos, has_duplicate, extract_all,
  build_extractor, extract_as, extract_vec, extract_single, extract_optional, matching,
  build_predicate_with_anchor_logic, build, mismatch, base_error_variant, strict_order_mismatch,
}
use saturn_crates.UtxoParser.Check.{
  check, check_anchors, check_vecs, check_rest, check_all_runes, rest_index,
}
use saturn_crates.UtxoParser.Parsed.{Divided, try_utxos_iff}

abbrev plain : UtxoAttr
plain = record {
  value = none;
  runes = none;
  rune_id_expr = none;
  rune_amount_expr = none;
  rest = false;
  anchor_ident = none;
}

abbrev fields : List Field
fields =
    record {
      kind = single;
      attr = record plain { value = some (record { evaluated = 1000; is_literal = true }) };
    }
    ∷ (record { kind = optional; attr = record plain { runes = some some_runes } }
        ∷ (record { kind = vec; attr = record plain { rest = true } } ∷ []))

abbrev utxo : ℕ → UtxoMeta
utxo n = record { txid = n; vout = 0 }

-- every UTXO has 1000 satoshis and no runes
abbrev lookup : UtxoMeta → Result ProgramError UtxoInfo
lookup m = ok (record {
  meta = m;
  value = 1000;
  runes = record { items = []; len = 0 };
  needs_consolidation = none;
})

abbrev seen : ℕ → UtxoInfo
seen n = record {
  meta = utxo n;
  value = 1000;
  runes = record { items = []; len = 0 };
  needs_consolidation = none;
}

abbrev divided : List (List UtxoInfo)
divided = (seen 1 ∷ []) ∷ ([] ∷ ((seen 2 ∷ (seen 3 ∷ [])) ∷ []))

try_utxos_iff_example :
    (try_utxos lookup (λ ident. 0) fields (utxo 1 ∷ (utxo 2 ∷ (utxo 3 ∷ []))) ≡ ok divided) ↔ (
      (has_duplicate (utxo 1 ∷ (utxo 2 ∷ (utxo 3 ∷ []))) ≡ false)
      × Divided lookup (λ ident. 0) fields (utxo 1 ∷ (utxo 2 ∷ (utxo 3 ∷ []))) divided)
unfolding check check_anchors check_vecs check_rest check_all_runes rest_index
try_utxos_iff_example =
    try_utxos_iff lookup (λ ident. 0) fields (utxo 1 ∷ (utxo 2 ∷ (utxo 3 ∷ []))) divided refl

parsed : try_utxos lookup (λ ident. 0) fields (utxo 1 ∷ (utxo 2 ∷ (utxo 3 ∷ []))) ≡ ok divided
unfolding try_utxos has_duplicate extract_all build_extractor extract_as extract_vec extract_single
    extract_optional matching build_predicate_with_anchor_logic build
parsed = refl

-- the error of a scalar field that is anchored and has no other constraint
anchored_mismatch :
    mismatch (record plain { anchor_ident = some 0 }) (seen 1) ≡ strict_order_mismatch
unfolding mismatch base_error_variant
anchored_mismatch = refl
