-- ===== src/Transactions/Reserve/Reserved.antt =====
-- What an estimate adds to a transaction, and how the outputs are taken back.
use saturn_crates.Prelude.{
  ℕ, zero, suc, ◌+◌, ◌-◌, ◌%◌, ◌≡◌, refl, sym, ap, ◌∙◌, List, [], ◌∷◌, ◌++◌, Option, none, some,
  leb, length, take, replicate, arith, true, le→leb, length-append, length-replicate, append_assoc,
  append-nil,
}
use saturn_crates.SafeMath.{u32_mod}
use saturn_crates.Transactions.Chain.{Transaction, TxIn, TxOut, InputToSign}
use saturn_crates.Transactions.Reserve.{
  NewPotentialInputAmount, NewPotentialOutputAmount, NewPotentialInputsAndOutputs, drop_last,
  add_outputs, rollback_outputs,
}

pub take-append : {A : Type 0} (xs ys : List A) → take (length xs) (xs ++ ys) ≡ xs
take-append [] ys = refl
take-append (x ∷ xs) ys = ap (λ l. x ∷ l) (take-append xs ys)

pub drop_last-append :
    {A : Type 0} (xs ys : List A) (count : ℕ) → length ys ≡ count → drop_last count (xs ++ ys) ≡ xs
drop_last-append xs ys count h =
    let fits : leb count (length (xs ++ ys)) ≡ true =
      le→leb count (length (xs ++ ys)) (omega (arith, length-append xs ys)) in
    let front : length (xs ++ ys) - count ≡ length xs = omega (arith, length-append xs ys) in
    rw (fits, front) (take-append xs ys)

-- the outputs that are added for the estimate
abbrev pub reserved_outputs : List NewPotentialOutputAmount → List TxOut
reserved_outputs [] = []
reserved_outputs (n ∷ ns) = replicate n.count n.item ++ reserved_outputs ns

pub add_outputs-append :
    (ns : List NewPotentialOutputAmount) (os : List TxOut)
    → add_outputs ns os ≡ os ++ reserved_outputs ns
unfolding add_outputs
add_outputs-append [] os = sym (append-nil os)
add_outputs-append (n ∷ ns) os =
    add_outputs-append ns (os ++ replicate n.count n.item)
    ∙ append_assoc os (replicate n.count n.item) (reserved_outputs ns)

abbrev pub output_count : List NewPotentialOutputAmount → ℕ
output_count [] = 0
output_count (n ∷ ns) = n.count + output_count ns

pub length-reserved_outputs :
    (ns : List NewPotentialOutputAmount) → length (reserved_outputs ns) ≡ output_count ns
length-reserved_outputs [] = refl
length-reserved_outputs (n ∷ ns) = omega (
  arith,
  length-append (replicate n.count n.item) (reserved_outputs ns),
  length-replicate n.count n.item,
  length-reserved_outputs ns,
)

pub split_at :
    {A : Type 0} (a b : ℕ) (zs : List A)
    → length zs ≡ a + b
    → (xs : List A) × (ys : List A) × (zs ≡ xs ++ ys) × (length xs ≡ a) × (length ys ≡ b)
split_at zero b zs h = ([], zs, refl, refl, omega (arith, h))
split_at (suc a) b [] h = absurd (omega (arith, h))
split_at (suc a) b (z ∷ zs) h =
    let (xs, ys, e, l, r) = split_at a b zs (omega (arith, h)) in
    (z ∷ xs, ys, ap (λ l. z ∷ l) e, ap suc l, r)

pub rollback_outputs-append :
    (ns : List NewPotentialOutputAmount) (os zs : List TxOut)
    → length zs ≡ output_count ns
    → rollback_outputs ns (os ++ zs) ≡ os
unfolding rollback_outputs
rollback_outputs-append [] os [] h = append-nil os
rollback_outputs-append [] os (z ∷ zs) h = absurd (omega (arith, h))
rollback_outputs-append (n ∷ ns) os zs h =
    let (xs, ys, e, l, r) = split_at (output_count ns) n.count zs (omega (arith, h)) in
    rw (ap (λ t. os ++ t) e ∙ sym (append_assoc os xs ys), drop_last-append (os ++ xs) ys n.count r)
      (rollback_outputs-append ns os xs l)

pub rollback-add_outputs :
    (ns : List NewPotentialOutputAmount) (os : List TxOut)
    → rollback_outputs ns (add_outputs ns os) ≡ os
rollback-add_outputs ns os =
    ap (rollback_outputs ns) (add_outputs-append ns os)
    ∙ rollback_outputs-append ns os (reserved_outputs ns) (length-reserved_outputs ns)

-- the entries that are added for inputs with a signer
abbrev pub reserved_signs : ℕ → ℕ → ℕ → ℕ → List InputToSign
reserved_signs start signer i zero = []
reserved_signs start signer i (suc count) =
    record { index = (start + i) % u32_mod; signer = signer }
    ∷ reserved_signs start signer (suc i) count

pub length-reserved_signs :
    (start signer i count : ℕ) → length (reserved_signs start signer i count) ≡ count
length-reserved_signs start signer i zero = refl
length-reserved_signs start signer i (suc count) =
    ap suc (length-reserved_signs start signer (suc i) count)

abbrev pub reserved_inputs : Option NewPotentialInputAmount → List TxIn
reserved_inputs none = []
reserved_inputs (some n) = replicate n.count n.item

abbrev pub new_signs : Option NewPotentialInputAmount → ℕ → List InputToSign
new_signs none start = []
new_signs (some n) start = elim n.signer [
  | none ↦ []
  | some signer ↦ reserved_signs start signer 0 n.count
]

-- the transaction that the estimate is about
abbrev pub planned : NewPotentialInputsAndOutputs → Transaction → Transaction
planned n tx = record tx {
  input = tx.input ++ reserved_inputs n.inputs;
  output = add_outputs n.outputs tx.output;
}
