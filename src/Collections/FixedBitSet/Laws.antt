-- ===== src/Collections/FixedBitSet/Laws.antt =====
-- FixedBitSet: a run of calls is the run on a set of numbers below the capacity.
use saturn_crates.Prelude.{
  ℕ, zero, suc, ◌+◌, ◌-◌, ◌≡◌, ◌<◌, refl, sym, ap, ap₂, ◌∙◌, List, [], ◌∷◌, Bool, true, false, not,
  ◌&&◌, ltb, ◌==◌, map, if◌then◌else◌, length, set, replicate, ◌⊎◌, arith, length-set,
  length-replicate, Bool-cases, inl, inr,
}
use mathlib.Core.Path.{subst}
use saturn_crates.Collections.FixedBitSet
use saturn_crates.Collections.FixedBitSet.{FixedBitSet, bit, new, contains, iter, indices_from}

abbrev pub ones : List Bool → ℕ
ones [] = 0
ones (true ∷ bs) = suc (ones bs)
ones (false ∷ bs) = ones bs

pub record IsValid (size : ℕ) (s : FixedBitSet) : Type 0 where
  pub sized : length s.included ≡ size
  pub counted : s.count ≡ ones s.included

bit-set_self : (bs : List Bool) (i : ℕ) (b : Bool) → i < length bs → bit (set bs i b) i ≡ b
bit-set_self [] i b h = absurd (omega arith)
bit-set_self (x ∷ bs) zero b h = refl
bit-set_self (x ∷ bs) (suc i) b h = bit-set_self bs i b (omega arith)

bit-set_ne :
    (bs : List Bool) (i j : ℕ) (b : Bool) → (i == j) ≡ false → bit (set bs i b) j ≡ bit bs j
bit-set_ne [] i j b h = refl
bit-set_ne (x ∷ bs) zero zero b h = absurd (ground arith)
bit-set_ne (x ∷ bs) zero (suc j) b h = refl
bit-set_ne (x ∷ bs) (suc i) zero b h = refl
bit-set_ne (x ∷ bs) (suc i) (suc j) b h = bit-set_ne bs i j b (ground arith)

ones-set :
    (bs : List Bool) (i : ℕ) → i < length bs → bit bs i ≡ false → ones (set bs i true) ≡ ones bs + 1
ones-set [] i h z = absurd (omega arith)
ones-set (true ∷ bs) zero h z = absurd (cc)
ones-set (false ∷ bs) zero h z = omega arith
ones-set (true ∷ bs) (suc i) h z = omega (arith, ones-set bs i (omega arith) z)
ones-set (false ∷ bs) (suc i) h z = ones-set bs i (omega arith) z

ones-unset :
    (bs : List Bool) (i : ℕ) → i < length bs → bit bs i ≡ true → ones (set bs i false) + 1 ≡ ones bs
ones-unset [] i h z = absurd (omega arith)
ones-unset (true ∷ bs) zero h z = omega arith
ones-unset (false ∷ bs) zero h z = absurd (cc)
ones-unset (true ∷ bs) (suc i) h z = omega (arith, ones-unset bs i (omega arith) z)
ones-unset (false ∷ bs) (suc i) h z = ones-unset bs i (omega arith) z

cleared : (bs : List Bool) (j : ℕ) → bit (map (λ b. false) bs) j ≡ false
cleared [] j = refl
cleared (b ∷ bs) zero = refl
cleared (b ∷ bs) (suc j) = cleared bs j

ones-cleared :
    (bs : List Bool) → (ones (map (λ b. false) bs) ≡ 0) × (length (map (λ b. false) bs) ≡ length bs)
ones-cleared [] = (refl, refl)
ones-cleared (b ∷ bs) = let (a, c) = ones-cleared bs in (a, ap suc c)

ones-replicate : (n : ℕ) → ones (replicate n false) ≡ 0
ones-replicate zero = refl
ones-replicate (suc n) = ones-replicate n

bit-replicate : (n j : ℕ) → bit (replicate n false) j ≡ false
bit-replicate zero j = refl
bit-replicate (suc n) zero = refl
bit-replicate (suc n) (suc j) = bit-replicate n j

-- the methods that change a set
pub data Call : Type 0 where
  insert : ℕ → Call
  remove : ℕ → Call
  clear : Call

-- The reply to `clear` is nothing, here false.
abbrev pub call : ℕ → Call → FixedBitSet → Bool × FixedBitSet
call size (insert i) s = FixedBitSet.insert size s i
call size (remove i) s = FixedBitSet.remove size s i
call size clear s = (false, FixedBitSet.clear s)

unfoldable pub run : ℕ → List Call → FixedBitSet → List Bool × FixedBitSet
run size [] s = ([], s)
run size (c ∷ cs) s = let (r, s') = call size c s in let (rs, s'') = run size cs s' in (r ∷ rs, s'')

-- the same on a set of numbers, given by its test
abbrev pub set_call : ℕ → Call → (ℕ → Bool) → Bool × (ℕ → Bool)
set_call size (insert i) p =
    if ltb i size then (not (p i), λ j. if i == j then true else p j) else (false, p)
set_call size (remove i) p = (p i, λ j. if i == j then false else p j)
set_call size clear p = (false, λ j. false)

unfoldable pub set_run : ℕ → List Call → (ℕ → Bool) → List Bool × (ℕ → Bool)
set_run size [] p = ([], p)
set_run size (c ∷ cs) p =
    let (r, p') = set_call size c p in let (rs, p'') = set_run size cs p' in (r ∷ rs, p'')

-- The bits are the set, and the count is that of the bits.
pub record Models (size : ℕ) (s : FixedBitSet) (p : ℕ → Bool) : Type 0 where
  pub valid : IsValid size s
  pub same : (j : ℕ) → contains size s j ≡ p j

bit-set :
    (bs : List Bool) (i j : ℕ) (b : Bool)
    → i < length bs
    → bit (set bs i b) j ≡ (if i == j then b else bit bs j)
bit-set bs i j b h = elim (Bool-cases (i == j)) [
  | inl same ↦
      let e : i ≡ j = ground arith in
      rw same (subst (λ k. bit (set bs i b) k ≡ b) e (bit-set_self bs i b h))
  | inr differ ↦ rw differ (bit-set_ne bs i j b differ)
]

module _ (size : ℕ) where
  inside :
      (s : FixedBitSet) (p : ℕ → Bool) (i : ℕ) (b : Bool)
      → Models size s p
      → ltb i size ≡ true
      → bit s.included i ≡ b
      → p i ≡ b
  unfolding contains
  inside s p i b m h e = sym (m.same i) ∙ rw (h, e, contains) refl

  new-Models : Models size (new size) (λ j. false)
  unfolding new contains
  new-Models = record {
    valid = record { sized = length-replicate size false; counted = sym (ones-replicate size) };
    same = λ j. rw (bit-replicate size j) (falsum (ltb j size));
  }
    where
      falsum : (b : Bool) → (b && false) ≡ false
      falsum true = refl
      falsum false = refl

  -- a set with one bit written
  written :
      (s : FixedBitSet) (p : ℕ → Bool) (i n : ℕ) (b : Bool)
      → Models size s p
      → ltb i size ≡ true
      → n ≡ ones (set s.included i b)
      → Models size
          (record { included = set s.included i b; count = n })
          (λ j. if i == j then b else p j)
  unfolding contains
  written s p i n b m h e = record {
    valid = record { sized = length-set s.included i b ∙ m.valid.sized; counted = e };
    same = λ j. rw (bit-set s.included i j b (ground arith)) (go j (Bool-cases (i == j)));
  }
    where
      go :
          (j : ℕ)
          → ((i == j) ≡ true) ⊎ ((i == j) ≡ false)
          → (ltb j size && (if i == j then b else bit s.included j)) ≡ (if i == j then b else p j)
      go j (inl same) =
          let e : i ≡ j = ground arith in
          let k : ltb j size ≡ true = subst (λ k. ltb k size ≡ true) e h in rw (same, k) refl
      go j (inr differ) = rw differ (m.same j)

  insert-Models :
      (s : FixedBitSet) (p : ℕ → Bool) (i : ℕ)
      → Models size s p
      → ((FixedBitSet.insert size s i).0 ≡ (set_call size (insert i) p).0)
        × Models size (FixedBitSet.insert size s i).1 (set_call size (insert i) p).1
  unfolding FixedBitSet.insert
  insert-Models s p i m = elim (Bool-cases (ltb i size)) [
    | inl h ↦ elim (Bool-cases (bit s.included i)) [
      | inl there ↦
          let e = inside s p i true m h there in
          rw (h, there, FixedBitSet.insert, set_call)
            (
              rw e refl,
              record { valid = m.valid; same = λ j. m.same j ∙ kept j e (Bool-cases (i == j)) },
            )
      | inr absent ↦
          let e = inside s p i false m h absent in
          rw (h, absent, FixedBitSet.insert, set_call)
            (
              rw e refl,
              written s p i (s.count + 1) true m h
                  (omega (arith, m.valid.counted, ones-set s.included i (ground arith) absent)),
            )
    ]
    | inr out ↦
        rw (out, FixedBitSet.insert, set_call) (refl, record { valid = m.valid; same = m.same })
  ]
    where
      kept :
          (j : ℕ)
          → p i ≡ true
          → ((i == j) ≡ true) ⊎ ((i == j) ≡ false)
          → p j ≡ (if i == j then true else p j)
      kept j e (inl same) = let k : i ≡ j = ground arith in rw same (subst (λ k. p k ≡ true) k e)
      kept j e (inr differ) = rw differ refl

  remove-Models :
      (s : FixedBitSet) (p : ℕ → Bool) (i : ℕ)
      → Models size s p
      → ((FixedBitSet.remove size s i).0 ≡ (set_call size (remove i) p).0)
        × Models size (FixedBitSet.remove size s i).1 (set_call size (remove i) p).1
  unfolding FixedBitSet.remove contains
  remove-Models s p i m = elim (Bool-cases (ltb i size && bit s.included i)) [
    | inl there ↦
        let h : ltb i size ≡ true = ground arith in
        let on : bit s.included i ≡ true = ground arith in
        rw (there, FixedBitSet.remove)
          (
            sym (inside s p i true m h on),
            written s p i (s.count - 1) false m h
                (omega (arith, m.valid.counted, ones-unset s.included i (ground arith) on)),
          )
    | inr absent ↦
        let e : p i ≡ false = sym (m.same i) ∙ was_absent absent in
        rw (absent, FixedBitSet.remove)
          (sym e, record { valid = m.valid; same = λ j. m.same j ∙ kept j e (Bool-cases (i == j)) })
  ]
    where
      was_absent : (ltb i size && bit s.included i) ≡ false → contains size s i ≡ false
      was_absent h = h

      kept :
          (j : ℕ)
          → p i ≡ false
          → ((i == j) ≡ true) ⊎ ((i == j) ≡ false)
          → p j ≡ (if i == j then false else p j)
      kept j e (inl same) = let k : i ≡ j = ground arith in rw same (subst (λ k. p k ≡ false) k e)
      kept j e (inr differ) = rw differ refl

  clear-Models :
      (s : FixedBitSet) (p : ℕ → Bool)
      → Models size s p
      → Models size (FixedBitSet.clear s) (λ j. false)
  unfolding FixedBitSet.clear contains
  clear-Models s p m =
      let (none_left, long) = ones-cleared s.included in
      record {
        valid = record { sized = long ∙ m.valid.sized; counted = sym none_left };
        same = λ j. rw (cleared s.included j) (falsum (ltb j size));
      }
    where
      falsum : (b : Bool) → (b && false) ≡ false
      falsum true = refl
      falsum false = refl

  -- A run of insertions, removals and clearings replies as the run on a set of numbers does, where only
  -- numbers below the capacity enter; at the end the bits are that set, and the count is the number of bits.
  pub run-set_run :
      (cs : List Call) (s : FixedBitSet) (p : ℕ → Bool)
      → Models size s p
      → ((run size cs s).0 ≡ (set_run size cs p).0)
        × Models size (run size cs s).1 (set_run size cs p).1
  unfolding run set_run
  run-set_run [] s p m = (refl, m)
  run-set_run (c ∷ cs) s p m =
      let (r, t) = one c in
      let (rs, u) = run-set_run cs (call size c s).1 (set_call size c p).1 t in
      (ap₂ (λ k l. k ∷ l) r rs, u)
    where
      one :
          (c : Call)
          → ((call size c s).0 ≡ (set_call size c p).0)
            × Models size (call size c s).1 (set_call size c p).1
      one (insert i) = insert-Models s p i m
      one (remove i) = remove-Models s p i m
      one clear = (refl, clear-Models s p m)
