-- ===== src/Base/Map.antt =====
-- `std::map`: a list of pairs in the order of the keys, over any strict total order.
use Prim.Native.Nat.{ℕ}
use mathlib.Core.Path.{◌≡◌, refl, ◌∙◌, sym}
use mathlib.Core.Bool.{Bool, true, false, not, ◌&&◌, ◌||◌}
use mathlib.Core.Option.{Option, none, some}
use mathlib.Core.List.{List, [], ◌∷◌}
use mathlib.Core.Logic.{◌≢◌, inl, inr}
use native.Mathlib.Omega.{arith}
use cly_server.Base.Tests.{ltb, ◌==◌, if◌then◌else◌, Bool-cases}

pub record Key {ℓ} (K : Type ℓ) : Type ℓ where
  pub less : K → K → Bool
  pub less_irrefl : (a : K) → less a a ≡ false
  pub less_trans : (a b c : K) → less a b ≡ true → less b c ≡ true → less a c ≡ true
  pub less_total : (a b : K) → less a b ≡ false → less b a ≡ false → a ≡ b

pub nat_irrefl : (a : ℕ) → ltb a a ≡ false
nat_irrefl a = ground arith

pub nat_trans : (a b c : ℕ) → ltb a b ≡ true → ltb b c ≡ true → ltb a c ≡ true
nat_trans a b c h k = ground arith

pub nat_total : (a b : ℕ) → ltb a b ≡ false → ltb b a ≡ false → a ≡ b
nat_total a b h k = ground arith

instance abbrev pub nat_key : Key ℕ
nat_key = record {
  less = ltb;
  less_irrefl = nat_irrefl;
  less_trans = nat_trans;
  less_total = nat_total;
}

-- `std::string` order, byte by byte.
unfoldable pub string_less : List ℕ → List ℕ → Bool
string_less [] [] = false
string_less [] (b ∷ bs) = true
string_less (a ∷ as') [] = false
string_less (a ∷ as') (b ∷ bs) = ltb a b || (a == b && string_less as' bs)

pub string_irrefl : (a : List ℕ) → string_less a a ≡ false
unfolding string_less
string_irrefl [] = refl
string_irrefl (a ∷ as') = ground (arith, string_irrefl as')

pub string_trans :
    (a b c : List ℕ) → string_less a b ≡ true → string_less b c ≡ true → string_less a c ≡ true
unfolding string_less
string_trans [] [] c h k = ground arith
string_trans [] (b ∷ bs) [] h k = ground arith
string_trans [] (b ∷ bs) (c ∷ cs) h k = refl
string_trans (a ∷ as') [] c h k = ground arith
string_trans (a ∷ as') (b ∷ bs) [] h k = ground arith
string_trans (a ∷ as') (b ∷ bs) (c ∷ cs) h k = ground (arith, string_trans as' bs cs)

pub string_total : (a b : List ℕ) → string_less a b ≡ false → string_less b a ≡ false → a ≡ b
unfolding string_less
string_total [] [] h k = refl
string_total [] (b ∷ bs) h k = ground arith
string_total (a ∷ as') [] h k = ground arith
string_total (a ∷ as') (b ∷ bs) h k = ground (arith, string_total as' bs)

instance abbrev pub string_key : Key (List ℕ)
string_key = record {
  less = string_less;
  less_irrefl = string_irrefl;
  less_trans = string_trans;
  less_total = string_total;
}

-- Neither key is before the other.
unfoldable pub same {ℓ} : {K : Type ℓ} ⦃o : Key K⦄ → K → K → Bool
same ⦃o⦄ a b = not (o.less a b) && not (o.less b a)

module _ {ℓ} {K : Type ℓ} ⦃o : Key K⦄ where
  pub same-eq : (a b : K) → same a b ≡ true → a ≡ b
  unfolding same
  same-eq a b h = ground (arith, o.less_total a b)

  pub same_refl : (a : K) → same a a ≡ true
  unfolding same
  same_refl a = rw (o.less_irrefl a)

  pub less-same : (a b : K) → o.less a b ≡ true → same a b ≡ false
  unfolding same
  less-same a b h = ground arith

  pub less-same_flip : (a b : K) → o.less b a ≡ true → same a b ≡ false
  unfolding same
  less-same_flip a b h = ground arith

module _ {ℓ κ} {K : Type ℓ} {V : Type κ} ⦃o : Key K⦄ where
  -- `m[k] = v`.
  unfoldable pub insert : K → V → List (K × V) → List (K × V)
  insert k v [] = (k, v) ∷ []
  insert k v ((j, w) ∷ m) =
      if o.less k j
      then (k, v) ∷ (j, w) ∷ m
      else if o.less j k
      then (j, w) ∷ insert k v m
      else (j, v) ∷ m

  unfoldable pub lookup : K → List (K × V) → Option V
  lookup k [] = none
  lookup k ((j, w) ∷ m) = if same j k then some w else lookup k m

  unfoldable pub erase : K → List (K × V) → List (K × V)
  erase k [] = []
  erase k ((j, w) ∷ m) = if same j k then erase k m else (j, w) ∷ erase k m

module _ {ℓ κ} {K : Type ℓ} {V : Type κ} ⦃o : Key K⦄ where
  pub lookup-insert_self : (k : K) (v : V) (m : List (K × V)) → lookup k (insert k v m) ≡ some v
  unfolding lookup insert
  lookup-insert_self k v [] = rw (same_refl k)
  lookup-insert_self k v ((j, w) ∷ m) = elim (Bool-cases (o.less k j)) [
    | inl before ↦ rw (before, same_refl k)
    | inr later ↦ elim (Bool-cases (o.less j k)) [
      | inl after ↦ rw (later, after, less-same j k after) (lookup-insert_self k v m)
      | inr level ↦ rw (later, level, o.less_total k j later level, same_refl j)
    ]
  ]

  pub lookup-insert_ne :
      (k i : K) (v : V) (m : List (K × V)) → same k i ≡ false → lookup i (insert k v m) ≡ lookup i m
  unfolding lookup insert
  lookup-insert_ne k i v [] ne = rw ne
  lookup-insert_ne k i v ((j, w) ∷ m) ne = elim (Bool-cases (o.less k j)) [
    | inl before ↦ rw (before, ne)
    | inr later ↦ elim (Bool-cases (o.less j k)) [
      | inl after ↦ rw (later, after, lookup-insert_ne k i v m ne)
      | inr level ↦ rw (later, level, ← o.less_total k j later level, ne)
    ]
  ]

  pub lookup-erase_self : (k : K) (m : List (K × V)) → lookup k (erase k m) ≡ none
  unfolding lookup erase
  lookup-erase_self k [] = refl
  lookup-erase_self k ((j, w) ∷ m) = elim (Bool-cases (same j k)) [
    | inl hit ↦ rw hit (lookup-erase_self k m)
    | inr miss ↦ rw (miss, miss) (lookup-erase_self k m)
  ]

  pub lookup-erase_ne : (k i : K) (m : List (K × V)) → k ≢ i → lookup i (erase k m) ≡ lookup i m
  unfolding lookup erase
  lookup-erase_ne k i [] ne = refl
  lookup-erase_ne k i ((j, w) ∷ m) ne = elim (Bool-cases (same j k)) [
    | inl hit ↦ rw (hit, miss_other j hit) (lookup-erase_ne k i m ne)
    | inr miss ↦ rw (miss, lookup-erase_ne k i m ne)
  ]
    where
      miss_other : (j : K) → same j k ≡ true → same j i ≡ false
      miss_other j hit = elim (Bool-cases (same j i)) [
        | inr e ↦ e
        | inl e ↦ absurd (ne (sym (same-eq j k hit) ∙ same-eq j i e))
      ]

-- Keys strictly ascend, from a bound on.
abbrev pub Above {ℓ κ} : {K : Type ℓ} {V : Type κ} (o : Key K) → K → List (K × V) → Type 0
Above o a [] = Unit {0}
Above o a ((j, w) ∷ m) = (o.less a j ≡ true) × Above o j m

abbrev pub IsSorted {ℓ κ} : {K : Type ℓ} {V : Type κ} (o : Key K) → List (K × V) → Type 0
IsSorted o [] = Unit {0}
IsSorted o ((j, w) ∷ m) = Above o j m

module _ {ℓ κ} {K : Type ℓ} {V : Type κ} ⦃o : Key K⦄ where
  insert-Above :
      (a k : K) (v : V) (m : List (K × V))
      → o.less a k ≡ true
      → Above o a m
      → Above o a (insert k v m)
  unfolding insert
  insert-Above a k v [] h s = (h, tt)
  insert-Above a k v ((j, w) ∷ m) h s = elim (Bool-cases (o.less k j)) [
    | inl before ↦ rw before (h, (before, s.1))
    | inr later ↦ elim (Bool-cases (o.less j k)) [
      | inl after ↦ rw (later, after) (s.0, insert-Above j k v m after s.1)
      | inr level ↦ rw (later, level) s
    ]
  ]

  pub insert-IsSorted :
      (k : K) (v : V) (m : List (K × V)) → IsSorted o m → IsSorted o (insert k v m)
  unfolding insert
  insert-IsSorted k v [] s = tt
  insert-IsSorted k v ((j, w) ∷ m) s = elim (Bool-cases (o.less k j)) [
    | inl before ↦ rw before (before, s)
    | inr later ↦ elim (Bool-cases (o.less j k)) [
      | inl after ↦ rw (later, after) (insert-Above j k v m after s)
      | inr level ↦ rw (later, level) s
    ]
  ]

module _ {ℓ} {K : Type ℓ} ⦃o : Key K⦄ where
  pub same-ne : (a b : K) → a ≢ b → same a b ≡ false
  same-ne a b h = elim (Bool-cases (same a b)) [ inl e ↦ absurd (h (same-eq a b e)) | inr e ↦ e ]
