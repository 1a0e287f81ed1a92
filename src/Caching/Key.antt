-- ===== src/Caching/Key.antt =====
-- core/caching/BeaconKey.cxx, and the map from such keys (`std::unordered_map`) as a list of pairs:
-- the code never depends on the order in which the map is traversed.
use mathlib.Core.Path.{subst}
use openkit_native.Prelude.{
  All, Bool, Bool-cases, List, Option, [], arith, false, if◌then◌else◌, inl, inr, none, refl, some,
  true, ℕ, ◌&&◌, ◌+◌, ◌==◌, ◌↔◌, ◌∷◌, ◌≡◌,
}

pub record BeaconKey : Type 0 where
  pub beacon_id : ℕ
  pub beacon_sequence_number : ℕ

unfoldable pub key_eq : BeaconKey → BeaconKey → Bool
key_eq a b = a.beacon_id == b.beacon_id && a.beacon_sequence_number == b.beacon_sequence_number

pub key_eq_iff : (a b : BeaconKey) → (key_eq a b ≡ true) ↔ (a ≡ b)
unfolding key_eq
key_eq_iff a b = ground arith

module _ {ℓ} {V : Type ℓ} where
  unfoldable pub find : BeaconKey → List (BeaconKey × V) → Option V
  find k [] = none
  find k ((j, v) ∷ m) = if key_eq j k then some v else find k m

  -- a new key goes to the end
  unfoldable pub put : BeaconKey → V → List (BeaconKey × V) → List (BeaconKey × V)
  put k v [] = (k, v) ∷ []
  put k v ((j, w) ∷ m) = if key_eq j k then (j, v) ∷ m else (j, w) ∷ put k v m

  unfoldable pub erase : BeaconKey → List (BeaconKey × V) → List (BeaconKey × V)
  erase k [] = []
  erase k ((j, v) ∷ m) = if key_eq j k then m else (j, v) ∷ erase k m

  pub find-put :
      (k j : BeaconKey) (v : V) (m : List (BeaconKey × V))
      → find j (put k v m) ≡ (if key_eq k j then some v else find j m)
  unfolding find put
  find-put k j v [] = refl
  find-put k j v ((i, w) ∷ m) =
      ground (arith, key_eq_iff k j, key_eq_iff i k, key_eq_iff i j, find-put k j v m)

  pub find-put_self :
      (k : BeaconKey) (v : V) (m : List (BeaconKey × V)) → find k (put k v m) ≡ some v
  find-put_self k v m = rw (find-put k k v m, (key_eq_iff k k).1 refl)

  pub find-put_ne :
      (k j : BeaconKey) (v : V) (m : List (BeaconKey × V))
      → key_eq k j ≡ false
      → find j (put k v m) ≡ find j m
  find-put_ne k j v m h = rw (find-put k j v m, h)

  pub find-erase_ne :
      (k j : BeaconKey) (m : List (BeaconKey × V))
      → key_eq k j ≡ false
      → find j (erase k m) ≡ find j m
  unfolding find erase
  find-erase_ne k j [] h = refl
  find-erase_ne k j ((i, w) ∷ m) h =
      ground (arith, key_eq_iff k j, key_eq_iff i k, key_eq_iff i j, find-erase_ne k j m)

module _ {ℓ κ} {V : Type ℓ} (P : V → Type κ) where
  pub All-find :
      (k : BeaconKey) (m : List (BeaconKey × V)) {v : V}
      → All (λ p. P p.1) m
      → find k m ≡ some v
      → P v
  unfolding find
  All-find k [] h f = cc
  All-find k ((j, w) ∷ m) {v} h f = elim (Bool-cases (key_eq j k)) [
    | inl here ↦ let e : w ≡ v = ground arith in subst P e h.0
    | inr later ↦ All-find k m h.1 (ground arith)
  ]

  pub All-put :
      (k : BeaconKey) (v : V) (m : List (BeaconKey × V))
      → P v
      → All (λ p. P p.1) m
      → All (λ p. P p.1) (put k v m)
  unfolding put
  All-put k v [] pv h = (pv, tt)
  All-put k v ((j, w) ∷ m) pv h = elim (Bool-cases (key_eq j k)) [
    | inl here ↦ rw here (pv, h.1)
    | inr later ↦ rw later (h.0, All-put k v m pv h.1)
  ]

  pub All-erase :
      (k : BeaconKey) (m : List (BeaconKey × V)) → All (λ p. P p.1) m → All (λ p. P p.1) (erase k m)
  unfolding erase
  All-erase k [] h = tt
  All-erase k ((j, w) ∷ m) h = elim (Bool-cases (key_eq j k)) [
    | inl here ↦ rw here h.1
    | inr later ↦ rw later (h.0, All-erase k m h.1)
  ]

-- Sums over the values.
module _ {ℓ} {V : Type ℓ} (f : V → ℕ) where
  abbrev pub sum_of : List (BeaconKey × V) → ℕ
  sum_of [] = 0
  sum_of ((j, v) ∷ m) = f v + sum_of m

  pub sum_of-put_found :
      (k : BeaconKey) (v w : V) (m : List (BeaconKey × V))
      → find k m ≡ some w
      → sum_of (put k v m) + f w ≡ sum_of m + f v
  unfolding find put
  sum_of-put_found k v w [] h = cc
  sum_of-put_found k v w ((j, u) ∷ m) h = ground (arith, sum_of-put_found k v w m)

  pub sum_of-put_new :
      (k : BeaconKey) (v : V) (m : List (BeaconKey × V))
      → find k m ≡ none
      → sum_of (put k v m) ≡ sum_of m + f v
  unfolding find put
  sum_of-put_new k v [] h = omega arith
  sum_of-put_new k v ((j, u) ∷ m) h = ground (arith, sum_of-put_new k v m)

  pub sum_of-erase :
      (k : BeaconKey) (w : V) (m : List (BeaconKey × V))
      → find k m ≡ some w
      → sum_of (erase k m) + f w ≡ sum_of m
  unfolding find erase
  sum_of-erase k w [] h = cc
  sum_of-erase k w ((j, u) ∷ m) h = ground (arith, sum_of-erase k w m)
