-- ===== src/Protocol/KeyValueResponse/First.antt =====
-- protocol/KeyValueResponseParser.cxx: of the pairs with a key, the first one counts.
use openkit_native.Prelude.{
  Bool, List, Option, Option-cases, [], ap, arith, false, if◌then◌else◌, inl, inr, none, refl, some,
  sym, true, ℕ, ◌∙◌, ◌∷◌, ◌≡◌,
}
use openkit_native.Json.Value.{same_bytes}
use openkit_native.Protocol.KeyValueResponse.{Pairs, find_pair, insert_pair}

abbrev pub enter_pairs : Pairs → Pairs → Pairs
enter_pairs [] entered = entered
enter_pairs ((key, value) ∷ pairs) entered = enter_pairs pairs (insert_pair key value entered)

-- The first value counts.
or_else {ℓ} : {A : Type ℓ} → Option A → Option A → Option A
or_else none o = o
or_else (some x) o = some x

same_bytes-eq : (cs ds : List ℕ) → same_bytes cs ds ≡ true → cs ≡ ds
unfolding same_bytes
same_bytes-eq [] [] h = refl
same_bytes-eq [] (d ∷ ds) h = cc
same_bytes-eq (c ∷ cs) [] h = cc
same_bytes-eq (c ∷ cs) (d ∷ ds) h =
    let heads : c ≡ d = ground arith in
    let tails : cs ≡ ds = same_bytes-eq cs ds (ground arith) in λ i. heads i ∷ tails i

or_else-none {ℓ} : {A : Type ℓ} (o : Option A) → or_else o none ≡ o
unfolding or_else
or_else-none none = refl
or_else-none (some x) = refl

or_else-if {ℓ} :
    {A : Type ℓ} (o : Option A) (b : Bool) (v : A) (r : Option A)
    → or_else (or_else o (if b then some v else none)) r ≡ or_else o (if b then some v else r)
unfolding or_else
or_else-if none true v r = refl
or_else-if none false v r = refl
or_else-if (some x) b v r = refl

-- The key is new, or it has a value that stays.
new_key :
    (key k v : List ℕ) (pairs : Pairs) (b : Bool)
    → find_pair k pairs ≡ none
    → same_bytes k key ≡ b
    → (if b then some v else find_pair key pairs)
      ≡ or_else (find_pair key pairs) (if b then some v else none)
unfolding or_else
new_key key k v pairs true e h =
    sym
      (ap (λ o. or_else o (some v)) (ap (λ z. find_pair z pairs) (sym (same_bytes-eq k key h)) ∙ e))
new_key key k v pairs false e h = sym (or_else-none (find_pair key pairs))

old_key :
    (key k v old : List ℕ) (pairs : Pairs) (b : Bool)
    → find_pair k pairs ≡ some old
    → same_bytes k key ≡ b
    → find_pair key pairs ≡ or_else (find_pair key pairs) (if b then some v else none)
unfolding or_else
old_key key k v old pairs true e h =
    let found = ap (λ z. find_pair z pairs) (sym (same_bytes-eq k key h)) ∙ e in
    found ∙ sym (ap (λ o. or_else o (some v)) found)
old_key key k v old pairs false e h = sym (or_else-none (find_pair key pairs))

find_pair-insert :
    (key k v : List ℕ) (pairs : Pairs)
    → find_pair key (insert_pair k v pairs)
      ≡ or_else (find_pair key pairs) (find_pair key ((k, v) ∷ []))
unfolding insert_pair find_pair or_else
find_pair-insert key k v pairs = elim (Option-cases (find_pair k pairs)) [
  | inl e ↦
      ap (λ o. find_pair key (elim o as (λ t. Pairs) [ none ↦ (k, v) ∷ pairs | some old ↦ pairs ]))
        e
      ∙ new_key key k v pairs (same_bytes k key) e refl
  | inr (old, e) ↦
      ap (λ o. find_pair key (elim o as (λ t. Pairs) [ none ↦ (k, v) ∷ pairs | some w ↦ pairs ])) e
      ∙ old_key key k v old pairs (same_bytes k key) e refl
]

find_pair-enter :
    (key : List ℕ) (pairs entered : Pairs)
    → find_pair key (enter_pairs pairs entered)
      ≡ or_else (find_pair key entered) (find_pair key pairs)
unfolding find_pair or_else
find_pair-enter key [] entered = sym (or_else-none (find_pair key entered))
find_pair-enter key ((k, v) ∷ pairs) entered =
    find_pair-enter key pairs (insert_pair k v entered)
    ∙ ap (λ o. or_else o (find_pair key pairs)) (find_pair-insert key k v entered)
    ∙ or_else-if (find_pair key entered) (same_bytes k key) v (find_pair key pairs)

pub find_pair-entered :
    (key : List ℕ) (pairs : Pairs) → find_pair key (enter_pairs pairs []) ≡ find_pair key pairs
unfolding find_pair or_else
find_pair-entered key pairs = find_pair-enter key pairs []
