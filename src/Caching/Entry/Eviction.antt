-- ===== src/Caching/Entry/Eviction.antt =====
-- core/caching/BeaconCacheEntry.cxx: which records eviction takes from an entry.
use native.Mathlib.Nat.{le_trans}
use Prim.Native.Nat.{min}
use openkit_native.Prelude.{
  All, All-drop, All-mono, Bool-cases, List, [], arith, drop, false, if◌then◌else◌, inl, inr,
  length, ltb, ltb→lt, rank64, refl, slt32, slt64, suc, sym, take, true, ℕ, ◌+◌, ◌-◌, ◌<◌, ◌^◌, ◌∙◌,
  ◌∷◌, ◌≡◌, ◌≤◌, ◌⊎◌,
}
use openkit_native.Caching.Record.{Record}
use openkit_native.Caching.Entry.{
  Entry, Removal, erase_older_than, erase_oldest, remove_oldest_records, remove_records_older_than,
}

abbrev pub IsOlder : ℕ → Record → Type 0
IsOlder bound r = slt64 r.timestamp bound ≡ true

-- What stays is what is not older than the bound, in its order.
unfoldable pub keep_recent : ℕ → List Record → List Record
keep_recent bound [] = []
keep_recent bound (r ∷ rs) =
    if slt64 r.timestamp bound then keep_recent bound rs else r ∷ keep_recent bound rs

pub erase_older-keep :
    (bound : ℕ) (rs : List Record) → (erase_older_than bound rs).0 ≡ keep_recent bound rs
unfolding erase_older_than keep_recent
erase_older-keep bound [] = refl
erase_older-keep bound (r ∷ rs) = ground (arith, erase_older-keep bound rs)

-- The count of a list of less than 2 ^ 31 records does not overflow.
erase_older-count :
    (bound : ℕ) (rs : List Record)
    → length rs < 2 ^ 31
    → (erase_older_than bound rs).1 + length (keep_recent bound rs) ≡ length rs
unfolding erase_older_than keep_recent
erase_older-count bound [] few = omega arith
erase_older-count bound (r ∷ rs) few =
    let before = erase_older-count bound rs (omega arith) in
    elim (Bool-cases (slt64 r.timestamp bound)) [
      | inl older ↦ rw older (omega (arith, before))
      | inr newer ↦ rw newer (omega (arith, before))
    ]

pub keep_recent-All :
    (bound : ℕ) (rs : List Record)
    → All (λ r. slt64 r.timestamp bound ≡ false) (keep_recent bound rs)
unfolding keep_recent
keep_recent-All bound [] = tt
keep_recent-All bound (r ∷ rs) = elim (Bool-cases (slt64 r.timestamp bound)) [
  | inl older ↦ rw older (keep_recent-All bound rs)
  | inr recent ↦ rw recent (recent, keep_recent-All bound rs)
]

-- The place of a record in the order of time.
unfoldable pub rank_of : Record → ℕ
rank_of r = rank64 r.timestamp

abbrev pub NotOlder : Record → Record → Type 0
NotOlder r s = rank_of r ≤ rank_of s

-- A list in the order of time.
abbrev pub Ordered : List Record → Type 0
Ordered [] = Unit
Ordered (r ∷ rs) = All (NotOlder r) rs × Ordered rs

older-lt : (r s : Record) → slt64 r.timestamp s.timestamp ≡ true → NotOlder r s
unfolding slt64 rank_of
older-lt r s h = ground arith

NotOlder-le : (r s : Record) → slt64 r.timestamp s.timestamp ≡ false → NotOlder s r
unfolding slt64 rank_of
NotOlder-le r s h = ground arith

-- The first of two ordered lists, if not newer than the first of the other, is the oldest of all.
oldest_of :
    (r s : Record) (rs ss : List Record)
    → NotOlder r s
    → All (NotOlder r) rs
    → All (NotOlder s) ss
    → All (NotOlder r) (s ∷ ss) × All (NotOlder r) rs
oldest_of r s rs ss h hr hs = ((h, All-mono (NotOlder s) (λ x hx. le_trans h hx) ss hs), hr)

-- What a removal of at most `n` records took, in front of what is left.
pub record IsOldest (n removed : ℕ) (es rs : List Record) (left : Removal) : Type 0 where
  pub events_taken : ℕ
  pub actions_taken : ℕ
  pub events_left : left.events ≡ drop events_taken es
  pub actions_left : left.actions ≡ drop actions_taken rs
  pub counted : left.removed ≡ removed + events_taken + actions_taken
  pub enough : left.removed ≡ removed + min (n - removed) (length es + length rs)
  pub oldest_events :
      All (λ t. All (NotOlder t) left.events × All (NotOlder t) left.actions) (take events_taken es)
  pub oldest_actions :
      All
        (λ t. All (NotOlder t) left.events × All (NotOlder t) left.actions)
        (take actions_taken rs)

nothing_taken :
    (n removed : ℕ) (es rs : List Record)
    → (n - removed ≡ 0) ⊎ (length es + length rs ≡ 0)
    → IsOldest n removed es rs (record { events = es; actions = rs; removed = removed })
nothing_taken n removed es rs h = record {
  events_taken = 0;
  actions_taken = 0;
  events_left = refl;
  actions_left = refl;
  counted = omega arith;
  enough = omega arith;
  oldest_events = tt;
  oldest_actions = tt;
}

event_taken :
    (n removed : ℕ) (e : Record) (es rs : List Record) (left : Removal)
    → removed < n
    → All (NotOlder e) es
    → All (NotOlder e) rs
    → IsOldest n (removed + 1) es rs left
    → IsOldest n removed (e ∷ es) rs left
event_taken n removed e es rs left room he hr o = record {
  events_taken = suc o.events_taken;
  actions_taken = o.actions_taken;
  events_left = o.events_left;
  actions_left = o.actions_left;
  counted = omega (arith, o.counted);
  enough = omega (arith, o.enough);
  oldest_events = (
    (
      rw o.events_left (All-drop (NotOlder e) o.events_taken es he),
      rw o.actions_left (All-drop (NotOlder e) o.actions_taken rs hr),
    ),
    o.oldest_events,
  );
  oldest_actions = o.oldest_actions;
}

action_taken :
    (n removed : ℕ) (a : Record) (es rs : List Record) (left : Removal)
    → removed < n
    → All (NotOlder a) es
    → All (NotOlder a) rs
    → IsOldest n (removed + 1) es rs left
    → IsOldest n removed es (a ∷ rs) left
action_taken n removed a es rs left room he hr o = record {
  events_taken = o.events_taken;
  actions_taken = suc o.actions_taken;
  events_left = o.events_left;
  actions_left = o.actions_left;
  counted = omega (arith, o.counted);
  enough = omega (arith, o.enough);
  oldest_events = o.oldest_events;
  oldest_actions = (
    (
      rw o.events_left (All-drop (NotOlder a) o.events_taken es he),
      rw o.actions_left (All-drop (NotOlder a) o.actions_taken rs hr),
    ),
    o.oldest_actions,
  );
}

room_iff : (n removed : ℕ) → n < 2 ^ 31 → removed ≤ n → slt32 removed n ≡ ltb removed n
unfolding slt32
room_iff n removed small le = ground arith

module _ (n : ℕ) (small : n < 2 ^ 31) where
  room_left : (removed : ℕ) → removed ≤ n → slt32 removed n ≡ true → removed < n
  room_left removed le room = ltb→lt removed n (sym (room_iff n removed small le) ∙ room)

  no_room : (removed : ℕ) → removed ≤ n → slt32 removed n ≡ false → n - removed ≡ 0
  no_room removed le full =
      let test : ltb removed n ≡ false = sym (room_iff n removed small le) ∙ full in ground arith

  -- The records that are taken are the oldest ones, as many as asked for or all there are.
  pub erase_oldest-IsOldest :
      (removed : ℕ) (es rs : List Record)
      → removed ≤ n
      → Ordered es
      → Ordered rs
      → IsOldest n removed es rs (erase_oldest n removed es rs)
  unfolding erase_oldest
  erase_oldest-IsOldest removed [] [] le oe or = nothing_taken n removed [] [] (inr (omega arith))
  erase_oldest-IsOldest removed [] (a ∷ rs) le oe or = elim (Bool-cases (slt32 removed n)) [
    | inl room ↦
        let lt : removed < n = room_left removed le room in
        rw room (
          action_taken n removed a [] rs _ lt tt or.0
            (erase_oldest-IsOldest (removed + 1) [] rs (omega arith) tt or.1))
    | inr full ↦ rw full (nothing_taken n removed [] (a ∷ rs) (inl (no_room removed le full)))
  ]
  erase_oldest-IsOldest removed (e ∷ es) [] le oe or = elim (Bool-cases (slt32 removed n)) [
    | inl room ↦
        let lt : removed < n = room_left removed le room in
        rw room (
          event_taken n removed e es [] _ lt oe.0 tt
            (erase_oldest-IsOldest (removed + 1) es [] (omega arith) oe.1 tt))
    | inr full ↦ rw full (nothing_taken n removed (e ∷ es) [] (inl (no_room removed le full)))
  ]
  erase_oldest-IsOldest removed (e ∷ es) (a ∷ rs) le oe or = elim (Bool-cases (slt32 removed n)) [
    | inl room ↦
        let lt : removed < n = room_left removed le room in
        elim (Bool-cases (slt64 a.timestamp e.timestamp)) [
          | inl older ↦
              let (others, own) = oldest_of a e rs es (older-lt a e older) or.0 oe.0 in
              rw (room, older)
                (action_taken n removed a (e ∷ es) rs _ lt others own
                  (erase_oldest-IsOldest (removed + 1) (e ∷ es) rs (omega arith) oe or.1))
          | inr not_older ↦
              let (others, own) = oldest_of e a es rs (NotOlder-le a e not_older) oe.0 or.0 in
              rw (room, not_older)
                (event_taken n removed e es (a ∷ rs) _ lt own others
                  (erase_oldest-IsOldest (removed + 1) es (a ∷ rs) (omega arith) oe.1 or))
        ]
    | inr full ↦ rw full (nothing_taken n removed (e ∷ es) (a ∷ rs) (inl (no_room removed le full)))
  ]

-- Both lists of an entry stand in the order of time.
abbrev pub IsOrdered : Entry → Type 0
IsOrdered e = Ordered e.event_data × Ordered e.action_data

-- From an entry in the order of time, with a number of records that is not negative,
-- `remove_oldest_records` takes the oldest records, as many as asked for or all there are, reports
-- how many it took, and leaves the rest of both lists and everything else as it was. (It leaves the
-- byte count as it was too.)
pub remove_oldest_records-IsOldest :
    (n : ℕ) (e : Entry)
    → n < 2 ^ 31
    → IsOrdered e
    → let (e', removed) = remove_oldest_records n e in
      IsOldest n 0 e.event_data e.action_data
        (record { events = e'.event_data; actions = e'.action_data; removed = removed })
      × (e' ≡ record e { event_data = e'.event_data; action_data = e'.action_data })
unfolding remove_oldest_records
remove_oldest_records-IsOldest n e small o =
    (erase_oldest-IsOldest n small 0 e.event_data e.action_data (omega arith) o.0 o.1, refl)

-- From an entry with less than 2 ^ 31 records, collected events and actions together,
-- `remove_records_older_than` keeps exactly the records that are not older than the bound, in their
-- order, reports how many it took, and leaves everything else as it was.
pub remove_older-keep :
    (bound : ℕ) (e : Entry)
    → length e.event_data + length e.action_data < 2 ^ 31
    → let (e', removed) = remove_records_older_than bound e in
      (e' ≡ record e {
        event_data = keep_recent bound e.event_data;
        action_data = keep_recent bound e.action_data;
      })
      × (removed + length e'.event_data + length e'.action_data
          ≡ length e.event_data + length e.action_data)
unfolding remove_records_older_than
remove_older-keep bound e few = ground (
  arith,
  erase_older-keep bound e.event_data,
  erase_older-keep bound e.action_data,
  erase_older-count bound e.event_data (omega arith),
  erase_older-count bound e.action_data (omega arith),
)
