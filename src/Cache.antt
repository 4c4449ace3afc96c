-- ===== src/Cache.antt =====
-- internal/cache/memory.go: the least-recently-used cache of one process. The Go map holds
-- pointers to the elements of a doubly linked list; here an element has a number, which stands for
-- its address, and the map holds numbers. The reading of the clock is an argument of `get`.
pub mod Links
pub mod Steps
pub mod Recency
pub mod History
mod Tests
use lite_aig.Base.{
  ℕ, zero, suc, ◌+◌, ◌==◌, if◌then◌else◌, Option, none, some, List, [], ◌∷◌, String, Bool, ◌&&◌,
  length,
}
use lite_aig.Base.Assoc.{Assoc, lookup, insert, delete}
use lite_aig.Base.Int.{pos, ltb_ℤ}
use lite_aig.Base.Word.{Int64, add64, slt, sle}
use lite_aig.Base.Clock.{Time, Duration, sub_time}

pub record Entry : Type 0 where
  pub response : String
  pub stored_at : Time
  pub ttl : Duration

pub record Stats : Type 0 where
  pub hits : Int64
  pub misses : Int64
  pub puts : Int64
  pub evictions : Int64

pub record Element : Type 0 where
  pub address : ℕ
  pub key : String
  pub entry : Entry

-- `next` is the address of the next element that is allocated.
pub record Store : Type 0 where
  pub capacity : Int64
  pub entries : Assoc ℕ
  pub order : List Element
  pub next : ℕ
  pub stats : Stats

unfoldable pub new : Int64 → Store
new capacity = record {
  capacity = if sle capacity 0 then 1024 else capacity;
  entries = [];
  order = [];
  next = 0;
  stats = record { hits = 0; misses = 0; puts = 0; evictions = 0 };
}

-- container/list: the element at an address, the list without it, and the last element.
unfoldable pub deref : ℕ → List Element → Option Element
deref a [] = none
deref a (e ∷ l) = let rest = deref a l in if e.address == a then some e else rest

unfoldable pub unlink : ℕ → List Element → List Element
unlink a [] = []
unlink a (e ∷ l) = let rest = unlink a l in if e.address == a then l else e ∷ rest

unfoldable pub back : List Element → Option Element
back [] = none
back (e ∷ []) = some e
back (e ∷ f ∷ l) = back (f ∷ l)

unfoldable pub remove : Store → Element → Store
remove s e = record s { entries = delete e.key s.entries; order = unlink e.address s.order }

-- `MoveToFront`, with the write to the element's value that precedes it in `Put`.
unfoldable pub to_front : Store → Element → Store
to_front s e = record s { order = e ∷ unlink e.address s.order }

unfoldable pub count_hit : Store → Store
count_hit s = record s { stats = record s.stats { hits = add64 s.stats.hits 1 } }

unfoldable pub count_miss : Store → Store
count_miss s = record s { stats = record s.stats { misses = add64 s.stats.misses 1 } }

unfoldable pub count_put : Store → Store
count_put s = record s { stats = record s.stats { puts = add64 s.stats.puts 1 } }

unfoldable pub count_eviction : Store → Store
count_eviction s = record s { stats = record s.stats { evictions = add64 s.stats.evictions 1 } }

unfoldable pub is_expired : Entry → Time → Bool
is_expired entry now = ltb_ℤ (pos 0) entry.ttl && ltb_ℤ entry.ttl (sub_time now entry.stored_at)

-- The element that the map points to for a key.
unfoldable pub element_of : Store → String → Option Element
element_of s key = elim (lookup key s.entries) [ none ↦ none | some a ↦ deref a s.order ]

-- `none` is ErrMiss.
unfoldable pub get : Store → String → Time → Store × Option Entry
get s key now = elim (element_of s key) [
  | none ↦ (count_miss s, none)
  | some e ↦
      if is_expired e.entry now
      then (count_miss (remove s e), none)
      else (count_hit (to_front s e), some e.entry)
]

-- The loop at the end of `Put`; a round removes an element, so that as many rounds as there are
-- keys are enough.
unfoldable pub evict : ℕ → Store → Store
evict zero s = s
evict (suc n) s =
    let rest : Store = elim (back s.order) [
      | none ↦ s
      | some e ↦ evict n (count_eviction (remove s e))
    ] in
    if slt s.capacity (length s.entries) then rest else s

-- A new element in front, and its address in the map.
unfoldable pub push : Store → String → Entry → Store
push s key entry = record s {
  entries = insert key s.next s.entries;
  order = record { address = s.next; key = key; entry = entry } ∷ s.order;
  next = s.next + 1;
}

unfoldable pub put : Store → String → Entry → Store
put s key entry = elim (element_of s key) [
  | some e ↦ count_put (to_front s (record e { entry = entry }))
  | none ↦ let pushed = count_put (push s key entry) in evict (length pushed.entries) pushed
]

unfoldable pub delete_key : Store → String → Store
delete_key s key = elim (element_of s key) [ none ↦ s | some e ↦ remove s e ]
