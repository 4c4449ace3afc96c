-- ===== src/Cache/Links.antt =====
-- The invariant that ties the cache's map to its list, and what it gives for an element.
use lite_aig.Base.{
  ℕ, suc, ◌<◌, ◌==◌, if◌then◌else◌, Option, none, some, List, [], ◌∷◌, String, Bool, true, false,
  ◌≡◌, refl, arith, length, str_eq, eq_iff, Option-cases, subst, sym, ap, inl, inr,
}
use lite_aig.Base.Assoc.{Assoc, lookup, delete, delete_absent, IsMap}
use lite_aig.Cache.{Element, Entry, Store, deref, unlink, element_of}

-- The element of a key, found by walking the list.
unfoldable pub find : String → List Element → Option Element
find key [] = none
find key (e ∷ l) = let rest = find key l in if str_eq e.key key then some e else rest

unfoldable pub has_address : ℕ → List Element → Bool
has_address a [] = false
has_address a (e ∷ l) = let rest = has_address a l in if e.address == a then true else rest

-- No two elements of the list share an address, and none has one that is still to be given.
unfoldable pub IsFresh : ℕ → List Element → Type 0
IsFresh next [] = Unit
IsFresh next (e ∷ l) = (has_address e.address l ≡ false) × (e.address < next) × IsFresh next l

-- The list as a recency list: each key with its entry, most recently used first.
unfoldable pub view : List Element → Assoc Entry
view [] = []
view (e ∷ l) = (e.key, e.entry) ∷ view l

-- The address that the map should hold for a key.
unfoldable pub address_of : Option Element → Option ℕ
address_of none = none
address_of (some e) = some e.address

pub record AreLinked (entries : Assoc ℕ) (order : List Element) (next : ℕ) : Type 0 where
  pub map_keys : IsMap entries
  pub points : (key : String) → lookup key entries ≡ address_of (find key order)
  pub fresh : IsFresh next order
  pub list_keys : IsMap (view order)
  pub sizes : length entries ≡ length order

abbrev pub IsLinked : Store → Type 0
IsLinked s = AreLinked s.entries s.order s.next

pub length-view : (l : List Element) → length (view l) ≡ length l
unfolding view
length-view [] = refl
length-view (e ∷ l) = ap suc (length-view l)

pub lookup-view :
    (key : String) (l : List Element)
    → lookup key (view l) ≡ elim (find key l) [ none ↦ none | some e ↦ some e.entry ]
unfolding lookup view find
lookup-view key [] = refl
lookup-view key (e ∷ l) = ground (arith, lookup-view key l)

-- A found element is in the list, has the key, and is what its address points to.
pub has_address-find :
    (key : String) (l : List Element) (e : Element)
    → find key l ≡ some e
    → has_address e.address l ≡ true
unfolding find has_address
has_address-find key [] e h = cc
has_address-find key (f ∷ l) e h = ground (arith, has_address-find key l e)

pub key-find : (key : String) (l : List Element) (e : Element) → find key l ≡ some e → e.key ≡ key
unfolding find
key-find key [] e h = cc
key-find key (f ∷ l) e h = ground (arith, eq_iff f.key key, key-find key l e)

pub find_self :
    (key : String) (l : List Element) (e : Element) → find key l ≡ some e → find e.key l ≡ some e
find_self key l e h = subst (λ k. find k l ≡ some e) (sym (key-find key l e h)) h

deref-find :
    (key : String) (n : ℕ) (l : List Element) (e : Element)
    → IsFresh n l
    → find key l ≡ some e
    → deref e.address l ≡ some e
unfolding find deref IsFresh
deref-find key n [] e fresh h = cc
deref-find key n (f ∷ l) e fresh h =
    ground (arith, has_address-find key l e, deref-find key n l e fresh.2)

-- Unlinking the element of a key deletes the key from the recency list.
pub view-unlink :
    (key : String) (n : ℕ) (l : List Element) (e : Element)
    → IsFresh n l
    → IsMap (view l)
    → find key l ≡ some e
    → view (unlink e.address l) ≡ delete key (view l)
unfolding find view unlink delete IsFresh
view-unlink key n [] e fresh keys h = cc
view-unlink key n (f ∷ l) e fresh keys h = ground (
  arith,
  has_address-find key l e,
  eq_iff f.key key,
  delete_absent key (view l),
  view-unlink key n l e fresh.2 keys.1,
)

pub element_of-find : (s : Store) (key : String) → IsLinked s → element_of s key ≡ find key s.order
unfolding element_of address_of
element_of-find s key h = elim (Option-cases (find key s.order)) [
  | inl miss ↦ ground (arith, h.points key)
  | inr (e, hit) ↦ ground (arith, h.points key, deref-find key s.next s.order e h.fresh hit)
]
