-- ===== src/Cache/Steps.antt =====
-- What the three writes to the cache's map and list do: removal of an element, a move to the front
-- and a new element. Each keeps the invariant.
use lite_aig.Base.{
  ℕ, zero, suc, ◌+◌, ◌<◌, if◌then◌else◌, none, some, List, [], ◌∷◌, String, true, false, ◌≡◌, refl,
  arith, length, str_eq, eq_iff, eq_refl, take, ap,
}
use lite_aig.Base.Assoc.{
  lookup, delete, lookup-delete, lookup-insert, IsMap, delete-IsMap, insert-IsMap, length-delete,
  length-insert_new, lookup-delete_self,
}
use lite_aig.Cache.{Element, Entry, Store, unlink, back, remove, to_front, push}
use lite_aig.Cache.Links.{
  find, has_address, IsFresh, view, address_of, IsLinked, lookup-view, has_address-find,
  view-unlink,
}

has_address-unlink :
    (a b : ℕ) (l : List Element) → has_address a l ≡ false → has_address a (unlink b l) ≡ false
unfolding has_address unlink
has_address-unlink a b [] h = refl
has_address-unlink a b (e ∷ l) h = ground (arith, has_address-unlink a b l)

unlink-IsFresh : (n a : ℕ) (l : List Element) → IsFresh n l → IsFresh n (unlink a l)
unfolding unlink IsFresh
unlink-IsFresh n a [] h = h
unlink-IsFresh n a (e ∷ l) h =
    ground (arith, has_address-unlink e.address a l, unlink-IsFresh n a l h.2)

-- An unlinked address is gone, since no other element has it.
has_address-unlink_self :
    (n : ℕ) (e : Element) (l : List Element)
    → IsFresh n l
    → has_address e.address (unlink e.address l) ≡ false
unfolding has_address unlink IsFresh
has_address-unlink_self n e [] h = refl
has_address-unlink_self n e (f ∷ l) h = ground (arith, has_address-unlink_self n e l h.2)

has_address-IsFresh : (n : ℕ) (l : List Element) → IsFresh n l → has_address n l ≡ false
unfolding has_address IsFresh
has_address-IsFresh n [] h = refl
has_address-IsFresh n (f ∷ l) h = ground (arith, has_address-IsFresh n l h.2)

address-find-lt :
    (key : String) (n : ℕ) (l : List Element) (e : Element)
    → IsFresh n l
    → find key l ≡ some e
    → e.address < n
unfolding find IsFresh
address-find-lt key n [] e fresh h = cc
address-find-lt key n (f ∷ l) e fresh h = ground (arith, address-find-lt key n l e fresh.2)

suc-IsFresh : (n : ℕ) (l : List Element) → IsFresh n l → IsFresh (n + 1) l
unfolding IsFresh
suc-IsFresh n [] h = h
suc-IsFresh n (e ∷ l) h = ground (arith, suc-IsFresh n l h.2)

find-absent : (key : String) (l : List Element) → lookup key (view l) ≡ none → find key l ≡ none
unfolding find view lookup
find-absent key [] h = refl
find-absent key (f ∷ l) h = ground (arith, find-absent key l)

find-unlink :
    (key q : String) (n : ℕ) (l : List Element) (e : Element)
    → IsFresh n l
    → IsMap (view l)
    → find key l ≡ some e
    → find q (unlink e.address l) ≡ (if str_eq key q then none else find q l)
unfolding find view unlink IsFresh
find-unlink key q n [] e fresh keys h = cc
find-unlink key q n (f ∷ l) e fresh keys h = ground (
  arith,
  has_address-find key l e,
  eq_iff f.key key,
  eq_iff key q,
  eq_iff f.key q,
  find-absent key l,
  find-unlink key q n l e fresh.2 keys.1,
)

length-unlink :
    (key : String) (n : ℕ) (l : List Element) (e : Element)
    → IsFresh n l
    → find key l ≡ some e
    → suc (length (unlink e.address l)) ≡ length l
unfolding find unlink IsFresh
length-unlink key n [] e fresh h = cc
length-unlink key n (f ∷ l) e fresh h =
    ground (arith, has_address-find key l e, length-unlink key n l e fresh.2)

-- The last element is the one of its key.
has_address-back :
    (l : List Element) (e : Element) → back l ≡ some e → has_address e.address l ≡ true
unfolding back has_address
has_address-back [] e h = cc
has_address-back (f ∷ []) e h = ground arith
has_address-back (f ∷ g ∷ l) e h = ground (arith, has_address-back (g ∷ l) e)

pub find-back :
    (l : List Element) (e : Element) → IsMap (view l) → back l ≡ some e → find e.key l ≡ some e
unfolding back find view
find-back [] e keys h = cc
find-back (f ∷ []) e keys h = ground (arith, eq_refl e.key)
find-back (f ∷ g ∷ l) e keys h =
    let last : find e.key (g ∷ l) ≡ some e = find-back (g ∷ l) e keys.1 h in
    ground (arith, eq_iff f.key e.key, last, lookup-view e.key (g ∷ l))

pub view-unlink-back :
    (n m : ℕ) (l : List Element) (e : Element)
    → IsFresh m l
    → back l ≡ some e
    → length l ≡ suc n
    → view (unlink e.address l) ≡ take n (view l)
unfolding back view unlink IsFresh
view-unlink-back n m [] e fresh h k = cc
view-unlink-back zero m (f ∷ []) e fresh h k = ground arith
view-unlink-back (suc n) m (f ∷ []) e fresh h k = absurd (omega arith)
view-unlink-back zero m (f ∷ g ∷ l) e fresh h k = absurd (omega arith)
view-unlink-back (suc n) m (f ∷ g ∷ l) e fresh h k =
    ground (arith, has_address-back (g ∷ l) e, view-unlink-back n m (g ∷ l) e fresh.2)

module _ (s : Store) (linked : IsLinked s) where
  module _ (e : Element) (found : find e.key s.order ≡ some e) where
    pub remove-IsLinked : IsLinked (remove s e)
    unfolding remove address_of
    remove-IsLinked = record {
      map_keys = delete-IsMap e.key s.entries linked.map_keys;
      points = λ q. ground (
        arith,
        lookup-delete e.key q s.entries,
        linked.points q,
        find-unlink e.key q s.next s.order e linked.fresh linked.list_keys found,
      );
      fresh = unlink-IsFresh s.next e.address s.order linked.fresh;
      list_keys =
          rw (view-unlink e.key s.next s.order e linked.fresh linked.list_keys found)
            (delete-IsMap e.key (view s.order) linked.list_keys);
      sizes = ground (
        arith,
        linked.points e.key,
        length-delete e.key e.address s.entries linked.map_keys,
        length-unlink e.key s.next s.order e linked.fresh found,
        linked.sizes,
      );
    }

    pub length-remove : suc (length (remove s e).entries) ≡ length s.entries
    unfolding remove address_of
    length-remove =
        ground (arith, linked.points e.key, length-delete e.key e.address s.entries linked.map_keys)

    -- The list after a move to the front, as a recency list.
    pub view-to_front :
        (entry : Entry)
        → view (to_front s (record e { entry = entry })).order
          ≡ (e.key, entry) ∷ delete e.key (view s.order)
    unfolding to_front view
    view-to_front entry =
        ap (◌∷◌ (e.key, entry))
          (view-unlink e.key s.next s.order e linked.fresh linked.list_keys found)

    pub to_front-IsLinked : (entry : Entry) → IsLinked (to_front s (record e { entry = entry }))
    unfolding to_front address_of find IsFresh
    to_front-IsLinked entry = record {
      map_keys = linked.map_keys;
      points = λ q. ground (
        arith,
        linked.points q,
        eq_iff e.key q,
        find-unlink e.key q s.next s.order e linked.fresh linked.list_keys found,
      );
      fresh = (
        has_address-unlink_self s.next e s.order linked.fresh,
        address-find-lt e.key s.next s.order e linked.fresh found,
        unlink-IsFresh s.next e.address s.order linked.fresh,
      );
      list_keys = rw (view-to_front entry) (
        lookup-delete_self e.key (view s.order),
        delete-IsMap e.key (view s.order) linked.list_keys,
      );
      sizes = ground (arith, length-unlink e.key s.next s.order e linked.fresh found, linked.sizes);
    }

  module _ (key : String) (entry : Entry) (absent : find key s.order ≡ none) where
    pub push-IsLinked : IsLinked (push s key entry)
    unfolding push address_of find IsFresh view
    push-IsLinked = record {
      map_keys = insert-IsMap key s.next s.entries linked.map_keys;
      points =
          λ q. ground (arith, lookup-insert key q s.next s.entries, linked.points q, eq_iff key q);
      fresh = (
        has_address-IsFresh s.next s.order linked.fresh,
        omega arith,
        suc-IsFresh s.next s.order linked.fresh,
      );
      list_keys = (ground (arith, lookup-view key s.order), linked.list_keys);
      sizes =
          ground (arith, linked.points key, linked.sizes, length-insert_new key s.next s.entries);
    }

    pub length-push : length (push s key entry).entries ≡ suc (length s.entries)
    unfolding push address_of
    length-push = ground (arith, linked.points key, length-insert_new key s.next s.entries)
