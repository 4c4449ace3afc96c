-- ===== src/Cache/Recency.antt =====
-- One call of the cache against an ideal cache: a list of entries, most recently used first, cut at
-- the capacity.
use lite_aig.Base.{
  ℕ, zero, suc, ◌+◌, ◌<◌, ◌≤◌, if◌then◌else◌, Option, none, some, List, [], ◌∷◌, String, true, ◌≡◌,
  refl, arith, length, take, take_enough, ap, Option-cases, inl, inr, Bool-cases, ◌∙◌, sym,
}
use native.Mathlib.Decide.{dec_le}
use lite_aig.Base.Assoc.{Assoc, lookup, delete, length-delete, length-delete-le, delete_absent}
use lite_aig.Base.Word.{Int64, half, slt, slt_small}
use lite_aig.Base.Clock.{Time}
use lite_aig.Cache.{
  Element, Entry, Store, back, remove, to_front, push, count_hit, count_miss, count_put,
  count_eviction, is_expired, get, put, evict, delete_key,
}
use lite_aig.Cache.Links.{
  AreLinked, find, view, IsLinked, lookup-view, key-find, find_self, length-view, element_of-find,
  view-unlink,
}
use lite_aig.Cache.Steps.{
  remove-IsLinked, view-to_front, to_front-IsLinked, push-IsLinked, length-push, length-remove,
  find-back, view-unlink-back,
}

unfoldable pub ideal_get : Assoc Entry → String → Time → Assoc Entry × Option Entry
ideal_get l key now = elim (lookup key l) [
  | none ↦ (l, none)
  | some entry ↦
      if is_expired entry now
      then (delete key l, none)
      else ((key, entry) ∷ delete key l, some entry)
]

-- The invariant of a store with a given capacity. At 2 ^ 63 - 1 entries one more would not fit in
-- an int.
pub record AreValid (capacity : ℕ) (limit : Int64) (entries : Assoc ℕ) (order : List Element)
    (next : ℕ) : Type 0 where
  pub linked : AreLinked entries order next
  pub same : limit ≡ capacity
  pub positive : 0 < capacity
  pub fits : capacity + 1 < half
  pub bounded : length entries ≤ capacity

abbrev pub IsValid : ℕ → Store → Type 0
IsValid capacity s = AreValid capacity s.capacity s.entries s.order s.next

-- A call leaves a valid store that holds the ideal list, with the ideal answer.
abbrev pub Agrees : ℕ → Store × Option Entry → Assoc Entry × Option Entry → Type 0
Agrees capacity (s, answer) (l, ideal) = IsValid capacity s × (view s.order ≡ l) × (answer ≡ ideal)

evict_done :
    (n : ℕ) (s : Store) → s.capacity + 1 < half → length s.entries ≤ s.capacity → evict n s ≡ s
unfolding evict
evict_done zero s fits h = refl
evict_done (suc n) s fits h = ground (arith, slt_small s.capacity (length s.entries))

back-some : (l : List Element) (n : ℕ) → length l ≡ suc n → (e : Element) × (back l ≡ some e)
unfolding back
back-some [] n h = absurd (omega arith)
back-some (e ∷ []) n h = (e, refl)
back-some (e ∷ f ∷ l) n h = back-some (f ∷ l) (length l) refl

-- A round of the loop, when the map has one entry too many.
evict_one :
    (n : ℕ) (s : Store) (e : Element)
    → s.capacity + 1 < half
    → length s.entries ≡ suc s.capacity
    → back s.order ≡ some e
    → evict (suc n) s ≡ evict n (count_eviction (remove s e))
unfolding evict
evict_one n s e fits h last =
    let over : slt s.capacity (length s.entries) ≡ true =
      ground (arith, slt_small s.capacity (length s.entries)) in
    rw (over, last) refl

-- The loop cuts the recency list at the capacity, of which it may be one beyond.
trim :
    (capacity : ℕ) (s : Store)
    → IsLinked s
    → s.capacity ≡ capacity
    → 0 < capacity
    → capacity + 1 < half
    → length s.entries ≤ suc capacity
    → Agrees capacity (evict (length s.entries) s, none) (take capacity (view s.order), none)
unfolding remove count_eviction
trim capacity s linked same positive fits bounded = elim (dec_le (length s.entries) capacity) [
  | yes within ↦ rw (evict_done (length s.entries) s (omega arith) (omega arith)) (
    record { linked = linked; same = same; positive = positive; fits = fits; bounded = within },
    sym (take_enough (view s.order) capacity (omega (arith, length-view s.order, linked.sizes))),
    refl,
  )
  | no over ↦
      let size : length s.entries ≡ suc capacity = omega arith in
      let (e, last) = back-some s.order capacity (omega (arith, linked.sizes)) in
      let found = find-back s.order e linked.list_keys last in
      let shorter = length-remove s linked e found in
      let once : evict (length s.entries) s ≡ count_eviction (remove s e) =
        ap (λ n. evict n s) size
        ∙ evict_one capacity s e (omega arith) (omega arith) last
        ∙ evict_done capacity (count_eviction (remove s e)) (omega arith) (omega arith) in
      rw once (
        record {
          linked = remove-IsLinked s linked e found;
          same = same;
          positive = positive;
          fits = fits;
          bounded = omega arith;
        },
        view-unlink-back capacity s.next s.order e linked.fresh last (omega (arith, linked.sizes)),
        refl,
      )
]

module _ (capacity : ℕ) (s : Store) (valid : IsValid capacity s) where
  module _ (e : Element) (found : find e.key s.order ≡ some e) where
    removed :
        IsValid capacity (remove s e) × (view (remove s e).order ≡ delete e.key (view s.order))
    unfolding remove
    removed = (
      record {
        linked = remove-IsLinked s valid.linked e found;
        same = valid.same;
        positive = valid.positive;
        fits = valid.fits;
        bounded = omega (arith, length-delete-le e.key s.entries, valid.bounded);
      },
      view-unlink e.key s.next s.order e valid.linked.fresh valid.linked.list_keys found,
    )

    moved : (entry : Entry) → IsValid capacity (to_front s (record e { entry = entry }))
    unfolding to_front
    moved entry = record {
      linked = to_front-IsLinked s valid.linked e found entry;
      same = valid.same;
      positive = valid.positive;
      fits = valid.fits;
      bounded = valid.bounded;
    }

    get_found :
        (now : Time)
        → Agrees capacity
            (if is_expired e.entry now
              then (count_miss (remove s e), none)
              else (count_hit (to_front s e), some e.entry))
            (if is_expired e.entry now
              then (delete e.key (view s.order), none)
              else ((e.key, e.entry) ∷ delete e.key (view s.order), some e.entry))
    unfolding count_miss count_hit
    get_found now = elim (Bool-cases (is_expired e.entry now)) [
      | inl old ↦ rw old (removed.0, removed.1, refl)
      | inr live ↦ rw live (moved e.entry, view-to_front s valid.linked e found e.entry, refl)
    ]

  module _ (key : String) where
    pub get-Agrees :
        (now : Time) → Agrees capacity (get s key now) (ideal_get (view s.order) key now)
    unfolding count_miss get ideal_get
    get-Agrees now = elim (Option-cases (find key s.order)) [
      | inl miss ↦
          rw (element_of-find s key valid.linked, lookup-view key s.order, miss, get, ideal_get)
            (valid, refl, refl)
      | inr (e, hit) ↦
          let same = key-find key s.order e hit in
          let self = find_self key s.order e hit in
          rw (element_of-find s key valid.linked, lookup-view key s.order, hit, get, ideal_get)
            (rw⁻¹ same (get_found e self now))
    ]

    pub delete-Agrees : Agrees capacity (delete_key s key, none) (delete key (view s.order), none)
    unfolding delete_key
    delete-Agrees = elim (Option-cases (find key s.order)) [
      | inl miss ↦
          let gone = delete_absent key (view s.order) (rw (lookup-view key s.order, miss) refl) in
          rw (element_of-find s key valid.linked, miss, delete_key) (valid, sym gone, refl)
      | inr (e, hit) ↦
          let same = key-find key s.order e hit in
          let self = find_self key s.order e hit in
          let (valid', gone) = removed e self in
          rw (element_of-find s key valid.linked, hit, delete_key)
            (valid', gone ∙ ap (λ k. delete k (view s.order)) same, refl)
    ]

    put_found :
        (entry : Entry) (e : Element)
        → find key s.order ≡ some e
        → Agrees capacity
            (count_put (to_front s (record e { entry = entry })), none)
            (take capacity ((key, entry) ∷ delete key (view s.order)), none)
    unfolding count_put
    put_found entry e hit =
        let same = key-find key s.order e hit in
        let self = find_self key s.order e hit in
        let value : lookup key (view s.order) ≡ some e.entry =
          rw (lookup-view key s.order, hit) refl in
        let bound : length (delete key (view s.order)) < capacity = omega (
          arith,
          length-delete key e.entry (view s.order) valid.linked.list_keys value,
          length-view s.order,
          valid.linked.sizes,
          valid.bounded,
        ) in
        (
          moved e self entry,
          view-to_front s valid.linked e self entry
              ∙ ap (λ k. (k, entry) ∷ delete k (view s.order)) same
              ∙ sym (take_enough ((key, entry) ∷ delete key (view s.order)) capacity (omega arith)),
          refl,
        )

    put_new :
        (entry : Entry)
        → find key s.order ≡ none
        → Agrees capacity
            (let p = count_put (push s key entry) in (evict (length p.entries) p, none))
            (take capacity ((key, entry) ∷ delete key (view s.order)), none)
    unfolding count_put push view
    put_new entry miss =
        let p = count_put (push s key entry) in
        let gone = delete_absent key (view s.order) (rw (lookup-view key s.order, miss) refl) in
        rw gone (
          trim capacity p (push-IsLinked s valid.linked key entry miss) valid.same valid.positive
            valid.fits (omega (arith, length-push s valid.linked key entry miss, valid.bounded)))

    pub put-Agrees :
        (entry : Entry)
        → Agrees capacity
            (put s key entry, none)
            (take capacity ((key, entry) ∷ delete key (view s.order)), none)
    unfolding put
    put-Agrees entry = elim (Option-cases (find key s.order)) [
      | inl miss ↦ rw (element_of-find s key valid.linked, miss, put) (put_new entry miss)
      | inr (e, hit) ↦ rw (element_of-find s key valid.linked, hit, put) (put_found entry e hit)
    ]
