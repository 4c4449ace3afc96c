-- ===== src/Cache/History.antt =====
-- Any sequence of calls of the cache against the ideal one.
use lite_aig.Base.{
  true, eq_refl, zero, suc, ℕ, ◌+◌, ◌<◌, ◌≤◌, if◌then◌else◌, Option, none, some, List, [], ◌∷◌,
  String, ◌≡◌, refl, arith, length, take, ◌∙◌, ap,
}
use lite_aig.Base.Assoc.{Assoc, lookup, delete}
use lite_aig.Base.Word.{Int64, half, sle}
use lite_aig.Base.Clock.{Time}
use lite_aig.Cache.{Entry, Store, new, is_expired, get, put, delete_key}
use lite_aig.Cache.Links.{view, IsFresh, IsLinked, address_of, find}
use lite_aig.Cache.Recency.{ideal_get, IsValid, Agrees, get-Agrees, put-Agrees, delete-Agrees}

pub data Call : Type 0 where
  get_call : String → Time → Call
  put_call : String → Entry → Call
  delete_call : String → Call

-- What a call returns: an entry or ErrMiss from `Get`, nothing from the others.
unfoldable pub step : Store → Call → Store × Option Entry
step s (get_call key now) = get s key now
step s (put_call key entry) = (put s key entry, none)
step s (delete_call key) = (delete_key s key, none)

unfoldable pub run : Store → List Call → Store × List (Option Entry)
run s [] = (s, [])
run s (c ∷ calls) =
    let (after, answer) = step s c in
    let (last, answers) = run after calls in (last, answer ∷ answers)

unfoldable pub ideal_step : ℕ → Assoc Entry → Call → Assoc Entry × Option Entry
ideal_step capacity l (get_call key now) = ideal_get l key now
ideal_step capacity l (put_call key entry) = (take capacity ((key, entry) ∷ delete key l), none)
ideal_step capacity l (delete_call key) = (delete key l, none)

unfoldable pub ideal_run : ℕ → Assoc Entry → List Call → Assoc Entry × List (Option Entry)
ideal_run capacity l [] = (l, [])
ideal_run capacity l (c ∷ calls) =
    let (after, answer) = ideal_step capacity l c in
    let (last, answers) = ideal_run capacity after calls in (last, answer ∷ answers)

step-Agrees :
    (capacity : ℕ) (s : Store) (c : Call)
    → IsValid capacity s
    → Agrees capacity (step s c) (ideal_step capacity (view s.order) c)
unfolding step ideal_step
step-Agrees capacity s (get_call key now) h = get-Agrees capacity s h key now
step-Agrees capacity s (put_call key entry) h = put-Agrees capacity s h key entry
step-Agrees capacity s (delete_call key) h = delete-Agrees capacity s h key

run-Agrees :
    (capacity : ℕ) (calls : List Call) (s : Store)
    → IsValid capacity s
    → IsValid capacity (run s calls).0
      × (view (run s calls).0.order ≡ (ideal_run capacity (view s.order) calls).0)
      × ((run s calls).1 ≡ (ideal_run capacity (view s.order) calls).1)
unfolding run ideal_run
run-Agrees capacity [] s h = (h, refl, refl)
run-Agrees capacity (c ∷ calls) s h =
    let (valid, list, answer) = step-Agrees capacity s c h in
    let (valid', list', answers) = run-Agrees capacity calls (step s c).0 valid in
    let answers' = answers ∙ ap (λ l. (ideal_run capacity l calls).1) list in
    (valid', list' ∙ ap (λ l. (ideal_run capacity l calls).0) list, rw (answer, answers') refl)

sle_zero : (a : Int64) → a ≡ 0 → sle a 0 ≡ true
unfolding sle
sle_zero a h = ground arith

pub new-IsValid :
    (config : Int64) → (new config).capacity + 1 < half → IsValid (new config).capacity (new config)
unfolding new view IsFresh address_of find lookup
new-IsValid config h = record {
  linked = record { map_keys = tt; points = λ key. refl; fresh = tt; list_keys = tt; sizes = refl };
  same = refl;
  positive = ground (arith, sle_zero config);
  fits = h;
  bounded = omega arith;
}

-- A new cache answers any sequence of gets, puts and deletions as an ideal cache of its capacity
-- does, which keeps one list of entries in the order of their last use, puts a new or a read entry
-- in front, drops an expired entry when it is read, and cuts the list after its capacity: what is
-- evicted is the entry whose last use is the longest ago. The store's list is then the ideal list,
-- its map points to the elements of that list, and it holds no more entries than the capacity. The
-- capacity is to be below 2 ^ 63 - 1.
pub run_refines :
    (config : Int64) (calls : List Call)
    → (new config).capacity + 1 < half
    → let (s, answers) = run (new config) calls in
      let (ideal, ideal_answers) = ideal_run (new config).capacity [] calls in
      (answers ≡ ideal_answers)
      × (view s.order ≡ ideal)
      × IsLinked s
      × (length s.entries ≤ (new config).capacity)
unfolding new view
run_refines config calls h =
    let (valid, list, answers) =
      run-Agrees (new config).capacity calls (new config) (new-IsValid config h) in
    (answers, list, valid.linked, valid.bounded)

ideal_get-cons :
    (capacity : ℕ) (key : String) (entry : Entry) (now : Time) (l : Assoc Entry)
    → 0 < capacity
    → (ideal_get (take capacity ((key, entry) ∷ l)) key now).1
      ≡ (if is_expired entry now then none else some entry)
unfolding ideal_get lookup
ideal_get-cons zero key entry now l h = absurd (omega arith)
ideal_get-cons (suc n) key entry now l h = ground (arith, eq_refl key)

-- A `Get` of a key right after a `Put` of it returns the entry, unless it has expired by then.
pub get-put :
    (capacity : ℕ) (s : Store) (key : String) (entry : Entry) (now : Time)
    → IsValid capacity s
    → (get (put s key entry) key now).1 ≡ (if is_expired entry now then none else some entry)
get-put capacity s key entry now h =
    let (valid, list, _) = put-Agrees capacity s h key entry in
    let (_, _, answer) = get-Agrees capacity (put s key entry) valid key now in
    answer
    ∙ ap (λ l. (ideal_get l key now).1) list
    ∙ ideal_get-cons capacity key entry now _ h.positive
