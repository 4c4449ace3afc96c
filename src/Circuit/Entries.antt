-- ===== src/Circuit/Entries.antt =====
-- The entry of one tuple under the methods of internal/resilience/circuit/breaker.go.
use lite_aig.Base.{
  ℕ, ◌≡◌, ◌≢◌, ap, ◌∙◌, inl, inr, Option, none, some, str_eq, eq_iff, Bool, arith, if◌then◌else◌,
  Bool-cases, str_eq-false,
}
use lite_aig.Base.Assoc.{lookup, lookup-insert, lookup-insert_self, lookup-delete}
use lite_aig.Base.Clock.{Time}
use lite_aig.Base.Float.{Float}
use lite_aig.Circuit.{
  TupleKey, Entry, Breaker, entry_key, entry_of, put_entry, get, open_tuple, allow_entry, allow,
  record_result, reset_tuple, new_entry,
}

abbrev pub or_new : Option Entry → Entry
or_new o = elim o [ none ↦ new_entry | some e ↦ e ]

pub entry_of-same :
    {f : Float} (b : Breaker f) (j k : TupleKey)
    → entry_key j ≡ entry_key k
    → entry_of b j ≡ entry_of b k
entry_of-same b j k same = ap (λ s. or_new (lookup s b.entries)) same

pub entry_of-put_self :
    {f : Float} (b : Breaker f) (k : TupleKey) (e : Entry) → entry_of (put_entry b k e) k ≡ e
unfolding put_entry
entry_of-put_self b k e = ground (arith, lookup-insert_self (entry_key k) e b.entries)

pub entry_of-put :
    {f : Float} (b : Breaker f) (j k : TupleKey) (e : Entry)
    → entry_of (put_entry b j e) k
      ≡ (if str_eq (entry_key j) (entry_key k) then e else entry_of b k)
unfolding put_entry
entry_of-put b j k e = ground (arith, lookup-insert (entry_key j) (entry_key k) e b.entries)

module _ {f : Float} (b : Breaker f) (j k : TupleKey) where
  entry_of-put_ne :
      (e : Entry) → entry_key j ≢ entry_key k → entry_of (put_entry b j e) k ≡ entry_of b k
  entry_of-put_ne e ne = rw (entry_of-put b j k e) (rw (str_eq-false _ _ ne))

  pub entry_of-get : entry_of (get b j).0 k ≡ entry_of b k
  unfolding get
  entry_of-get = elim (Bool-cases (str_eq (entry_key j) (entry_key k))) [
    | inl same ↦
        rw (entry_of-put b j k (entry_of b j))
          (rw same (entry_of-same b j k ((eq_iff (entry_key j) (entry_key k)).0 same)))
    | inr differ ↦ rw (entry_of-put b j k (entry_of b j)) (rw differ)
  ]

module _ {f : Float} (b : Breaker f) (j k : TupleKey) where
  -- A method on another tuple leaves the entry as it is.
  pub entry_of-record_result :
      (success : Bool) (clock : ℕ → Time)
      → entry_key j ≢ entry_key k
      → entry_of (record_result b j success clock).0 k ≡ entry_of b k
  unfolding record_result
  entry_of-record_result success clock ne =
      entry_of-put_ne (get b j).0 j k _ ne ∙ entry_of-get b j k

  pub entry_of-reset_tuple :
      (clock : ℕ → Time)
      → entry_key j ≢ entry_key k
      → entry_of (reset_tuple b j clock).0 k ≡ entry_of b k
  unfolding reset_tuple
  entry_of-reset_tuple clock ne =
      ap or_new (lookup-delete (entry_key j) (entry_key k) (get b j).0.entries)
      ∙ rw (str_eq-false _ _ ne) (entry_of-get b j k)

  pub entry_of-allow_ne :
      (clock : ℕ → Time) → entry_key j ≢ entry_key k → entry_of (allow b j clock).0 k ≡ entry_of b k
  unfolding allow
  entry_of-allow_ne clock ne = entry_of-put_ne (get b j).0 j k _ ne ∙ entry_of-get b j k

  pub entry_of-open_tuple : (clock : ℕ → Time) → entry_of (open_tuple b j clock).0 k ≡ entry_of b k
  unfolding open_tuple
  entry_of-open_tuple clock = entry_of-get b j k

  pub entry_of-allow :
      (clock : ℕ → Time)
      → entry_key j ≡ entry_key k
      → entry_of (allow b j clock).0 k
        ≡ (allow_entry b.config j (entry_of b k) (entry_of b k).state clock).0
  unfolding allow get
  entry_of-allow clock same =
      let E = λ (e : Entry). (allow_entry b.config j e e.state clock).0 in
      entry_of-put (get b j).0 j k (E (entry_of b j))
      ∙ rw ((eq_iff (entry_key j) (entry_key k)).1 same) (ap E (entry_of-same b j k same))

  pub answer-allow :
      (clock : ℕ → Time)
      → entry_key j ≡ entry_key k
      → (allow b j clock).1 ≡ (allow_entry b.config j (entry_of b k) (entry_of b k).state clock).1
  unfolding allow get
  answer-allow clock same =
      ap (λ (e : Entry). (allow_entry b.config j e e.state clock).1) (entry_of-same b j k same)
