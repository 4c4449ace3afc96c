-- ===== src/CredentialPool/Tests.antt =====
-- Pools of three credentials, and the theorems at concrete calls.
use lite_aig.Base.{◌≡◌, refl, none, some, List, [], ◌∷◌, str_eq, not, if◌then◌else◌}
use lite_aig.Base.Int.{pos}
use lite_aig.Base.Word.{slt}
use lite_aig.Base.Float.{whole}
use lite_aig.Base.Sort.{count, sort_stable, insert_sorted}
use lite_aig.Routing.Scores.{Hashing}
use lite_aig.CredentialPool.{
  Pool, State, Member, least_inflight, round_robin, found, panics, order, select, first_of,
  candidates, is_eligible, arrange, ids_of, by_inflight, unsorted, start_of,
}
use lite_aig.CredentialPool.Rotation.{order_rearranges, eligible_ids}

abbrev hashing : Hashing whole
hashing = record { sum64 = λ s. 7; log = λ x. x }

abbrev view : State whole
view = record {
  eligible = λ id. not (str_eq id "b");
  inflight = λ id. if str_eq id "a" then 5 else 2;
  quota = λ id. (pos 0, pos 0);
}

abbrev members : List Member
members =
    record { credential_id = "a"; weight = 0 }
    ∷ record { credential_id = "b"; weight = 1 }
    ∷ record { credential_id = "c"; weight = 1 }
    ∷ []

abbrev pool : Pool whole
pool = record { strategy = least_inflight; members = members; state = some view }

order_least : order hashing pool "k" ≡ found ("c" ∷ "a" ∷ [])
unfolding order candidates is_eligible arrange sort_stable insert_sorted by_inflight ids_of slt
order_least = refl

-- Seven is the hash, and the rotation starts at the second of the three.
order_rotated :
    select hashing (record pool { strategy = round_robin; state = none }) "k" ≡ found "b"
unfolding select first_of order candidates is_eligible arrange ids_of start_of
order_rotated = refl

order_without_state : order hashing (record pool { state = none }) "k" ≡ panics
unfolding order candidates is_eligible arrange ids_of unsorted
order_without_state = refl

order_rearranges_example :
    count (λ id. str_eq id "a") ("c" ∷ "a" ∷ [])
    ≡ count (λ id. str_eq id "a") (eligible_ids (some view) members)
unfolding order candidates is_eligible arrange sort_stable insert_sorted by_inflight ids_of slt
order_rearranges_example =
    order_rearranges hashing pool "k" ("c" ∷ "a" ∷ []) (λ id. str_eq id "a") refl
