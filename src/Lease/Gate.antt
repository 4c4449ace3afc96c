-- ===== src/Lease/Gate.antt =====
-- internal/resilience/leasegate/gate.go: leasing behind the circuit breaker.
use lite_aig.Base.{ℕ, ◌≡◌, Option, none, some, String, true, arith, if◌then◌else◌}
use lite_aig.Base.Word.{Int64}
use lite_aig.Base.Clock.{Time, Duration}
use lite_aig.Base.Float.{Float}
use lite_aig.Circuit
use lite_aig.Circuit.{Breaker, TupleKey, open_tuple}
use lite_aig.Circuit.Trips.{allow-open_tuple}
use lite_aig.Lease.{Coordinator, Acquired, full, acquire}

-- The circuit, if the gate has one, and the coordinator.
pub record Gate (f : Float) : Type 0 where
  pub circuit : Option (Breaker f)
  pub coordinator : Coordinator

-- `Acquire`: without a circuit, or if the circuit admits the call, the coordinator answers.
pub gate_acquire :
    {f : Float}
    → Gate f
    → String
    → TupleKey
    → (ℕ → Time)
    → Int64
    → Duration
    → Time
    → Option String
    → Gate f × Acquired
gate_acquire {f} g scope k clock capacity ttl now id = elim g.circuit [
  | none ↦ lease g
  | some b ↦
      let (b', admitted, _) = Circuit.allow b k clock in
      let g' : Gate f = record g { circuit = some b' } in if admitted then lease g' else (g', full)
]
  where
    lease : Gate f → Gate f × Acquired
    lease h =
        let (c, answer) = acquire h.coordinator scope capacity ttl now id in
        (record h { coordinator = c }, answer)

-- A tuple that the circuit excludes from routing takes no lease: the gate answers busy and the
-- coordinator is as it was, whether or not there is capacity.
pub gate_acquire-open_tuple :
    {f : Float} (g : Gate f) (b : Breaker f) (scope : String) (k : TupleKey) (clock : ℕ → Time)
    (capacity : Int64) (ttl : Duration) (now : Time) (id : Option String)
    → g.circuit ≡ some b
    → (open_tuple b k clock).1 ≡ true
    → let (g', answer) = gate_acquire g scope k clock capacity ttl now id in
      (answer ≡ full) × (g'.coordinator ≡ g.coordinator)
unfolding gate_acquire
gate_acquire-open_tuple g b scope k clock capacity ttl now id has excluded =
    ground (arith, allow-open_tuple b k clock excluded)
