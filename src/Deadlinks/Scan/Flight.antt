-- ===== src/Deadlinks/Scan/Flight.antt =====
-- The single-flight guard, under any interleaving of triggers and of scans that end.
use hotchkiss_io.Base.{
  Bool-cases, Option, arith, false, if◌then◌else◌, inl, inr, none, refl, true, ℕ, ◌+◌, ◌-◌, ◌↔◌,
  ◌≡◌, ◌≤◌,
}
use hotchkiss_io.Deadlinks.Scan.{ScanState, ScanSummary, finish, try_begin}

-- The shared state with the number of scans in flight, and its steps: a trigger that claims the
-- slot, a trigger that does not, and the end of a scan.
pub record Flight : Type 0 where
  pub state : ScanState
  pub in_flight : ℕ

pub data Step : Flight → Flight → Type 0 where
  claimed :
      (f : Flight) (now : ℕ)
      → (try_begin f.state now).0 ≡ true
      → Step f (record { state = (try_begin f.state now).1; in_flight = f.in_flight + 1 })
  turned_away :
      (f : Flight) (now : ℕ)
      → (try_begin f.state now).0 ≡ false
      → Step f (record { state = (try_begin f.state now).1; in_flight = f.in_flight })
  ended :
      (f : Flight) (now : ℕ) (summary : Option ScanSummary)
      → 1 ≤ f.in_flight
      → Step f (record { state = finish f.state now summary; in_flight = f.in_flight - 1 })

pub data Reachable (start : Flight) : Flight → Type 0 where
  at_start : Reachable start start
  then_step : (f g : Flight) → Reachable start f → Step f g → Reachable start g

abbrev pub idle_flight : Flight
idle_flight = record {
  state = record {
    running = false;
    last_started = none;
    last_finished = none;
    last_summary = none;
  };
  in_flight = 0;
}

-- The flag says whether a scan is in flight.
abbrev pub IsSingle : Flight → Type 0
IsSingle f = f.in_flight ≡ (if f.state.running then 1 else 0)

Step-IsSingle : (f g : Flight) → Step f g → IsSingle f → IsSingle g
unfolding try_begin finish
Step-IsSingle f g (claimed _ now h) s = elim (Bool-cases f.state.running) [
  | inl y ↦ absurd (ground (arith, h, y))
  | inr n ↦ ground (arith, s, n)
]
Step-IsSingle f g (turned_away _ now h) s = elim (Bool-cases f.state.running) [
  | inl y ↦ ground (arith, s, y)
  | inr n ↦ absurd (ground (arith, h, n))
]
Step-IsSingle f g (ended _ now summary h) s = ground (arith, s, h)

Reachable-IsSingle : (f : Flight) → Reachable idle_flight f → IsSingle f
Reachable-IsSingle f at_start = refl
Reachable-IsSingle f (then_step g _ r s) = Step-IsSingle g f s (Reachable-IsSingle g r)

-- In every state that claims, refused triggers and ends of scans reach from the idle one, in
-- any order, at most one scan is in flight, and the running flag says whether.
pub single_flight :
    (f : Flight)
    → Reachable idle_flight f
    → (f.in_flight ≤ 1) × ((f.state.running ≡ true) ↔ (f.in_flight ≡ 1))
single_flight f r =
    let s = Reachable-IsSingle f r in
    (ground (arith, s), (λ y. ground (arith, s), λ y. ground (arith, s)))
