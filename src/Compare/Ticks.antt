-- ===== src/Compare/Ticks.antt =====
-- sweep/mkcharts-fleets.py and sweep/mkcharts-multi.py: the loop over the ticks ends, at the last multiple of
-- the step.
use raft_tests.Prelude.{
  get_elem?, ℕ, zero, suc, ◌+◌, ◌*◌, ◌<◌, ◌≡◌, inl, inr, none, some, arith, if◌then◌else◌, leb,
  Bool-cases, string_eq, option_eq, pair_eq, list_eq, nat_eq, int_eq,
}
use raft_tests.Compare.Chart.{ticks}

ticks-from :
    (fuel xmax xstep v i : ℕ)
    → 0 < xstep
    → xmax < v + fuel
    → get_elem? (ticks fuel xmax xstep v) i
      ≡ (if leb (v + i * xstep) xmax then some (v + i * xstep) else none)
unfolding ticks
ticks-from zero xmax xstep v i step enough = ground arith
ticks-from (suc fuel) xmax xstep v zero step enough = ground arith
ticks-from (suc fuel) xmax xstep v (suc i) step enough =
    let next : (v + xstep) + i * xstep ≡ v + suc i * xstep = omega arith in
    let ih = ticks-from fuel xmax xstep (v + xstep) i step (omega (arith, step, enough)) in
    elim (Bool-cases (leb v xmax)) [
      | inl within ↦ rw (within, ← next) ih
      | inr past ↦ rw past (ground arith)
    ]

-- With a step above zero and the fuel that the axis gives, the ticks are the multiples of the step up to the
-- end of the axis, in their order: the i-th is i * xstep, as long as that is at most xmax.
pub ticks-get_elem? :
    (xmax xstep i : ℕ)
    → 0 < xstep
    → get_elem? (ticks (suc xmax) xmax xstep 0) i
      ≡ (if leb (i * xstep) xmax then some (i * xstep) else none)
ticks-get_elem? xmax xstep i step =
    let start : 0 + i * xstep ≡ i * xstep = omega arith in
    rw start at (ticks-from (suc xmax) xmax xstep 0 i step (omega arith))
