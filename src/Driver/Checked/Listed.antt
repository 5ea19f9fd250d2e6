-- ===== src/Driver/Checked/Listed.antt =====
-- The range list of the blocks in use: `add_range` accepts a payload of the allocator, and
-- `remove_range` removes the one that is meant.
use cs0330_fall2022_7_malloc.Base.{
  ◌+◌, ◌-◌, ◌%◌, ◌^◌, ◌<◌, ◌≡◌, ◌≢◌, refl, ap, List, [], ◌∷◌, ◌++◌, true, false, ◌&&◌, ◌==◌, some,
  arith, ◌∙◌, eq→==, ne→==,
}
use cs0330_fall2022_7_malloc.Machine.{State, ok}
use cs0330_fall2022_7_malloc.Memlib.{mem_heap_lo, mem_heap_hi}
use cs0330_fall2022_7_malloc.Driver.{overlaps_any, in_extent, add_range, remove_range}
use cs0330_fall2022_7_malloc.Driver.Checked.{
  Entry, held_of, all_held, range_of, all_ranges, AllPositive,
}
use cs0330_fall2022_7_malloc.Driver.Ranges.{add_range-eq}
use cs0330_fall2022_7_malloc.Mm.Client.{Held}
use cs0330_fall2022_7_malloc.Mm.Client.Apart.{DisjointFrom, AllDisjoint, IsKept}

no_overlap :
    (b : Held) (live : List Entry)
    → 0 < b.size
    → AllPositive live
    → DisjointFrom b (all_held live)
    → overlaps_any b.addr (b.addr + b.size - 1) (all_ranges live) ≡ false
no_overlap b [] pos filed apart = refl
no_overlap b (e ∷ live) pos (epos, filed) apart =
    let rest = no_overlap b live pos filed apart.1 in ground (arith, apart.0, rest)

pub add_range-accepts :
    (s : State) (b : Held) (live : List Entry)
    → 0 < b.size
    → b.size < 2 ^ 31
    → IsKept s b
    → AllPositive live
    → DisjointFrom b (all_held live)
    → add_range (all_ranges live) b.addr b.size s
      ≡ ok (some (record { lo = b.addr; hi = b.addr + b.size - 1 } ∷ all_ranges live)) s
unfolding mem_heap_lo mem_heap_hi
add_range-accepts s b live pos small kept filed apart =
    let aligned : (b.addr % 8 == 0) ≡ true = eq→== (b.addr % 8) 0 kept.aligned in
    let inside : (in_extent s b.addr && in_extent s (b.addr + b.size - 1)) ≡ true =
      ground (arith, kept.low, kept.high) in
    add_range-eq s b.addr b.size pos small (omega (arith, kept.high, kept.top)) (all_ranges live)
    ∙ rw (aligned, inside, no_overlap b live pos filed apart) refl

apart_from :
    (b : Held) (xs : List Entry) (e : Entry) (ys : List Entry)
    → 0 < b.size
    → AllPositive (xs ++ (e ∷ ys))
    → DisjointFrom b (all_held (xs ++ (e ∷ ys)))
    → b.addr ≢ e.addr
apart_from b [] e ys pos (epos, filed) apart = λ same. ground (arith, apart.0, same)
apart_from b (x ∷ xs) e ys pos filed apart = apart_from b xs e ys pos filed.1 apart.1

pub remove_range-removes :
    (xs : List Entry) (e : Entry) (ys : List Entry)
    → AllPositive (xs ++ (e ∷ ys))
    → AllDisjoint (all_held (xs ++ (e ∷ ys)))
    → remove_range (all_ranges (xs ++ (e ∷ ys))) e.addr ≡ all_ranges (xs ++ ys)
unfolding remove_range
remove_range-removes [] e ys filed apart = rw (eq→== e.addr e.addr refl) refl
remove_range-removes (x ∷ xs) e ys (pos, filed) apart =
    let ne = apart_from (held_of x) xs e ys pos filed apart.0 in
    rw (ne→== x.addr e.addr ne)
      (ap (λ r. range_of x ∷ r) (remove_range-removes xs e ys filed apart.1))
