-- ===== src/Alloc/Search.antt =====
-- src/alloc/search.rs: the iterator over free regions, in either direction from an address.
pub mod Steps
use detour_rs.Base.{ℕ, zero, suc, ◌+◌, ◌-◌, ◌%◌, Bool, ◌&&◌, ltb, if◌then◌else◌, Option, none, some}
use detour_rs.Base.Words.{in_range}
use detour_rs.Error.{Error, RegionError, free_memory, inner, region_failure}
use detour_rs.Alloc.Os.{Region, Query, mapped, failed}

-- std::ops::Range<usize>
pub record Range : Type 0 where
  pub start : ℕ
  pub stop : ℕ

abbrev pub contains : Range → ℕ → Bool
contains range x = in_range range.start range.stop x

pub data SearchDirection : Type 0 where
  before after : SearchDirection

pub record FreeRegionIter : Type 0 where
  pub range : Range
  pub search : SearchDirection
  pub current : ℕ

-- FreeRegionIter::new, for a `usize` of less than `m`.
unfoldable pub new : (m origin : ℕ) → Option Range → SearchDirection → FreeRegionIter
new m origin none search = record {
  range = record { start = 0; stop = m - 1 };
  search = search;
  current = origin;
}
new m origin (some range) search = record { range = range; search = search; current = origin }

-- What `next` returns, None, Some(Ok(address)) or Some(Err(error)), with the iterator after the
-- call. `stuck` is no Rust value: the fuel is out.
pub data Next : Type 0 where
  done : Next
  free_at : ℕ → FreeRegionIter → Next
  refused : Error → FreeRegionIter → Next
  stuck : Next

-- Where the search goes on behind a region that is in use, and behind an item.
abbrev past_region : SearchDirection → Region → ℕ → ℕ
past_region before region page_size = region.lower - page_size
past_region after region page_size = region.upper

abbrev pub past_item : (m : ℕ) → SearchDirection → ℕ → ℕ → ℕ
past_item m before current page_size = current - page_size
past_item m after current page_size = (current + page_size) % m

abbrev found : RegionError → ℕ → FreeRegionIter → Next
found free_memory current it = free_at current it
found (inner e) current it = refused (region_failure (inner e)) it

module _ (m page_size : ℕ) (query : ℕ → Query) where
  -- Iterator::next; the fuel bounds the rounds of its loop.
  unfoldable pub next : ℕ → FreeRegionIter → Next
  next zero it = stuck
  next (suc fuel) it =
      let go_on : Next = elim (query it.current) [
        | mapped region ↦ next fuel (record it { current = past_region it.search region page_size })
        | failed e ↦
            found e it.current (record it { current = past_item m it.search it.current page_size })
      ] in
      if ltb 0 it.current && contains it.range it.current then go_on else done
