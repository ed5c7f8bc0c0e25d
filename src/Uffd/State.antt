-- ===== src/Uffd/State.antt =====
-- pkg/uffd/state.go: one byte of state per page. Every method holds the lock for the whole of its
-- work, so each is one function on the table.
pub mod Runs
pub mod Pages
use sandboxer.Prelude.{
  ℕ, zero, suc, ◌+◌, ◌-◌, List, [], ◌∷◌, Bool, true, false, ltb, leb, ◌==◌, if◌then◌else◌, ◌||◌,
  ◌&&◌, not, length, get_or, set, replicate, min,
}

-- PageState, as the byte that holds it.
abbrev pub state_absent : ℕ
state_absent = 0

abbrev pub state_loaded : ℕ
state_loaded = 1

abbrev pub state_released : ℕ
state_released = 2

pub record PageStateMap : Type 0 where
  pub pages : List ℕ

unfoldable pub new_page_state_map : ℕ → PageStateMap
new_page_state_map n = record { pages = replicate n state_absent }

unfoldable pub get : PageStateMap → ℕ → ℕ
get m i = if leb (length m.pages) i then state_absent else get_or m.pages i state_absent

-- PageStateMap.Set.
unfoldable pub set_page : PageStateMap → ℕ → ℕ → PageStateMap
set_page m i s = if leb (length m.pages) i then m else record { pages = set m.pages i s }

unfoldable pub compare_and_swap : PageStateMap → ℕ → ℕ → ℕ → Bool × PageStateMap
compare_and_swap m i old new =
    if leb (length m.pages) i
    then (false, m)
    else if not (get_or m.pages i state_absent == old)
    then (false, m)
    else (true, record { pages = set m.pages i new })

-- The loop of SetRange over `n` pages from `i`.
pub set_loop : ℕ → ℕ → ℕ → List ℕ → List ℕ
set_loop zero i s pages = pages
set_loop (suc n) i s pages = set_loop n (suc i) s (set pages i s)

unfoldable pub set_range : PageStateMap → ℕ → ℕ → ℕ → PageStateMap
unfolding set_loop
set_range m start end s =
    if leb (length m.pages) start || leb end start
    then m
    else record { pages = set_loop (min end (length m.pages) - start) start s m.pages }

-- The pages equal to `want` from `i` upwards, `n` of them at most.
pub count_up : ℕ → ℕ → ℕ → List ℕ → ℕ
count_up zero i want pages = 0
count_up (suc n) i want pages =
    let rest = count_up n (suc i) want pages in
    if get_or pages i state_absent == want then suc rest else 0

-- The pages equal to `want` just below `i`, `n` of them at most.
pub count_down : ℕ → ℕ → ℕ → List ℕ → ℕ
count_down zero i want pages = 0
count_down (suc n) i want pages =
    let rest = count_down n (i - 1) want pages in
    if get_or pages (i - 1) state_absent == want then suc rest else 0

unfoldable pub run_length : PageStateMap → ℕ → ℕ → ℕ → ℕ
unfolding count_up
run_length m start most want =
    let count = length m.pages in
    if most == 0 || leb count start
    then 0
    else count_up (if ltb most (count - start) then most else count - start) start want m.pages

-- startIdx and endIdx.
unfoldable pub run_bounds : PageStateMap → ℕ → ℕ → ℕ → ℕ → ℕ × ℕ
unfolding count_up count_down
run_bounds m anchor least most want =
    let count = length m.pages in
    let end = min most count in
    if ltb anchor least || leb end anchor || leb count anchor
    then (anchor, anchor)
    else if not (get_or m.pages anchor state_absent == want)
    then (anchor, anchor)
    else (
      anchor - count_down (anchor - least) anchor want m.pages,
      anchor + 1 + count_up (end - (anchor + 1)) (anchor + 1) want m.pages,
    )

-- The loop of SetRangeIf: how many pages it changed, and the pages.
pub set_if_loop : ℕ → ℕ → ℕ → ℕ → List ℕ → ℕ × List ℕ
set_if_loop zero i old new pages = (0, pages)
set_if_loop (suc n) i old new pages =
    let hit = get_or pages i state_absent == old in
    let rest = set_if_loop n (suc i) old new (if hit then set pages i new else pages) in
    ((if hit then suc rest.0 else rest.0), rest.1)

unfoldable pub set_range_if : PageStateMap → ℕ → ℕ → ℕ → ℕ → ℕ × PageStateMap
unfolding set_if_loop
set_range_if m start end old new =
    let done = set_if_loop (min end (length m.pages) - start) start old new m.pages in
    if leb (length m.pages) start || leb end start
    then (0, m)
    else (done.0, record { pages = done.1 })
