-- ===== src/Uffd/State/Pages.antt =====
-- What the writes of pkg/uffd/state.go leave in each page of the table.
use sandboxer.Prelude.{
  ℕ, zero, suc, ◌+◌, ◌-◌, ◌≤◌, ◌<◌, ◌≡◌, refl, ◌∙◌, List, [], ◌∷◌, Bool, ltb, leb, ◌==◌,
  if◌then◌else◌, ◌&&◌, length, get_or, set, min, arith, inl, inr, length-set, get_or_beyond,
  lt_or_le,
}
use sandboxer.Uffd.State.{
  PageStateMap, state_absent, get, compare_and_swap, set_loop, set_range, set_if_loop, set_range_if,
}

-- Whether a page lies in [start, end) of a table of `count` pages.
abbrev pub in_range : ℕ → ℕ → ℕ → ℕ → Bool
in_range count start end i = leb start i && ltb i end && ltb i count

pub get_lem : (m : PageStateMap) (i : ℕ) → get m i ≡ get_or m.pages i state_absent
unfolding get
get_lem m i = elim (lt_or_le i (length m.pages)) [
  | inl h ↦ ground arith
  | inr h ↦ ground (arith, get_or_beyond m.pages i state_absent h)
]

get_or-set :
    (xs : List ℕ) (a i v : ℕ)
    → get_or (set xs a v) i state_absent
      ≡ (if in_range (length xs) a (suc a) i then v else get_or xs i state_absent)
get_or-set [] a i v = ground arith
get_or-set (x ∷ xs) zero zero v = ground arith
get_or-set (x ∷ xs) zero (suc i) v = ground arith
get_or-set (x ∷ xs) (suc a) zero v = ground arith
get_or-set (x ∷ xs) (suc a) (suc i) v = ground (arith, get_or-set xs a i v)

length-set_loop : (n a s : ℕ) (xs : List ℕ) → length (set_loop n a s xs) ≡ length xs
unfolding set_loop
length-set_loop zero a s xs = refl
length-set_loop (suc n) a s xs = length-set_loop n (suc a) s (set xs a s) ∙ length-set xs a s

get_or-set_loop :
    (n a s i : ℕ) (xs : List ℕ)
    → get_or (set_loop n a s xs) i state_absent
      ≡ (if in_range (length xs) a (a + n) i then s else get_or xs i state_absent)
unfolding set_loop
get_or-set_loop zero a s i xs = ground arith
get_or-set_loop (suc n) a s i xs =
    ground
      (arith, get_or-set_loop n (suc a) s i (set xs a s), get_or-set xs a i s, length-set xs a s)

-- SetRange writes the pages of [start, end) that the table has, and no other page; the table keeps
-- its length.
pub get-set_range :
    (m : PageStateMap) (start end s i : ℕ)
    → (get (set_range m start end s) i
        ≡ (if in_range (length m.pages) start end i then s else get m i))
      × (length (set_range m start end s).pages ≡ length m.pages)
unfolding set_range
get-set_range m start end s i =
    let n = min end (length m.pages) - start in
    ground (
      arith,
      get_lem m i,
      get_lem (set_range m start end s) i,
      get_or-set_loop n start s i m.pages,
      length-set_loop n start s m.pages,
    )

length-set_if_loop :
    (n a old new : ℕ) (xs : List ℕ) → length (set_if_loop n a old new xs).1 ≡ length xs
unfolding set_if_loop
length-set_if_loop zero a old new xs = refl
length-set_if_loop (suc n) a old new xs = ground (
  arith,
  length-set_if_loop n (suc a) old new xs,
  length-set_if_loop n (suc a) old new (set xs a new),
  length-set xs a new,
)

get_or-set_if_loop :
    (n a old new i : ℕ) (xs : List ℕ)
    → a + n ≤ length xs
    → get_or (set_if_loop n a old new xs).1 i state_absent ≡ (
        if in_range (length xs) a (a + n) i && get_or xs i state_absent == old
        then new
        else get_or xs i state_absent)
unfolding set_if_loop
get_or-set_if_loop zero a old new i xs h = ground arith
get_or-set_if_loop (suc n) a old new i xs h = ground (
  arith,
  get_or-set_if_loop n (suc a) old new i xs,
  get_or-set_if_loop n (suc a) old new i (set xs a new),
  get_or-set xs a i new,
  length-set xs a new,
)

-- How many of the `n` pages from `a` have the state `old`.
pub tally : ℕ → ℕ → ℕ → List ℕ → ℕ
tally zero a old xs = 0
tally (suc n) a old xs =
    let rest = tally n (suc a) old xs in if get_or xs a state_absent == old then suc rest else rest

tally-set :
    (n a b old new : ℕ) (xs : List ℕ) → b < a → tally n a old (set xs b new) ≡ tally n a old xs
unfolding tally
tally-set zero a b old new xs h = refl
tally-set (suc n) a b old new xs h =
    ground (arith, tally-set n (suc a) b old new xs, get_or-set xs b a new)

set_if_loop-tally :
    (n a old new : ℕ) (xs : List ℕ) → (set_if_loop n a old new xs).0 ≡ tally n a old xs
unfolding set_if_loop tally
set_if_loop-tally zero a old new xs = refl
set_if_loop-tally (suc n) a old new xs = ground (
  arith,
  set_if_loop-tally n (suc a) old new xs,
  set_if_loop-tally n (suc a) old new (set xs a new),
  tally-set n (suc a) a old new xs,
)

-- SetRangeIf writes `new` into the pages of [start, end) that hold `old` and leaves every other
-- page as it is, a released one too when `old` is another state; it returns how many pages of the
-- range held `old`.
pub get-set_range_if :
    (m : PageStateMap) (start end old new i : ℕ)
    → (get (set_range_if m start end old new).1 i
        ≡ (if in_range (length m.pages) start end i && get m i == old then new else get m i))
      × ((set_range_if m start end old new).0
          ≡ tally (min end (length m.pages) - start) start old m.pages)
      × (length (set_range_if m start end old new).1.pages ≡ length m.pages)
unfolding set_range_if tally
get-set_range_if m start end old new i =
    let n = min end (length m.pages) - start in
    ground (
      arith,
      get_lem m i,
      get_lem (set_range_if m start end old new).1 i,
      get_or-set_if_loop n start old new i m.pages,
      length-set_if_loop n start old new m.pages,
      set_if_loop-tally n start old new m.pages,
    )

-- CompareAndSwap succeeds exactly on a page of the table that holds `old`; then that page holds
-- `new`, and in every case no other page changes.
pub compare_and_swap_lem :
    (m : PageStateMap) (i old new j : ℕ)
    → ((compare_and_swap m i old new).0 ≡ (ltb i (length m.pages) && get m i == old))
      × (get (compare_and_swap m i old new).1 j
          ≡ (if (compare_and_swap m i old new).0 && i == j then new else get m j))
unfolding compare_and_swap
compare_and_swap_lem m i old new j = ground (
  arith,
  get_lem m i,
  get_lem m j,
  get_lem (compare_and_swap m i old new).1 j,
  get_or-set m.pages i j new,
  length-set m.pages i new,
)
