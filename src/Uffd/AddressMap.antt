-- ===== src/Uffd/AddressMap.antt =====
-- pkg/uffd/addrmap.go: which process maps which part of the memfd where. Every method holds the
-- lock throughout. Addresses, sizes and offsets are uint64, whose arithmetic wraps.
pub mod Reached
pub mod Kept
pub mod Invalidate
pub mod Lookup
pub mod WellFormed
use sandboxer.Prelude.{
  ℕ, zero, suc, ◌+◌, ◌-◌, ◌*◌, ◌^◌, ◌%◌, Option, none, some, List, [], ◌∷◌, ◌++◌, Bool, true, false,
  ltb, leb, ◌==◌, if◌then◌else◌, ◌||◌, ◌&&◌, not, length, min, max,
}
use sandboxer.Prelude.Int.{int_pos}

abbrev pub page_size : ℕ
page_size = 4096

-- ProcessKind is a byte.
abbrev pub process_backend : ℕ
process_backend = 1

abbrev pub process_ch : ℕ
process_ch = 2

-- uint64 addition and subtraction.
abbrev pub add_wrap : ℕ → ℕ → ℕ
add_wrap a b = (a + b) % 2 ^ 64

abbrev pub sub_wrap : ℕ → ℕ → ℕ
sub_wrap a b = (a + 2 ^ 64 - b) % 2 ^ 64

-- `uffd_fd` is a Go int, kept as its 64-bit pattern.
pub record Vma : Type 0 where
  pub process : ℕ
  pub start : ℕ
  pub end : ℕ
  pub memfd_offset : ℕ
  pub uffd_fd : ℕ
  pub invalid : Bool

pub record AddressMap : Type 0 where
  pub memfd_len : ℕ
  pub vmas : List Vma

pub data MapError : Type 0 where
  unknown_owner bad_range exceeds_memfd va_overlap memfd_overlap : MapError
  not_one_region no_region : MapError

unfoldable pub new_address_map : ℕ → AddressMap
new_address_map n = record { memfd_len = n; vmas = [] }

-- The loop of RegisterVMA over the registered intervals.
pub conflict : ℕ → ℕ → ℕ → ℕ → List Vma → Option MapError
conflict p va size off [] = none
conflict p va size off (v ∷ vs) =
    let rest = conflict p va size off vs in
    if not (v.process == p)
    then rest
    else if ltb va v.end && ltb v.start (add_wrap va size)
    then some va_overlap
    else if ltb off (add_wrap v.memfd_offset (sub_wrap v.end v.start))
        && ltb v.memfd_offset (add_wrap off size)
    then some memfd_overlap
    else rest

unfoldable pub register_vma : AddressMap → ℕ → ℕ → ℕ → ℕ → Option MapError × AddressMap
unfolding conflict
register_vma m p va size off =
    if not (p == process_ch) && not (p == process_backend)
    then (some unknown_owner, m)
    else if size == 0
        || ltb (2 ^ 64 - 1 - size) va
        || not (va % page_size == 0)
        || not (size % page_size == 0)
        || not (off % page_size == 0)
    then (some bad_range, m)
    else if ltb m.memfd_len (add_wrap off size) || ltb (add_wrap off size) off
    then (some exceeds_memfd, m)
    else elim (conflict p va size off m.vmas) [
      | some e ↦ (some e, m)
      | none ↦ (
        none,
        record m {
          vmas =
              m.vmas
              ++ (record {
                process = p;
                start = va;
                end = add_wrap va size;
                memfd_offset = off;
                uffd_fd = 0;
                invalid = false;
              }
                  ∷ []);
        },
      )
    ]

-- Locate: the memfd offset of a faulting address; none is false.
pub locate_in : ℕ → List Vma → Option ℕ
locate_in va [] = none
locate_in va (v ∷ vs) =
    let rest = locate_in va vs in
    if not (v.process == process_ch)
    then rest
    else if leb v.start va && ltb va v.end
    then some (add_wrap v.memfd_offset (sub_wrap va v.start))
    else rest

unfoldable pub locate : AddressMap → ℕ → Option ℕ
unfolding locate_in
locate m va = locate_in va m.vmas

-- memfdOffset lies in the part of the memfd that the interval maps.
abbrev pub maps : Vma → ℕ → Bool
maps v off = leb v.memfd_offset off && ltb off (add_wrap v.memfd_offset (sub_wrap v.end v.start))

pub remaining_in : ℕ → ℕ → List Vma → ℕ × Bool
remaining_in off req [] = (req, false)
remaining_in off req (v ∷ vs) =
    let rest = remaining_in off req vs in
    let avail = sub_wrap (add_wrap v.memfd_offset (sub_wrap v.end v.start)) off in
    if not (v.process == process_ch)
    then rest
    else if maps v off
    then (if ltb avail req then (avail, true) else (req, true))
    else rest

unfoldable pub ch_region_remaining : AddressMap → ℕ → ℕ → ℕ × Bool
unfolding remaining_in
ch_region_remaining m off req = remaining_in off req m.vmas

unfoldable pub bounds_in : ℕ → List Vma → Option (ℕ × ℕ)
bounds_in off [] = none
bounds_in off (v ∷ vs) =
    let rest = bounds_in off vs in
    if not (v.process == process_ch)
    then rest
    else if maps v off
    then some (v.memfd_offset, add_wrap v.memfd_offset (sub_wrap v.end v.start))
    else rest

unfoldable pub ch_region_bounds : AddressMap → ℕ → Option (ℕ × ℕ)
unfolding bounds_in
ch_region_bounds m off = bounds_in off m.vmas

pub backend_in : ℕ → ℕ → List Vma → Option (ℕ × ℕ)
backend_in off req [] = none
backend_in off req (v ∷ vs) =
    let rest = backend_in off req vs in
    let va_off = sub_wrap off v.memfd_offset in
    let avail = sub_wrap (sub_wrap v.end v.start) va_off in
    if not (v.process == process_backend)
    then rest
    else if maps v off
    then some (add_wrap v.start va_off, if ltb req avail then req else avail)
    else rest

unfoldable pub backend_va_for : AddressMap → ℕ → ℕ → Option (ℕ × ℕ)
unfolding backend_in
backend_va_for m off req = backend_in off req m.vmas

-- The address, the fd and the covered length; none is the error for an invalidated interval, and
-- three zeroes are what the source returns where no interval maps the offset.
pub registration_in : ℕ → ℕ → List Vma → Option (ℕ × ℕ × ℕ)
registration_in off len [] = some (0, 0, 0)
registration_in off len (v ∷ vs) =
    let rest = registration_in off len vs in
    let inner = sub_wrap off v.memfd_offset in
    if not (v.process == process_ch) || ltb off v.memfd_offset || leb (sub_wrap v.end v.start) inner
    then rest
    else if v.invalid
    then none
    else some (add_wrap v.start inner, v.uffd_fd, min len (sub_wrap (sub_wrap v.end v.start) inner))

unfoldable pub registration : AddressMap → ℕ → ℕ → Option (ℕ × ℕ × ℕ)
unfolding registration_in
registration m off len = registration_in off len m.vmas

unfoldable pub owns : AddressMap → ℕ → ℕ → ℕ → ℕ → Bool
owns m fd va off len = elim (registration m off len) [
  | none ↦ false
  | some r ↦ r.1 == fd && int_pos fd && r.0 == va && r.2 == len
]

-- removeStaged: the first interval that matches goes.
pub remove_in : ℕ → ℕ → ℕ → List Vma → List Vma
remove_in va size off [] = []
remove_in va size off (v ∷ vs) =
    let rest = remove_in va size off vs in
    if v.process == process_ch
      && v.start == va
      && sub_wrap v.end va == size
      && v.memfd_offset == off
    then vs
    else v ∷ rest

unfoldable pub remove_staged : AddressMap → ℕ → ℕ → ℕ → AddressMap
unfolding remove_in
remove_staged m va size off = record m { vmas = remove_in va size off m.vmas }

-- The number of CloudHypervisor intervals seen is one at most, and it is unowned.
pub adoptable : Bool → List Vma → Option MapError
adoptable found [] = if found then none else some no_region
adoptable found (v ∷ vs) =
    let here = adoptable true vs in
    let rest = adoptable found vs in
    if v.process == process_ch
    then (if found || not (v.uffd_fd == 0) || v.invalid then some not_one_region else here)
    else rest

-- The interval that bindInitial found takes the fd.
pub adopt : ℕ → List Vma → List Vma
adopt fd [] = []
adopt fd (v ∷ vs) =
    let rest = adopt fd vs in
    if v.process == process_ch then record v { uffd_fd = fd } ∷ vs else v ∷ rest

unfoldable pub bind_initial : AddressMap → ℕ → Option MapError × AddressMap
unfolding adoptable adopt
bind_initial m fd = elim (adoptable false m.vmas) [
  | some e ↦ (some e, m)
  | none ↦ (none, record m { vmas = adopt fd m.vmas })
]

-- The loop of AddUffd that gives the staged interval its fd: the first one that fits takes it.
pub assign_in : ℕ → ℕ → ℕ → List Vma → List Vma
assign_in fd va off [] = []
assign_in fd va off (v ∷ vs) =
    let rest = assign_in fd va off vs in
    if v.process == process_ch && v.start == va && v.memfd_offset == off && v.uffd_fd == 0
    then record v { uffd_fd = fd } ∷ vs
    else v ∷ rest

pub data AddError : Type 0 where
  invalid_fd handler_closed not_polled not_seeded : AddError
  not_registered : MapError → AddError

unfoldable pub after_register :
    Bool → Bool → ℕ → ℕ → ℕ → ℕ → Option MapError × AddressMap → Option AddError × AddressMap
unfolding assign_in
after_register polled seeded fd va size off (some e, m) = (some (not_registered e), m)
after_register polled seeded fd va size off (none, m) =
    let owned : AddressMap = record m { vmas = assign_in fd va off m.vmas } in
    if not polled
    then (some not_polled, remove_staged m va size off)
    else if not seeded
    then (some not_seeded, remove_staged owned va size off)
    else (none, owned)

-- AddUffd on the map. `polled` says that SetNonblock and EpollCtl succeeded, `seeded` that seedRegion
-- did; the fd is a Go int as its 64-bit pattern.
unfoldable pub add_uffd :
    AddressMap → Bool → Bool → Bool → ℕ → ℕ → ℕ → ℕ → Option AddError × AddressMap
unfolding after_register
add_uffd m is_closed polled seeded fd va size off =
    if fd == 0 || leb (2 ^ 63) fd
    then (some invalid_fd, m)
    else if is_closed
    then (some handler_closed, m)
    else after_register polled seeded fd va size off (register_vma m process_ch va size off)

-- The test by which invalidate passes over an interval.
abbrev pub untouched : ℕ → ℕ → ℕ → Vma → Bool
untouched fd start end v =
    not (v.process == process_ch)
    || not (v.uffd_fd == fd)
    || v.invalid
    || leb v.end start
    || leb end v.start

-- What remains valid of an interval before and after the range.
unfoldable pub pieces : ℕ → ℕ → Vma → List Vma
pieces start end v =
    let lo = max start v.start in
    let hi = min end v.end in
    (if ltb v.start lo then record v { end = lo } ∷ [] else [])
    ++ (if ltb hi v.end
        then record v { start = hi; memfd_offset = add_wrap v.memfd_offset (sub_wrap hi v.start) }
          ∷ []
        else [])

-- The tombstone.
unfoldable pub tombstone : ℕ → ℕ → Vma → Vma
tombstone start end v =
    let lo = max start v.start in
    record v {
      start = lo;
      end = min end v.end;
      memfd_offset = add_wrap v.memfd_offset (sub_wrap lo v.start);
      invalid = true;
    }

-- The loop, which also visits what it appends: `done` is the list below the index, `todo` the list
-- from the index on.
pub invalidate_loop : ℕ → ℕ → ℕ → ℕ → List Vma → List Vma → List Vma
unfolding pieces tombstone
invalidate_loop zero fd start end done todo = done ++ todo
invalidate_loop (suc n) fd start end done [] = done
invalidate_loop (suc n) fd start end done (v ∷ todo) =
    let (todo', v') =
      (if untouched fd start end v
        then (todo, v)
        else (todo ++ pieces start end v, tombstone start end v)) in
    invalidate_loop n fd start end (done ++ (v' ∷ [])) todo'

-- Each interval leaves two pieces at most, and the pieces leave none.
unfoldable pub invalidate : AddressMap → ℕ → ℕ → ℕ → AddressMap
unfolding invalidate_loop
invalidate m fd start end =
    if leb end start || not (start % page_size == 0) || not (end % page_size == 0)
    then m
    else record m { vmas = invalidate_loop (3 * length m.vmas) fd start end [] m.vmas }
