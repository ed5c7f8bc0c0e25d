-- ===== src/Uffd/Install/Calls.antt =====
-- Which data an installation hands to UFFDIO_COPY.
use sandboxer.Prelude.{
  ℕ, ◌+◌, ◌*◌, ◌/◌, ◌%◌, ◌^◌, ◌≡◌, refl, Option, none, some, List, ◌∷◌, Bool, true, false, ltb,
  ◌==◌, if◌then◌else◌, ◌||◌, ◌&&◌, not, length, take, replicate, All, arith, inl, inr, Bool-cases,
  if-cases,
}
use sandboxer.Uffd.State.{PageStateMap, state_loaded, get, run_length, set_range_if}
use sandboxer.Uffd.AddressMap.{page_size, owns, locate}
use sandboxer.Uffd.Install.{
  IoctlError, IoReply, Ops, Handler, completed_bytes, bad_completion, checked_completion, Urgent,
  is_eexist, unsupported, mark_install, zero_clean, copy_clean, settle_urgent, finish_urgent,
  urgent_zero_locked, converge, urgent_copy, urgent_zero, none_done, settle_tail, finish_tail,
  execute_tail_io, eexist, eagain, enoent, einval, eopnotsupp, mark_failed, errno,
}

pub data Call : Type 0 where
  copied : ℕ → ℕ → List ℕ → Call
  zeroed : ℕ → ℕ → ℕ → Call
  woke : ℕ → ℕ → ℕ → Call
  marked : ℕ → ℕ → Call

-- The operations, which also keep the calls made through them, the last one first.
unfoldable pub recording : {W : Type 0} → Ops W → Ops (W × List Call)
recording ops = record {
  copy = λ fd dst bytes s.
      let r = ops.copy fd dst bytes s.0 in
      record {
        completed = r.completed;
        error = r.error;
        world = (r.world, copied fd dst bytes ∷ s.1);
      };
  zeropage = λ fd dst len s.
      let r = ops.zeropage fd dst len s.0 in
      record {
        completed = r.completed;
        error = r.error;
        world = (r.world, zeroed fd dst len ∷ s.1);
      };
  wake = λ fd start len s. (ops.wake fd start len s.0, woke fd start len ∷ s.1);
  mark = λ off len s. let r = ops.mark off len s.0 in (r.0, (r.1, marked off len ∷ s.1));
}

-- A condition on what is copied.
abbrev pub Copies : (ℕ → ℕ → List ℕ → Type 0) → Call → Type 0
Copies A (copied fd dst bytes) = A fd dst bytes
Copies A (zeroed fd dst len) = Unit
Copies A (woke fd start len) = Unit
Copies A (marked off len) = Unit

module _ {W : Type 0} (ops : Ops W) (A : ℕ → ℕ → List ℕ → Type 0) where
  abbrev pub Logged : W × List Call → Type 0
  Logged s = All (Copies A) s.1

  mark_install-Logged :
      (h : Handler) (fd dst len : ℕ) (s : W × List Call)
      → Logged s
      → Logged (mark_install (recording ops) h fd dst len s).1
  unfolding mark_install recording
  mark_install-Logged h fd dst len s l = go (locate h.addresses dst) refl
    where
      go :
          (o : Option ℕ)
          → locate h.addresses dst ≡ o
          → Logged
              (elim o as (λ x. Bool × (W × List Call)) [
                | none ↦ (h.tracks_dirty, s)
                | some off ↦
                    if not h.tracks_dirty
                    then (false, s)
                    else if not (owns h.addresses fd dst off len)
                    then (true, s)
                    else (recording ops).mark off len s
              ]).1
      go none e = l
      go (some off) e = elim (Bool-cases (not h.tracks_dirty)) [
        | inl a ↦ rw a l
        | inr a ↦ elim (Bool-cases (not (owns h.addresses fd dst off len))) [
          | inl b ↦ rw (a, b) l
          | inr b ↦ rw (a, b) (tt, l)
        ]
      ]

  copy_clean-Logged :
      (h : Handler) (fd dst : ℕ) (bytes : List ℕ) (s : W × List Call)
      → A fd dst bytes
      → Logged s
      → Logged (copy_clean (recording ops) h fd dst bytes s).world
  unfolding copy_clean recording
  copy_clean-Logged h fd dst bytes s a l =
      let r = (recording ops).copy fd dst bytes s in
      elim (Bool-cases (is_eexist r.error)) [
        | inl e ↦ rw e (mark_install-Logged h fd dst (length bytes) r.world (a, l))
        | inr e ↦ rw e (a, l)
      ]

module _ {W : Type 0} (ops : Ops W) (A : ℕ → ℕ → List ℕ → Type 0)
    (zeros : (fd dst n : ℕ) → A fd dst (replicate n 0)) where
  zero_clean-Logged :
      (h : Handler) (fd dst len : ℕ) (s : W × List Call)
      → Logged ops A s
      → Logged ops A (zero_clean (recording ops) h fd dst len s).0.world
  unfolding zero_clean recording
  zero_clean-Logged h fd dst len s l =
      let r = (recording ops).zeropage fd dst len s in
      elim (Bool-cases (r.completed == 0 && unsupported r.error)) [
        | inl c ↦
            rw c (
              copy_clean-Logged ops A h fd dst (replicate len 0) r.world (zeros fd dst len) (tt, l))
        | inr c ↦ elim (Bool-cases (is_eexist r.error)) [
          | inl e ↦ rw (c, e) (mark_install-Logged ops A h fd dst len r.world (tt, l))
          | inr e ↦ rw (c, e) (tt, l)
        ]
      ]

  settle_urgent-Logged :
      (m : PageStateMap) (fd dst idx expected done : ℕ) (e : Option IoctlError) (s : W × List Call)
      → Logged ops A s
      → Logged ops A (settle_urgent (recording ops) m fd dst idx expected done e s).world
  unfolding settle_urgent recording
  settle_urgent-Logged m fd dst idx expected done none s l = l
  settle_urgent-Logged m fd dst idx expected done (some eexist) s l = (tt, l)
  settle_urgent-Logged m fd dst idx expected done (some eagain) s l = (tt, l)
  settle_urgent-Logged m fd dst idx expected done (some enoent) s l = (tt, l)
  settle_urgent-Logged m fd dst idx expected done (some einval) s l = l
  settle_urgent-Logged m fd dst idx expected done (some eopnotsupp) s l = l
  settle_urgent-Logged m fd dst idx expected done (some mark_failed) s l = l
  settle_urgent-Logged m fd dst idx expected done (some (errno n)) s l = l

  finish_urgent-Logged :
      (m : PageStateMap) (fd dst idx expected : ℕ) (r : IoReply (W × List Call))
      → Logged ops A r.world
      → Logged ops A (finish_urgent (recording ops) m fd dst idx expected r).world
  unfolding finish_urgent
  finish_urgent-Logged m fd dst idx expected r l =
      elim (checked_completion r.completed page_size)
        as (λ c.
          Logged ops A
            (elim c as (λ x. Urgent (W × List Call)) [
              | bad_completion e ↦ record {
                failure = some e;
                tail_eligible = false;
                pages = m;
                world = r.world;
              }
              | completed_bytes done ↦
                  settle_urgent (recording ops) m fd dst idx expected done r.error r.world
            ]).world) [
              | bad_completion e ↦ l
              | completed_bytes done ↦
                  settle_urgent-Logged m fd dst idx expected done r.error r.world l
            ]

  urgent_zero_locked-Logged :
      (h : Handler) (fd dst idx expected : ℕ) (s : W × List Call)
      → Logged ops A s
      → Logged ops A (urgent_zero_locked (recording ops) h fd dst idx expected s).world
  unfolding urgent_zero_locked
  urgent_zero_locked-Logged h fd dst idx expected s l =
      finish_urgent-Logged h.pages fd dst idx expected
        (zero_clean (recording ops) h fd dst page_size s).0
        (zero_clean-Logged h fd dst page_size s l)

  converge-Logged :
      (h : Handler) (fd dst idx : ℕ) (s : W × List Call)
      → Logged ops A s
      → Logged ops A (converge (recording ops) h fd dst idx s).world
  unfolding converge recording
  converge-Logged h fd dst idx s l = elim (Bool-cases (get h.pages idx == state_loaded)) [
    | inl c ↦ rw c (tt, l)
    | inr c ↦ rw c (urgent_zero_locked-Logged h fd dst idx (get h.pages idx) s l)
  ]

  abbrev Calm : Urgent (W × List Call) → Type 0
  Calm u = Logged ops A u.world

  -- One page of source data is copied only to a page that the descriptor owns and that is still
  -- as expected.
  pub urgent_copy-Logged :
      (h : Handler) (fd dst idx expected : ℕ) (bytes : List ℕ) (s : W × List Call)
      → (owns h.addresses fd dst (idx * page_size % 2 ^ 64) page_size ≡ true
          → (get h.pages idx == expected) ≡ true
          → A fd dst bytes)
      → Logged ops A s
      → Logged ops A (urgent_copy (recording ops) h fd dst idx expected bytes s).world
  unfolding urgent_copy
  urgent_copy-Logged h fd dst idx expected bytes s a l =
      let o = owns h.addresses fd dst (idx * page_size % 2 ^ 64) page_size in
      if-cases Calm h.canceled (λ c. l)
        (λ c.
          if-cases Calm (not o) (λ n. l)
            (λ n.
              if-cases Calm (not (get h.pages idx == expected))
                (λ e. converge-Logged h fd dst idx s l)
                (λ e.
                  finish_urgent-Logged h.pages fd dst idx expected
                    (copy_clean (recording ops) h fd dst bytes s)
                    (copy_clean-Logged ops A h fd dst bytes s
                      (a (ground (arith, n)) (ground (arith, e))) l))))

  pub urgent_zero-Logged :
      (h : Handler) (fd dst idx expected : ℕ) (s : W × List Call)
      → Logged ops A s
      → Logged ops A (urgent_zero (recording ops) h fd dst idx expected s).world
  unfolding urgent_zero
  urgent_zero-Logged h fd dst idx expected s l =
      if-cases Calm h.canceled (λ c. l)
        (λ c.
          if-cases Calm (not (owns h.addresses fd dst (idx * page_size % 2 ^ 64) page_size))
            (λ n. l)
            (λ n.
              if-cases Calm (not (get h.pages idx == expected))
                (λ e. converge-Logged h fd dst idx s l)
                (λ e. urgent_zero_locked-Logged h fd dst idx expected s l)))

  abbrev CalmTail : ℕ × Bool × PageStateMap × (W × List Call) → Type 0
  CalmTail t = Logged ops A t.3

  settle_tail-Logged :
      (m : PageStateMap) (idx expected len : ℕ) (shortened : Bool) (done : ℕ)
      (e : Option IoctlError) (s : W × List Call)
      → Logged ops A s
      → CalmTail (settle_tail (recording ops) m idx expected len shortened done e s)
  unfolding settle_tail
  settle_tail-Logged m idx expected len shortened done none s l =
      if-cases CalmTail
        (let pages = done / page_size in
          let changed =
            if ltb 0 pages
            then set_range_if m idx (idx + pages) expected state_loaded
            else (0, m) in
          ltb 0 pages && not (changed.0 == pages))
        (λ c. l) (λ c. l)
  settle_tail-Logged m idx expected len shortened done (some e) s l =
      if-cases CalmTail
        (let pages = done / page_size in
          let changed =
            if ltb 0 pages
            then set_range_if m idx (idx + pages) expected state_loaded
            else (0, m) in
          ltb 0 pages && not (changed.0 == pages))
        (λ c. l) (λ c. l)

  finish_tail-Logged :
      (m : PageStateMap) (idx expected len : ℕ) (shortened : Bool) (r : IoReply (W × List Call))
      → Logged ops A r.world
      → CalmTail (finish_tail (recording ops) m idx expected len shortened r)
  unfolding finish_tail
  finish_tail-Logged m idx expected len shortened r l =
      elim (checked_completion r.completed len)
        as (λ c. CalmTail (elim c as (λ x. ℕ × Bool × PageStateMap × (W × List Call)) [
          | bad_completion e ↦ none_done (recording ops) m r.world
          | completed_bytes done ↦
              settle_tail (recording ops) m idx expected len shortened done r.error r.world
        ])) [
          | bad_completion e ↦ l
          | completed_bytes done ↦
              settle_tail-Logged m idx expected len shortened done r.error r.world l
        ]

  -- A tail of source data is copied only to pages that the descriptor owns and that are all still
  -- as expected.
  pub execute_tail_io-Logged :
      (h : Handler) (fd dst idx expected : ℕ) (bytes : Option (List ℕ)) (wanted : ℕ)
      (s : W × List Call)
      → ((b : List ℕ)
          → bytes ≡ some b
          → owns h.addresses fd dst (idx * page_size % 2 ^ 64) wanted ≡ true
          → A fd dst (take (run_length h.pages idx (wanted / page_size) expected * page_size) b))
      → Logged ops A s
      → CalmTail (execute_tail_io (recording ops) h fd dst idx expected bytes wanted s)
  unfolding execute_tail_io
  execute_tail_io-Logged h fd dst idx expected none wanted s a l =
      let len = run_length h.pages idx (wanted / page_size) expected * page_size in
      let o = owns h.addresses fd dst (idx * page_size % 2 ^ 64) wanted in
      if-cases CalmTail (h.canceled || not o) (λ c. l)
        (λ c.
          if-cases CalmTail (len == 0) (λ z. l)
            (λ z.
              finish_tail-Logged h.pages idx expected len (ltb len wanted)
                (zero_clean (recording ops) h fd dst len s).0 (zero_clean-Logged h fd dst len s l)))
  execute_tail_io-Logged h fd dst idx expected (some b) wanted s a l =
      let len = run_length h.pages idx (wanted / page_size) expected * page_size in
      let o = owns h.addresses fd dst (idx * page_size % 2 ^ 64) wanted in
      if-cases CalmTail (h.canceled || not o) (λ c. l)
        (λ c.
          if-cases CalmTail (len == 0) (λ z. l)
            (λ z.
              finish_tail-Logged h.pages idx expected len (ltb len wanted)
                (copy_clean (recording ops) h fd dst (take len b) s)
                (copy_clean-Logged ops A h fd dst (take len b) s (a b refl (ground (arith, c))) l)))
