-- ===== src/Uffd/Release/History.antt =====
-- The installations and releases of pkg/uffd in any order: the reader, the fault workers and the
-- tail worker each hold installMu for one step.
use sandboxer.Prelude.{
  ℕ, ◌+◌, ◌*◌, ◌/◌, ◌%◌, ◌^◌, ◌≤◌, ◌<◌, ◌≡◌, List, [], ◌∷◌, Bool, true, none, some, length,
  replicate, All, ◌⊎◌,
}
use sandboxer.Uffd.State.{PageStateMap, state_absent}
use sandboxer.Uffd.AddressMap.{AddressMap, page_size, owns}
use sandboxer.Uffd.Install.{Ops, Handler, Urgent, urgent_copy, urgent_zero, execute_tail_io}
use sandboxer.Uffd.Install.Calls.{Call, recording, Copies}
use sandboxer.Uffd.Release.{dispatch_release}

-- A COPY of `bytes` to `dst` gives page `j` nothing of the source: it copies zeroes, or it goes to
-- pages that the descriptor owns, and `j` is not among them. The number of a page is an offset of 64
-- bits divided by the size of a page, so that its address in the memfd is its own.
pub data Spares (j : ℕ) (h : Handler) (fd dst : ℕ) (bytes : List ℕ) : Type 0 where
  zeroes : (n : ℕ) → bytes ≡ replicate n 0 → Spares j h fd dst bytes
  elsewhere :
      (idx n : ℕ)
      → idx < 2 ^ 52
      → owns h.addresses fd dst (idx * page_size % 2 ^ 64) n ≡ true
      → length bytes ≤ n
      → (j < idx) ⊎ (idx + length bytes / page_size ≤ j)
      → Spares j h fd dst bytes

-- What one step did: the handler that it found, and its calls.
abbrev pub Entry : Type 0
Entry = Handler × List Call

abbrev pub Spared : ℕ → Entry → Type 0
Spared j (h, calls) = All (Copies (Spares j h)) calls

module _ {W : Type 0} (ops : Ops W) where
  -- The calls of a step, and what it leaves.
  abbrev pub Outcome : Type 0
  Outcome = List Call × Handler × W

  abbrev pub by_urgent : Handler → Urgent (W × List Call) → Outcome
  by_urgent h u = (u.world.1, record h { pages = u.pages }, u.world.0)

  abbrev pub by_tail : Handler → ℕ × Bool × PageStateMap × (W × List Call) → Outcome
  by_tail h t = (t.3.1, record h { pages = t.2 }, t.3.0)

  abbrev pub by_release : Handler → Bool × Handler × W → Outcome
  by_release h r = ([], r.1, r.2)

  pub data Step (h : Handler) (w : W) : Outcome → Type 0 where
    copies :
        (fd dst idx : ℕ) (bytes : List ℕ)
        → idx < 2 ^ 52
        → length bytes ≡ page_size
        → Step h w
            (by_urgent h (urgent_copy (recording ops) h fd dst idx state_absent bytes (w, [])))
    zeroes_page :
        (fd dst idx expected : ℕ)
        → Step h w (by_urgent h (urgent_zero (recording ops) h fd dst idx expected (w, [])))
    copies_tail :
        (fd dst idx : ℕ) (bytes : List ℕ) (wanted : ℕ)
        → idx < 2 ^ 52
        → Step h w (
            by_tail h (
              execute_tail_io
                (recording ops)
                h
                fd
                dst
                idx
                state_absent
                (some bytes)
                wanted
                (w, [])))
    zeroes_tail :
        (fd dst idx expected wanted : ℕ)
        → Step h w
            (by_tail h (execute_tail_io (recording ops) h fd dst idx expected none wanted (w, [])))
    releases :
        (is_unmap : Bool) (fd start end : ℕ)
        → Step h w (by_release h (dispatch_release ops is_unmap h fd start end w))
    remaps : (a : AddressMap) → Step h w ([], record h { addresses = a }, w)
    cancels : Step h w ([], record h { canceled = true }, w)

  pub data History (h : Handler) (w : W) : List Entry → Handler → W → Type 0 where
    here : History h w [] h w
    next :
        {log : List Entry} {h' : Handler} {w' : W} {done : Outcome}
        → History h w log h' w'
        → Step h' w' done
        → History h w ((h', done.0) ∷ log) done.1 done.2
