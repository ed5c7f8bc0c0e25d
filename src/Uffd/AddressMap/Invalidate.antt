-- ===== src/Uffd/AddressMap/Invalidate.antt =====
-- What UNMAP leaves of the intervals of pkg/uffd/addrmap.go.
use sandboxer.Prelude.{
  ℕ, zero, suc, ◌+◌, ◌*◌, ◌%◌, ◌≤◌, ◌<◌, ◌≡◌, List, [], ◌∷◌, ◌++◌, true, false, if◌then◌else◌,
  arith, inl, inr, length, Bool-cases, append-nil,
}
use sandboxer.Uffd.AddressMap.{
  Vma, AddressMap, page_size, untouched, pieces, tombstone, invalidate_loop, invalidate,
}

-- Every interval of the list is one that an UNMAP of the range passes over.
abbrev pub Clear : ℕ → ℕ → ℕ → List Vma → Type 0
Clear fd start end [] = Unit
Clear fd start end (v ∷ vs) = (untouched fd start end v ≡ true) × Clear fd start end vs

-- The turns that the loop still needs: one for an interval, three for one that it splits.
turns : ℕ → ℕ → ℕ → List Vma → ℕ
turns fd start end [] = 0
turns fd start end (v ∷ vs) =
    let rest = turns fd start end vs in if untouched fd start end v then 1 + rest else 3 + rest

turns-le : (fd start end : ℕ) (vs : List Vma) → turns fd start end vs ≤ 3 * length vs
unfolding turns
turns-le fd start end [] = omega arith
turns-le fd start end (v ∷ vs) = ground (arith, turns-le fd start end vs)

turns-append :
    (fd start end : ℕ) (xs ys : List Vma)
    → turns fd start end (xs ++ ys) ≡ turns fd start end xs + turns fd start end ys
unfolding turns
turns-append fd start end [] ys = omega arith
turns-append fd start end (x ∷ xs) ys = ground (arith, turns-append fd start end xs ys)

turns-pieces :
    (fd start end : ℕ) (v : Vma)
    → start < end
    → untouched fd start end v ≡ false
    → turns fd start end (pieces start end v) ≤ 2
unfolding turns pieces
turns-pieces fd start end v h u = ground arith

tombstone-untouched :
    (fd start end : ℕ) (v : Vma) → untouched fd start end (tombstone start end v) ≡ true
unfolding tombstone
tombstone-untouched fd start end v = ground arith

Clear-append :
    (fd start end : ℕ) (xs : List Vma) (v : Vma)
    → Clear fd start end xs
    → untouched fd start end v ≡ true
    → Clear fd start end (xs ++ (v ∷ []))
Clear-append fd start end [] v c h = (h, tt)
Clear-append fd start end (x ∷ xs) v (a, c) h = (a, Clear-append fd start end xs v c h)

loop-Clear :
    (n fd start end : ℕ) (done todo : List Vma)
    → start < end
    → turns fd start end todo ≤ n
    → Clear fd start end done
    → Clear fd start end (invalidate_loop n fd start end done todo)
unfolding invalidate_loop turns
loop-Clear zero fd start end done [] h enough c = rw (append-nil done) c
loop-Clear zero fd start end done (v ∷ todo) h enough c = absurd (ground arith)
loop-Clear (suc n) fd start end done [] h enough c = c
loop-Clear (suc n) fd start end done (v ∷ todo) h enough c =
    elim (Bool-cases (untouched fd start end v)) [
      | inl skip ↦ rw skip (
          loop-Clear n fd start end (done ++ (v ∷ [])) todo h (ground arith)
            (Clear-append fd start end done v c skip))
      | inr cut ↦ rw cut (
          loop-Clear n fd start end (done ++ (tombstone start end v ∷ []))
            (todo ++ pieces start end v) h
            (ground (
              arith,
              turns-append fd start end todo (pieces start end v),
              turns-pieces fd start end v h cut,
            ))
            (Clear-append fd start end done (tombstone start end v) c
              (tombstone-untouched fd start end v)))
    ]

-- After invalidate over a nonempty range of whole pages, no interval that CloudHypervisor registered
-- with that fd is still valid anywhere in the range: the loop has visited the pieces it appended too.
pub invalidate-Clear :
    (m : AddressMap) (fd start end : ℕ)
    → start < end
    → start % page_size ≡ 0
    → end % page_size ≡ 0
    → Clear fd start end (invalidate m fd start end).vmas
unfolding invalidate
invalidate-Clear m fd start end h a b =
    let done =
      loop-Clear (3 * length m.vmas) fd start end [] m.vmas h (turns-le fd start end m.vmas) tt in
    ground (arith, done)
