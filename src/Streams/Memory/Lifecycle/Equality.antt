-- ===== src/Streams/Memory/Lifecycle/Equality.antt =====
-- operator== of source/streams/vmemorystream.cpp.
use code_vault.Base.{
  ℕ, zero, suc, ◌≤◌, ◌≡◌, refl, sym, ap, ◌∙◌, ◌↔◌, inl, inr, Bool, true, false, ◌&&◌, List, [], ◌∷◌,
  ok, length, arith, take, ◌==◌, ==_iff, Bool-cases,
}
use code_vault.Streams.{Platform, need_size_conversion}
use code_vault.Streams.Memory.{World, MemoryStream}
use code_vault.Streams.Memory.Lifecycle.{stream_eq, bytes_eq}
use code_vault.Streams.Memory.Invariant.{
  IsValid, contents, contents_valid, load_valid, length-contents,
}
use code_vault.Heap.{Heap}

-- memcmp on regions that are large enough decides whether the first `n` bytes agree.
bytes_eq_lem :
    (a b : List ℕ) (n : ℕ)
    → n ≤ length a
    → n ≤ length b
    → (same : Bool) × (bytes_eq a b n ≡ ok same) × ((same ≡ true) ↔ (take n a ≡ take n b))
unfolding bytes_eq
bytes_eq_lem a b zero h k = (true, refl, ((λ _. refl), (λ _. refl)))
bytes_eq_lem [] b (suc n) h k = elim h [ ]
bytes_eq_lem (x ∷ a) [] (suc n) h k = elim k [ ]
bytes_eq_lem (x ∷ a) (y ∷ b) (suc n) h k =
    let (same, e, iff) = bytes_eq_lem a b n (omega arith) (omega arith) in
    (x == y && same, simp e, (ground (arith, iff), ground (arith, iff)))

-- Where size_t is as wide as Vs64, operator== on valid streams always returns, and says true exactly
-- where the two hold the same data.
pub stream_eq_iff :
    (p : Platform) (h : Heap) (m1 m2 : MemoryStream)
    → p.wide_size ≡ true
    → IsValid (record { heap = h; this = m1 })
    → IsValid (record { heap = h; this = m2 })
    → (same : Bool) × (stream_eq p h m1 m2 ≡ ok same)
      × ((same ≡ true)
          ↔ (contents (record { heap = h; this = m1 }) ≡ contents (record { heap = h; this = m2 })))
unfolding stream_eq need_size_conversion
stream_eq_iff p h m1 m2 wide v1 v2 = elim (Bool-cases (m2.eof_offset == m1.eof_offset)) [
  | inr differ ↦ (
    false,
    simp differ,
    (
      (λ e. cc),
      (λ e. absurd (ground (arith, ap length e, length-contents w1 v1, length-contents w2 v2))),
    ),
  )
  | inl same_end ↦ elim (Bool-cases (m1.eof_offset == 0)) [
    | inl empty ↦ (true, simp (same_end, empty), ((λ _. both_empty same_end empty), (λ _. refl)))
    | inr more ↦
        let (same, e, iff) =
          bytes_eq_lem v1.bytes v2.bytes m1.eof_offset (omega (arith, v1.fits, v1.eof_fits))
            (ground (arith, v2.fits, v2.eof_fits)) in
        (
          same,
          simp (same_end, more, load_valid w1 v1, load_valid w2 v2, wide, narrowed, e),
          (
            λ t. data1 ∙ iff.0 t ∙ sym (data2 same_end),
            λ t. iff.1 (sym data1 ∙ t ∙ data2 same_end),
          ),
        )
  ]
]
  where
    w1 : World
    w1 = record { heap = h; this = m1 }

    w2 : World
    w2 = record { heap = h; this = m2 }

    narrowed : (b : Bool) → (b && false) ≡ false
    narrowed true = refl
    narrowed false = refl

    data1 : contents w1 ≡ take m1.eof_offset v1.bytes
    data1 = contents_valid w1 v1

    data2 : (m2.eof_offset == m1.eof_offset) ≡ true → contents w2 ≡ take m1.eof_offset v2.bytes
    data2 e =
        contents_valid w2 v2 ∙ ap (λ k. take k v2.bytes) ((==_iff m2.eof_offset m1.eof_offset).0 e)

    both_empty :
        (m2.eof_offset == m1.eof_offset) ≡ true
        → (m1.eof_offset == 0) ≡ true
        → contents w1 ≡ contents w2
    both_empty e z =
        data1
        ∙ ap (λ k. take k v1.bytes) ((==_iff m1.eof_offset 0).0 z)
        ∙ ap (λ k. take k v2.bytes) (sym ((==_iff m1.eof_offset 0).0 z))
        ∙ sym (data2 e)
