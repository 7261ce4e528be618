-- ===== src/Streams/Copy.antt =====
-- source/streams/vstream.cpp, copyMemory: the loop over chunks is one copy.
use code_vault.Base.{
  ℕ, zero, suc, ◌-◌, ◌≤◌, ◌<◌, ◌≡◌, refl, sym, ap, ◌∙◌, min, List, ok, err, fault, length, take,
  drop, ltb, leb, le→leb, ltb-false, lt→ltb, arith, Bool-cases, leb→le, length-drop, take-add, inl,
  inr,
}
use code_vault.Streams.{Platform, max_s32, memcpy, need_size_conversion, copy_chunks, copy_memory}

memcpy_within : (from : List ℕ) (n : ℕ) → n ≤ length from → memcpy from n ≡ ok (take n from)
unfolding memcpy
memcpy_within from n h = rw (le→leb n (length from) h)

copy_chunks_within :
    (p : Platform) (fuel : ℕ) (from : List ℕ) (n : ℕ)
    → 0 < fuel
    → n ≤ fuel
    → n ≤ length from
    → copy_chunks p fuel from n ≡ ok (take n from)
unfolding copy_chunks
copy_chunks_within p zero from n h k fits = elim h [ ]
copy_chunks_within p (suc fuel) from n h k fits = elim (Bool-cases (ltb 0 (n - min max_s32 n))) [
  | inl more ↦
      rw
        (
          memcpy_within from (min max_s32 n) (omega arith),
          more,
          copy_chunks_within p fuel (drop (min max_s32 n) from) (n - min max_s32 n) (ground arith)
              (ground arith) (omega (arith, length-drop (min max_s32 n) from)),
        )
        (ap ok (take-add (min max_s32 n) (n - min max_s32 n) n from (ground arith)))
  | inr last ↦
      let whole : min max_s32 n ≡ n = ground arith in
      rw (whole, memcpy_within from n fits, ltb-false 0 (n - n) (omega arith)) refl
]

memcpy_past : (from : List ℕ) (n : ℕ) → length from < n → memcpy from n ≡ err fault
unfolding memcpy
memcpy_past from n h = ground arith

copy_chunks_past :
    (p : Platform) (fuel : ℕ) (from : List ℕ) (n : ℕ)
    → n ≤ fuel
    → length from < n
    → copy_chunks p fuel from n ≡ err fault
unfolding copy_chunks
copy_chunks_past p zero from n k past = absurd (omega arith)
copy_chunks_past p (suc fuel) from n k past =
    elim (Bool-cases (leb (min max_s32 n) (length from))) [
      | inl first ↦
          rw
            (
              memcpy_within from (min max_s32 n) (leb→le _ _ first),
              lt→ltb 0 (n - min max_s32 n) (ground arith),
              copy_chunks_past p fuel (drop (min max_s32 n) from) (n - min max_s32 n) (ground arith)
                  (ground (arith, length-drop (min max_s32 n) from)),
            )
            refl
      | inr short ↦ rw (memcpy_past from (min max_s32 n) (ground arith)) refl
    ]

copy_chunks-eq-memcpy :
    (p : Platform) (from : List ℕ) (n : ℕ) → 0 < n → copy_chunks p n from n ≡ memcpy from n
copy_chunks-eq-memcpy p from n h = elim (Bool-cases (leb n (length from))) [
  | inl fits ↦
      copy_chunks_within p n from n h (omega arith) (leb→le _ _ fits)
      ∙ sym (memcpy_within from n (leb→le _ _ fits))
  | inr past ↦
      copy_chunks_past p n from n (omega arith) (ground arith)
      ∙ sym (memcpy_past from n (ground arith))
]

-- copyMemory, for every platform, size and source: however it is cut into chunks, it copies what one
-- memcpy of the whole size copies, and goes out of bounds exactly when that does.
pub copy_memory-eq-memcpy :
    (p : Platform) (from : List ℕ) (n : ℕ) → copy_memory p from n ≡ memcpy from n
unfolding copy_memory need_size_conversion
copy_memory-eq-memcpy p from n = ground (arith, copy_chunks-eq-memcpy p from n)

pub copy_memory_within :
    (p : Platform) (from : List ℕ) (n : ℕ)
    → n ≤ length from
    → copy_memory p from n ≡ ok (take n from)
copy_memory_within p from n h = copy_memory-eq-memcpy p from n ∙ memcpy_within from n h
