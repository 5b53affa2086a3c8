-- ===== src/Oci/Chunks/Assemble.antt =====
-- What was read chunk by chunk is put together again.
use mathlib.Core.Path.{ap₂}
use mathlib.Core.List.{append-nil, append_assoc, Perm}
use mirum.Base.{
  ℕ, zero, suc, ◌+◌, ◌-◌, ◌<◌, ◌≤◌, ◌≡◌, refl, sym, ◌∙◌, ap, List, [], ◌∷◌, ◌++◌, arith, length,
  take, drop, ltb, Bool-cases, inl, inr, length-append, length-take, length-drop, take-append-drop,
}
use mirum.Oci.Types.{Bytes}
use mirum.Oci.Chunks.{Chunk, read_chunks, file_chunks, write_at, write_chunks, assemble}
use mirum.Oci.Chunks.Ascending.{sort_chunks-perm_read_chunks}

drop_all : (n : ℕ) (file : Bytes) → length file ≤ n → drop n file ≡ []
drop_all zero [] h = refl
drop_all zero (x ∷ xs) h = absurd (omega arith)
drop_all (suc n) [] h = refl
drop_all (suc n) (x ∷ xs) h = drop_all n xs (omega arith)

take_all : (n : ℕ) (file : Bytes) → length file ≤ n → take n file ≡ file
take_all zero [] h = refl
take_all zero (x ∷ xs) h = absurd (omega arith)
take_all (suc n) [] h = refl
take_all (suc n) (x ∷ xs) h = ap (λ l. x ∷ l) (take_all n xs (omega arith))

-- A write at the end of the file appends.
write_at_end : (bytes file : Bytes) → write_at (length file) bytes file ≡ file ++ bytes
unfolding write_at
write_at_end bytes file =
    let none_left : length file - length file ≡ 0 = omega arith in
    let past = drop_all (length file + length bytes) file (omega arith) in
    rw (take_all (length file) file (omega arith), past, append-nil, none_left)

-- With enough fuel the chunks, written in their order, append the rest of the file.
write_chunks-read_chunks :
    (size fuel : ℕ) (written rest : Bytes)
    → 0 < size
    → length rest < fuel
    → write_chunks (read_chunks size fuel (length written) rest) written ≡ written ++ rest
unfolding read_chunks write_chunks
write_chunks-read_chunks size zero written rest p h = absurd (omega arith)
write_chunks-read_chunks zero (suc fuel) written rest p h = absurd (omega arith)
write_chunks-read_chunks (suc n) (suc fuel) written [] p h = sym (append-nil written)
write_chunks-read_chunks (suc n) (suc fuel) written (x ∷ xs) p h =
    let buf = x ∷ take n xs in
    let cut = length-take n xs in
    elim (Bool-cases (ltb (length buf) (suc n))) [
      | inl short ↦ rw short (
          write_at_end buf written
          ∙ ap (λ l. written ++ x ∷ l) (take_all n xs (ground (arith, cut))))
      | inr full ↦
          let here : length written + length buf ≡ length (written ++ buf) =
            sym (length-append written buf) in
          rw full (
            ap₂ (λ at w. write_chunks (read_chunks (suc n) fuel at (drop n xs)) w) here
              (write_at_end buf written)
            ∙ write_chunks-read_chunks (suc n) fuel (written ++ buf) (drop n xs) p
                (omega (arith, length-drop n xs))
            ∙ append_assoc written buf (drop n xs)
            ∙ ap (λ l. written ++ x ∷ l) (take-append-drop n xs))
    ]

-- Whatever the size of the chunks, and in whatever order they arrive, writing the chunks of a file
-- gives the file.
pub assemble-perm_file_chunks :
    (size : ℕ) (file : Bytes) (arrived : List Chunk)
    → 0 < size
    → Perm arrived (file_chunks size file)
    → assemble arrived ≡ file
unfolding assemble
assemble-perm_file_chunks size file arrived p h =
    ap (λ cs. write_chunks cs [])
      (sort_chunks-perm_read_chunks size (suc (length file)) 0 file arrived p h)
    ∙ write_chunks-read_chunks size (suc (length file)) [] file p (omega arith)
