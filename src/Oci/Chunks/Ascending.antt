-- ===== src/Oci/Chunks/Ascending.antt =====
-- Sorting by offset: the order in which chunks arrive does not matter.
use mathlib.Core.Logic.{∥∥₁_elim}
use mathlib.Core.List.{Perm, Permᴰ}
use mathlib.Core.List.Permᴰ
use mathlib.Core.Path.{ap₂, subst, subst₂}
use mirum.Base.{
  ℕ, zero, suc, ◌+◌, ◌<◌, ◌≤◌, ◌≡◌, ◌≢◌, refl, sym, ◌∙◌, ap, List, [], ◌∷◌, arith, All, length,
  take, drop, ltb, leb, Bool-cases, inl, inr, if◌then◌else◌,
}
use mirum.Oci.Types.{Bytes}
use mirum.Oci.Chunks.{Chunk, read_chunks, insert_chunk, sort_chunks}

-- The offsets rise strictly, from `low` on.
abbrev Ascending : ℕ → List Chunk → Type 0
Ascending low [] = Unit
Ascending low ((o, b) ∷ cs) = (low ≤ o) × Ascending (suc o) cs

Ascending-lower : (low n : ℕ) (cs : List Chunk) → low ≤ n → Ascending n cs → Ascending low cs
Ascending-lower low n [] h a = tt
Ascending-lower low n ((o, b) ∷ cs) h a = (omega arith, a.1)

read_chunks-Ascending :
    (size fuel offset : ℕ) (rest : Bytes)
    → 0 < size
    → Ascending offset (read_chunks size fuel offset rest)
unfolding read_chunks
read_chunks-Ascending size zero offset rest p = tt
read_chunks-Ascending zero (suc fuel) offset rest p = absurd (omega arith)
read_chunks-Ascending (suc n) (suc fuel) offset [] p = tt
read_chunks-Ascending (suc n) (suc fuel) offset (x ∷ xs) p =
    let buf = x ∷ take n xs in
    elim (Bool-cases (ltb (length buf) (suc n))) [
      | inl short ↦ rw short (omega arith, tt)
      | inr full ↦ rw full (
        omega arith,
        Ascending-lower (suc offset) (offset + length buf) _ (omega arith)
            (read_chunks-Ascending (suc n) fuel (offset + length buf) (drop n xs) p),
      )
    ]

insert_chunk_first :
    (o : ℕ) (b : Bytes) (cs : List Chunk)
    → Ascending (suc o) cs
    → insert_chunk (o, b) cs ≡ (o, b) ∷ cs
unfolding insert_chunk
insert_chunk_first o b [] a = refl
insert_chunk_first o b ((p, c) ∷ cs) a = let h = a.0 in ground arith

sort_chunks-Ascending : (low : ℕ) (cs : List Chunk) → Ascending low cs → sort_chunks cs ≡ cs
unfolding sort_chunks
sort_chunks-Ascending low [] a = refl
sort_chunks-Ascending low ((o, b) ∷ cs) a =
    ap (insert_chunk (o, b)) (sort_chunks-Ascending (suc o) cs a.1) ∙ insert_chunk_first o b cs a.1

-- The offsets are pairwise different.
abbrev Separate : List Chunk → Type 0
Separate [] = Unit
Separate ((o, b) ∷ cs) = All (λ c. o ≢ c.0) cs × Separate cs

Ascending-All-ne : (o n : ℕ) (cs : List Chunk) → o < n → Ascending n cs → All (λ c. o ≢ c.0) cs
Ascending-All-ne o n [] h a = tt
Ascending-All-ne o n ((p, c) ∷ cs) h a =
    (omega arith, Ascending-All-ne o (suc p) cs (omega arith) a.1)

Ascending-Separate : (low : ℕ) (cs : List Chunk) → Ascending low cs → Separate cs
Ascending-Separate low [] a = tt
Ascending-Separate low ((o, b) ∷ cs) a =
    (Ascending-All-ne o (suc o) cs (omega arith) a.1, Ascending-Separate (suc o) cs a.1)

chunks_set : IsSet (List Chunk)
chunks_set = hlevel

insert_chunk-cons :
    (o q : ℕ) (b d : Bytes) (cs : List Chunk)
    → insert_chunk (o, b) ((q, d) ∷ cs)
      ≡ (if leb o q then (o, b) ∷ (q, d) ∷ cs else (q, d) ∷ insert_chunk (o, b) cs)
unfolding insert_chunk
insert_chunk-cons o q b d cs = refl

insert_chunk_comm :
    (o p : ℕ) (b c : Bytes) (cs : List Chunk)
    → o ≢ p
    → insert_chunk (o, b) (insert_chunk (p, c) cs) ≡ insert_chunk (p, c) (insert_chunk (o, b) cs)
insert_chunk_comm o p b c [] h = unfold insert_chunk in ground arith
insert_chunk_comm o p b c ((q, d) ∷ cs) h =
    let rest = insert_chunk_comm o p b c cs h in
    rw (insert_chunk-cons o q b d cs, insert_chunk-cons p q c d cs)
      (elim (Bool-cases (leb o q)) [
        | inl oq ↦ elim (Bool-cases (leb p q)) [
          | inl pq ↦
              rw
                (
                  oq,
                  pq,
                  insert_chunk-cons o p b c ((q, d) ∷ cs),
                  insert_chunk-cons p o c b ((q, d) ∷ cs),
                  insert_chunk-cons o q b d cs,
                  insert_chunk-cons p q c d cs,
                  oq,
                  pq,
                )
                (ground arith)
          | inr pq ↦
              rw
                (
                  oq,
                  pq,
                  insert_chunk-cons o q b d,
                  insert_chunk-cons p o c b,
                  insert_chunk-cons p q c d cs,
                  oq,
                  pq,
                )
                (ground arith)
        ]
        | inr oq ↦ elim (Bool-cases (leb p q)) [
          | inl pq ↦
              rw
                (
                  oq,
                  pq,
                  insert_chunk-cons p q c d,
                  insert_chunk-cons o p b c,
                  insert_chunk-cons o q b d cs,
                  oq,
                  pq,
                )
                (ground arith)
          | inr pq ↦
              rw (oq, pq, insert_chunk-cons o q b d, insert_chunk-cons p q c d, oq, pq)
                (ap (λ l. (q, d) ∷ l) rest)
        ]
      ])

All-perm {κ} : (P : Chunk → Type κ) {xs ys : List Chunk} → Permᴰ xs ys → All P xs → All P ys
All-perm P Permᴰ.nil h = h
All-perm P (Permᴰ.cons e p) h = (subst P e h.0, All-perm P p h.1)
All-perm P (Permᴰ.swap e f) h = (subst P f h.1.0, (subst P e h.0, h.1.1))
All-perm P (Permᴰ.trans p q) h = All-perm P q (All-perm P p h)

-- The offset of a chunk is not that of `c`.
abbrev Apart : Chunk → Chunk → Type 0
Apart c d = c.0 ≢ d.0

Separate-perm : {xs ys : List Chunk} → Permᴰ xs ys → Separate xs → Separate ys
Separate-perm Permᴰ.nil h = h
Separate-perm (Permᴰ.cons {a = a} {l₂ = l} e p) h =
    (subst (λ b. All (Apart b) l) e (All-perm (Apart a) p h.0), Separate-perm p h.1)
Separate-perm (Permᴰ.swap {a = a} {b = b} {l = l} e f) h = (
  (subst₂ Apart f e (λ q. h.0.0 (sym q)), subst (λ c. All (Apart c) l) f h.1.0),
  (subst (λ c. All (Apart c) l) e h.0.1, h.1.1),
)
Separate-perm (Permᴰ.trans p q) h = Separate-perm q (Separate-perm p h)

sort_chunks-permutation :
    {xs ys : List Chunk} → Permᴰ xs ys → Separate xs → sort_chunks xs ≡ sort_chunks ys
unfolding sort_chunks
sort_chunks-permutation Permᴰ.nil h = refl
sort_chunks-permutation (Permᴰ.cons e p) h = ap₂ insert_chunk e (sort_chunks-permutation p h.1)
sort_chunks-permutation (Permᴰ.swap {a = a} {b = b} {l = l} e f) h =
    insert_chunk_comm a.0 b.0 a.1 b.1 (sort_chunks l) h.0.0
    ∙ ap₂ (λ c d. insert_chunk c (insert_chunk d (sort_chunks l))) f e
sort_chunks-permutation (Permᴰ.trans p q) h =
    sort_chunks-permutation p h ∙ sort_chunks-permutation q (Separate-perm p h)

-- Sorting any arrangement of the chunks of a file gives them in the order of the file.
pub sort_chunks-perm_read_chunks :
    (size fuel offset : ℕ) (rest : Bytes) (arrived : List Chunk)
    → 0 < size
    → Perm arrived (read_chunks size fuel offset rest)
    → sort_chunks arrived ≡ read_chunks size fuel offset rest
sort_chunks-perm_read_chunks size fuel offset rest arrived p h =
    let rising = read_chunks-Ascending size fuel offset rest p in
    let apart = Ascending-Separate offset _ rising in
    ∥∥₁_elim h (chunks_set _ _) (λ q.
      sym (sort_chunks-permutation (Permᴰ.symm q) apart) ∙ sort_chunks-Ascending offset _ rising)
