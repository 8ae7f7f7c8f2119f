-- ===== src/Fullrt/Division.antt =====
-- divideByChunkSize of fullrt/dht.go.
use go_libp2p_kad_dht.Prelude.{
  ℕ, ◌==◌, ◌+◌, ◌<◌, if◌then◌else◌, some, List, [], ◌∷◌, ◌++◌, ◌≡◌, refl, sym, ◌∙◌, ap, inl, inr,
  arith, All, length, length-append, append_assoc, append-nil, Bool-cases, All-append, true, false,
}
use go_libp2p_kad_dht.Fullrt.{Chunks, divide_step, divide_loop, last_chunk, divide_by_chunk_size}

abbrev pub concat : List (List ℕ) → List ℕ
concat [] = []
concat (c ∷ cs) = c ++ concat cs

concat-append : (cs ds : List (List ℕ)) → concat (cs ++ ds) ≡ concat cs ++ concat ds
concat-append [] ds = refl
concat-append (c ∷ cs) ds = simp (concat-append cs ds, append_assoc)

abbrev pub HasLength : ℕ → List ℕ → Type 0
HasLength n c = length c ≡ n

-- The chunks so far are full, the next one is not, and together they hold what was read.
pub record IsDividing (size : ℕ) (seen : List ℕ) (s : Chunks) : Type 0 where
  pub full : All (HasLength size) s.key_chunks
  pub holds : concat s.key_chunks ++ s.next_chunk ≡ seen
  pub progress : length s.next_chunk ≡ s.chunk_progress
  pub room : s.chunk_progress < size

divide_step-IsDividing :
    (size : ℕ) (seen : List ℕ) (s : Chunks) (k : ℕ)
    → IsDividing size seen s
    → IsDividing size (seen ++ k ∷ []) (divide_step size s k)
unfolding divide_step
divide_step-IsDividing size seen s k v =
    let one_more : length (s.next_chunk ++ k ∷ []) ≡ s.chunk_progress + 1 =
      omega (arith, length-append s.next_chunk (k ∷ []), v.progress) in
    let grown : concat s.key_chunks ++ (s.next_chunk ++ k ∷ []) ≡ seen ++ k ∷ [] =
      sym (append_assoc (concat s.key_chunks) s.next_chunk (k ∷ []))
      ∙ ap (λ l. l ++ k ∷ []) v.holds in
    elim (Bool-cases ((s.chunk_progress + 1) == size)) [
      | inl e ↦ simp e (record {
        full = All-append (HasLength size) s.key_chunks _ v.full (ground arith, tt);
        holds = simp (concat-append s.key_chunks ((s.next_chunk ++ k ∷ []) ∷ []), append-nil) grown;
        progress = refl;
        room = ground (arith, v.room);
      })
      | inr e ↦ simp e (record {
        full = v.full;
        holds = grown;
        progress = one_more;
        room = ground (arith, v.room);
      })
    ]

divide_loop-IsDividing :
    (size : ℕ) (seen keys : List ℕ) (s : Chunks)
    → IsDividing size seen s
    → IsDividing size (seen ++ keys) (divide_loop size s keys)
unfolding divide_loop
divide_loop-IsDividing size seen [] s v = rw (append-nil seen) v
divide_loop-IsDividing size seen (k ∷ keys) s v = rw (sym (append_assoc seen (k ∷ []) keys)) (
    divide_loop-IsDividing size (seen ++ k ∷ []) keys (divide_step size s k)
      (divide_step-IsDividing size seen s k v))

-- Chunks of the size, and then at most one that is shorter, but not empty.
pub record IsDivision (size : ℕ) (keys : List ℕ) (chunks : List (List ℕ)) : Type 0 where
  pub full_chunks : List (List ℕ)
  pub rest : List ℕ
  pub full : All (HasLength size) full_chunks
  pub short : length rest < size
  pub made : chunks ≡ full_chunks ++ (if length rest == 0 then [] else rest ∷ [])
  pub holds : concat chunks ≡ keys

last_chunk-IsDivision :
    (size : ℕ) (keys : List ℕ) (s : Chunks)
    → IsDividing size keys s
    → IsDivision size keys (last_chunk s)
unfolding last_chunk
last_chunk-IsDivision size keys s v = elim (Bool-cases (s.chunk_progress == 0)) [
  | inl e ↦
      let none_left : (length s.next_chunk == 0) ≡ true = ground (arith, v.progress) in
      rw e (record {
        full_chunks = s.key_chunks;
        rest = s.next_chunk;
        full = v.full;
        short = omega (arith, v.progress, v.room);
        made = rw none_left (sym (append-nil s.key_chunks));
        holds =
            sym (append-nil (concat s.key_chunks))
            ∙ (ap (λ l. concat s.key_chunks ++ l) (sym (nil_of_length s.next_chunk (ground arith)))
                ∙ v.holds);
      })
  | inr e ↦
      let some_left : (length s.next_chunk == 0) ≡ false = ground (arith, v.progress) in
      rw e (record {
        full_chunks = s.key_chunks;
        rest = s.next_chunk;
        full = v.full;
        short = omega (arith, v.progress, v.room);
        made = rw some_left refl;
        holds = simp (concat-append s.key_chunks (s.next_chunk ∷ []), append-nil) v.holds;
      })
]
  where
    nil_of_length : (l : List ℕ) → length l ≡ 0 → l ≡ []
    nil_of_length [] h = refl
    nil_of_length (x ∷ l) h = absurd (omega (arith, h))

-- With a chunk size of at least 1, divideByChunkSize does not panic; it cuts the keys, in their order,
-- into chunks of exactly that size and at most one more, the last, that is shorter and not empty.
pub divide_by_chunk_size-IsDivision :
    (keys : List ℕ) (size : ℕ)
    → 0 < size
    → (chunks : List (List ℕ)) × (divide_by_chunk_size keys size ≡ some chunks)
      × IsDivision size keys chunks
unfolding divide_by_chunk_size
divide_by_chunk_size-IsDivision [] size h = (
  [],
  refl,
  record { full_chunks = []; rest = []; full = tt; short = h; made = refl; holds = refl },
)
divide_by_chunk_size-IsDivision (k ∷ keys) size h =
    let start : Chunks = record { key_chunks = []; next_chunk = []; chunk_progress = 0 } in
    let s = divide_loop size start (k ∷ keys) in
    (
      last_chunk s,
      ground arith,
      last_chunk-IsDivision size (k ∷ keys) s (
          divide_loop-IsDividing size [] (k ∷ keys) start
            (record { full = tt; holds = refl; progress = refl; room = h })),
    )
