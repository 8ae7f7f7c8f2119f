-- ===== src/Query/Valuable.antt =====
-- The valuable peers of query.go: record_valuable_peers against a description by all seed peers' times.
use go_libp2p_kad_dht.Prelude.{
  ℕ, ◌==◌, ◌*◌, ◌^◌, ◌≤◌, ◌<◌, some, List, [], ◌∷◌, ◌≡◌, refl, inl, inr, arith, true, contains,
  Bool-cases, Option-cases, ◌↔◌, ◌⊎◌, ltb, ◌&&◌, ==_iff, sym, ◌∙◌, ltb→lt, lt→ltb, ◌%◌,
}
use go_libp2p_kad_dht.Qpeerset.{PeerId}
use go_libp2p_kad_dht.Query.{Query}
use go_libp2p_kad_dht.Query.Result.{
  time_of, max_duration, faster, mvp_duration, lt_doubled, near, valuable_among,
  record_valuable_peers,
}

mvp_least :
    (times : List (PeerId × ℕ)) (best : ℕ) (ps : List PeerId)
    → (mvp_duration times best ps ≤ best)
      × ((p : PeerId) (t : ℕ)
          → contains ps p ≡ true
          → time_of times p ≡ some t
          → mvp_duration times best ps ≤ t)
unfolding mvp_duration
mvp_least times best [] = (omega arith, λ p t h e. absurd (cc))
mvp_least times best (r ∷ ps) =
    let (low, all) = mvp_least times (faster (time_of times r) best) ps in
    elim (Option-cases (time_of times r)) [
      | inl e ↦ (ground arith, λ p t h f. ground (arith, all p t))
      | inr (u, e) ↦ (ground arith, λ p t h f. ground (arith, all p t))
    ]

mvp_attained :
    (times : List (PeerId × ℕ)) (best : ℕ) (ps : List PeerId)
    → (mvp_duration times best ps ≡ best)
      ⊎ ((p : PeerId) × (contains ps p ≡ true)
          × (time_of times p ≡ some (mvp_duration times best ps)))
unfolding mvp_duration
mvp_attained times best [] = inl refl
mvp_attained times best (r ∷ ps) = elim (mvp_attained times (faster (time_of times r) best) ps) [
  | inr (p, h, e) ↦ inr (p, ground arith, e)
  | inl e ↦ elim (Option-cases (time_of times r)) [
    | inl f ↦ inl (ground arith)
    | inr (u, f) ↦ elim (Bool-cases (ltb u best)) [
      | inl k ↦ inr (r, ground arith, ground arith)
      | inr k ↦ inl (ground arith)
    ]
  ]
]

contains-valuable :
    (times : List (PeerId × ℕ)) (m : ℕ) (ps : List PeerId) (p : PeerId)
    → contains (valuable_among times m ps) p ≡ (contains ps p && near (time_of times p) m)
unfolding valuable_among
contains-valuable times m [] p = refl
contains-valuable times m (r ∷ ps) p = elim (Bool-cases (r == p)) [
  | inl e ↦
      let same : r ≡ p = (==_iff r p).0 e in
      elim (Bool-cases (near (time_of times r) m)) [
        | inl k ↦ rw (k, e) (rw (← same) (rw k))
        | inr k ↦ rw (k, e) (rw (contains-valuable times m ps p, ← same) (rw k (ground arith)))
      ]
  | inr e ↦ elim (Bool-cases (near (time_of times r) m)) [
    | inl k ↦ rw (k, e) (contains-valuable times m ps p)
    | inr k ↦ rw (k, e) (contains-valuable times m ps p)
  ]
]

lt_doubled_short : (t m : ℕ) → m < 2 ^ 62 → lt_doubled t m ≡ ltb t (m * 2)
lt_doubled_short t m h =
    let e : (m * 2) % 2 ^ 64 ≡ m * 2 = omega arith in rw (e, lt→ltb (m * 2) (2 ^ 63) (omega arith))

-- Durations below 2 ^ 62 ns (146 years) double without wrapping.
abbrev pub IsShort : Query → Type 0
IsShort q = (p : PeerId) (t : ℕ) → time_of q.peer_times p ≡ some t → t < 2 ^ 62

valued :
    (q : Query) (p : PeerId) (t : ℕ)
    → IsShort q
    → contains q.seed_peers p ≡ true
    → time_of q.peer_times p ≡ some t
    → (contains (record_valuable_peers q) p ≡ true) ↔ (
        (r : PeerId) (u : ℕ)
        → contains q.seed_peers r ≡ true
        → time_of q.peer_times r ≡ some u
        → t < 2 * u)
unfolding record_valuable_peers
valued q p t short seed time =
    let m = mvp_duration q.peer_times max_duration q.seed_peers in
    let least = mvp_least q.peer_times max_duration q.seed_peers in
    let low : m < 2 ^ 62 = omega (arith, least.1 p t seed time, short p t time) in
    let listed : contains (record_valuable_peers q) p ≡ ltb t (m * 2) =
      contains-valuable q.peer_times m q.seed_peers p
      ∙ rw (seed, time) (lt_doubled_short t m low) in
    (
      λ h r u k e. omega (arith, ltb→lt t (m * 2) (sym listed ∙ h), least.1 r u k e),
      λ h. elim (mvp_attained q.peer_times max_duration q.seed_peers) [
        | inl top ↦ absurd (omega (arith, top, low))
        | inr (r, k, e) ↦ listed ∙ lt→ltb t (m * 2) (omega (arith, h r m k e))
      ],
    )

-- Who is valuable is a seed peer, and has answered.
valuable_answered :
    (q : Query) (p : PeerId)
    → contains (record_valuable_peers q) p ≡ true
    → (contains q.seed_peers p ≡ true) × (t : ℕ) × (time_of q.peer_times p ≡ some t)
unfolding record_valuable_peers
valuable_answered q p h =
    let m = mvp_duration q.peer_times max_duration q.seed_peers in
    let listed = contains-valuable q.peer_times m q.seed_peers p in
    elim (Option-cases (time_of q.peer_times p)) [
      | inl n ↦ absurd (let l = (rw n at listed) in ground arith)
      | inr (t, e) ↦ (ground arith, t, e)
    ]

-- With times below 2 ^ 62, a peer counts as valuable exactly when it is a seed peer that has answered, in
-- less than twice the time of every seed peer that has answered.
pub valuable_iff :
    (q : Query) (p : PeerId)
    → IsShort q
    → (contains (record_valuable_peers q) p ≡ true) ↔ (
        (contains q.seed_peers p ≡ true)
        × (t : ℕ) × (time_of q.peer_times p ≡ some t)
        × ((r : PeerId) (u : ℕ)
            → contains q.seed_peers r ≡ true
            → time_of q.peer_times r ≡ some u
            → t < 2 * u))
valuable_iff q p short = (
  λ h.
      let (seed, t, time) = valuable_answered q p h in
      (seed, t, time, (valued q p t short seed time).0 h),
  λ (seed, t, time, least). (valued q p t short seed time).1 least,
)
