-- ===== src/Peers/Conflicts.antt =====
-- melodi_conflicts_recompute_locked of kernel/core/discovery.c: peers that share a locator with
-- another peer or with this device.
use melodi.Slots.{count}
use melodi.Peers.{Peer}
use melodi.Base.{
  ltb, ◌==◌, ◌!=◌, if◌then◌else◌, ==_refl, Bool-cases, length, All, All-mono, ℕ, zero, suc, ◌+◌,
  ◌≤◌, ◌<◌, ◌≡◌, refl, ap, ◌∙◌, inl, inr, Bool, true, false, not, ◌&&◌, ◌||◌, List, [], ◌∷◌, map,
  arith,
}

-- The first loop.
unfoldable pub against_local : ℕ → List Peer → List Peer
against_local local [] = []
against_local local (p ∷ ps) =
    record p { conflicted = p.authenticated && p.native_locator == local } ∷ against_local local ps

-- The inner loop of the second, over the peers behind `first`: those peers, and whether it set the
-- flag of `first`.
unfoldable pub against_first : ℕ → List Peer → List Peer × Bool
against_first locator [] = ([], false)
against_first locator (p ∷ ps) =
    let (rest, hit) = against_first locator ps in
    if not p.authenticated || locator != p.native_locator
    then (p ∷ rest, hit)
    else (record p { conflicted = true } ∷ rest, true)

unfoldable pub pairs : ℕ → List Peer → List Peer
pairs zero ps = ps
pairs (suc fuel) [] = []
pairs (suc fuel) (p ∷ ps) =
    let (rest, hit) = against_first p.native_locator ps in
    let marked = record p { conflicted = hit || p.conflicted } in
    let skipped = pairs fuel ps in
    let others = pairs fuel rest in if not p.authenticated then p ∷ skipped else marked ∷ others

unfoldable pub recompute : ℕ → List Peer → List Peer
recompute local ps = pairs (length ps) (against_local local ps)

-- An authenticated peer at a locator.
abbrev pub at_locator : ℕ → Peer → Bool
at_locator locator p = p.authenticated && locator == p.native_locator

abbrev pub marked : (Peer → Bool) → Peer → Peer
marked flag p = record p { conflicted = flag p }

map_flags :
    (f g : Peer → Bool) (ps : List Peer)
    → All (λ p. f p ≡ g p) ps
    → map (marked f) ps ≡ map (marked g) ps
map_flags f g [] h = refl
map_flags f g (p ∷ ps) h = λ i. record p { conflicted = h.0 i } ∷ map_flags f g ps h.1 i

skips : (known : Bool) (x y : ℕ) → (not known || x != y) ≡ not (known && x == y)
skips true x y = ground arith
skips false x y = refl

against_first-map :
    (locator : ℕ) (ps : List Peer)
    → (against_first locator ps).0 ≡ map (marked (λ p. at_locator locator p || p.conflicted)) ps
unfolding against_first
against_first-map locator [] = refl
against_first-map locator (p ∷ ps) = elim (Bool-cases (at_locator locator p)) [
  | inl hit ↦
      rw (skips p.authenticated locator p.native_locator, hit)
        (λ i. record p { conflicted = true } ∷ against_first-map locator ps i)
  | inr miss ↦
      rw (skips p.authenticated locator p.native_locator, miss)
        (λ i. p ∷ against_first-map locator ps i)
]

against_first-count :
    (locator : ℕ) (ps : List Peer)
    → (against_first locator ps).1 ≡ ltb 0 (count (at_locator locator) ps)
unfolding against_first count
against_first-count locator [] = refl
against_first-count locator (p ∷ ps) = elim (Bool-cases (at_locator locator p)) [
  | inl hit ↦ rw (skips p.authenticated locator p.native_locator, hit) (ground arith)
  | inr miss ↦
      rw (skips p.authenticated locator p.native_locator, miss)
        (against_first-count locator ps
          ∙ ap (ltb 0) {y = 0 + count (at_locator locator) ps} (omega arith))
]

-- Every authenticated peer is among those at its locator.
abbrev Counted : List Peer → Peer → Type 0
Counted ps q = q.authenticated ≡ true → 0 < count (at_locator q.native_locator) ps

counts_within : (ps : List Peer) → All (Counted ps) ps
unfolding count
counts_within [] = tt
counts_within (p ∷ ps) = (
  λ known. rw (known, ==_refl p.native_locator) (omega arith),
  All-mono ps (λ q h known. omega (arith, h known)) (counts_within ps),
)

count-marked :
    (locator : ℕ) (flag : Peer → Bool) (ps : List Peer)
    → count (at_locator locator) (map (marked flag) ps) ≡ count (at_locator locator) ps
unfolding count
count-marked locator flag [] = refl
count-marked locator flag (p ∷ ps) = omega (arith, count-marked locator flag ps)

length-marked : (flag : Peer → Bool) (ps : List Peer) → length (map (marked flag) ps) ≡ length ps
length-marked flag [] = refl
length-marked flag (p ∷ ps) = ap suc (length-marked flag ps)

marked_twice :
    (f g : Peer → Bool) (ps : List Peer)
    → map (marked f) (map (marked g) ps) ≡ map (marked (λ p. f (marked g p))) ps
marked_twice f g [] = refl
marked_twice f g (p ∷ ps) = λ i. record p { conflicted = f (marked g p) } ∷ marked_twice f g ps i

-- Whether a peer shares its locator with another of the list, or was marked before.
abbrev shared : List Peer → Peer → Bool
shared ps p = p.conflicted || (p.authenticated && ltb 1 (count (at_locator p.native_locator) ps))

-- The flag of a later peer after the round of `p` and the rounds behind it.
later_flag :
    (conflicted known p_known : Bool) (mine its others : ℕ)
    → p_known ≡ true
    → (known ≡ true → 0 < others)
    → (((known && mine == its) || conflicted) || (known && ltb 1 others))
      ≡ (conflicted || (known && ltb 1 ((if p_known && its == mine then 1 else 0) + others)))
later_flag true true p_known mine its others h pos = ground arith
later_flag true false p_known mine its others h pos = refl
later_flag false true p_known mine its others h pos = ground (arith, pos refl)
later_flag false false p_known mine its others h pos = refl

-- The flag of `p` itself, and of a later peer beside one that is not known.
own_flag :
    (conflicted known : Bool) (its others : ℕ)
    → known ≡ true
    → (ltb 0 others || conflicted)
      ≡ (conflicted || (known && ltb 1 ((if known && its == its then 1 else 0) + others)))
own_flag true true its others h = ground arith
own_flag false true its others h = ground arith
own_flag conflicted false its others h = ground arith

beside_unknown :
    (conflicted known p_known : Bool) (mine its others : ℕ)
    → p_known ≡ false
    → (conflicted || (known && ltb 1 others))
      ≡ (conflicted || (known && ltb 1 ((if p_known && its == mine then 1 else 0) + others)))
beside_unknown conflicted known p_known mine its others h =
    rw h (ap (λ n. conflicted || (known && ltb 1 n)) {y = 0 + others} (omega arith))

alone :
    (conflicted known : Bool) (others : ℕ)
    → known ≡ false
    → conflicted ≡ (conflicted || (known && ltb 1 others))
alone true known others h = refl
alone false known others h = rw h

pairs-shared :
    (fuel : ℕ) (ps : List Peer) → length ps ≤ fuel → pairs fuel ps ≡ map (marked (shared ps)) ps
unfolding pairs count
pairs-shared zero [] h = refl
pairs-shared zero (p ∷ ps) h = absurd (omega arith)
pairs-shared (suc fuel) [] h = refl
pairs-shared (suc fuel) (p ∷ ps) h =
    let behind = against_first p.native_locator ps in
    let round = λ (known : Bool).
      if not known
      then p ∷ pairs fuel ps
      else record p { conflicted = behind.1 || p.conflicted } ∷ pairs fuel behind.0 in
    elim (Bool-cases p.authenticated) [
      | inl known ↦
          let g : Peer → Bool = λ q. at_locator p.native_locator q || q.conflicted in
          let rest = map (marked g) ps in
          let tail : pairs fuel behind.0 ≡ map (marked (shared (p ∷ ps))) ps =
            ap (pairs fuel) (against_first-map p.native_locator ps)
            ∙ pairs-shared fuel rest (omega (arith, length-marked g ps))
            ∙ marked_twice (shared rest) g ps
            ∙ map_flags (λ q. shared rest (marked g q)) (shared (p ∷ ps)) ps
                (All-mono ps
                  (λ q pos.
                    ap (λ n. g q || (q.authenticated && ltb 1 n))
                      (count-marked q.native_locator g ps)
                    ∙ later_flag q.conflicted q.authenticated p.authenticated p.native_locator
                        q.native_locator (count (at_locator q.native_locator) ps) known pos)
                  (counts_within ps)) in
          let head : (behind.1 || p.conflicted) ≡ shared (p ∷ ps) p =
            ap (λ b. b || p.conflicted) (against_first-count p.native_locator ps)
            ∙ own_flag p.conflicted p.authenticated p.native_locator
                (count (at_locator p.native_locator) ps) known in
          ap round known ∙ (λ i. record p { conflicted = head i } ∷ tail i)
      | inr unknown ↦
          let tail : pairs fuel ps ≡ map (marked (shared (p ∷ ps))) ps =
            pairs-shared fuel ps (omega arith)
            ∙ map_flags (shared ps) (shared (p ∷ ps)) ps (
                All-mono ps
                  (λ q _.
                    beside_unknown q.conflicted q.authenticated p.authenticated p.native_locator
                      q.native_locator (count (at_locator q.native_locator) ps) unknown)
                  (counts_within ps)) in
          let head : p.conflicted ≡ shared (p ∷ ps) p =
            alone p.conflicted p.authenticated (count (at_locator p.native_locator) (p ∷ ps))
              unknown in
          ap round unknown ∙ (λ i. record p { conflicted = head i } ∷ tail i)
    ]

against_local-map :
    (local : ℕ) (ps : List Peer)
    → against_local local ps ≡ map (marked (λ p. p.authenticated && p.native_locator == local)) ps
unfolding against_local
against_local-map local [] = refl
against_local-map local (p ∷ ps) =
    ap (◌∷◌ (record p { conflicted = p.authenticated && p.native_locator == local }))
      (against_local-map local ps)

both_flags : (a x y : Bool) → ((a && x) || (a && y)) ≡ (a && (x || y))
both_flags true x y = refl
both_flags false x y = refl

-- Whether a peer is authenticated at the locator of this device or of another authenticated peer.
abbrev pub in_conflict : ℕ → List Peer → Peer → Bool
in_conflict local ps p =
    p.authenticated && (p.native_locator == local || ltb 1 (count (at_locator p.native_locator) ps))

-- Exactly the authenticated peers that share their locator with this device or with another
-- authenticated peer are marked, and nothing else of a peer changes.
pub recompute-in_conflict :
    (local : ℕ) (ps : List Peer) → recompute local ps ≡ map (marked (in_conflict local ps)) ps
unfolding recompute
recompute-in_conflict local ps =
    let f : Peer → Bool = λ p. p.authenticated && p.native_locator == local in
    ap (pairs (length ps)) (against_local-map local ps)
    ∙ pairs-shared (length ps) (map (marked f) ps) (omega (arith, length-marked f ps))
    ∙ marked_twice (shared (map (marked f) ps)) f ps
    ∙ map_flags (λ p. shared (map (marked f) ps) (marked f p)) (in_conflict local ps) ps
        (All-mono ps
          (λ p _.
            ap (λ n. f p || (p.authenticated && ltb 1 n)) (count-marked p.native_locator f ps)
            ∙ both_flags p.authenticated (p.native_locator == local)
                (ltb 1 (count (at_locator p.native_locator) ps)))
          (counts_within ps))
