-- ===== src/Mapping/Collision.antt =====
-- melodi_map_native_locator_available and melodi_resolve_collision_set of src/proto/mapping.c: the
-- search for a free locator, and the set of nodes.
use melodi.Base.{
  ltb, ◌==◌, if◌then◌else◌, Bool-cases, ◌>>=◌, ◌>>◌, reject, reject-ok, >>=-ok, Result, length,
  u32_max, ok, err, einval, eoverflow, eexist, ℕ, zero, suc, ◌+◌, ◌≡◌, refl, sym, ap, ◌∙◌, subst,
  inl, inr, Bool, true, false, not, ◌&&◌, ◌||◌, List, [], ◌∷◌, ◌++◌, map, arith,
}
use native.Mathlib.Decide.{ℕ_discrete, dec_lt}
use melodi.Mapping.Locator.{
  IsFirst, usable, candidate, member, map_native_locator, search_free, rounds_from,
  map_native_locator_available, map_native_locator-IsFirst, set_limit,
}

abbrev pub free : List ℕ → ℕ → Bool
free occupied locator = usable locator && not (member locator occupied)

module _ (locator_of : ℕ → ℕ) (occupied : List ℕ) {first locator selected : ℕ}
    (g : IsFirst locator_of usable first locator selected) where
  not_taken :
      member locator occupied ≡ false → IsFirst locator_of (free occupied) first locator selected
  not_taken h = record {
    locator_eq = g.locator_eq;
    sound = ground (arith, g.sound, h);
    start = g.start;
    skipped = λ j after lt. ground (arith, g.skipped j after lt);
  }

  taken :
      {found round : ℕ}
      → member locator occupied ≡ true
      → IsFirst locator_of (free occupied) (selected + 1) found round
      → IsFirst locator_of (free occupied) first found round
  taken h f = record {
    locator_eq = f.locator_eq;
    sound = f.sound;
    start = omega (arith, f.start, g.start);
    skipped = λ j after lt. elim (dec_lt j selected) [
      | yes early ↦ ground (arith, g.skipped j after early)
      | no late ↦ elim (ℕ_discrete selected j) [
        | yes same ↦
            let at : locator_of j ≡ locator = ap locator_of (sym same) ∙ sym g.locator_eq in
            ap (free occupied) at ∙ ground (arith, h)
        | no ne ↦ f.skipped j (omega arith) lt
      ]
    ];
  }

-- Each result of the mapping is the first usable one from its round on.
search_free-IsFirst :
    (locator_of : ℕ → ℕ) (mapped : ℕ → Result (ℕ × ℕ)) (occupied : List ℕ)
    → ((r l m : ℕ) → mapped r ≡ ok (l, m) → IsFirst locator_of usable r l m)
    → (left first : ℕ) {locator round : ℕ}
    → search_free mapped occupied left first ≡ ok (locator, round)
    → IsFirst locator_of (free occupied) first locator round
unfolding search_free
search_free-IsFirst locator_of mapped occupied firsts zero first e = ground arith
search_free-IsFirst locator_of mapped occupied firsts (suc left) first {locator} {round} e =
    go (λ k. search_free-IsFirst locator_of mapped occupied firsts left k) (mapped first) refl
  where
    go :
        ((k : ℕ)
          → search_free mapped occupied left k ≡ ok (locator, round)
          → IsFirst locator_of (free occupied) k locator round)
        → (r : Result (ℕ × ℕ)) → mapped first ≡ r
        → IsFirst locator_of (free occupied) first locator round
    go others (err x) m =
        let step : search_free mapped occupied (suc left) first ≡ err x =
          rw (m, search_free) refl in
        ground (arith, sym step ∙ e)
    go others (ok (l, s)) m = elim (Bool-cases (member l occupied)) [
      | inl there ↦ elim (Bool-cases (s == u32_max)) [
        | inl last ↦
            let step : search_free mapped occupied (suc left) first ≡ err eoverflow =
              rw (m, there, last, search_free) refl in
            ground (arith, sym step ∙ e)
        | inr more ↦
            let step : search_free mapped occupied (suc left) first
                ≡ search_free mapped occupied left (s + 1) =
              rw (m, there, more, search_free) refl in
            taken locator_of occupied (firsts first l s m) there (others (s + 1) (sym step ∙ e))
      ]
      | inr away ↦
          let step : search_free mapped occupied (suc left) first ≡ ok (l, s) =
            rw (m, away, search_free) refl in
          let same : ◌≡◌ {A = ℕ × ℕ} (l, s) (locator, round) = cc (sym step ∙ e) in
          subst (λ (p : ℕ × ℕ). IsFirst locator_of (free occupied) first p.0 p.1) same
            (not_taken locator_of occupied (firsts first l s m) away)
    ]

-- An available locator is that of the first round, from the one asked for on, that is neither reserved
-- nor taken.
pub map_native_locator_available-IsFirst :
    (domain node : List ℕ) (first : ℕ) (occupied : List ℕ) {locator round : ℕ}
    → map_native_locator_available domain node first occupied ≡ ok (locator, round)
    → IsFirst (candidate domain node) (free occupied) first locator round
unfolding map_native_locator_available
map_native_locator_available-IsFirst domain node first occupied e =
    let (few, found) = reject-ok (ltb set_limit (length occupied)) einval _ e in
    search_free-IsFirst (candidate domain node) (map_native_locator domain node) occupied
      (λ r l m f. (map_native_locator-IsFirst domain node r f).1) (rounds_from first) first found

-- What memcmp says of two NodeIds of the same length: whether the first comes after the second.
unfoldable pub after : List ℕ → List ℕ → Bool
after [] ys = false
after (x ∷ xs) [] = true
after (x ∷ xs) (y ∷ ys) = if x == y then after xs ys else ltb y x

-- One NodeId into the entries sorted so far, which are kept from the last to the first. An entry that
-- comes after the new one moves up; one that does not, and that the new one does not come after, is
-- the same.
unfoldable pub insert : List ℕ → List (List ℕ) → Result (List (List ℕ))
insert node [] = ok (node ∷ [])
insert node (entry ∷ entries) =
    let rest = insert node entries in
    if after entry node
    then rest >>= (λ sorted. ok (entry ∷ sorted))
    else if after node entry
    then ok (node ∷ entry ∷ entries)
    else err eexist

unfoldable pub insert_all : List (List ℕ) → List (List ℕ) → Result (List (List ℕ))
insert_all sorted [] = ok sorted
insert_all sorted (node ∷ nodes) = do more ← insert node sorted; insert_all more nodes

pub record Entry : Type 0 where
  pub node_id : List ℕ
  pub native_locator : ℕ
  pub collision_round : ℕ

-- The second loop, over the sorted entries.
unfoldable pub assign : List ℕ → List ℕ → List (List ℕ) → Result (List Entry)
assign domain occupied [] = ok []
assign domain occupied (node ∷ nodes) = do
  (locator, round) ← map_native_locator_available domain node 0 occupied
  rest ← assign domain (occupied ++ (locator ∷ [])) nodes
  ok (record { node_id = node; native_locator = locator; collision_round = round } ∷ rest)

abbrev pub backwards : List (List ℕ) → List (List ℕ) → List (List ℕ)
backwards done [] = done
backwards done (x ∷ xs) = backwards (x ∷ done) xs

unfoldable pub resolve_collision_set : List ℕ → List (List ℕ) → Result (List Entry)
resolve_collision_set domain nodes = do
  reject (length nodes == 0 || ltb set_limit (length nodes)) einval
  sorted ← insert_all [] nodes
  assign domain [] (backwards [] sorted)

-- Each entry has the locator of the first round that is neither reserved nor taken by an entry before
-- it.
abbrev pub Resolved : List ℕ → List ℕ → List Entry → Type 0
Resolved domain occupied [] = Unit
Resolved domain occupied (e ∷ es) =
    IsFirst (candidate domain e.node_id) (free occupied) 0 e.native_locator e.collision_round
    × Resolved domain (occupied ++ (e.native_locator ∷ [])) es

-- The entries are those of the nodes, in their order.
pub assign-Resolved :
    (domain occupied : List ℕ) (nodes : List (List ℕ)) {entries : List Entry}
    → assign domain occupied nodes ≡ ok entries
    → (map Entry.node_id entries ≡ nodes) × Resolved domain occupied entries
unfolding assign
assign-Resolved domain occupied [] {entries} e =
    subst (λ (es : List Entry). (map Entry.node_id es ≡ []) × Resolved domain occupied es) {x = []}
      (cc e) (refl, tt)
assign-Resolved domain occupied (node ∷ nodes) {entries} e =
    let ((locator, round), first, others) =
      >>=-ok (map_native_locator_available domain node 0 occupied) _ e in
    let (rest, assigned, whole) =
      >>=-ok (assign domain (occupied ++ (locator ∷ [])) nodes) _ others in
    let (same, resolved) = assign-Resolved domain (occupied ++ (locator ∷ [])) nodes assigned in
    let entry : Entry = record {
      node_id = node;
      native_locator = locator;
      collision_round = round;
    } in
    let built : entry ∷ rest ≡ entries = cc whole in
    subst (λ (es : List Entry). (map Entry.node_id es ≡ node ∷ nodes) × Resolved domain occupied es)
      built
      (
        ap (λ l. node ∷ l) same,
        (map_native_locator_available-IsFirst domain node 0 occupied first, resolved),
      )
