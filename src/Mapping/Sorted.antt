-- ===== src/Mapping/Sorted.antt =====
-- The set that melodi_resolve_collision_set of src/proto/mapping.c returns.
use mathlib.Core.List.Perm
use mathlib.Core.List.{perm_middle, append-nil}
use melodi.Mapping.Collision.{
  after, insert, insert_all, backwards, resolve_collision_set, Entry, Resolved, assign-Resolved,
}
use melodi.Mapping.Locator.{set_limit}
use mathlib.Core.List.{Perm}
use melodi.Base.{
  ltb, ◌==◌, Bool-cases, ◌>>=◌, reject-ok, >>=-ok, length, All, All-mono, ok, err, einval, eexist,
  ℕ, ◌≡◌, refl, sym, ◌∙◌, subst, inl, inr, true, ◌||◌, List, [], ◌∷◌, ◌++◌, map, arith,
}

-- Each NodeId comes after all that follow, or before them.
abbrev pub Descending : List (List ℕ) → Type 0
Descending [] = Unit
Descending (x ∷ xs) = All (λ y. after x y ≡ true) xs × Descending xs

abbrev pub Ascending : List (List ℕ) → Type 0
Ascending [] = Unit
Ascending (x ∷ xs) = All (λ y. after y x ≡ true) xs × Ascending xs

after_trans : (x y z : List ℕ) → after x y ≡ true → after y z ≡ true → after x z ≡ true
unfolding after
after_trans [] y z first second = ground arith
after_trans (a ∷ x) [] z first second = ground arith
after_trans (a ∷ x) (b ∷ y) [] first second = refl
after_trans (a ∷ x) (b ∷ y) (c ∷ z) first second = ground (arith, first, second, after_trans x y z)

-- A NodeId that is inserted keeps the order, and what comes after all of them does so still.
record Inserted (node : List ℕ) (es out : List (List ℕ)) : Type 0 where
  same_nodes : Perm out (node ∷ es)
  in_order : Descending out
  below :
      (x : List ℕ)
      → after x node ≡ true
      → All (λ y. after x y ≡ true) es
      → All (λ y. after x y ≡ true) out

insert-Inserted :
    (node : List ℕ) (es : List (List ℕ)) {out : List (List ℕ)}
    → Descending es
    → insert node es ≡ ok out
    → Inserted node es out
unfolding insert
insert-Inserted node [] {out} sorted e =
    subst (λ o. Inserted node [] o) {x = node ∷ []} (cc e)
      (record { same_nodes = Perm.rfl; in_order = (tt, tt); below = λ x h all. (h, tt) })
insert-Inserted node (entry ∷ es) {out} (above, sorted) e = elim (Bool-cases (after entry node)) [
  | inl up ↦
      let step : insert node (entry ∷ es) ≡ (insert node es >>= (λ more. ok (entry ∷ more))) =
        rw (up, insert) refl in
      let (more, inserted, whole) = >>=-ok (insert node es) _ (sym step ∙ e) in
      let v = insert-Inserted node es sorted inserted in
      subst (λ o. Inserted node (entry ∷ es) o) {x = entry ∷ more} (cc whole)
        (record {
          same_nodes = Perm.trans (Perm.cons entry v.same_nodes) (Perm.swap node entry es);
          in_order = (v.below entry up above, v.in_order);
          below = λ x h all. (all.0, v.below x h all.1);
        })
  | inr not_up ↦ elim (Bool-cases (after node entry)) [
    | inl down ↦
        let step : insert node (entry ∷ es) ≡ ok (node ∷ entry ∷ es) =
          rw (not_up, down, insert) refl in
        subst (λ o. Inserted node (entry ∷ es) o) {x = node ∷ entry ∷ es} (cc (sym step ∙ e))
          (record {
            same_nodes = Perm.rfl;
            in_order = (
              (down, All-mono es (λ y h. after_trans node entry y down h) above),
              (above, sorted),
            );
            below = λ x h all. (h, all);
          })
    | inr same ↦
        let step : insert node (entry ∷ es) ≡ err eexist = rw (not_up, same, insert) refl in
        ground (arith, sym step ∙ e)
  ]
]

insert_all-sorted :
    (sorted nodes : List (List ℕ)) {out : List (List ℕ)}
    → Descending sorted
    → insert_all sorted nodes ≡ ok out
    → Perm out (nodes ++ sorted) × Descending out
unfolding insert_all
insert_all-sorted sorted [] {out} order e =
    subst (λ o. Perm o sorted × Descending o) {x = sorted} (cc e) (Perm.rfl, order)
insert_all-sorted sorted (node ∷ nodes) order e =
    let (more, inserted, others) = >>=-ok (insert node sorted) _ e in
    let v = insert-Inserted node sorted order inserted in
    let (same, in_order) = insert_all-sorted more nodes v.in_order others in
    (
      Perm.trans same (Perm.trans (Perm.append_left nodes v.same_nodes) (perm_middle nodes sorted)),
      in_order,
    )

perm-backwards : (done xs : List (List ℕ)) → Perm (backwards done xs) (xs ++ done)
perm-backwards done [] = Perm.rfl
perm-backwards done (x ∷ xs) = Perm.trans (perm-backwards (x ∷ done) xs) (perm_middle xs done)

backwards-Ascending :
    (done xs : List (List ℕ))
    → Descending xs
    → Ascending done
    → All (λ y. All (λ x. after y x ≡ true) xs) done
    → Ascending (backwards done xs)
backwards-Ascending done [] order ready apart = ready
backwards-Ascending done (x ∷ xs) (above, order) ready apart =
    backwards-Ascending (x ∷ done) xs order (All-mono done (λ y h. h.0) apart, ready)
      (above, All-mono done (λ y h. h.1) apart)

-- A set that is resolved holds the NodeIds it was asked for, each once, in the order of their octets
-- and no two the same. Each has the locator of the first round that is neither reserved nor the locator
-- of an entry before it.
pub resolve_collision_set-Resolved :
    (domain : List ℕ) (nodes : List (List ℕ)) {entries : List Entry}
    → resolve_collision_set domain nodes ≡ ok entries
    → Perm (map Entry.node_id entries) nodes
      × Ascending (map Entry.node_id entries)
      × Resolved domain [] entries
unfolding resolve_collision_set
resolve_collision_set-Resolved domain nodes e =
    let (sized, rest) = reject-ok (length nodes == 0 || ltb set_limit (length nodes)) einval _ e in
    let (sorted, inserted, assigned) = >>=-ok (insert_all [] nodes) _ rest in
    let (same, resolved) = assign-Resolved domain [] (backwards [] sorted) assigned in
    let (perm, order) = insert_all-sorted [] nodes tt inserted in
    (
      subst (λ ns. Perm ns nodes) (sym same)
          (Perm.trans (perm-backwards [] sorted) (
            subst (λ ns. Perm ns nodes) (sym (append-nil sorted))
              (subst (λ ns. Perm sorted ns) (append-nil nodes) perm))),
      subst (λ ns. Ascending ns) (sym same) (backwards-Ascending [] sorted order tt tt),
      resolved,
    )
