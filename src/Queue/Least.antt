-- ===== src/Queue/Least.antt =====
-- The loops of the scheduler that look for the entry that no other one precedes.
use melodi.Queue.{Entry, no_entry}
use melodi.Queue.Scheduler.{Oldest, oldest, older, earlier, Turn, least_turn}
use melodi.Base.{
  ltb, ◌==◌, ltb→lt, Bool-cases, length, get_or, All, ℕ, suc, ◌+◌, ◌≤◌, ◌<◌, ◌≡◌, refl, sym, ap,
  ◌∙◌, subst, ◌⊎◌, inl, inr, Bool, true, false, ◌&&◌, ◌||◌, some, List, [], ◌∷◌, arith,
}

-- The first pair comes no later.
abbrev pub Before : (turn sequence turn' sequence' : ℕ) → Type 0
Before t s t' s' = (t < t') ⊎ (t ≡ t') × (s ≤ s')

module _ (ready : Entry → Bool) where
  older-cases :
      (i : ℕ) (best : Oldest) (e : Entry)
      → (older ready i best e ≡ best) × (ready e ≡ true → best.sequence ≤ e.sequence)
        ⊎ (ready e ≡ true)
          × (older ready i best e ≡ record { sequence = e.sequence; selected = some i })
          × (e.sequence < best.sequence)
  unfolding older
  older-cases i best e = elim (Bool-cases (ready e)) [
    | inr off ↦ inl (rw off refl, λ on. ground (arith, off, on))
    | inl on ↦ elim (Bool-cases (ltb e.sequence best.sequence)) [
      | inl lt ↦ inr (on, rw (on, lt) refl, ltb→lt e.sequence best.sequence lt)
      | inr ge ↦ inl (rw (on, ge) refl, λ _. ground (arith, ge))
    ]
  ]

  older-le : (i : ℕ) (best : Oldest) (e : Entry) → (older ready i best e).sequence ≤ best.sequence
  older-le i best e = elim (older-cases i best e) [
    | inl (same, _) ↦ omega (arith, ap (λ o. o.sequence) same)
    | inr (_, taken, lt) ↦ omega (arith, ap (λ o. o.sequence) taken)
  ]

  oldest-le :
      (i : ℕ) (best : Oldest) (es : List Entry) → (oldest ready i best es).sequence ≤ best.sequence
  unfolding oldest
  oldest-le i best [] = omega arith
  oldest-le i best (e ∷ es) =
      omega (arith, oldest-le (i + 1) (older ready i best e) es, older-le i best e)

  -- No ready frame is older than the result.
  pub oldest-least :
      (i : ℕ) (best : Oldest) (es : List Entry)
      → All (λ e. ready e ≡ true → (oldest ready i best es).sequence ≤ e.sequence) es
  unfolding oldest
  oldest-least i best [] = tt
  oldest-least i best (e ∷ es) = (
    λ on. elim (older-cases i best e) [
      | inl (same, least) ↦
          omega (
            arith,
            oldest-le (i + 1) (older ready i best e) es,
            ap (λ o. o.sequence) same,
            least on,
          )
      | inr (_, taken, lt) ↦
          omega (arith, oldest-le (i + 1) (older ready i best e) es, ap (λ o. o.sequence) taken)
    ],
    oldest-least (i + 1) (older ready i best e) es,
  )

  -- Either nothing was taken, or the entry at some place was.
  pub oldest-found :
      (i : ℕ) (best : Oldest) (es : List Entry)
      → (oldest ready i best es ≡ best)
        ⊎ ((p : ℕ) × (p < length es)
            × (ready (get_or es p no_entry) ≡ true)
            × (oldest ready i best es
                ≡ record { sequence = (get_or es p no_entry).sequence; selected = some (i + p) }))
  unfolding oldest
  oldest-found i best [] = inl refl
  oldest-found i best (e ∷ es) = elim (oldest-found (i + 1) (older ready i best e) es) [
    | inr (p, lt, on, result) ↦ inr (
      suc p,
      omega arith,
      on,
      result
          ∙ ap (λ k. record { sequence = (get_or es p no_entry).sequence; selected = some k })
              (omega arith),
    )
    | inl nothing ↦ elim (older-cases i best e) [
      | inl (same, _) ↦ inl (nothing ∙ same)
      | inr (on, taken, _) ↦ inr (
        0,
        omega arith,
        on,
        nothing
            ∙ taken
            ∙ ap (λ k. record { sequence = e.sequence; selected = some k }) (omega arith),
      )
    ]
  ]

Before-trans :
    {t s t' s' t'' s'' : ℕ} → Before t s t' s' → Before t' s' t'' s'' → Before t s t'' s''
Before-trans (inl a) (inl b) = inl (omega arith)
Before-trans (inl a) (inr (b, _)) = inl (omega arith)
Before-trans (inr (a, _)) (inl b) = inl (omega arith)
Before-trans (inr (a, c)) (inr (b, d)) = inr (omega arith, omega arith)

Before-of_eq : {t s t' s' : ℕ} → t ≡ t' → s ≡ s' → Before t s t' s'
Before-of_eq a b = inr (a, omega arith)

Before-of_not : (t s t' s' : ℕ) → (ltb t' t || (t' == t && ltb s' s)) ≡ false → Before t s t' s'
Before-of_not t s t' s' h = elim (Bool-cases (t' == t)) [
  | inl same ↦ inr (ground (arith, same), ground (arith, same, h))
  | inr apart ↦ inl (ground (arith, apart, h))
]

Before-of_test : (t s t' s' : ℕ) → (ltb t t' || (t == t' && ltb s s')) ≡ true → Before t s t' s'
Before-of_test t s t' s' h = elim (Bool-cases (ltb t t')) [
  | inl lt ↦ inl (ltb→lt t t' lt)
  | inr ge ↦ inr (ground (arith, ge, h), ground (arith, ge, h))
]

module _ (ready : Entry → Bool) (turn mine : Entry → ℕ) where
  abbrev pub turn_of : Entry → Turn
  turn_of e = record { turn = turn e; sequence = e.sequence; selected = some (mine e) }

  earlier-cases :
      (best : Turn) (e : Entry)
      → (earlier ready turn mine best e ≡ best)
          × (ready e ≡ true → Before best.turn best.sequence (turn e) e.sequence)
        ⊎ (ready e ≡ true)
          × (earlier ready turn mine best e ≡ turn_of e)
          × Before (turn e) e.sequence best.turn best.sequence
  unfolding earlier
  earlier-cases best e = elim (Bool-cases (ready e)) [
    | inr off ↦ inl (rw off refl, λ on. absurd (ground (arith, off, on)))
    | inl on ↦
        elim (Bool-cases
          (ltb (turn e) best.turn || (turn e == best.turn && ltb e.sequence best.sequence))) [
            | inl lt ↦ inr (
              on,
              rw (on, lt) refl,
              Before-of_test (turn e) e.sequence best.turn best.sequence lt,
            )
            | inr ge ↦ inl (
              rw (on, ge) refl,
              λ _. Before-of_not best.turn best.sequence (turn e) e.sequence ge,
            )
          ]
  ]

  Before-result :
      {r r' : Turn} {t s : ℕ}
      → r ≡ r'
      → Before r'.turn r'.sequence t s
      → Before r.turn r.sequence t s
  Before-result {r} {r'} {t} {s} e h = subst (λ o. Before o.turn o.sequence t s) (sym e) h

  least_turn-Before :
      (best : Turn) (es : List Entry)
      → let r = least_turn ready turn mine best es in
        Before r.turn r.sequence best.turn best.sequence
  unfolding least_turn
  least_turn-Before best [] = Before-of_eq refl refl
  least_turn-Before best (e ∷ es) =
      Before-trans (least_turn-Before (earlier ready turn mine best e) es)
        (elim (earlier-cases best e) [
          | inl (same, _) ↦ Before-result same (Before-of_eq refl refl)
          | inr (_, taken, lt) ↦ Before-result taken lt
        ])

  -- No ready frame has an earlier turn than the result.
  pub least_turn-least :
      (best : Turn) (es : List Entry)
      → let r = least_turn ready turn mine best es in
        All (λ e. ready e ≡ true → Before r.turn r.sequence (turn e) e.sequence) es
  unfolding least_turn
  least_turn-least best [] = tt
  least_turn-least best (e ∷ es) = (
    λ on.
        Before-trans (least_turn-Before (earlier ready turn mine best e) es)
          (elim (earlier-cases best e) [
            | inl (same, least) ↦ Before-result same (least on)
            | inr (_, taken, _) ↦ Before-result taken (Before-of_eq refl refl)
          ]),
    least_turn-least (earlier ready turn mine best e) es,
  )

  -- Either nothing was taken, or the entry at some place was.
  pub least_turn-found :
      (best : Turn) (es : List Entry)
      → (least_turn ready turn mine best es ≡ best)
        ⊎ ((p : ℕ) × (p < length es)
            × (ready (get_or es p no_entry) ≡ true)
            × (least_turn ready turn mine best es ≡ turn_of (get_or es p no_entry)))
  unfolding least_turn
  least_turn-found best [] = inl refl
  least_turn-found best (e ∷ es) = elim (least_turn-found (earlier ready turn mine best e) es) [
    | inr (p, lt, on, result) ↦ inr (suc p, omega arith, on, result)
    | inl nothing ↦ elim (earlier-cases best e) [
      | inl (same, _) ↦ inl (nothing ∙ same)
      | inr (on, taken, _) ↦ inr (0, omega arith, on, nothing ∙ taken)
    ]
  ]
