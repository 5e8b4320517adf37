-- ===== src/Dispatcher/Holds/Ranked.antt =====
-- RankHolds lists each reason that holds a run once counted, the greatest count first.
use forge_wingman.Prelude.{
  ℕ, ◌≤◌, ◌<◌, ◌≡◌, ◌⊎◌, ◌↔◌, inl, inr, refl, sym, ap, arith, ltb, ltb→lt, Bool-cases, List, [],
  ◌∷◌, In, All,
}
use mathlib.Core.Path.{subst}
use forge_wingman.Dispatcher.Holds.{
  Hold, concurrency, repo_busy, review_wip, large_cap, blocked, budget, job_limit, breaker, paused,
  peak_hours, provider_down, no_estimate, private_opt_in, hold_reasons, HeldCount, counted_holds,
  rank_into, sort_holds, rank_holds,
}

-- No count is above one ahead of it.
unfoldable pub Descending : List HeldCount → Type 0
Descending [] = Unit
Descending (h ∷ hs) = All (λ (g : HeldCount). g.count ≤ h.count) hs × Descending hs

-- What a listed reason is.
abbrev pub IsCounted : (Hold → ℕ) → HeldCount → Type 0
IsCounted counts h = (h.count ≡ counts h.reason) × (0 < h.count)

All-rank_into :
    (P : HeldCount → Type 0) (h : HeldCount) (hs : List HeldCount)
    → P h
    → All P hs
    → All P (rank_into h hs)
unfolding rank_into
All-rank_into P h [] p ps = (p, tt)
All-rank_into P h (g ∷ gs) p (q, qs) = elim (Bool-cases (ltb h.count g.count)) [
  | inl less ↦ rw (less, rank_into) (q, All-rank_into P h gs p qs)
  | inr rest ↦ rw (rest, rank_into) (p, (q, qs))
]

below-All :
    (m n : ℕ) (hs : List HeldCount)
    → m ≤ n
    → All (λ (g : HeldCount). g.count ≤ m) hs
    → All (λ (g : HeldCount). g.count ≤ n) hs
below-All m n [] l a = tt
below-All m n (g ∷ gs) l (b, a) = (omega (arith, l, b), below-All m n gs l a)

rank_into-Descending :
    (h : HeldCount) (hs : List HeldCount) → Descending hs → Descending (rank_into h hs)
unfolding rank_into Descending
rank_into-Descending h [] d = (tt, tt)
rank_into-Descending h (g ∷ gs) (a, d) = elim (Bool-cases (ltb h.count g.count)) [
  | inl less ↦
      let lt : h.count < g.count = ltb→lt _ _ less in
      rw (less, rank_into)
        (
          All-rank_into (λ (k : HeldCount). k.count ≤ g.count) h gs (omega (arith, lt)) a,
          rank_into-Descending h gs d,
        )
  | inr rest ↦
      let le : g.count ≤ h.count = ground arith in
      rw (rest, rank_into) ((le, below-All g.count h.count gs le a), (a, d))
]

sort_holds-Descending : (hs : List HeldCount) → Descending (sort_holds hs)
unfolding sort_holds Descending
sort_holds-Descending [] = tt
sort_holds-Descending (h ∷ hs) = rank_into-Descending h (sort_holds hs) (sort_holds-Descending hs)

All-sort_holds : (P : HeldCount → Type 0) (hs : List HeldCount) → All P hs → All P (sort_holds hs)
unfolding sort_holds
All-sort_holds P [] a = tt
All-sort_holds P (h ∷ hs) (p, a) = All-rank_into P h (sort_holds hs) p (All-sort_holds P hs a)

In-rank_into : (g h : HeldCount) (hs : List HeldCount) → (g ≡ h) ⊎ In g hs → In g (rank_into h hs)
unfolding rank_into
In-rank_into g h [] m = m
In-rank_into g h (k ∷ ks) m = elim (Bool-cases (ltb h.count k.count)) [
  | inl less ↦
      rw (less, rank_into)
        (elim m [
          | inl e ↦ inr (In-rank_into g h ks (inl e))
          | inr (inl e) ↦ inl e
          | inr (inr n) ↦ inr (In-rank_into g h ks (inr n))
        ])
  | inr rest ↦ rw (rest, rank_into) m
]

In-sort_holds : (g : HeldCount) (hs : List HeldCount) → In g hs → In g (sort_holds hs)
unfolding sort_holds
In-sort_holds g [] m = m
In-sort_holds g (h ∷ hs) m =
    In-rank_into g h (sort_holds hs) (elim m [ inl e ↦ inl e | inr n ↦ inr (In-sort_holds g hs n) ])

counted_holds-IsCounted :
    (counts : Hold → ℕ) (rs : List Hold) → All (IsCounted counts) (counted_holds counts rs)
unfolding counted_holds
counted_holds-IsCounted counts [] = tt
counted_holds-IsCounted counts (r ∷ rs) = elim (Bool-cases (ltb 0 (counts r))) [
  | inl some_held ↦
      rw (some_held, counted_holds)
        ((refl, ltb→lt _ _ some_held), counted_holds-IsCounted counts rs)
  | inr none_held ↦ rw (none_held, counted_holds) (counted_holds-IsCounted counts rs)
]

counted_holds_complete :
    (counts : Hold → ℕ) (r : Hold) (rs : List Hold)
    → In r rs
    → 0 < counts r
    → In (record { reason = r; count = counts r }) (counted_holds counts rs)
unfolding counted_holds
counted_holds_complete counts r [] m pos = absurd m
counted_holds_complete counts r (q ∷ rs) m pos = elim (Bool-cases (ltb 0 (counts q))) [
  | inl some_held ↦
      rw (some_held, counted_holds)
        (elim m [
          | inl e ↦ inl (ap (λ (h : Hold). record { reason = h; count = counts h }) e)
          | inr n ↦ inr (counted_holds_complete counts r rs n pos)
        ])
  | inr none_held ↦
      rw (none_held, counted_holds)
        (elim m [
          | inl e ↦ let same : counts r ≡ counts q = ap counts e in absurd (ground arith)
          | inr n ↦ counted_holds_complete counts r rs n pos
        ])
]

In-hold_reasons : (r : Hold) → In r hold_reasons
unfolding hold_reasons
In-hold_reasons concurrency = inl refl
In-hold_reasons repo_busy = inr (inl refl)
In-hold_reasons review_wip = inr (inr (inl refl))
In-hold_reasons large_cap = inr (inr (inr (inl refl)))
In-hold_reasons blocked = inr (inr (inr (inr (inl refl))))
In-hold_reasons budget = inr (inr (inr (inr (inr (inl refl)))))
In-hold_reasons job_limit = inr (inr (inr (inr (inr (inr (inl refl))))))
In-hold_reasons breaker = inr (inr (inr (inr (inr (inr (inr (inl refl)))))))
In-hold_reasons paused = inr (inr (inr (inr (inr (inr (inr (inr (inl refl))))))))
In-hold_reasons peak_hours = inr (inr (inr (inr (inr (inr (inr (inr (inr (inl refl)))))))))
In-hold_reasons provider_down = inr (inr (inr (inr (inr (inr (inr (inr (inr (inr (inl refl))))))))))
In-hold_reasons no_estimate =
    inr (inr (inr (inr (inr (inr (inr (inr (inr (inr (inr (inl refl)))))))))))
In-hold_reasons private_opt_in =
    inr (inr (inr (inr (inr (inr (inr (inr (inr (inr (inr (inr (inl refl))))))))))))

In-All : (P : HeldCount → Type 0) (h : HeldCount) (hs : List HeldCount) → All P hs → In h hs → P h
In-All P h [] a m = absurd m
In-All P h (g ∷ gs) (p, a) m = elim m [ inl e ↦ subst P (sym e) p | inr n ↦ In-All P h gs a n ]

-- The ranking of the holds has the greatest count first, and an entry is in it exactly when its count is
-- what was counted for its reason and is not zero.
pub rank_holds-Descending :
    (counts : Hold → ℕ)
    → Descending (rank_holds counts)
      × ((h : HeldCount) → In h (rank_holds counts) ↔ IsCounted counts h)
unfolding rank_holds
rank_holds-Descending counts = (
  sort_holds-Descending (counted_holds counts hold_reasons),
  λ h. (
    In-All (IsCounted counts) h (rank_holds counts) (
        All-sort_holds (IsCounted counts) (counted_holds counts hold_reasons)
          (counted_holds-IsCounted counts hold_reasons)),
    λ (same, pos).
        subst (λ (n : ℕ). In (record { reason = h.reason; count = n }) (rank_holds counts))
          (sym same)
          (In-sort_holds _ (counted_holds counts hold_reasons) (
            counted_holds_complete counts h.reason hold_reasons (In-hold_reasons h.reason)
              (subst (λ (n : ℕ). 0 < n) same pos))),
  ),
)
