-- ===== src/Indexer/Fetch/Answers.antt =====
-- A batch whose node answers at every height of its window fetches the whole window, in whatever
-- order the goroutines' messages arrive.
use mathlib.Core.List.{Permᴰ}
use mathlib.Core.Path.{subst}
use cvms.Base.{
  inl, inr, ◌⊎◌, ◌==◌, Bool-cases, ℕ, zero, suc, ◌+◌, ◌-◌, ◌≤◌, ◌<◌, ◌≡◌, refl, sym, ap, ◌∙◌,
  String, List, [], ◌∷◌, map, arith, ok, Map, put, values, lookup-put_self, nat_eq, All, concat_map,
  range_from,
}
use cvms.Indexer.Types.{BlockSummary}
use cvms.Indexer.Fetch.{
  Node, FetchResult, success, failure, collect, collected, fetch_block, fetch_previous, Schedule,
  fetch_summaries,
}
use cvms.Indexer.Fetch.Honest.{Chain, summary_of, Delivers, Has, All-perm, collect-Has}

-- The node answers with the chain's block and validators at this height.
pub record Answers (chain : Chain) (node : Node) (h : ℕ) : Type 0 where
  pub answers_block : node.get_block h ≡ ok (chain.block h)
  pub answers_validators : node.get_validators h ≡ ok (chain.validators h)

abbrev pub In : {A : Type 0} → A → List A → Type 0
In x [] = ⊥
In x (y ∷ l) = (x ≡ y) ⊎ In x l

pub In-perm : {A : Type 0} (x : A) {l l' : List A} → Permᴰ l l' → In x l' → In x l
In-perm x Permᴰ.nil i = i
In-perm x (Permᴰ.cons e d) (inl p) = inl (p ∙ sym e)
In-perm x (Permᴰ.cons e d) (inr i) = inr (In-perm x d i)
In-perm x (Permᴰ.swap e e') (inl p) = inr (inl (p ∙ sym e'))
In-perm x (Permᴰ.swap e e') (inr (inl p)) = inl (p ∙ sym e)
In-perm x (Permᴰ.swap e e') (inr (inr i)) = inr (inr i)
In-perm x (Permᴰ.trans d d') i = In-perm x d (In-perm x d' i)

In-map : {A B : Type 0} (f : A → B) (x : A) (l : List A) → In x l → In (f x) (map f l)
In-map f x [] i = absurd i
In-map f x (y ∷ l) (inl p) = inl (ap f p)
In-map f x (y ∷ l) (inr i) = inr (In-map f x l i)

pub In-range_from : (h start n : ℕ) → start ≤ h → h < start + n → In h (range_from start n)
In-range_from h start zero p q = absurd (nothing h start p q)
  where
    nothing : (h start : ℕ) → start ≤ h → h < start + 0 → ⊥
    nothing h start p q = omega (arith, p, q)
In-range_from h start (suc n) p q = elim (Bool-cases (start == h)) [
  | inl same ↦ inl (ground (arith, nat_eq.test_iff start h))
  | inr other ↦
      inr
        (In-range_from h (start + 1) n (ground (arith, nat_eq.test_iff start h)) (omega (arith, q)))
]

pub All-range_from {κ} :
    (P : ℕ → Type κ) (start n : ℕ)
    → ((h : ℕ) → start ≤ h → h < start + n → P h)
    → All P (range_from start n)
All-range_from P start zero f = tt
All-range_from P start (suc n) f = (
  f start (omega arith) (omega arith),
  All-range_from P (start + 1) n (λ h p q. f h (omega (arith, p)) (omega (arith, q))),
)

-- The collecting loop over messages that are all successes.
abbrev AllSuccess : {Item : Type 0} → (Item → Type 0) → FetchResult Item → Type 0
AllSuccess P (success item) = P item
AllSuccess P failure = ⊥

module _ {Item : Type 0} (height_of : Item → ℕ) where
  no_errors :
      (P : Item → Type 0) (l : List (FetchResult Item)) (m : Map ℕ Item) (n : ℕ)
      → All (AllSuccess P) l
      → (collect height_of l (m, n)).1 ≡ n
  unfolding collect
  no_errors P [] m n h = refl
  no_errors P (success item ∷ l) m n (p, h) = no_errors P l (put (height_of item) item m) n h
  no_errors P (failure ∷ l) m n (p, h) = absurd p

  no_errors_collected :
      (P : Item → Type 0) (m : Map ℕ Item) (l : List (FetchResult Item)) (text : String)
      → All (AllSuccess P) l
      → collected height_of m l text ≡ ok (collect height_of l (m, 0)).0
  unfolding collected
  no_errors_collected P m l text h = rw (no_errors P l m 0 h)

  collect_finds :
      (item : Item) (l : List (FetchResult Item)) (m : Map ℕ Item) (n : ℕ)
      → In (success item) l
      → Has (height_of item) (collect height_of l (m, n)).0
  unfolding collect
  collect_finds item [] m n i = absurd i
  collect_finds item (success b ∷ l) m n (inl p) =
      let same : height_of item ≡ height_of b = cc in
      subst (λ h. Has h (collect height_of l (put (height_of b) b m, n)).0) (sym same)
        (collect-Has height_of (height_of b) l (put (height_of b) b m) n
          (b, lookup-put_self (height_of b) b m))
  collect_finds item (success b ∷ l) m n (inr i) = collect_finds item l (put (height_of b) b m) n i
  collect_finds item (failure ∷ l) m n (inl p) = cc
  collect_finds item (failure ∷ l) m n (inr i) = collect_finds item l m (n + 1) i

  All-values-put :
      (P : Item → Type 0) (k : ℕ) (v : Item) (m : Map ℕ Item)
      → P v
      → All P (values m)
      → All P (values (put k v m))
  unfolding put
  All-values-put P k v [] p h = (p, tt)
  All-values-put P k v ((j, w) ∷ m) p (q, h) = elim (Bool-cases (j == k)) [
    | inl same ↦ rw same (p, h)
    | inr other ↦ rw other (q, All-values-put P k v m p h)
  ]

  All-values-collect :
      (P : Item → Type 0) (l : List (FetchResult Item)) (m : Map ℕ Item) (n : ℕ)
      → All (AllSuccess P) l
      → All P (values m)
      → All P (values (collect height_of l (m, n)).0)
  unfolding collect
  All-values-collect P [] m n h k = k
  All-values-collect P (success item ∷ l) m n (p, h) k =
      All-values-collect P l (put (height_of item) item m) n h
        (All-values-put P (height_of item) item m p k)
  All-values-collect P (failure ∷ l) m n (p, h) k = absurd p

module _ (chain : Chain) (node : Node) where
  fetch_block-Answers :
      (h : ℕ) → Answers chain node h → fetch_block node h ≡ success (summary_of chain h) ∷ []
  unfolding fetch_block
  fetch_block-Answers h a = rw (a.answers_block, a.answers_validators)

  fetch_previous-Answers :
      (h : ℕ) → Answers chain node h → fetch_previous node h ≡ ok (summary_of chain h)
  unfolding fetch_previous
  fetch_previous-Answers h a = rw (a.answers_block, a.answers_validators)

  messages_answered :
      (hs : List ℕ)
      → All (Answers chain node) hs
      → concat_map (fetch_block node) hs ≡ map (λ h. success (summary_of chain h)) hs
  messages_answered [] a = refl
  messages_answered (h ∷ hs) (a, more) = rw (fetch_block-Answers h a, messages_answered hs more)

All-successes :
    (P : BlockSummary → Type 0) (chain : Chain) (hs : List ℕ)
    → All (λ h. P (summary_of chain h)) hs
    → All (AllSuccess P) (map (λ h. success (summary_of chain h)) hs)
All-successes P chain [] p = tt
All-successes P chain (h ∷ hs) (p, ps) = (p, All-successes P chain hs ps)

-- Every height of the window is found, be it the previous block's or a goroutine's.
window_found :
    (chain : Chain) (h k : ℕ) (l : List (FetchResult BlockSummary)) (m : Map ℕ BlockSummary)
    → Permᴰ l (map (λ j. success (summary_of chain j)) (range_from (suc (suc h)) (suc k)))
    → Has (suc h) m
    → (j : ℕ) → suc h ≤ j
    → j ≤ suc h + suc k
    → Has j (collect (λ b. b.block_height) l (m, 0)).0
window_found chain h k l m perm has j lo hi = elim (Bool-cases (suc h == j)) [
  | inl same ↦
      subst (λ i. Has i (collect (λ b. b.block_height) l (m, 0)).0)
        ((nat_eq.test_iff (suc h) j).0 same) (collect-Has (λ b. b.block_height) (suc h) l m 0 has)
  | inr other ↦
      subst (λ i. Has i (collect (λ b. b.block_height) l (m, 0)).0) (chain.block_height j)
        (collect_finds (λ b. b.block_height) (summary_of chain j) l m 0
          (In-perm _ perm (
            In-map (λ i. success (summary_of chain i)) j (range_from (suc (suc h)) (suc k))
              (In-range_from j (suc (suc h)) (suc k) (ground (arith, nat_eq.test_iff (suc h) j))
                (omega (arith, hi))))))
]

-- If the node answers from height `h + 1` up to `h + k + 2`, the batch behind height `h + 1` has
-- all of these in its map, and nothing else than what holds of their summaries.
pub fetch_summaries_answered :
    (P : BlockSummary → Type 0) (chain : Chain) (node : Node) (arrive : Schedule BlockSummary)
    (h k : ℕ)
    → Delivers arrive
    → ((j : ℕ) → suc h ≤ j → j ≤ suc h + suc k → Answers chain node j × P (summary_of chain j))
    → (m : Map ℕ BlockSummary) × (fetch_summaries node arrive (suc (suc h)) (suc h + suc k) ≡ ok m)
      × ((j : ℕ) → suc h ≤ j → j ≤ suc h + suc k → Has j m)
      × All P (values m)
unfolding fetch_summaries
fetch_summaries_answered P chain node arrive h k delivers good =
    let hs = range_from (suc (suc h)) (suc k) in
    let many : suc (suc h + suc k) - suc (suc h) ≡ suc k = omega arith in
    let one : suc (suc h) - 1 ≡ suc h = omega arith in
    let (first, p) = good (suc h) (omega arith) (omega arith) in
    let msgs = map (λ j. success (summary_of chain j)) hs in
    let m0 = put (suc h) (summary_of chain (suc h)) [] in
    let all = All-perm (AllSuccess P) (delivers msgs) (
      All-successes P chain hs (
        All-range_from _ (suc (suc h)) (suc k)
          (λ j lo hi. (good j (omega (arith, lo)) (omega (arith, hi))).1))) in
    let answered = messages_answered chain node hs (
      All-range_from _ (suc (suc h)) (suc k)
        (λ j lo hi. (good j (omega (arith, lo)) (omega (arith, hi))).0)) in
    (
      (collect (λ (b : BlockSummary). b.block_height) (arrive msgs) (m0, 0)).0,
      rw (one, many, fetch_previous-Answers chain node (suc h) first, answered)
          (no_errors_collected (λ b. b.block_height) P m0 (arrive msgs) _ all),
      window_found chain h k (arrive msgs) m0 (delivers msgs)
          (summary_of chain (suc h), lookup-put_self (suc h) (summary_of chain (suc h)) []),
      All-values-collect (λ b. b.block_height) P (arrive msgs) m0 0 all
          (All-values-put (λ b. b.block_height) P (suc h) (summary_of chain (suc h)) [] p tt),
    )
