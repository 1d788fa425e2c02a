-- ===== src/Indexer/Fetch/Honest.antt =====
-- What a batch has fetched from a node that answers for one chain, whatever fails and in whatever
-- order the goroutines' messages arrive.
use mathlib.Core.List.{Permᴰ}
use mathlib.Core.Path.{subst, ap₂}
use cvms.Base.{
  bind-eq-ok, inl, inr, ◌==◌, Bool-cases, ℕ, suc, ◌+◌, ◌-◌, ◌≡◌, refl, sym, ap, ◌∙◌, String, some,
  List, [], ◌∷◌, ◌++◌, arith, Result, ok, err, panic, wrap, bind, Map, put, lookup, lookup-put,
  lookup-nil, lookup-put_self, nat_eq, All, concat_map, length,
}
use cvms.Indexer.Types.{CosmosValidator, BlockSummary}
use cvms.Indexer.Fetch.{
  Block, Node, to_summary, FetchResult, success, failure, sent, collect, collected, fetch_block,
  fetch_previous, Schedule, heights, fetch_summaries,
}

-- A chain: its blocks and validator sets by height.
pub record Chain : Type 0 where
  pub block : ℕ → Block
  pub validators : ℕ → List CosmosValidator
  -- the block at a height carries that height, and the commit of the one before
  pub block_height : (h : ℕ) → (block h).height ≡ h
  pub last_commit : (h : ℕ) → (block (suc h)).last_commit_height ≡ h

abbrev pub summary_of : Chain → ℕ → BlockSummary
summary_of chain h = to_summary (chain.block h) (chain.validators h)

-- The node may fail, but what it answers is the chain's.
pub record IsHonest (chain : Chain) (node : Node) : Type 0 where
  pub honest_block : (h : ℕ) (b : Block) → node.get_block h ≡ ok b → b ≡ chain.block h
  pub honest_validators :
      (h : ℕ) (v : List CosmosValidator) → node.get_validators h ≡ ok v → v ≡ chain.validators h

-- The channel delivers each message once.
abbrev pub Delivers {ℓ} : {Item : Type ℓ} → Schedule Item → Type ℓ
Delivers {Item = Item} arrive = (l : List (FetchResult Item)) → Permᴰ (arrive l) l

-- Every entry is the chain's block at the height of its key.
abbrev pub FromChain : Chain → Map ℕ BlockSummary → Type 0
FromChain chain m = (h : ℕ) (b : BlockSummary) → lookup h m ≡ some b → b ≡ summary_of chain h

abbrev MessageFromChain : Chain → FetchResult BlockSummary → Type 0
MessageFromChain chain (success b) = b ≡ summary_of chain b.block_height
MessageFromChain chain failure = Unit

pub All-perm {ℓ κ} :
    {A : Type ℓ} (P : A → Type κ) {xs ys : List A} → Permᴰ xs ys → All P ys → All P xs
All-perm P Permᴰ.nil h = h
All-perm P (Permᴰ.cons e d) (p, h) = (subst P (sym e) p, All-perm P d h)
All-perm P (Permᴰ.swap e e') (p, (q, h)) = (subst P (sym e) q, (subst P (sym e') p, h))
All-perm P (Permᴰ.trans d d') h = All-perm P d (All-perm P d' h)

pub length-perm {ℓ} : {A : Type ℓ} {l m : List A} → Permᴰ l m → length l ≡ length m
length-perm Permᴰ.nil = refl
length-perm (Permᴰ.cons e d) = ap suc (length-perm d)
length-perm (Permᴰ.swap e e') = refl
length-perm (Permᴰ.trans d d') = length-perm d ∙ length-perm d'

All-append {ℓ κ} :
    {A : Type ℓ} (P : A → Type κ) (xs ys : List A) → All P xs → All P ys → All P (xs ++ ys)
All-append P [] ys h k = k
All-append P (x ∷ xs) ys (p, h) k = (p, All-append P xs ys h k)

All-concat_map {ℓ κ ι} :
    {A : Type ℓ} {B : Type κ} (P : B → Type ι) (f : A → List B) (xs : List A)
    → ((x : A) → All P (f x))
    → All P (concat_map f xs)
All-concat_map P f [] h = tt
All-concat_map P f (x ∷ xs) h = All-append P (f x) (concat_map f xs) (h x) (All-concat_map P f xs h)

-- the two calls of the node for one height, with or without messages round their errors
two_calls :
    (t u : String) (rb : Result Block) (rv : Result (List CosmosValidator)) (s : BlockSummary)
    → (bind (wrap t rb) λ b. bind (wrap u rv) λ v. ok (to_summary b v)) ≡ ok s
    → (b : Block) × (v : List CosmosValidator) × (rb ≡ ok b) × (rv ≡ ok v) × (to_summary b v ≡ s)
two_calls t u (ok b) (ok v) s h = (b, v, refl, refl, cc)
two_calls t u (ok b) (err e) s h = cc
two_calls t u (ok b) panic s h = cc
two_calls t u (err e) rv s h = cc
two_calls t u panic rv s h = cc

two_plain_calls :
    (rb : Result Block) (rv : Result (List CosmosValidator)) (s : BlockSummary)
    → (bind rb λ b. bind rv λ v. ok (to_summary b v)) ≡ ok s
    → (b : Block) × (v : List CosmosValidator) × (rb ≡ ok b) × (rv ≡ ok v) × (to_summary b v ≡ s)
two_plain_calls (ok b) (ok v) s h = (b, v, refl, refl, cc)
two_plain_calls (ok b) (err e) s h = cc
two_plain_calls (ok b) panic s h = cc
two_plain_calls (err e) rv s h = cc
two_plain_calls panic rv s h = cc

All-sent {ℓ κ} :
    {Item : Type ℓ} (P : FetchResult Item → Type κ) (r : Result Item)
    → ((item : Item) → r ≡ ok item → P (success item))
    → P failure
    → All P (sent r)
All-sent P (ok item) h k = (h item refl, tt)
All-sent P (err e) h k = (k, tt)
All-sent P panic h k = tt

module _ (chain : Chain) (node : Node) (honest : IsHonest chain node) where
  answers :
      (h : ℕ) (b : Block) (v : List CosmosValidator) {s : BlockSummary}
      → node.get_block h ≡ ok b
      → node.get_validators h ≡ ok v
      → to_summary b v ≡ s
      → s ≡ summary_of chain h
  answers h b v p q e =
      sym e ∙ ap₂ to_summary (honest.honest_block h b p) (honest.honest_validators h v q)

  pub fetch_previous_honest :
      (h : ℕ) (s : BlockSummary) → fetch_previous node h ≡ ok s → s ≡ summary_of chain h
  unfolding fetch_previous
  fetch_previous_honest h s e =
      let (b, v, p, q, r) = two_calls _ _ (node.get_block h) (node.get_validators h) s e in
      answers h b v p q r

  fetch_block_honest : (h : ℕ) → All (MessageFromChain chain) (fetch_block node h)
  unfolding fetch_block
  fetch_block_honest h =
      All-sent (MessageFromChain chain)
        (bind (node.get_block h) λ b. bind (node.get_validators h) λ v. ok (to_summary b v))
        (λ s e.
          let (b, v, p, q, r) = two_plain_calls (node.get_block h) (node.get_validators h) s e in
          let here = answers h b v p q r in
          here
          ∙ ap (summary_of chain)
              (sym (ap (λ (x : BlockSummary). x.block_height) here ∙ chain.block_height h)))
        tt

  put-FromChain :
      (m : Map ℕ BlockSummary) (h : ℕ) (b : BlockSummary)
      → FromChain chain m
      → b ≡ summary_of chain h
      → FromChain chain (put h b m)
  put-FromChain m h b sound e j c found = ground (arith, lookup-put h j b m, sound j c)

  collect_honest :
      (l : List (FetchResult BlockSummary)) (m : Map ℕ BlockSummary) (n : ℕ)
      → FromChain chain m
      → All (MessageFromChain chain) l
      → FromChain chain (collect (λ b. b.block_height) l (m, n)).0
  unfolding collect
  collect_honest [] m n sound h = sound
  collect_honest (success b ∷ l) m n sound (e, h) =
      collect_honest l (put b.block_height b m) n (put-FromChain m b.block_height b sound e) h
  collect_honest (failure ∷ l) m n sound (e, h) = collect_honest l m (n + 1) sound h

-- What is in a map stays there.
abbrev pub Has {ℓ} : {V : Type ℓ} → ℕ → Map ℕ V → Type ℓ
Has {V = V} h m = (v : V) × (lookup h m ≡ some v)

module _ {ℓ} {Item : Type ℓ} (height_of : Item → ℕ) where
  pub put-Has : (h j : ℕ) (v : Item) (m : Map ℕ Item) → Has h m → Has h (put j v m)
  put-Has h j v m (w, e) = elim (Bool-cases (j == h)) [
    | inl same ↦ (v, lookup-put j h v m ∙ rw same)
    | inr other ↦ (w, lookup-put j h v m ∙ rw other e)
  ]

  pub collect-Has :
      (h : ℕ) (l : List (FetchResult Item)) (m : Map ℕ Item) (n : ℕ)
      → Has h m
      → Has h (collect height_of l (m, n)).0
  unfolding collect
  collect-Has h [] m n has = has
  collect-Has h (success b ∷ l) m n has =
      collect-Has h l (put (height_of b) b m) n (put-Has h (height_of b) b m has)
  collect-Has h (failure ∷ l) m n has = collect-Has h l m (n + 1) has

  collected-eq-ok :
      (m : Map ℕ Item) (l : List (FetchResult Item)) (text : String) (m' : Map ℕ Item)
      → collected height_of m l text ≡ ok m'
      → (collect height_of l (m, 0)).0 ≡ m'
  unfolding collected
  collected-eq-ok m l text m' e = ground arith

-- What a successful fetch leaves: the chain's blocks, the previous one among them.
pub fetch_summaries_honest :
    (chain : Chain) (node : Node) (arrive : Schedule BlockSummary) (start end : ℕ)
    (m : Map ℕ BlockSummary)
    → IsHonest chain node
    → Delivers arrive
    → fetch_summaries node arrive start end ≡ ok m
    → FromChain chain m × Has (start - 1) m
unfolding fetch_summaries
fetch_summaries_honest chain node arrive start end m honest delivers e =
    let messages = concat_map (fetch_block node) (heights start end) in
    let (p, got, rest) = bind-eq-ok (fetch_previous node (start - 1)) _ e in
    let same =
      collected-eq-ok (λ b. b.block_height) (put (start - 1) p []) (arrive messages) _ m rest in
    let first = fetch_previous_honest chain node honest (start - 1) p got in
    let all =
      All-concat_map (MessageFromChain chain) (fetch_block node) (heights start end)
        (fetch_block_honest chain node honest) in
    subst (λ m'. FromChain chain m' × Has (start - 1) m') same
      (
        collect_honest chain node honest (arrive messages) (put (start - 1) p []) 0
            (put-FromChain chain node honest [] (start - 1) p (λ h b f. lookup-nil h f) first)
            (All-perm (MessageFromChain chain) (delivers messages) all),
        collect-Has (λ b. b.block_height) (start - 1) (arrive messages) (put (start - 1) p []) 0
            (p, lookup-put_self (start - 1) p []),
      )
