-- ===== src/Uptime/Statuses/Collected.antt =====
-- The loop over the channel in uptime/api/uptime.go: what it returns does not depend on the order of
-- the messages but for the order of the result, and one failure is enough to fail it.
use mathlib.Core.List.{Permᴰ}
use mathlib.Core.List.Permᴰ
use mathlib.Core.Path.{subst}
use cvms.Base.{
  ℕ, suc, ◌+◌, ◌<◌, ◌≡◌, ◌≢◌, refl, ◌∙◌, inl, inr, List, [], ◌∷◌, ◌++◌, append-nil, append_assoc,
  arith, Result, ok, err, panic, ltb, if◌then◌else◌, concat_map, Each, Error, All,
}
use cvms.Indexer.Fetch.{FetchResult, success, failure, sent, Schedule}
use cvms.Indexer.Fetch.Honest.{Delivers, All-perm}
use cvms.Indexer.Fetch.Answers.{In, In-perm}
use cvms.Uptime.Statuses.{collect_items, all_or_error, failed_http_request}

module _ {Item : Type 0} where
  -- the items and the number of failures among the messages
  abbrev items : List (FetchResult Item) → List Item
  items [] = []
  items (success i ∷ l) = i ∷ items l
  items (failure ∷ l) = items l

  abbrev failures : List (FetchResult Item) → ℕ
  failures [] = 0
  failures (success i ∷ l) = failures l
  failures (failure ∷ l) = suc (failures l)

  collect_items-split :
      (l : List (FetchResult Item)) (found : List Item) (n : ℕ)
      → collect_items l (found, n) ≡ (found ++ items l, n + failures l)
  unfolding collect_items
  collect_items-split [] found n = let e : n + 0 ≡ n = omega arith in rw (append-nil found, e)
  collect_items-split (success i ∷ l) found n =
      collect_items-split l (found ++ (i ∷ [])) n ∙ rw (append_assoc found (i ∷ []) (items l))
  collect_items-split (failure ∷ l) found n =
      let e : n + 1 + failures l ≡ n + suc (failures l) = omega arith in
      collect_items-split l found (n + 1) ∙ rw e

  all_or_error-split :
      (l : List (FetchResult Item))
      → all_or_error l ≡ (if ltb 0 (failures l) then err failed_http_request else ok (items l))
  unfolding all_or_error
  all_or_error-split l =
      let e : 0 + failures l ≡ failures l = omega arith in rw (collect_items-split l [] 0, e)

  items-cons :
      (m : FetchResult Item) (l l' : List (FetchResult Item))
      → Permᴰ (items l) (items l')
      → Permᴰ (items (m ∷ l)) (items (m ∷ l'))
  items-cons (success i) l l' d = Permᴰ.cons refl d
  items-cons failure l l' d = d

  items-swap :
      (m k : FetchResult Item) (l : List (FetchResult Item))
      → Permᴰ (items (m ∷ k ∷ l)) (items (k ∷ m ∷ l))
  items-swap (success i) (success j) l = Permᴰ.swap refl refl
  items-swap (success i) failure l = Permᴰ.refl _
  items-swap failure (success j) l = Permᴰ.refl _
  items-swap failure failure l = Permᴰ.refl _

  items-perm : {l l' : List (FetchResult Item)} → Permᴰ l l' → Permᴰ (items l) (items l')
  items-perm Permᴰ.nil = Permᴰ.nil
  items-perm (Permᴰ.cons {a} {b} {l₁ = l₁} {l₂ = l₂} e d) =
      subst (λ b'. Permᴰ (items (a ∷ l₁)) (items (b' ∷ l₂))) e (items-cons a l₁ l₂ (items-perm d))
  items-perm (Permᴰ.swap {a} {b} {a' = c} {b' = d} {l = l} e e') =
      subst (λ b'. Permᴰ (items (a ∷ b ∷ l)) (items (b' ∷ d ∷ l))) e'
        (subst (λ a'. Permᴰ (items (a ∷ b ∷ l)) (items (b ∷ a' ∷ l))) e (items-swap a b l))
  items-perm (Permᴰ.trans d d') = Permᴰ.trans (items-perm d) (items-perm d')

  -- no message is a failure
  abbrev Sound : FetchResult Item → Type 0
  Sound (success i) = Unit
  Sound failure = ⊥

  failures-Sound : (l : List (FetchResult Item)) → failures l ≡ 0 → All Sound l
  failures-Sound [] e = tt
  failures-Sound (success i ∷ l) e = (tt, failures-Sound l e)
  failures-Sound (failure ∷ l) e = absurd (omega (arith, e))

  In-failures : (l : List (FetchResult Item)) → In failure l → 0 < failures l
  In-failures [] i = absurd i
  In-failures (success i ∷ l) (inl p) = cc
  In-failures (success i ∷ l) (inr i') = In-failures l i'
  In-failures (failure ∷ l) i = omega arith

  all_or_error-eq-ok :
      (l : List (FetchResult Item)) (found : List Item)
      → all_or_error l ≡ ok found
      → (failures l ≡ 0) × (items l ≡ found)
  all_or_error-eq-ok l found e = ground (arith, all_or_error-split l)

  all_or_error-failure :
      (l : List (FetchResult Item)) → In failure l → all_or_error l ≡ err failed_http_request
  all_or_error-failure l i = ground (arith, all_or_error-split l, In-failures l i)

module _ {V S : Type 0} (f : V → Result S) where
  abbrev messages : List V → List (FetchResult S)
  messages = concat_map (λ v. sent (f v))

  messages-Sound :
      (vs : List V)
      → ((v : V) → f v ≢ panic)
      → All Sound (messages vs)
      → Each (λ v s. f v ≡ ok s) vs (items (messages vs))
  messages-Sound [] returns h = tt
  messages-Sound (v ∷ vs) returns h = go (f v) refl (messages-Sound vs returns) h
    where
      go :
          (r : Result S)
          → f v ≡ r
          → (All Sound (messages vs) → Each (λ v s. f v ≡ ok s) vs (items (messages vs)))
          → All Sound (sent r ++ messages vs)
          → Each (λ v s. f v ≡ ok s) (v ∷ vs) (items (sent r ++ messages vs))
      go (ok s) e rest (_, h') = (e, rest h')
      go (err x) e rest (h', _) = absurd h'
      go panic e rest h' = absurd (returns v e)

  In-messages : (v : V) (vs : List V) (e : Error) → In v vs → f v ≡ err e → In failure (messages vs)
  In-messages v [] e i h = absurd i
  In-messages v (u ∷ vs) e (inl same) h = let here : f u ≡ err e = cc in rw here (inl refl)
  In-messages v (u ∷ vs) e (inr i) h = go (f u) (In-messages v vs e i h)
    where
      go : (r : Result S) → In failure (messages vs) → In failure (sent r ++ messages vs)
      go (ok s) j = inr j
      go (err x) j = inr j
      go panic j = j

  -- If it returns a list, each call has succeeded, and the list is of their results.
  pub all_or_error-Each :
      (arrive : Schedule S) (vs : List V) (found : List S)
      → Delivers arrive
      → ((v : V) → f v ≢ panic)
      → all_or_error (arrive (messages vs)) ≡ ok found
      → (ss : List S) × Permᴰ found ss × Each (λ v s. f v ≡ ok s) vs ss
  all_or_error-Each arrive vs found delivers returns e =
      let (none_failed, all_found) = all_or_error-eq-ok (arrive (messages vs)) found e in
      let sound =
        All-perm Sound (Permᴰ.symm (delivers (messages vs)))
          (failures-Sound (arrive (messages vs)) none_failed) in
      (
        items (messages vs),
        subst (λ l. Permᴰ l (items (messages vs))) all_found (items-perm (delivers (messages vs))),
        messages-Sound vs returns sound,
      )

  pub all_or_error-one_failure :
      (arrive : Schedule S) (vs : List V) (v : V) (e : Error)
      → Delivers arrive
      → In v vs
      → f v ≡ err e
      → all_or_error (arrive (messages vs)) ≡ err failed_http_request
  all_or_error-one_failure arrive vs v e delivers i h =
      all_or_error-failure _ (In-perm failure (delivers (messages vs)) (In-messages v vs e i h))
