-- ===== src/Covenant/Channels.antt =====
-- The select loop of covenant-committee/indexer/batch_sync.go, which drains two channels, and what
-- the channels can deliver to it: each its messages in turn and then its end, in any interleaving.
use cvms.Base.{
  ◌≡◌, refl, ◌∙◌, Bool, true, false, ◌&&◌, Option, none, some, List, [], ◌∷◌, ◌++◌, append-nil,
  append_assoc, if◌then◌else◌,
}

-- What the select receives: a batch of rows, or the end of a channel.
pub data Delivery (A B : Type 0) : Type 0 where
  from_first : List A → Delivery A B
  first_closed : Delivery A B
  from_second : List B → Delivery A B
  second_closed : Delivery A B

-- btcDelegationsList, covenantSignatureList, closedCh1 and closedCh2
pub record Received (A B : Type 0) : Type 0 where
  pub closed_first : Bool
  pub closed_second : Bool
  pub first_list : List A
  pub second_list : List B

module _ {A B : Type 0} where
  abbrev pub no_deliveries : Received A B
  no_deliveries = record {
    closed_first = false;
    closed_second = false;
    first_list = [];
    second_list = [];
  }

  -- the cases of the select
  abbrev pub receive : Delivery A B → Received A B → Received A B
  receive (from_first rows) r = record r { first_list = r.first_list ++ rows }
  receive first_closed r = record r { closed_first = true }
  receive (from_second rows) r = record r { second_list = r.second_list ++ rows }
  receive second_closed r = record r { closed_second = true }

  -- The loop, on the deliveries to come. `none` is a loop that still waits when they are over.
  unfoldable pub drain : List (Delivery A B) → Received A B → Option (Received A B)
  drain [] r = none
  drain (d ∷ deliveries) r =
      let rest = drain deliveries (receive d r) in
      if (receive d r).closed_first && (receive d r).closed_second then some (receive d r) else rest

  -- `Arrives xs c ys d l`: `l` can come from a first channel with the messages `xs` left and a
  -- second with `ys`, each closed already (`true`) or not.
  pub data Arrives
      : List (List A) → Bool → List (List B) → Bool → List (Delivery A B) → Type 0 where
    over : Arrives [] true [] true []
    first_sends :
        {x : List A} {xs : List (List A)} {ys : List (List B)} {d : Bool} {l : List (Delivery A B)}
        → Arrives xs false ys d l
        → Arrives (x ∷ xs) false ys d (from_first x ∷ l)
    first_ends :
        {ys : List (List B)} {d : Bool} {l : List (Delivery A B)}
        → Arrives [] true ys d l
        → Arrives [] false ys d (first_closed ∷ l)
    second_sends :
        {y : List B} {xs : List (List A)} {ys : List (List B)} {c : Bool} {l : List (Delivery A B)}
        → Arrives xs c ys false l
        → Arrives xs c (y ∷ ys) false (from_second y ∷ l)
    second_ends :
        {xs : List (List A)} {c : Bool} {l : List (Delivery A B)}
        → Arrives xs c [] true l
        → Arrives xs c [] false (second_closed ∷ l)

abbrev pub concat : {A : Type 0} → List (List A) → List A
concat [] = []
concat (x ∷ xs) = x ++ concat xs

module _ {A B : Type 0} where
  -- the rest of two channels, one of which is open
  abbrev collect_rest : List (List A) → List (List B) → Received A B → Received A B
  collect_rest xs ys r = record {
    closed_first = true;
    closed_second = true;
    first_list = r.first_list ++ concat xs;
    second_list = r.second_list ++ concat ys;
  }

  closed_first-nil :
      {xs : List (List A)} {ys : List (List B)} {c d : Bool} {l : List (Delivery A B)}
      → Arrives xs c ys d l
      → c ≡ true
      → xs ≡ []
  closed_first-nil over e = refl
  closed_first-nil (first_sends a) e = cc
  closed_first-nil (first_ends a) e = refl
  closed_first-nil (second_sends a) e = closed_first-nil a e
  closed_first-nil (second_ends a) e = closed_first-nil a e

  closed_second-nil :
      {xs : List (List A)} {ys : List (List B)} {c d : Bool} {l : List (Delivery A B)}
      → Arrives xs c ys d l
      → d ≡ true
      → ys ≡ []
  closed_second-nil over e = refl
  closed_second-nil (first_sends a) e = closed_second-nil a e
  closed_second-nil (first_ends a) e = closed_second-nil a e
  closed_second-nil (second_sends a) e = cc
  closed_second-nil (second_ends a) e = refl

  drain-Arrives :
      {xs : List (List A)} {ys : List (List B)} {c d : Bool} {l : List (Delivery A B)}
      → Arrives xs c ys d l
      → (f : List A) (g : List B) → (c && d) ≡ false
      → drain l (record { closed_first = c; closed_second = d; first_list = f; second_list = g })
        ≡ some (record {
          closed_first = true;
          closed_second = true;
          first_list = f ++ concat xs;
          second_list = g ++ concat ys;
        })
  unfolding drain
  drain-Arrives over f g e = cc
  drain-Arrives (first_sends {x = x} {xs = xs} {d = d} a) f g e =
      drain-Arrives a (f ++ x) g e ∙ simp append_assoc
  drain-Arrives (first_ends {d = true} a) f g e =
      rw (closed_second-nil a refl, append-nil f, append-nil g)
  drain-Arrives (first_ends {d = false} a) f g e = drain-Arrives a f g refl
  drain-Arrives (second_sends {y = y} {ys = ys} {c = true} a) f g e =
      drain-Arrives a f (g ++ y) e ∙ simp append_assoc
  drain-Arrives (second_sends {y = y} {ys = ys} {c = false} a) f g e =
      drain-Arrives a f (g ++ y) e ∙ simp append_assoc
  drain-Arrives (second_ends {c = true} a) f g e =
      rw (closed_first-nil a refl, append-nil f, append-nil g)
  drain-Arrives (second_ends {c = false} a) f g e = drain-Arrives a f g refl

  -- However the messages of the two channels interleave, once both have sent theirs and are closed
  -- the loop has ended, with all messages of each channel in the order in which it sent them.
  pub drain_interleaving :
      (xs : List (List A)) (ys : List (List B)) (l : List (Delivery A B))
      → Arrives xs false ys false l
      → drain l no_deliveries
        ≡ some (record {
          closed_first = true;
          closed_second = true;
          first_list = concat xs;
          second_list = concat ys;
        })
  drain_interleaving xs ys l a = drain-Arrives a [] [] refl
