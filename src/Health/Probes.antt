-- ===== src/Health/Probes.antt =====
-- What the filters of internal/helper/healthcheck/healthcheck.go return.
use mathlib.Core.List.{Permᴰ}
use mathlib.Core.List.Permᴰ
use mathlib.Core.Path.{subst}
use cvms.Base.{
  ◌≡◌, ◌≢◌, ◌⊎◌, refl, sym, ◌∙◌, inl, inr, String, Bool, Bool-cases, true, false, none, some,
  Option, List, [], ◌∷◌, if◌then◌else◌, ◌==◌, ◌&&◌, not, string_eq, nat_eq, map, length, length-map,
}
use cvms.Indexer.Fetch.Honest.{length-perm}
use cvms.NodeApi.Calls.{HttpAnswer, failed, answered}
use cvms.Health.{
  is_ok, health_check_for, known_chain_type, receive_healthy, filter_health_endpoints,
}

-- whether an answer has the status 200
abbrev has_status_200 : HttpAnswer → Bool
has_status_200 (failed e) = false
has_status_200 (answered code body) = code == 200

-- The endpoints that have a name and answer with status 200, in the order given.
abbrev pub healthy : (String → HttpAnswer) → List String → List String
healthy answer [] = []
healthy answer (url ∷ l) =
    let rest = healthy answer l in
    if has_status_200 (answer url) && not (url == "") then url ∷ rest else rest

abbrev named : List String → List String
named [] = []
named (s ∷ l) = let rest = named l in if s == "" then rest else s ∷ rest

receive_healthy-named : (l : List String) → receive_healthy (length l) l ≡ some (named l)
unfolding receive_healthy
receive_healthy-named [] = refl
receive_healthy-named (s ∷ l) = elim (Bool-cases (s == "")) [
  | inl blank ↦ rw blank (receive_healthy-named l)
  | inr given ↦ rw (given, receive_healthy-named l)
]

named-cons :
    (s : String) (l l' : List String)
    → Permᴰ (named l) (named l')
    → Permᴰ (named (s ∷ l)) (named (s ∷ l'))
named-cons s l l' d = go (s == "")
  where
    go :
        (b : Bool)
        → Permᴰ (if b then named l else s ∷ named l) (if b then named l' else s ∷ named l')
    go true = d
    go false = Permᴰ.cons refl d

named-swap : (s t : String) (l : List String) → Permᴰ (named (s ∷ t ∷ l)) (named (t ∷ s ∷ l))
named-swap s t l = go (s == "") (t == "")
  where
    go :
        (b c : Bool)
        → Permᴰ
            (if b
              then (if c then named l else t ∷ named l)
              else s ∷ (if c then named l else t ∷ named l))
            (if c
              then (if b then named l else s ∷ named l)
              else t ∷ (if b then named l else s ∷ named l))
    go true true = Permᴰ.refl _
    go true false = Permᴰ.refl _
    go false true = Permᴰ.refl _
    go false false = Permᴰ.swap refl refl

named-perm : {l l' : List String} → Permᴰ l l' → Permᴰ (named l) (named l')
named-perm Permᴰ.nil = Permᴰ.nil
named-perm (Permᴰ.cons {a} {b} {l₁ = l₁} {l₂ = l₂} e d) =
    subst (λ b'. Permᴰ (named (a ∷ l₁)) (named (b' ∷ l₂))) e (named-cons a l₁ l₂ (named-perm d))
named-perm (Permᴰ.swap {a} {b} {a' = c} {b' = d} {l = l} e e') =
    subst (λ b'. Permᴰ (named (a ∷ b ∷ l)) (named (b' ∷ d ∷ l))) e'
      (subst (λ a'. Permᴰ (named (a ∷ b ∷ l)) (named (b ∷ a' ∷ l))) e (named-swap a b l))
named-perm (Permᴰ.trans d d') = Permᴰ.trans (named-perm d) (named-perm d')

health_check_for-is_ok :
    (answer : String → HttpAnswer) (url : String)
    → health_check_for answer url ≡ (if has_status_200 (answer url) then url else "")
unfolding health_check_for
health_check_for-is_ok answer url = rw (same (answer url)) refl
  where
    same : (a : HttpAnswer) → is_ok a ≡ has_status_200 a
    same (failed e) = refl
    same (answered code body) = refl

-- What the test of the chain's type says.
known_chain_type_named :
    (s : String) → known_chain_type s ≡ true → (s ≡ "cosmos") ⊎ (s ≡ "ethereum")
known_chain_type_named s e = elim (Bool-cases (s == "cosmos")) [
  | inl cosmos ↦ inl ((string_eq.test_iff s "cosmos").0 cosmos)
  | inr other ↦ inr ((string_eq.test_iff s "ethereum").0 (rw other at e))
]

other_chain_type : (s t : String) → known_chain_type s ≡ false → known_chain_type t ≡ true → s ≢ t
other_chain_type s t e f same = let g : known_chain_type s ≡ true = rw same f in cc

named-healthy :
    (answer : String → HttpAnswer) (l : List String)
    → named (map (health_check_for answer) l) ≡ healthy answer l
named-healthy answer [] = refl
named-healthy answer (url ∷ l) =
    rw (health_check_for-is_ok answer url)
      (go (has_status_200 (answer url)) (Bool-cases (url == "")) (named-healthy answer l))
  where
    go :
        (b : Bool)
        → ((url == "") ≡ true) ⊎ ((url == "") ≡ false)
        → named (map (health_check_for answer) l) ≡ healthy answer l
        → named ((if b then url else "") ∷ map (health_check_for answer) l)
          ≡ (if b && not (url == "") then url ∷ healthy answer l else healthy answer l)
    go true (inl e) h = rw (e, h)
    go true (inr e) h = rw (e, h)
    go false c h = h

-- `none` is a call that does not return.
pub data Filtered (answer : String → HttpAnswer) (chain_type : String) (endpoints : List String)
    : Option (List String) → Type 0 where
  found :
      (chain_type ≡ "cosmos") ⊎ (chain_type ≡ "ethereum")
      → (urls : List String) → Permᴰ urls (healthy answer endpoints)
      → Filtered answer chain_type endpoints (some urls)
  nothing_asked : endpoints ≡ [] → Filtered answer chain_type endpoints (some [])
  blocks :
      chain_type ≢ "cosmos"
      → chain_type ≢ "ethereum"
      → endpoints ≢ []
      → Filtered answer chain_type endpoints none

-- Let the channel deliver each message once. For a chain of type cosmos or ethereum the filter
-- returns, in some order, the endpoints that answer with status 200, but for an empty name. For any
-- other type it never returns, if there is an endpoint at all, and else returns none.
pub filter_health_endpoints-Filtered :
    (arrive : List String → List String) (answer : String → HttpAnswer) (endpoints : List String)
    (chain_type : String)
    → ((l : List String) → Permᴰ (arrive l) l)
    → Filtered answer chain_type endpoints
        (filter_health_endpoints arrive answer endpoints chain_type)
unfolding filter_health_endpoints receive_healthy
filter_health_endpoints-Filtered arrive answer endpoints chain_type delivers =
    go (known_chain_type chain_type) refl endpoints
  where
    go :
        (b : Bool)
        → known_chain_type chain_type ≡ b
        → (l : List String)
        → Filtered answer chain_type l (
            receive_healthy (length l) (if b then arrive (map (health_check_for answer) l) else []))
    go true e l =
        let probed = map (health_check_for answer) l in
        let many : length (arrive probed) ≡ length l =
          length-perm (delivers probed) ∙ length-map l (health_check_for answer) in
        rw (sym many, receive_healthy-named (arrive probed))
          (found (known_chain_type_named chain_type e) (named (arrive probed)) (
            subst (λ k. Permᴰ (named (arrive probed)) k) (named-healthy answer l)
              (named-perm (delivers probed))))
    go false e [] = nothing_asked refl
    go false e (url ∷ l) =
        blocks (other_chain_type chain_type "cosmos" e refl)
          (other_chain_type chain_type "ethereum" e refl) (λ same. cc)
