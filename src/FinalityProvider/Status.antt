-- ===== src/FinalityProvider/Status.antt =====
-- Whom a height's votes count as voted or missed.
use cvms.Base.{
  ℕ, ◌≡◌, refl, ◌∙◌, ap, String, Bool, false, ◌||◌, none, some, List, [], ◌∷◌, arith, if◌then◌else◌,
  ◌==◌, string_eq, put, lookup, lookup-put,
}
use cvms.FinalityProvider.Votes.{FpVoteMap, mark, vote_map}

abbrev pub contains : String → List String → Bool
contains pk [] = false
contains pk (x ∷ pks) = (x == pk) || contains pk pks

lookup-mark :
    (pk : String) (status : ℕ) (pks : List String) (votes : FpVoteMap)
    → lookup pk (mark status pks votes) ≡ (if contains pk pks then some status else lookup pk votes)
unfolding mark
lookup-mark pk status [] votes = refl
lookup-mark pk status (x ∷ pks) votes =
    ground (arith, lookup-mark pk status pks (put x status votes), lookup-put x pk status votes)

lookup_empty : (pk : String) → lookup {V = ℕ} pk [] ≡ none
unfolding lookup
lookup_empty pk = refl

-- In the vote map of a height a key counts as voted (1) if it is among the votes, else as missed
-- (0) if it is an active provider's, and no other key is in the map.
pub lookup-vote_map :
    (fps btc_pks : List String) (pk : String)
    → lookup pk (vote_map fps btc_pks)
      ≡ (if contains pk btc_pks then some 1 else (if contains pk fps then some 0 else none))
unfolding vote_map
lookup-vote_map fps btc_pks pk =
    lookup-mark pk 1 btc_pks (mark 0 fps [])
    ∙ ap (λ o. if contains pk btc_pks then some 1 else o)
        (lookup-mark pk 0 fps []
          ∙ ap (λ o. if contains pk fps then some 0 else o) (lookup_empty pk))
