-- ===== src/Indexer/Loop/Advances.antt =====
-- A turn whose batch returns moves the index point there, if its endpoints are healthy.
use cvms.Base.{
  ℕ, ◌+◌, ◌≡◌, ◌⊎◌, inl, inr, refl, false, List, [], ◌∷◌, if◌then◌else◌, ◌||◌, ok, Bool, true,
}
use cvms.Indexer.Loop.{Client, LoopState, Round, take_api, take_rpc, is_empty, health_check, turn}

-- No health check is due, or it finds endpoints of both kinds.
abbrev pub Healthy : {State : Type 0} → Round State → LoopState State → Type 0
Healthy r s =
    (s.is_unhealth ≡ false) ⊎ ((is_empty r.health_apis ≡ false) × (is_empty r.health_rpcs ≡ false))

module _ {State : Type 0} where
  take_both :
      (apis rpcs : List _) (s : LoopState State)
      → ((take_rpc rpcs (take_api apis s)).index_point ≡ s.index_point)
        × ((take_rpc rpcs (take_api apis s)).world ≡ s.world)
  take_both [] [] s = (refl, refl)
  take_both [] (_ ∷ _) s = (refl, refl)
  take_both (_ ∷ _) [] s = (refl, refl)
  take_both (_ ∷ _) (_ ∷ _) s = (refl, refl)

  health_check-Healthy :
      (r : Round State) (s : LoopState State)
      → Healthy r s
      → ((health_check r s).1 ≡ false)
        × ((health_check r s).0.index_point ≡ s.index_point)
        × ((health_check r s).0.world ≡ s.world)
  unfolding health_check
  health_check-Healthy r s (inl e) = rw e (refl, refl, refl)
  health_check-Healthy r s (inr (a, b)) = by_case s.is_unhealth
    where
      s' : LoopState State
      s' = take_rpc r.health_rpcs (take_api r.health_apis s)

      by_case :
          (u : Bool)
          → (let z : LoopState State × Bool =
                (if u
                  then (if is_empty r.health_apis || is_empty r.health_rpcs
                      then (record s' { is_unhealth = true }, true)
                      else (s', false))
                  else (s, false)) in
              (z.1 ≡ false) × (z.0.index_point ≡ s.index_point) × (z.0.world ≡ s.world))
      by_case true =
          rw (a, b)
            (
              refl,
              (take_both r.health_apis r.health_rpcs s).0,
              (take_both r.health_apis r.health_rpcs s).1,
            )
      by_case false = (refl, refl, refl)

  pub turn_ok :
      (r : Round State) (s : LoopState State) (p : ℕ)
      → Healthy r s
      → ((client : Client) → (r.sync client s.index_point (s.index_point + 1) s.world).0 ≡ ok p)
      → ((turn r s).0 ≡ ok tt) × ((turn r s).1.index_point ≡ p)
  unfolding turn
  turn_ok r s p healthy synced =
      let (go, same, same') = health_check-Healthy r s healthy in
      rw (go, same, same', synced (health_check r s).0.client) (refl, refl)
