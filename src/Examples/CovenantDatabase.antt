-- ===== src/Examples/CovenantDatabase.antt =====
-- Tables of the covenant-committee indexer in memory, which meet the laws of Covenant/Insert.antt;
-- their inserts of signatures fail on demand.
use mathlib.Core.Option
use cvms.Base.{
  ℕ, ◌≡◌, ◌≢◌, refl, String, Bool, true, false, Option, List, ◌++◌, if◌then◌else◌, ◌==◌, ◌&&◌,
  nat_eq, string_eq, Result, ok, err, panic, message,
}
use cvms.Covenant.Rows.{BabylonBtcDelegation, BabylonCovenantSignature}
use cvms.Covenant.Insert.{CovenantTables, CovenantLaws, SameInTx}

pub record CovenantDb : Type 0 where
  pub stored_delegations : List BabylonBtcDelegation
  pub stored_signatures : List BabylonCovenantSignature
  pub pointers : ℕ → String → Option ℕ

abbrev pub roll_back : CovenantDb → CovenantDb → CovenantDb
roll_back after s = record after { stored_signatures = s.stored_signatures; pointers = s.pointers }

abbrev pub settle : Result (Unit {0}) × CovenantDb → CovenantDb → Result (Unit {0}) × CovenantDb
settle (ok _, after) s = (ok tt, after)
settle (err e, after) s = (err e, roll_back after s)
settle (panic, after) s = (panic, roll_back after s)

abbrev pub insert_or_fail :
    Bool → List BabylonCovenantSignature → CovenantDb → Result (Unit {0}) × CovenantDb
insert_or_fail true l s = (err (message "connection lost"), s)
insert_or_fail false l s = (ok tt, record s { stored_signatures = s.stored_signatures ++ l })

abbrev pub covenant_tables : Bool → CovenantTables CovenantDb
covenant_tables fails = record {
  delegations = λ s. s.stored_delegations;
  signatures = λ s. s.stored_signatures;
  pointer = λ s c n. s.pointers c n;
  insert_delegations = λ l s. (ok tt, record s { stored_delegations = s.stored_delegations ++ l });
  insert_signatures = λ l s. insert_or_fail fails l s;
  update_pointer = λ c n h s. (
    ok tt,
    record s {
      pointers = λ c' n'.
          if (c == c') && (n == n')
          then Option.map (λ _. h) (s.pointers c' n')
          else s.pointers c' n';
    },
  );
  run_in_tx = λ body s. settle (body s) s;
}

module _ (fails : Bool) where
  same_in_tx : (s : CovenantDb) → SameInTx (covenant_tables fails) s s
  same_in_tx s = record { same_signatures = refl; same_pointer = λ c n. refl }

  settle_commits :
      (x : Result (Unit {0}) × CovenantDb) (s : CovenantDb)
      → (settle x s).0 ≡ ok tt
      → (x.0 ≡ ok tt) × SameInTx (covenant_tables fails) x.1 (settle x s).1
  settle_commits (ok _, after) s e = (refl, same_in_tx after)
  settle_commits (err _, after) s e = cc
  settle_commits (panic, after) s e = cc

  settle_rolls_back :
      (x : Result (Unit {0}) × CovenantDb) (s : CovenantDb)
      → (settle x s).0 ≢ ok tt
      → SameInTx (covenant_tables fails) s (settle x s).1
  settle_rolls_back (ok _, after) s e = absurd (e refl)
  settle_rolls_back (err _, after) s e = record {
    same_signatures = refl;
    same_pointer = λ c n. refl;
  }
  settle_rolls_back (panic, after) s e = record {
    same_signatures = refl;
    same_pointer = λ c n. refl;
  }

  settle_fails :
      (x : Result (Unit {0}) × CovenantDb) (s : CovenantDb) → x.0 ≢ ok tt → (settle x s).0 ≢ ok tt
  settle_fails (ok _, after) s e = absurd (e refl)
  settle_fails (err _, after) s e = λ p. cc
  settle_fails (panic, after) s e = λ p. cc

  settle_apart :
      (x : Result (Unit {0}) × CovenantDb) (s : CovenantDb)
      → (settle x s).1.stored_delegations ≡ x.1.stored_delegations
  settle_apart (ok _, after) s = refl
  settle_apart (err _, after) s = refl
  settle_apart (panic, after) s = refl

insert_or_fail_inserts :
    (fails : Bool) (l : List BabylonCovenantSignature) (s : CovenantDb)
    → (insert_or_fail fails l s).0 ≡ ok tt
    → (insert_or_fail fails l s).1.stored_signatures ≡ s.stored_signatures ++ l
insert_or_fail_inserts true l s e = cc
insert_or_fail_inserts false l s e = refl

insert_or_fail_apart :
    (fails : Bool) (l : List BabylonCovenantSignature) (s : CovenantDb)
    → ((insert_or_fail fails l s).1.stored_delegations ≡ s.stored_delegations)
      × ((c : ℕ) (n : String) → (insert_or_fail fails l s).1.pointers c n ≡ s.pointers c n)
insert_or_fail_apart true l s = (refl, λ c n. refl)
insert_or_fail_apart false l s = (refl, λ c n. refl)

pub covenant_tables-CovenantLaws : (fails : Bool) → CovenantLaws (covenant_tables fails)
covenant_tables-CovenantLaws fails = record {
  delegations_inserted = λ l s e. refl;
  delegations_failed = λ l s e. absurd (e refl);
  delegations_apart = λ l s. record { same_signatures = refl; same_pointer = λ c n. refl };
  signatures_inserted = λ l s e. insert_or_fail_inserts fails l s e;
  signatures_apart = λ l s. insert_or_fail_apart fails l s;
  pointer_updated = λ c n h s c' n' e. refl;
  pointer_apart = λ c n h s. (refl, refl);
  tx_commits = λ body s e. settle_commits fails (body s) s e;
  tx_rolls_back = λ body s e. settle_rolls_back fails (body s) s e;
  tx_fails = λ body s e. settle_fails fails (body s) s e;
  tx_apart = λ body s. settle_apart fails (body s) s;
}
