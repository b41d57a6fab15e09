-- ===== src/Risk/Registration/Tests.antt =====
-- Tests of the registration of accounts (crates/hft-risk/src/lib.rs), in an engine for two accounts.
use hft_engine_rs.Prelude.{◌≡◌, refl, none, some, err, [], ◌∷◌}
use hft_engine_rs.Prelude.Int.{pos}
use hft_engine_rs.Risk.Account.{RiskLimits}
use hft_engine_rs.Risk.ProbeIndex
use hft_engine_rs.Risk.Engine
use hft_engine_rs.Risk.Engine.{RiskEngine, RegistrationError, account_slot}
use hft_engine_rs.Risk.Registration.{fresh_account, register_account, index_account}

abbrev limits : RiskLimits
limits = record {
  max_quantity = 100;
  max_notional = 10000;
  max_abs_position = 500;
  max_open_orders = 4;
  minimum_price = pos 1;
  maximum_price = pos 1000;
}

abbrev engine : RiskEngine
engine = Engine.new 2 2

opened : Unit {0}
unfolding Engine.new register_account index_account ProbeIndex.new ProbeIndex.lookup
    ProbeIndex.insert
opened = tt

-- The first registration of 7 takes the first place, the second is refused.
register_runs :
    (register_account 7 limits engine).1.accounts ≡ some (fresh_account 7 limits) ∷ none ∷ []
unfolding opened
register_runs = refl

twice_runs :
    (register_account 7 limits (register_account 7 limits engine).1).0
    ≡ err RegistrationError.duplicate_account
unfolding opened
twice_runs = refl
