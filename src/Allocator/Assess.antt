-- ===== src/Allocator/Assess.antt =====
-- `assess_book_risk` and `decide_by_risk` of research/cadcad/allocator/allocator.py. The reasons are
-- tags with the numbers that the messages show.
use nvda_tranched_arc.Prelude.{
  Bool, true, false, not, ◌&&◌, ◌||◌, ◌≡◌, ◌↔◌, List, [], ◌∷◌, ◌++◌, arith,
}
use nvda_tranched_arc.Number.{Number, ◌<?◌, ◌≤?◌, num}
use nvda_tranched_arc.Allocator.{Mode, books, arms, Risk, normal, high}

pub data RiskReason (R : Type 0) : Type 0 where
  depeg_paused guard_absent : RiskReason R
  volatility volume fee : R → R → RiskReason R
  thin_active_liquidity book_b_volume book_b_share : RiskReason R

pub record RiskThresholds (R : Type 0) : Type 0 where
  pub max_volatility_bps : R
  pub min_volume_usd : R
  pub min_fee_apr_bps : R

pub record BookRisk (R : Type 0) : Type 0 where
  pub risk : Risk
  pub reasons : List (RiskReason R)
  pub fee_apr_bps : R
  pub volume_usd : R
  pub volatility_bps : R

pub data RiskAction : Type 0 where
  hold move_to_arms move_to_books : RiskAction

pub record RiskDecision : Type 0 where
  pub mode : Mode
  pub action : RiskAction

module _ {R : Type 0} ⦃n : Number R⦄ where
  abbrev pub default_risk_thresholds : RiskThresholds R
  default_risk_thresholds = record {
    max_volatility_bps = num 300;
    min_volume_usd = num 10_000;
    min_fee_apr_bps = num 0;
  }

  abbrev pub append_if : Bool → RiskReason R → List (RiskReason R) → List (RiskReason R)
  append_if true r rs = rs ++ (r ∷ [])
  append_if false r rs = rs

  abbrev pub risk_of : List (RiskReason R) → Risk
  risk_of [] = normal
  risk_of (r ∷ rs) = high

  unfoldable pub assess_book_risk :
      (fee_apr_bps volume_usd volatility_bps : R) (guard_present is_depeg_paused : Bool)
      → RiskThresholds R
      → BookRisk R
  assess_book_risk fee_apr_bps volume_usd volatility_bps guard_present is_depeg_paused t =
      let after_depeg = append_if is_depeg_paused depeg_paused [] in
      let after_guard = append_if (not guard_present) guard_absent after_depeg in
      let after_volatility =
        append_if (t.max_volatility_bps ≤? volatility_bps)
          (volatility volatility_bps t.max_volatility_bps) after_guard in
      let after_volume =
        append_if (volume_usd <? t.min_volume_usd) (volume volume_usd t.min_volume_usd)
          after_volatility in
      let reasons =
        append_if ((num 0 <? t.min_fee_apr_bps) && (fee_apr_bps <? t.min_fee_apr_bps))
          (fee fee_apr_bps t.min_fee_apr_bps) after_volume in
      record {
        risk = risk_of reasons;
        reasons = reasons;
        fee_apr_bps = fee_apr_bps;
        volume_usd = volume_usd;
        volatility_bps = volatility_bps;
      }

  -- A book is HIGH exactly when the peg is paused, the guard is absent, the volatility reaches
  -- its limit, the volume is below its floor, or a positive fee floor is missed.
  pub assess_book_risk-high_iff :
      (fee_apr_bps volume_usd volatility_bps : R) (guard_present is_depeg_paused : Bool)
      (t : RiskThresholds R)
      → let r =
          assess_book_risk fee_apr_bps volume_usd volatility_bps guard_present is_depeg_paused t in
        (r.risk ≡ high) ↔ (
          is_depeg_paused
            || not guard_present
            || (t.max_volatility_bps ≤? volatility_bps)
            || (volume_usd <? t.min_volume_usd)
            || ((num 0 <? t.min_fee_apr_bps) && (fee_apr_bps <? t.min_fee_apr_bps))
          ≡ true)
  unfolding assess_book_risk
  assess_book_risk-high_iff f v s g d t = ground arith

abbrev target_mode : Risk → Mode
target_mode high = arms
target_mode normal = books

unfoldable pub decide_by_risk : Risk → Mode → RiskDecision
decide_by_risk high arms = record { mode = arms; action = RiskAction.hold }
decide_by_risk high books = record { mode = arms; action = RiskAction.move_to_arms }
decide_by_risk normal books = record { mode = books; action = RiskAction.hold }
decide_by_risk normal arms = record { mode = books; action = RiskAction.move_to_books }
